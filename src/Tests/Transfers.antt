-- ===== src/Tests/Transfers.antt =====
-- The classification of manifests on concrete entries.
use mathlib.Core.List.{Memᴰ}
use go_claude_teleport.Base.{
  none, All, Bytes, pos, true, false, some, List, [], ◌∷◌, codes, bytes_eq, if◌then◌else◌, ◌≡◌, ◌≢◌,
  ◌⊎◌, ◌↔◌, refl,
}
use go_claude_teleport.FilePath.{slash}
use go_claude_teleport.Transfer.Manifest.{Entry, session, ff_allowed}
use go_claude_teleport.Transfer.Manifest.Owner.{HasMarker, ff_allowed_iff}
use go_claude_teleport.Transfer.Diff.{
  Statuses, no_statuses, absent, no_status, present_same, staged_same, present_different, put, gone,
  there, Staged, Staging, put_staged, staged_state, regular, passes, Dest, own, classified, diff,
  blocking, need,
}
use go_claude_teleport.Transfer.Install.{
  Calls, Action, places, removes, call_failed, fresh, install, is_memory, install_entry,
}
use go_claude_teleport.Transfer.Install.Allowed.{IsAllowed, install-IsAllowed}
use go_claude_teleport.Transfer.Install.Refused.{install-refused}
use go_claude_teleport.Session.PathMap.{Mapping}
use go_claude_teleport.Transfer.Build.{FileEntry, Source, built, build}
use go_claude_teleport.Transfer.Build.Ids.{build-IsDistinct}
use go_claude_teleport.Transfer.Diff.Own.{IsDistinct}
use go_claude_teleport.Transfer.Diff.Need.{blocking_iff, blocking_nil-Settled}
use go_claude_teleport.Transfer.Diff.SameId.{diff-same_id}

ff_allowed_iff_example :
    (ff_allowed (codes "p/ab.jsonl") (codes "ab") ≡ true)
    ↔ ((codes "ab" ≢ []) × HasMarker (slash ∷ codes "ab") (slash ∷ codes "p/ab.jsonl"))
ff_allowed_iff_example = ff_allowed_iff (codes "p/ab.jsonl") (codes "ab")

abbrev transcript : Entry
transcript = record {
  id = pos 0;
  category = session;
  src = codes "/a/t";
  dst = codes "/b/t";
  size = 3;
  mode = 420;
  sha256 = codes "h1";
  symlink = [];
  rewrite = false;
  ff_allowed = true;
  deferred = false;
}

-- An entry whose destination holds another file.
abbrev clashing : Entry
clashing = record transcript { id = pos 1; dst = codes "/b/c"; ff_allowed = false }

abbrev manifest : List Entry
manifest = transcript ∷ clashing ∷ []

-- Nothing is staged, and one destination holds a file with another hash.
abbrev nothing_staged : Staged
nothing_staged = record {
  part = false;
  dir_mark = gone;
  link = gone;
  file = gone;
  part_removable = true;
  file_removable = true;
}

unfoldable dest : Dest
unfolding bytes_eq
dest = record {
  check = λ e. passes;
  look = λ p. if bytes_eq p (codes "/b/c") then there (regular (some (codes "h2"))) else gone;
  records = λ a b. some true;
  bytes = λ a b. some true;
  staged_path = λ i. [];
}

abbrev staging : Staging
staging i = nothing_staged

abbrev statuses : Statuses
statuses = put (pos 1) present_different (put (pos 0) absent no_statuses)

abbrev left_staging : Staging
left_staging = put_staged (pos 1) nothing_staged (put_staged (pos 0) nothing_staged staging)

blocking_iff_example : Memᴰ clashing (blocking manifest statuses false) ↔ (
    Memᴰ clashing manifest
    × (statuses (pos 1) ≡ present_different)
    × ((false ≡ false) ⊎ (clashing.ff_allowed ≡ false) ⊎ (clashing.category ≢ session)))
blocking_iff_example = blocking_iff clashing manifest statuses false

-- The manifest without the clash.
first-clear : blocking (transcript ∷ []) statuses false ≡ []
unfolding blocking put
first-clear = refl

first-known : statuses (pos 0) ≢ no_status
unfolding put
first-known = λ e. cc

blocking_nil-Settled_example :
    (statuses (pos 0) ≡ present_same)
    ⊎ (statuses (pos 0) ≡ staged_same)
    ⊎ Memᴰ (pos 0) (need (transcript ∷ []) statuses)
blocking_nil-Settled_example =
    blocking_nil-Settled (transcript ∷ []) statuses false transcript first-clear (Memᴰ.head refl)
      first-known

-- A second entry of the clashing one's id, with a destination of its own.
abbrev shadowing : Entry
shadowing = record transcript { id = pos 1 }

clashing-own :
    own dest clashing (staged_state clashing nothing_staged)
    ≡ some (present_different, nothing_staged)
unfolding own staged_state dest
clashing-own = refl

shadowing-own :
    own dest shadowing (staged_state shadowing nothing_staged) ≡ some (absent, nothing_staged)
unfolding own staged_state dest
shadowing-own = refl

always-passes : (e : Entry) → dest.check e ≡ passes
unfolding dest
always-passes e = refl

diff-same_id_example :
    (out : Statuses) × ((g' : Staging) × ((diff dest (clashing ∷ shadowing ∷ []) staging
          ≡ classified out g')
        × (blocking (clashing ∷ shadowing ∷ []) out false ≡ [])))
diff-same_id_example =
    diff-same_id dest clashing shadowing staging present_different absent nothing_staged
      nothing_staged false refl (always-passes clashing) (always-passes shadowing) clashing-own
      shadowing-own (λ e. cc)

-- An installation in which every call works.
abbrev working : Calls
working = record {
  World = List Bytes;
  check = λ e w. none;
  commit_claims = λ w. (none, w);
  cancelled = λ w. none;
  place = λ e b w. (none, e.dst ∷ w);
  drop_staged = λ e w. w;
  is_staged = λ e w. true;
  is_prefix = λ e w. some true;
  staged_hash = λ e w. some (codes "h1");
  remove_dst = λ e w. (none, w);
  merge_memory = λ e w. (some true, w);
  merge_rest = λ w. (none, w);
}

-- The first entry was staged, the second one differs.
abbrev staged_statuses : Statuses
staged_statuses = put (pos 1) present_different (put (pos 0) staged_same no_statuses)

abbrev diverged : Entry
diverged = record transcript { id = pos 1; dst = codes "/b/ab.jsonl" }

abbrev acts : List (Action × working.World) → List Action
acts [] = []
acts ((a, w) ∷ rest) = a ∷ acts rest

forced_install :
    acts
      (install working (codes "ab") true (transcript ∷ diverged ∷ []) [] staged_statuses []).1.trace
    ≡ places diverged true ∷ removes diverged ∷ places transcript false ∷ []
unfolding install put is_memory install_entry
forced_install = refl

install-IsAllowed_example :
    All
      (IsAllowed working (codes "ab") true staged_statuses)
      (install working (codes "ab") true (transcript ∷ diverged ∷ []) [] staged_statuses []).1.trace
install-IsAllowed_example =
    install-IsAllowed working (codes "ab") true staged_statuses (transcript ∷ diverged ∷ []) [] []

-- The same, but the validator refuses every entry.
abbrev strict : Calls
strict = record working { check = λ e w. some (codes "no") }

install-refused_example :
    (u : Bytes) × (install strict (codes "ab") true (transcript ∷ []) [] staged_statuses []
      ≡ (some (call_failed u), fresh strict []))
install-refused_example =
    install-refused strict (codes "ab") true (transcript ∷ []) [] staged_statuses [] transcript
      (codes "no") (Memᴰ.head refl) refl

-- A source of two files, of which one is a directory.
abbrev source : Source
source = record {
  hash = λ p r. some (codes "h1", 3);
  stat_mode = λ p. some 420;
  cancelled = λ i. false;
}

abbrev one_file : FileEntry
one_file = record {
  root = codes "/home/a";
  rel = codes "ab.jsonl";
  category = session;
  size = 3;
  mode = 420;
  has_no_time = false;
  symlink = [];
  rewrite = false;
}

abbrev one_dir : FileEntry
one_dir = record one_file { rel = codes "ab"; mode = 2147484141 }

abbrev homes : List Mapping
homes = record { from = codes "/home/a"; to = codes "/home/b" } ∷ []

abbrev built_entries : List Entry
built_entries =
    record {
      id = pos 0;
      category = session;
      src = codes "/home/a/ab.jsonl";
      dst = codes "/home/b/ab.jsonl";
      size = 3;
      mode = 420;
      sha256 = codes "h1";
      symlink = [];
      rewrite = false;
      ff_allowed = true;
      deferred = false;
    }
    ∷ record {
      id = pos 1;
      category = session;
      src = codes "/home/a/ab";
      dst = codes "/home/b/ab";
      size = 3;
      mode = 2147484141;
      sha256 = [];
      symlink = [];
      rewrite = false;
      ff_allowed = true;
      deferred = false;
    }
    ∷ []

two_built : build source (codes "ab") homes (one_file ∷ one_dir ∷ []) ≡ built built_entries
unfolding build
two_built = refl

build-IsDistinct_example : IsDistinct built_entries
build-IsDistinct_example =
    build-IsDistinct source (codes "ab") homes (one_file ∷ one_dir ∷ []) built_entries two_built
