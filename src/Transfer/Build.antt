-- ===== src/Transfer/Build.antt =====
-- How a manifest is built on the source (internal/transfer/manifest.go, `Build`, with `Forbidden` of
-- internal/session/inventory.go). What hashing and `Stat` return is the parameter `Source`.
pub mod Ids
use go_claude_teleport.Base.{
  ℕ, ℤ, pos, suc, ◌+◌, Bool, true, false, ◌&&◌, ◌||◌, not, Option, none, some, List, [], ◌∷◌, ◌++◌,
  Bytes, codes, bytes_eq, has_text, has_prefix, has_suffix, length, ltb, ◌==◌, if◌then◌else◌,
}
use go_claude_teleport.FilePath.{slash, clean, join}
use go_claude_teleport.Session.PathMap.{PathMap, apply_path}
use go_claude_teleport.Transfer.Manifest.{Entry, Category, is_regular, ff_allowed}
use go_claude_teleport.Transfer.Diff.{is_session}

-- `FileEntry`; of the time of modification only whether it is zero is read.
pub record FileEntry : Type 0 where
  pub root : Bytes
  pub rel : Bytes
  pub category : Category
  pub size : ℕ
  pub mode : ℕ
  pub has_no_time : Bool
  pub symlink : Bytes
  pub rewrite : Bool

-- `Path`.
unfoldable pub path_of : FileEntry → Bytes
unfolding join
path_of f = join (f.root ∷ f.rel ∷ [])

-- `strings.TrimPrefix(s, "/")`.
abbrev trim_slash : Bytes → Bytes
trim_slash [] = []
trim_slash (c ∷ s) = if c == slash then s else c ∷ s

abbrev never_moved : List Bytes
never_moved =
    codes ".credentials.json"
    ∷ codes ".claude.json"
    ∷ codes "settings.json"
    ∷ codes "settings.local.json"
    ∷ codes "sessions"
    ∷ codes "plugins"
    ∷ []

-- `Forbidden`.
unfoldable pub forbidden : Bytes → Bool
unfolding clean has_text has_prefix has_suffix
forbidden rel =
    let r : Bytes = trim_slash (clean (slash ∷ rel)) in
    has_text r never_moved
    || (has_prefix r (codes "sessions/") || has_prefix r (codes "plugins/"))
    || has_suffix r (codes ".key")

-- What the source's files return: the hash and the size of what would be sent, the mode, and
-- whether the context is cancelled in the round of an index.
pub record Source : Type 0 where
  pub hash : Bytes → Bool → Option (Bytes × ℕ)
  pub stat_mode : Bytes → Option ℕ
  pub cancelled : ℕ → Bool

pub data BuildResult : Type 0 where
  built : List Entry → BuildResult
  has_forbidden : List Bytes → BuildResult
  build_fails : BuildResult

-- The list `bad`.
unfoldable pub bad_files : List FileEntry → List Bytes
unfolding forbidden
bad_files [] = []
bad_files (f ∷ fs) =
    if is_session f.category && forbidden f.rel then f.rel ∷ bad_files fs else bad_files fs

-- The entry of a file before it is hashed.
unfoldable pub new_entry : Bytes → PathMap → ℕ → FileEntry → Entry
unfolding path_of apply_path ff_allowed
new_entry sid pm i f = record {
  id = pos i;
  category = f.category;
  src = path_of f;
  dst = apply_path pm (path_of f);
  size = f.size;
  mode = f.mode;
  sha256 = [];
  symlink = f.symlink;
  rewrite = f.rewrite;
  ff_allowed = is_session f.category && ff_allowed f.rel sid;
  deferred = false;
}

abbrev pub with_mode : Entry → Option ℕ → Option Entry
with_mode e none = none
with_mode e (some m) = some (record e { mode = m })

abbrev pub with_hash : Source → FileEntry → Entry → Option (Bytes × ℕ) → Option Entry
with_hash src f e none = none
with_hash src f e (some (sum, n)) =
    let hashed : Entry = record e { sha256 = sum; size = n } in
    if f.mode == 0 || f.has_no_time then with_mode hashed (src.stat_mode e.src) else some hashed

-- One round of the loop.
unfoldable pub finish_entry : Source → FileEntry → Entry → Option Entry
unfolding is_regular
finish_entry src f e = if is_regular e then with_hash src f e (src.hash e.src f.rewrite) else some e

abbrev pub add_entry : Option Entry → BuildResult → BuildResult
add_entry none rest = build_fails
add_entry (some e) (built es) = built (e ∷ es)
add_entry (some e) other = other

-- The loop of `Build`.
unfoldable pub build_from : Source → Bytes → PathMap → ℕ → List FileEntry → BuildResult
unfolding new_entry finish_entry
build_from src sid pm i [] = built []
build_from src sid pm i (f ∷ fs) =
    let rest = build_from src sid pm (suc i) fs in
    if src.cancelled i
    then build_fails
    else add_entry (finish_entry src f (new_entry sid pm i f)) rest

abbrev pub build_clean : BuildResult → List Bytes → BuildResult
build_clean r [] = r
build_clean r (b ∷ bs) = has_forbidden (b ∷ bs)

-- `Build`: the entries of the manifest.
unfoldable pub build : Source → Bytes → PathMap → List FileEntry → BuildResult
unfolding bad_files build_from
build src sid pm files = build_clean (build_from src sid pm 0 files) (bad_files files)
