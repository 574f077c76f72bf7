-- ===== src/Tests/Roots.antt =====
-- The validator on a concrete manifest.
use mathlib.Core.List.{Memᴰ}
use go_claude_teleport.Base.{
  Bytes, pos, true, false, none, some, List, [], ◌∷◌, codes, has_text, if◌then◌else◌, ◌≡◌, ◌⊎◌,
  refl,
}
use go_claude_teleport.FilePath.{clean}
use go_claude_teleport.Session.Paths.{Paths}
use go_claude_teleport.Transfer.Manifest.{Entry, repo}
use go_claude_teleport.Transfer.Diff.{gone, there}
use go_claude_teleport.Transfer.Roots.{
  Files, Root, ResolvedPaths, entry_root, resolve_existing, resolve_paths, check_dest_dir,
}
use go_claude_teleport.Transfer.Roots.Landing.{IsFit, check_dest_dir-IsFit}
use go_claude_teleport.Transfer.Validate.{
  mode_install, Validator, Memory, ready, new_validator, accepted,
}
use go_claude_teleport.Transfer.Validate.Check.{check_each, commit_claims}
use go_claude_teleport.Transfer.Validate.Placement.{recheck}
use go_claude_teleport.Transfer.Validate.Permitted.{IsNamed, IsPermitted, Lands}
use go_claude_teleport.Transfer.Validate.Sound.{IsClaim}
use go_claude_teleport.Transfer.Validate.Passed.{check_each-IsPermitted, commit_claims-IsClaim}
use go_claude_teleport.Transfer.Validate.Rechecked.{recheck-Lands}

-- A host where home and the directories of the configuration and the data exist.
abbrev pub files : Files
files = record {
  eval_symlinks =
      λ p. if has_text p (codes "/h" ∷ codes "/h/.c" ∷ codes "/h/.d" ∷ []) then there p else gone;
  lstat = λ p. gone;
}

abbrev pub paths : Paths
paths = record {
  home = codes "/h";
  config_dir = codes "/h/.c";
  config_dir_from_env = false;
  global_json = codes "/h/.c.json";
  data_dir = codes "/h/.d";
  proc_root = codes "/proc";
}

abbrev pub roots : List Root
roots = record { path = codes "/h/w"; may_pre_exist = false } ∷ []

-- A file of a fresh repository.
abbrev pub readme : Entry
readme = record {
  id = pos 0;
  category = repo;
  src = codes "/a/w/f";
  dst = codes "/h/w/f";
  size = 3;
  mode = 420;
  sha256 = codes "h1";
  symlink = [];
  rewrite = false;
  ff_allowed = false;
  deferred = false;
}

abbrev validator : Validator
validator = record {
  paths = paths;
  roots = roots;
  mode = mode_install;
  real = record { home = codes "/h"; config_dir = codes "/h/.c"; data_dir = codes "/h/.d" };
  capture_dst = some (codes "/h/.d/jobs/j/capture.txt");
  claimed_cwds = [];
}

abbrev unmarked : Memory
unmarked = record { recorded = []; pending = []; root_res = []; root_bad = [] }

abbrev marked : Memory
marked = record {
  recorded = [];
  pending = codes "/h/w" ∷ [];
  root_res = (codes "/h/w", codes "/h/w") ∷ [];
  root_bad = (codes "/h/w", none) ∷ [];
}

set_up :
    new_validator files (some []) (codes "j") roots (readme ∷ []) paths mode_install
    ≡ ready validator unmarked
unfolding new_validator has_text
set_up = refl

passed : check_each files validator (readme ∷ []) unmarked ≡ (accepted, marked)
unfolding check_each
passed = refl

check_each-IsPermitted_example : IsNamed validator readme × IsPermitted files validator [] readme
unfolding check_each
check_each-IsPermitted_example =
    check_each-IsPermitted files (some []) (codes "j") roots (readme ∷ []) paths mode_install
      validator unmarked (readme ∷ []) readme set_up refl (Memᴰ.head refl)

abbrev committed : Memory
committed = record marked { recorded = codes "/h/w" ∷ []; pending = [] }

commit_claims-IsClaim_example :
    Memᴰ (codes "/h/w") []
    ⊎ ((res : Bytes) × IsClaim files validator res × (codes "/h/w" ≡ clean res))
unfolding check_each commit_claims
commit_claims-IsClaim_example =
    commit_claims-IsClaim files (some []) (codes "j") roots (readme ∷ []) paths mode_install
      validator unmarked (readme ∷ []) (λ w. true) committed (codes "/h/w") set_up refl refl
      (Memᴰ.head refl)

recheck-Lands_example : Lands files (clean (codes "/h/w/f")) (codes "/h/w")
unfolding recheck entry_root has_text
recheck-Lands_example =
    recheck-Lands files validator marked readme
      (record { path = codes "/h/w"; may_pre_exist = false }) (codes "/h/w") refl refl refl refl
      refl refl

check_dest_dir-IsFit_example :
    (rp : ResolvedPaths) × (res : Bytes) × (resolve_paths files paths ≡ some rp)
    × (resolve_existing files (codes "/h/w") ≡ some res)
    × IsFit rp res
unfolding check_dest_dir has_text
check_dest_dir-IsFit_example = check_dest_dir-IsFit files paths (codes "/h/w") refl
