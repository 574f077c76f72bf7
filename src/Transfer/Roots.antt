-- ===== src/Transfer/Roots.antt =====
-- The directories that a repository's entries may be installed under (internal/transfer/roots.go,
-- with `resolvedPaths` of internal/transfer/validate.go): which root an entry belongs to, where a
-- path really lands, and which directories may be a root. What `EvalSymlinks` and `Lstat` return is
-- the parameter `Files`; of an error of theirs no text is kept.
pub mod Chosen
pub mod Landing
use mathlib.Core.List.{reverse}
use go_claude_teleport.Base.{
  ℕ, Bool, true, false, ◌&&◌, ◌||◌, not, Option, none, some, List, [], ◌∷◌, Bytes, bytes_eq,
  has_text, length, ltb, ◌==◌, if◌then◌else◌,
}
use go_claude_teleport.FilePath.{is_abs, clean, clean_stack, render, join}
use go_claude_teleport.FilePath.Rel.{rel, first_part}
use go_claude_teleport.Session.Paths.{Paths}
use go_claude_teleport.Transfer.Manifest.{Category, repo, worktree}
use go_claude_teleport.Transfer.Diff.{Seen, gone, unreadable, there}
use go_claude_teleport.Transfer.Under.{under_dir}

-- The destination's files: where a path leads, and whether a directory is at it.
pub record Files : Type 0 where
  pub eval_symlinks : Bytes → Seen Bytes
  pub lstat : Bytes → Seen Bool

pub record Root : Type 0 where
  pub path : Bytes
  pub may_pre_exist : Bool

-- The loop of `GitRoots`, over the paths seen.
unfoldable pub roots_from : Bool → List Bytes → List Bytes → List Root
unfolding bytes_eq has_text
roots_from may seen [] = []
roots_from may seen (r ∷ rs) =
    let skipped = roots_from may seen rs in
    let kept = roots_from may (r ∷ seen) rs in
    if bytes_eq r [] || has_text r seen
    then skipped
    else record { path = r; may_pre_exist = may } ∷ kept

-- `GitRoots`.
unfoldable pub git_roots : Bytes → Bytes → Bool → List Root
unfolding roots_from
git_roots dst_main dst_worktree may = roots_from may [] (dst_main ∷ dst_worktree ∷ [])

-- `gitRootCategory`.
abbrev pub is_git_root : Category → Bool
is_git_root repo = true
is_git_root worktree = true
is_git_root _ = false

-- The test of the loop of `entryRoot` that a root replaces the best one so far.
abbrev pub is_better : Root → Option Root → Bool
is_better r none = true
is_better r (some best) = ltb (length (clean best.path)) (length (clean r.path))

abbrev pub contains : Bytes → Root → Bool
contains dst r = not (bytes_eq r.path []) && under_dir dst (clean r.path)

-- The loop of `entryRoot`, over the best root so far.
unfoldable pub best_root : Bytes → Option Root → List Root → Option Root
unfolding bytes_eq under_dir clean
best_root dst best [] = best
best_root dst best (r ∷ rs) =
    best_root dst
      (if contains dst r && is_better r best
        then some (record { path = clean r.path; may_pre_exist = r.may_pre_exist })
        else best)
      rs

-- `entryRoot`.
unfoldable pub entry_root : Bytes → List Root → Option Root
unfolding best_root
entry_root dst roots = best_root dst none roots

-- Joining the components that do not exist yet, the outermost first.
unfoldable pub rejoin : Bytes → List Bytes → Bytes
unfolding join
rejoin res [] = res
rejoin res (part ∷ rest) = rejoin (join (res ∷ part ∷ [])) rest

-- The loop of `resolveExisting`: `Dir` of a clean path leaves out its last component, which `Base`
-- returns, and stops where no component is left.
unfoldable pub resolve_from : Files → Bytes → Bool → List Bytes → List Bytes → Option Bytes
unfolding render rejoin
resolve_from fs path rooted [] rest = elim (fs.eval_symlinks (render rooted [])) [
  | there res ↦ some (rejoin res rest)
  | unreadable ↦ none
  | gone ↦ some path
]
resolve_from fs path rooted (top ∷ below) rest =
    elim (fs.eval_symlinks (render rooted (reverse (top ∷ below)))) [
      | there res ↦ some (rejoin res rest)
      | unreadable ↦ none
      | gone ↦ resolve_from fs path rooted below (top ∷ rest)
    ]

-- `resolveExisting`, which `ResolveRealPath` is, too.
unfoldable pub resolve_existing : Files → Bytes → Option Bytes
unfolding resolve_from clean clean_stack is_abs
resolve_existing fs p = resolve_from fs (clean p) (is_abs p) (clean_stack p) []

-- The test of `firstComponentDotted` on the path below home.
abbrev pub is_dotted : Bytes → Bool
is_dotted [] = false
is_dotted (c ∷ s) = c == b'.'

-- `firstComponentDotted`.
unfoldable pub first_component_dotted : Bytes → Bytes → Option Bool
unfolding rel first_part
first_component_dotted home dir = elim (rel home dir) [
  | none ↦ none
  | some r ↦ some (is_dotted (first_part r))
]

-- Why a resolved directory may not be a root.
pub data Fault : Type 0 where
  not_under_home is_home in_config_dir in_data_dir first_dotted : Fault

pub record ResolvedPaths : Type 0 where
  pub home : Bytes
  pub config_dir : Bytes
  pub data_dir : Bytes

abbrev pub paths_found : Option Bytes → Option Bytes → Option Bytes → Option ResolvedPaths
paths_found (some h) (some c) (some d) = some (record { home = h; config_dir = c; data_dir = d })
paths_found _ _ _ = none

-- `resolvePaths`.
unfoldable pub resolve_paths : Files → Paths → Option ResolvedPaths
unfolding resolve_existing
resolve_paths fs p =
    paths_found (resolve_existing fs p.home) (resolve_existing fs p.config_dir)
      (resolve_existing fs p.data_dir)

abbrev pub dotted_fault : Option Bool → Option (Option Fault)
dotted_fault none = none
dotted_fault (some true) = some (some first_dotted)
dotted_fault (some false) = some none

-- `resolvedPaths.rootReason`: an error, the fault, or no fault.
unfoldable pub root_fault : ResolvedPaths → Bytes → Option (Option Fault)
unfolding under_dir bytes_eq first_component_dotted
root_fault rp res =
    if not (under_dir res rp.home)
    then some (some not_under_home)
    else if bytes_eq res rp.home
    then some (some is_home)
    else if under_dir res rp.config_dir
    then some (some in_config_dir)
    else if under_dir res rp.data_dir
    then some (some in_data_dir)
    else dotted_fault (first_component_dotted rp.home res)

-- The outcomes of `CheckDestDir`: it holds, it is refused (the fault, or a path that does not
-- resolve), or a call failed.
pub data DirCheck : Type 0 where
  fits : DirCheck
  unfit : Fault → DirCheck
  no_landing : DirCheck
  dir_check_fails : DirCheck

abbrev pub fault_found : Option (Option Fault) → DirCheck
fault_found none = dir_check_fails
fault_found (some (some f)) = unfit f
fault_found (some none) = fits

abbrev pub dir_landed : ResolvedPaths → Option Bytes → DirCheck
dir_landed rp none = no_landing
dir_landed rp (some res) = fault_found (root_fault rp res)

abbrev pub dir_checked : Files → Bytes → Option ResolvedPaths → DirCheck
dir_checked fs dir none = dir_check_fails
dir_checked fs dir (some rp) = dir_landed rp (resolve_existing fs dir)

-- `CheckDestDir`.
unfoldable pub check_dest_dir : Files → Paths → Bytes → DirCheck
unfolding resolve_paths resolve_existing root_fault
check_dest_dir fs p dir = dir_checked fs dir (resolve_paths fs p)

-- `loadJobRoots`, over what the file of the job's roots holds.
unfoldable pub cleaned : List Bytes → List Bytes
unfolding clean
cleaned [] = []
cleaned (r ∷ rs) = clean r ∷ cleaned rs

-- `JobCreatedRoot`, over the recorded roots or an error. `none` is an error or a refusal.
unfoldable pub job_created_root : Files → Option (List Bytes) → Bytes → Option Bool
unfolding resolve_existing cleaned has_text
job_created_root fs none dir = none
job_created_root fs (some recorded) dir = elim (resolve_existing fs dir) [
  | none ↦ none
  | some res ↦ some (has_text res (cleaned recorded))
]
