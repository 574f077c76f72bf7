-- ===== src/Transfer/Validate.antt =====
-- The validator (internal/transfer/validate.go): whether the destination may write an entry, and
-- where. It remembers how a declared root resolved and whether it may be one; the reason of a
-- refusal is a datum whose text is left out.
pub mod Reasons
pub mod Link
pub mod Placement
pub mod Check
pub mod Sound
pub mod Permitted
pub mod Provenance
pub mod Granted
pub mod Accepts
pub mod Passed
pub mod Rechecked
unfoldable pub use Reasons.*
unfoldable pub use Link.*
use go_claude_teleport.Base.{
  ℕ, Bool, true, false, ◌&&◌, ◌||◌, not, Option, none, some, List, [], ◌∷◌, ◌++◌, Bytes, codes,
  bytes_eq, has_text, if◌then◌else◌,
}
use go_claude_teleport.FilePath.{is_abs, clean, join, slash}
use go_claude_teleport.FilePath.Rel.{rel, first_part}
use go_claude_teleport.Job.Id.{IdError, validate_id, dir}
use go_claude_teleport.Session.Paths.{Paths, projects_dir, munge}
use go_claude_teleport.Transfer.Manifest.{
  Entry, Category, session, repo, worktree, capture, pack, other_category, is_dir, is_regular,
}
use go_claude_teleport.Transfer.Diff.{Seen, gone, unreadable, there, is_session}
use go_claude_teleport.Transfer.Build.{forbidden}
use go_claude_teleport.Transfer.Under.{under_dir}
use go_claude_teleport.Transfer.Roots.{
  Files, Root, Fault, ResolvedPaths, is_git_root, entry_root, resolve_existing, root_fault, cleaned,
  paths_found, resolve_paths,
}

-- `validatorMode`.
pub data Mode : Type 0 where
  mode_diff mode_install mode_uninstall : Mode

-- `validator`, but for what it placed, in two parts. What `newValidator` fixes; `capture_dst` is
-- `none` where `captureErr` is set.
pub record Validator : Type 0 where
  pub paths : Paths
  pub roots : List Root
  pub mode : Mode
  pub real : ResolvedPaths
  pub capture_dst : Option Bytes
  pub claimed_cwds : List Bytes

-- What its checks and claims change: the sets as lists, the maps from paths as lists of pairs.
pub record Memory : Type 0 where
  pub recorded : List Bytes
  pub pending : List Bytes
  pub root_res : List (Bytes × Bytes)
  pub root_bad : List (Bytes × Option Fault)

-- A verdict, with what the validator remembers afterwards.
abbrev pub Checked : Type 0
Checked = Verdict × Memory

-- `allowedCategory`.
abbrev pub is_allowed : Category → Bool
is_allowed session = true
is_allowed capture = true
is_allowed repo = true
is_allowed worktree = true
is_allowed _ = false

-- The key that `manifestClaimedCwds` adds for an entry.
abbrev pub first_of : Option Bytes → List Bytes
first_of none = []
first_of (some r) = first_part r ∷ []

unfoldable pub claimed_by : Bytes → Entry → List Bytes
unfolding clean under_dir bytes_eq rel first_part
claimed_by projects e =
    if is_session e.category
      && under_dir (clean e.dst) projects
      && not (bytes_eq (clean e.dst) projects)
    then first_of (rel projects (clean e.dst))
    else []

unfoldable pub claims_from : Bytes → List Entry → List Bytes
unfolding claimed_by
claims_from projects [] = []
claims_from projects (e ∷ es) = claimed_by projects e ++ claims_from projects es

-- `manifestClaimedCwds`.
unfoldable pub manifest_claimed_cwds : List Entry → Paths → List Bytes
unfolding claims_from clean projects_dir
manifest_claimed_cwds es p = claims_from (clean (projects_dir p)) es

-- `canonicalCaptureDst` (internal/transfer/diff.go).
unfoldable pub canonical_capture_dst : Bytes → Bytes → Option Bytes
unfolding validate_id join dir
canonical_capture_dst data_dir job_id = elim (validate_id job_id) [
  | some err ↦ none
  | none ↦ some (join (dir data_dir job_id ∷ codes "capture.txt" ∷ []))
]

-- What `newValidator` returns.
pub data NewValidator : Type 0 where
  ready : Validator → Memory → NewValidator
  bad_job_id : IdError → NewValidator
  not_ready : NewValidator

abbrev pub new_with :
    Paths
    → List Root
    → Mode
    → List Entry
    → Option Bytes
    → Option ResolvedPaths
    → Option (List Bytes)
    → NewValidator
new_with p roots mode es capture_dst (some real) (some recorded) =
    ready
      (record {
        paths = p;
        roots = roots;
        mode = mode;
        real = real;
        capture_dst = capture_dst;
        claimed_cwds = manifest_claimed_cwds es p;
      })
      (record { recorded = cleaned recorded; pending = []; root_res = []; root_bad = [] })
new_with p roots mode es capture_dst none recorded = not_ready
new_with p roots mode es capture_dst (some real) none = not_ready

-- `newValidator`, over what the job's record of roots holds, or an error.
unfoldable pub new_validator :
    Files → Option (List Bytes) → Bytes → List Root → List Entry → Paths → Mode → NewValidator
unfolding validate_id canonical_capture_dst resolve_paths cleaned manifest_claimed_cwds
new_validator fs record_file job_id roots es p mode = elim (validate_id job_id) [
  | some err ↦ bad_job_id err
  | none ↦
      new_with p roots mode es (canonical_capture_dst p.data_dir job_id) (resolve_paths fs p)
        record_file
]

-- Reading a map that a path is a key of.
unfoldable pub look_up {ℓ} : {A : Type ℓ} → Bytes → List (Bytes × A) → Option A
unfolding bytes_eq
look_up key [] = none
look_up key ((k, x) ∷ rest) =
    let later = look_up key rest in if bytes_eq k key then some x else later

abbrev pub or_empty : Option Bytes → Bytes
or_empty none = []
or_empty (some s) = s

abbrev pub resolved_now : Memory → Bytes → Option Bytes → Option Bytes × Memory
resolved_now m path none = (none, m)
resolved_now m path (some res) = (some res, record m { root_res = (path, res) ∷ m.root_res })

abbrev pub resolved_before : Files → Memory → Root → Option Bytes → Option Bytes × Memory
resolved_before fs m r (some res) = (some res, m)
resolved_before fs m r none = resolved_now m r.path (resolve_existing fs r.path)

-- `resolvedRoot`: what the first resolution returned is kept. `none` is an error.
unfoldable pub resolved_root : Files → Memory → Root → Option Bytes × Memory
unfolding look_up resolve_existing
resolved_root fs m r = resolved_before fs m r (look_up r.path m.root_res)

abbrev pub judged_now : Bytes → Option (Option Fault) → Memory → Option (Option Fault) × Memory
judged_now path none m = (none, m)
judged_now path (some f) m = (some f, record m { root_bad = (path, f) ∷ m.root_bad })

abbrev pub judge : ResolvedPaths → Bytes → Option Bytes × Memory → Option (Option Fault) × Memory
judge real path (none, m) = (none, m)
judge real path (some res, m) = judged_now path (root_fault real res) m

abbrev pub judged_before :
    Files → ResolvedPaths → Memory → Root → Option (Option Fault) → Option (Option Fault) × Memory
judged_before fs real m r (some f) = (some f, m)
judged_before fs real m r none = judge real r.path (resolved_root fs m r)

-- `rootReason` of one declared root. `none` is an error, `some none` no reason.
unfoldable pub root_reason : Files → ResolvedPaths → Memory → Root → Option (Option Fault) × Memory
unfolding look_up resolved_root root_fault
root_reason fs real m r = judged_before fs real m r (look_up r.path m.root_bad)
