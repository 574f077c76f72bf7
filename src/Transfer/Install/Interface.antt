-- ===== src/Transfer/Install/Interface.antt =====
-- The errors, the report and the calls of an installation (internal/transfer/install.go), and the
-- checks that need no call.
use go_claude_teleport.Base.{
  ℕ, ℤ, int_eq, Bool, true, false, ◌&&◌, ◌||◌, not, Option, none, some, List, [], ◌∷◌, Bytes,
  bytes_eq, if◌then◌else◌,
}
use go_claude_teleport.Transfer.Manifest.{Entry, Category, capture, is_regular, ff_allowed, by_id}
use go_claude_teleport.Transfer.Diff.{Status, is_session}

-- Why an installation ends early: an error of a call, or a refusal of its own.
pub data InstallError : Type 0 where
  call_failed : Bytes → InstallError
  deferred_entry : Entry → InstallError
  foreign_memory : Entry → InstallError
  nothing_staged : Entry → InstallError
  not_a_prefix : Entry → InstallError
  no_force : Entry → InstallError
  not_regular : Entry → InstallError
  not_of_session : Entry → InstallError
  hash_differs : Entry → InstallError
  refused_status : Entry → Status → InstallError

-- What is written at a destination: an entry placed (`true` for the path that replaces a file), or
-- the file there removed.
pub data Action : Type 0 where
  places : Entry → Bool → Action
  removes : Entry → Action

-- `InstallReport`, but for what the last merges report.
pub record Report : Type 0 where
  pub installed : ℕ
  pub skipped_same : ℕ
  pub fast_forwarded : ℕ
  pub force_overwritten : ℕ
  pub installed_ids : List ℤ
  pub fast_forwarded_ids : List ℤ
  pub memory_copied : List Bytes
  pub memory_differs : List Bytes

abbrev pub empty_report : Report
empty_report = record {
  installed = 0;
  skipped_same = 0;
  fast_forwarded = 0;
  force_overwritten = 0;
  installed_ids = [];
  fast_forwarded_ids = [];
  memory_copied = [];
  memory_differs = [];
}

-- The calls: `v.check`, `v.commitClaims`, `ctx.Err`, `v.place`, `dropStaged`, `Stat` of the staged
-- copy, `ffPrefixCheck`, `HashFile` of the staged copy, `Remove` of the destination,
-- `mergeMemoryEntry`, and all that follows the loops.
pub record Calls : Type 1 where
  pub World : Type 0
  pub check : Entry → World → Option Bytes
  pub commit_claims : World → Option Bytes × World
  pub cancelled : World → Option Bytes
  pub place : Entry → Bool → World → Option Bytes × World
  pub drop_staged : Entry → World → World
  pub is_staged : Entry → World → Bool
  pub is_prefix : Entry → World → Option Bool
  pub staged_hash : Entry → World → Option Bytes
  pub remove_dst : Entry → World → Option Bytes × World
  pub merge_memory : Entry → World → Option Bool × World
  pub merge_rest : World → Option Bytes × World

-- `checkForceOverwrite`.
unfoldable pub check_force_overwrite : Bytes → Entry → Bool → Option InstallError
unfolding is_regular ff_allowed
check_force_overwrite sid e force =
    if not force
    then some (no_force e)
    else if not (is_regular e)
    then some (not_regular e)
    else if not e.ff_allowed || not (is_session e.category) || not (ff_allowed e.dst sid)
    then some (not_of_session e)
    else none

-- `memory[id]`.
unfoldable pub is_memory : List Entry → ℤ → Bool
unfolding int_eq
is_memory [] id = false
is_memory (x ∷ xs) id = int_eq x.id id || is_memory xs id

abbrev is_capture : Category → Bool
is_capture capture = true
is_capture _ = false

-- The refusal of deferred entries.
unfoldable pub check_deferred : List Entry → Option InstallError
check_deferred [] = none
check_deferred (e ∷ es) =
    if e.deferred && not (is_capture e.category) then some (deferred_entry e) else check_deferred es

abbrev is_row : Entry → Option Entry → Bool
is_row e none = false
is_row e (some x) = bytes_eq x.dst e.dst

-- The check that the memory entries are rows of the manifest.
unfoldable pub check_memory : List Entry → List Entry → Option InstallError
unfolding by_id bytes_eq
check_memory all [] = none
check_memory all (e ∷ es) =
    if is_row e (by_id e.id all) then check_memory all es else some (foreign_memory e)
