-- ===== src/Job/Journal.antt =====
-- The journal of a job (internal/job/journal.go): its record, the table of steps, and how it is
-- saved. A `*StepState` is represented by the name that `Step` found it under: it points at the
-- first entry of that name, and the program never renames an entry.
pub mod Steps
use go_claude_teleport.Base.{
  ℕ, ◌+◌, ◌<◌, Bool, true, false, ◌&&◌, Option, none, some, List, [], ◌∷◌, ◌++◌, Bytes, codes,
  bytes_eq, ltb, is_positive, ℤ, pos, negsuc, if◌then◌else◌,
}
use go_claude_teleport.Job.Id.{dir}
use go_claude_teleport.FilePath.{join}

-- `StepStatus`: the four declared values.
pub data StepStatus : Type 0 where
  pending running done failed : StepStatus

pub record StepState : Type 0 where
  pub name : Bytes
  pub status : StepStatus
  pub started_at : ℕ
  pub finished_at : ℕ
  pub error : Bytes
  pub attempts : ℕ

-- `Outcome`: the empty text and the three words that the program writes.
pub data Outcome : Type 0 where
  no_outcome success failure abandoned : Outcome

-- The plan is the opaque text of `json.RawMessage`. Times are nanoseconds.
pub record Journal : Type 0 where
  pub id : Bytes
  pub session_id : Bytes
  pub direction : Bytes
  pub source_host : Bytes
  pub dest_host : Bytes
  pub created_at : ℕ
  pub updated_at : ℕ
  pub plan : Bytes
  pub steps : List StepState
  pub finished : Bool
  pub outcome : Outcome
  pub runner_pid : ℤ
  pub journal_dir : Bytes

abbrev pub is_done : StepStatus → Bool
is_done done = true
is_done _ = false

-- `New`, from the directory's creation on.
unfoldable pub new : Bytes → Bytes → ℕ → Journal
unfolding dir
new data_dir id now = record {
  id = id;
  session_id = id;
  direction = [];
  source_host = [];
  dest_host = [];
  created_at = now;
  updated_at = now;
  plan = codes "null";
  steps = [];
  finished = false;
  outcome = no_outcome;
  runner_pid = pos 0;
  journal_dir = dir data_dir id;
}

-- `journalPath`, `LogPath`, `ManifestPath`, `CapturePath`.
unfoldable pub journal_path : Bytes → Bytes
unfolding join
journal_path d = join (d ∷ codes "job.json" ∷ [])

unfoldable pub log_path : Journal → Bytes
unfolding join
log_path j = join (j.journal_dir ∷ codes "log.txt" ∷ [])

unfoldable pub manifest_path : Journal → Bytes
unfolding join
manifest_path j = join (j.journal_dir ∷ codes "manifest.json" ∷ [])

unfoldable pub capture_path : Journal → Bytes
unfolding join
capture_path j = join (j.journal_dir ∷ codes "capture.txt" ∷ [])

-- The entry that `Step` appends.
abbrev pub pending_step : Bytes → StepState
pending_step n = record {
  name = n;
  status = pending;
  started_at = 0;
  finished_at = 0;
  error = [];
  attempts = 0;
}

-- `Step`: the loop over the entries, and the append.
unfoldable pub ensure_step : Bytes → List StepState → List StepState
unfolding bytes_eq
ensure_step n [] = pending_step n ∷ []
ensure_step n (x ∷ xs) = if bytes_eq x.name n then x ∷ xs else x ∷ ensure_step n xs

-- What the pointer reads, and a write through it.
unfoldable pub find_step : Bytes → List StepState → Option StepState
unfolding bytes_eq
find_step n [] = none
find_step n (x ∷ xs) = if bytes_eq x.name n then some x else find_step n xs

unfoldable pub update_step : Bytes → (StepState → StepState) → List StepState → List StepState
unfolding bytes_eq
update_step n f [] = []
update_step n f (x ∷ xs) = if bytes_eq x.name n then f x ∷ xs else x ∷ update_step n f xs

-- `FirstIncomplete`.
unfoldable pub first_incomplete : List StepState → Option Bytes
first_incomplete [] = none
first_incomplete (x ∷ xs) = if is_done x.status then first_incomplete xs else some x.name

-- `RunnerAlive`.
unfoldable pub runner_alive : (ℤ → Bool) → Journal → Bool
runner_alive alive j = is_positive j.runner_pid && alive j.runner_pid
