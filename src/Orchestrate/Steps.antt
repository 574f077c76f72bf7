-- ===== src/Orchestrate/Steps.antt =====
-- The steps of a job that act on the session (internal/orchestrate/steps.go): freeze, start, shape,
-- thaw+exit and record. Each call that succeeds is recorded in a trace with what it returned; the
-- texts of errors and the log are left out.
pub mod Argv
pub mod Shape
pub mod Start
pub mod Exit
pub mod Record
pub mod Guarded
pub mod Ids
pub mod Verify
unfoldable pub use Argv.*
use go_claude_teleport.Base.{
  ℕ, ℤ, pos, negsuc, int_eq, Bool, true, false, ◌&&◌, ◌||◌, not, Option, none, some, List, [], ◌∷◌,
  Bytes, codes, if◌then◌else◌,
}
use go_claude_teleport.Tmux.Window.{SessionInfo, TmuxRef}
use go_claude_teleport.Orchestrate.Endpoint.{
  Code, not_found, unavailable, conflict, other_code, Reply, answer, remote_error, Side, source,
  destination, Registry, PaneState, WindowPlan, Hosts, is_shell,
}

-- `TargetState`: the three words, and any other text.
pub data TargetState : Type 0 where
  end_running end_suspended end_idle : TargetState
  end_other : Bytes → TargetState

-- The part of `Plan` that these steps read and write (internal/orchestrate/options.go).
pub record Plan : Type 0 where
  pub session_id : Bytes
  pub source_running : Bool
  pub source_pid : ℤ
  pub source_start : Bytes
  pub source_pane : Option TmuxRef
  pub source_data_dir : Bytes
  pub job_id : Bytes
  pub bang_mode : Bool
  pub source_trusted : Bool
  pub window : Option WindowPlan
  pub target : TargetState
  pub capture_entry_id : ℤ
  pub dest_capture : Bytes
  pub dest_cwd : Bytes
  pub dest_hostname : Bytes
  pub has_claude_resume : Bool
  pub dest_ref : Option TmuxRef
  pub created_session : Bool
  pub created_window : Bool
  pub dest_registry : Option Registry
  pub recorded_src : Bool
  pub recorded_dst : Bool

-- Why a step fails: an error of a call, or an error of its own.
pub data Failure : Type 0 where
  call_error : Code → Failure
  trust_waiting : TmuxRef → Failure
  pane_busy : TmuxRef → Failure
  unknown_target : Failure
  no_pane : Failure

-- What the hosts were asked, and what they answered.
pub data Event : Type 0 where
  saw_status : Side → Option Registry → Event
  saw_pane : Side → TmuxRef → PaneState → Event
  froze : ℤ → Event
  thawed : ℤ → Reply (Unit {0}) → Event
  waited : Event
  exited : Side → Option TmuxRef → ℤ → Event
  typed : Side → TmuxRef → List Bytes → Event
  killed : TmuxRef → Event
  listed : List SessionInfo → Event
  opened : TmuxRef → Event
  started : TmuxRef → List Bytes → Event
  confirmed : TmuxRef → Registry → Event
  resumed_under_pty : Event
  recorded : Side → Event
  cleaned : Side → Event
  saved : Event

module _ (hosts : Hosts Plan) where
  open hosts use {World, save_journal, journal_put, claude_status, freeze}

  -- Where a step is: the plan, the world and the trace, the last event first.
  pub record State : Type 0 where
    pub plan : Plan
    pub world : World
    pub trace : List Event

  -- The error of a step, if it fails, and the state at its end.
  abbrev pub Out : Type 0
  Out = Option Failure × State

  -- A call whose error ends the step.
  abbrev pub call {ℓ} :
      {A : Type ℓ} → State → (A → Event) → Reply A × World → (A → State → Out) → Out
  call s event (answer a, w) next = next a (record s { world = w; trace = event a ∷ s.trace })
  call s event (remote_error c, w) next = (some (call_error c), record s { world = w })

  -- The last call of a step.
  abbrev pub done : Unit {0} → State → Out
  done u s = (none, s)

  -- `persist`.
  unfoldable pub persist : State → (State → Out) → Out
  persist s next =
      call s (λ u. saved) (save_journal s.plan s.world)
        (λ u s1.
          call s1 (λ u. saved) (journal_put source s1.plan s1.world)
            (λ u s2.
              call s2 (λ u. saved) (journal_put destination s2.plan s2.world) (λ u s3. next s3)))

  abbrev pub freeze_seen : Option Registry → State → Out
  freeze_seen none s = (none, s)
  freeze_seen (some reg) s =
      call s (λ u. froze s.plan.source_pid)
        (freeze s.plan.source_pid s.plan.source_start s.plan.source_pane s.world) done

  -- `runFreeze`.
  unfoldable pub run_freeze : State → Out
  run_freeze s = call s (saw_status source) (claude_status source s.world) freeze_seen
