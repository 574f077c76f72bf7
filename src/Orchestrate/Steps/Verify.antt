-- ===== src/Orchestrate/Steps/Verify.antt =====
-- Whether a step is done already (internal/orchestrate/steps.go: verifyStart, verifyThawExit, verifyFreeze
-- and verifyShape). What a failed ConfirmClaude leaves in `DestRegistry` is left out: the
-- plan keeps the registry it had, in memory only.
pub mod Gone
pub mod Alive
use go_claude_teleport.Base.{
  ℤ, Bool, true, false, ◌&&◌, ◌||◌, not, Option, none, some, [], ◌∷◌, Bytes, bytes_eq,
  if◌then◌else◌,
}
use go_claude_teleport.Tmux.Window.{TmuxRef, ref_string}
use go_claude_teleport.Orchestrate.Endpoint.{
  Code, not_found, unavailable, conflict, other_code, Reply, answer, remote_error, Side, source,
  destination, Registry, PaneState, WindowPlan, Hosts, is_shell,
}
use go_claude_teleport.Orchestrate.Steps.{
  TargetState, end_running, end_suspended, end_idle, end_other, Plan, Failure, call_error,
  unknown_target, saw_status, saw_pane, confirmed, State, Out, call, persist,
}
use go_claude_teleport.Orchestrate.Steps.Start.{keep_registry}
use go_claude_teleport.Orchestrate.Steps.Exit.{is_source, is_pane_gone}

-- What a check answers: done, not done, or an error.
pub data Answer : Type 0 where
  yes no : Answer
  check_fails : Failure → Answer

abbrev pub answer_of : Bool → Answer
answer_of true = yes
answer_of false = no

module _ (hosts : Hosts Plan) where
  open hosts use {World, claude_status, pane_state, confirm_claude, is_placeholder}

  abbrev pub Verified : Type 0
  Verified = Answer × State hosts

  -- What a run's end says: done when nothing failed.
  abbrev pub if_saved : Out hosts → Verified
  if_saved (none, s) = (yes, s)
  if_saved (some f, s) = (check_fails f, s)

  -- The registry is that of a session in the pane the plan started it in.
  unfoldable pub is_in_pane : TmuxRef → Option Registry → Bool
  unfolding bytes_eq
  is_in_pane ref none = false
  is_in_pane ref (some reg) = bytes_eq reg.tmux (ref_string ref)

  abbrev pub confirm_alive : TmuxRef → State hosts → Verified
  confirm_alive ref s = if_saved (
      call hosts s (confirmed ref) (confirm_claude ref s.plan.source_trusted s.world)
        (keep_registry hosts))

  abbrev pub start_alive : TmuxRef → State hosts → Reply (Option Registry) × World → Verified
  start_alive ref s (remote_error c, w) = (check_fails (call_error c), record s { world = w })
  start_alive ref s (answer o, w) =
      let s1 : State hosts = record s { world = w; trace = saw_status destination o ∷ s.trace } in
      if is_in_pane ref o then confirm_alive ref s1 else (no, s1)

  abbrev pub has_registry : Option Registry → Bool
  has_registry none = false
  has_registry (some reg) = true

  abbrev pub verify_start_in : Option WindowPlan → Option TmuxRef → State hosts → Verified
  verify_start_in none ref s = (answer_of (has_registry s.plan.dest_registry), s)
  verify_start_in (some window) none s = (no, s)
  verify_start_in (some window) (some ref) s = start_alive ref s (claude_status destination s.world)

  -- `verifyStart`.
  unfoldable pub verify_start : State hosts → Verified
  unfolding is_in_pane persist
  verify_start s = verify_start_in s.plan.window s.plan.dest_ref s

  -- The pane of a source that is gone: gone with it, or left at the placeholder or at a shell.
  abbrev pub pane_verified : TmuxRef → State hosts → Reply PaneState × World → Verified
  pane_verified ref s (answer st, w) = (
    answer_of (is_placeholder st.argv || is_shell st.command),
    record s { world = w; trace = saw_pane source ref st ∷ s.trace },
  )
  pane_verified ref s (remote_error c, w) =
      if is_pane_gone hosts c
      then (yes, record s { world = w })
      else (check_fails (call_error c), record s { world = w })

  abbrev pub pane_at : Option TmuxRef → State hosts → Verified
  pane_at none s = (yes, s)
  pane_at (some ref) s = pane_verified ref s (pane_state source ref s.world)

  abbrev pub source_verified : State hosts → Reply (Option Registry) × World → Verified
  source_verified s (remote_error c, w) = (check_fails (call_error c), record s { world = w })
  source_verified s (answer o, w) =
      let s1 : State hosts = record s { world = w; trace = saw_status source o ∷ s.trace } in
      if is_source hosts s.plan.source_pid o then (no, s1) else pane_at s.plan.source_pane s1

  -- `verifyThawExit`.
  unfoldable pub verify_thaw_exit : State hosts → Verified
  unfolding is_shell
  verify_thaw_exit s =
      if s.plan.source_running then source_verified s (claude_status source s.world) else (yes, s)

  -- `verifyFreeze`.
  unfoldable pub verify_freeze : State hosts → Verified
  verify_freeze s = (answer_of (not s.plan.source_running), s)

  abbrev pub suspended_verified : TmuxRef → State hosts → Reply PaneState × World → Verified
  suspended_verified ref s (answer st, w) = (
    answer_of (is_placeholder st.argv),
    record s { world = w; trace = saw_pane destination ref st ∷ s.trace },
  )
  suspended_verified ref s (remote_error c, w) =
      (check_fails (call_error c), record s { world = w })

  abbrev pub idle_verified : TmuxRef → State hosts → Reply PaneState × World → Verified
  idle_verified ref s (answer st, w) = (
    answer_of (not s.plan.created_window && is_shell st.command),
    record s { world = w; trace = saw_pane destination ref st ∷ s.trace },
  )
  idle_verified ref s (remote_error not_found, w) = (yes, record s { world = w })
  idle_verified ref s (remote_error c, w) = (check_fails (call_error c), record s { world = w })

  abbrev pub has_window : Option WindowPlan → Bool
  has_window none = false
  has_window (some w) = true

  abbrev pub verify_shape_at : TargetState → Option TmuxRef → State hosts → Verified
  verify_shape_at end_running ref s = (yes, s)
  verify_shape_at (end_other t) ref s = (check_fails unknown_target, s)
  verify_shape_at end_suspended none s = (no, s)
  verify_shape_at end_suspended (some ref) s =
      suspended_verified ref s (pane_state destination ref s.world)
  verify_shape_at end_idle none s = (answer_of (not (has_window s.plan.window)), s)
  verify_shape_at end_idle (some ref) s =
      if has_window s.plan.window
      then idle_verified ref s (pane_state destination ref s.world)
      else (yes, s)

  -- `verifyShape`.
  unfoldable pub verify_shape : State hosts → Verified
  unfolding is_shell
  verify_shape s = verify_shape_at s.plan.target s.plan.dest_ref s
