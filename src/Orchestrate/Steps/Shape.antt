-- ===== src/Orchestrate/Steps/Shape.antt =====
-- The step `shape` (internal/orchestrate/steps.go, `runShape` and `verifyShape`).
use go_claude_teleport.Base.{ℤ, pos, negsuc, not, Option, none, some, Bytes, [], if◌then◌else◌}
use go_claude_teleport.Tmux.Window.{TmuxRef}
use go_claude_teleport.Orchestrate.Endpoint.{destination, Registry, PaneState, Hosts, is_shell}
use go_claude_teleport.Orchestrate.Steps.{
  TargetState, end_running, end_suspended, end_idle, end_other, Plan, no_pane, saw_status, saw_pane,
  exited, typed, killed, State, Out, call, done, suspend_argv,
}

-- `captureOnDest`.
abbrev pub capture_on_dest : ℤ → Bytes → Bytes
capture_on_dest (negsuc n) dst = []
capture_on_dest (pos n) dst = dst

module _ (hosts : Hosts Plan) where
  open hosts use {World, claude_status, pane_state, exit_claude, type_command, kill_window}
  open hosts use {is_placeholder}

  -- A call on the pane of the destination; without one the endpoint refuses it.
  abbrev pub with_ref : State hosts → Option TmuxRef → (TmuxRef → Out hosts) → Out hosts
  with_ref s none next = (some no_pane, s)
  with_ref s (some ref) next = next ref

  abbrev pub kill_if_shell : TmuxRef → PaneState → State hosts → Out hosts
  kill_if_shell ref st s =
      if not (is_shell st.command)
      then (none, s)
      else call hosts s (λ u. killed ref) (kill_window ref s.world) (done hosts)

  abbrev pub type_suspend : State hosts → TmuxRef → Out hosts
  type_suspend s ref =
      let argv =
        suspend_argv s.plan.session_id (capture_on_dest s.plan.capture_entry_id s.plan.dest_capture)
          s.plan.has_claude_resume in
      call hosts s (λ u. typed destination ref argv) (type_command destination ref argv s.world)
        (done hosts)

  abbrev pub close_window : State hosts → TmuxRef → Out hosts
  close_window s ref =
      call hosts s (saw_pane destination ref) (pane_state destination ref s.world)
        (kill_if_shell ref)

  -- The end state: the command that is typed, or the window that is closed.
  abbrev pub shape_end : TargetState → State hosts → Out hosts
  shape_end end_suspended s = with_ref s s.plan.dest_ref (type_suspend s)
  shape_end end_idle s =
      if s.plan.created_window then with_ref s s.plan.dest_ref (close_window s) else (none, s)
  shape_end end_running s = (none, s)
  shape_end (end_other t) s = (none, s)

  abbrev pub shape_again : Unit {0} → State hosts → Out hosts
  shape_again u s = shape_end s.plan.target s

  abbrev pub shape_seen : Option Registry → State hosts → Out hosts
  shape_seen none s = shape_end s.plan.target s
  shape_seen (some reg) s =
      call hosts s (λ u. exited destination s.plan.dest_ref reg.pid)
        (exit_claude destination s.plan.dest_ref reg.pid reg.proc_start s.world) shape_again

  -- `runShape`.
  unfoldable pub run_shape : State hosts → Out hosts
  unfolding is_shell suspend_argv
  run_shape s = call hosts s (saw_status destination) (claude_status destination s.world) shape_seen
