-- ===== src/Orchestrate/Steps/Start.antt =====
-- The step `start` (internal/orchestrate/steps.go, `runStart`).
use go_claude_teleport.Base.{
  ℤ, true, not, Option, none, some, List, Bytes, [], ◌∷◌, codes, if◌then◌else◌,
}
use go_claude_teleport.Tmux.Window.{SessionInfo, TmuxRef, base_session}
use go_claude_teleport.Orchestrate.Endpoint.{
  not_found, Reply, answer, remote_error, destination, Registry, PaneState, WindowPlan, Hosts,
  is_shell,
}
use go_claude_teleport.Orchestrate.Steps.{
  Plan, call_error, trust_waiting, pane_busy, saw_pane, listed, opened, started, confirmed,
  resumed_under_pty, State, Out, call, persist, placeholder_argv,
}
use go_claude_teleport.Orchestrate.Steps.Shape.{capture_on_dest}

module _ (hosts : Hosts Plan) where
  open hosts use {World, pane_state, tmux_sessions, open_window, start_claude, confirm_claude}
  open hosts use {run_pty_resume, has_trust_prompt}

  abbrev pub save_plan : State hosts → Out hosts
  save_plan s = persist hosts s (λ s1. (none, s1))

  -- The registry entry that stands for a session resumed under a pty.
  abbrev pub exited_entry : Registry
  exited_entry = record { pid = ℤ.pos 0; proc_start = []; status = codes "exited"; tmux = [] }

  abbrev pub keep_registry : Registry → State hosts → Out hosts
  keep_registry reg s = save_plan (record s { plan = record s.plan { dest_registry = some reg } })

  abbrev pub confirm : TmuxRef → State hosts → Out hosts
  confirm ref s =
      call hosts s (confirmed ref) (confirm_claude ref s.plan.source_trusted s.world) keep_registry

  abbrev pub confirm_started : TmuxRef → Unit {0} → State hosts → Out hosts
  confirm_started ref u s = confirm ref s

  -- The command is typed, and the session confirmed.
  abbrev pub type_start : TmuxRef → State hosts → Out hosts
  type_start ref s =
      let argv =
        placeholder_argv s.plan.session_id
          (capture_on_dest s.plan.capture_entry_id s.plan.dest_capture) true [] [] in
      call hosts s (λ u. started ref argv) (start_claude ref argv s.world) (confirm_started ref)

  abbrev pub in_new_window : List SessionInfo → Bytes → TmuxRef → State hosts → Out hosts
  in_new_window sessions group ref s =
      persist hosts
        (record s {
          plan = record s.plan {
            dest_ref = some ref;
            created_window = true;
            created_session = not (base_session sessions group).1;
          };
        })
        (type_start ref)

  abbrev pub open_new : WindowPlan → List SessionInfo → State hosts → Out hosts
  open_new window sessions s =
      call hosts s opened (open_window window s.world) (in_new_window sessions window.group)

  -- No pane yet: a window is opened.
  abbrev pub start_new : WindowPlan → State hosts → Out hosts
  start_new window s =
      call hosts s listed (tmux_sessions window.socket_path s.world) (open_new window)

  -- A pane of this job: what runs in it decides.
  abbrev pub start_in : TmuxRef → PaneState → State hosts → Out hosts
  start_in ref st s =
      if is_shell st.command
      then type_start ref s
      else if not (has_trust_prompt st.content)
      then (some (pane_busy ref), s)
      else if s.plan.source_trusted
      then confirm ref s
      else (some (trust_waiting ref), s)

  abbrev pub start_seen : WindowPlan → TmuxRef → State hosts → Reply PaneState × World → Out hosts
  start_seen window ref s (answer st, w) =
      start_in ref st (record s { world = w; trace = saw_pane destination ref st ∷ s.trace })
  start_seen window ref s (remote_error not_found, w) =
      start_new window (record s { world = w; plan = record s.plan { dest_ref = none } })
  start_seen window ref s (remote_error c, w) = (some (call_error c), record s { world = w })

  abbrev pub start_at : WindowPlan → Option TmuxRef → State hosts → Out hosts
  start_at window none s = start_new window s
  start_at window (some ref) s = start_seen window ref s (pane_state destination ref s.world)

  abbrev pub keep_exited : Unit {0} → State hosts → Out hosts
  keep_exited u s = keep_registry exited_entry s

  abbrev pub start_by : Option WindowPlan → State hosts → Out hosts
  start_by none s =
      call hosts s (λ u. resumed_under_pty) (run_pty_resume s.plan.dest_cwd s.world) keep_exited
  start_by (some window) s = start_at window s.plan.dest_ref s

  -- `runStart`.
  unfoldable pub run_start : State hosts → Out hosts
  unfolding persist is_shell placeholder_argv base_session
  run_start s = start_by s.plan.window s
