-- ===== src/Orchestrate/Steps/Exit.antt =====
-- The step `thaw+exit` (internal/orchestrate/steps.go, `runThawExit` and `sourceAlive`).
use go_claude_teleport.Base.{
  ℤ, pos, negsuc, int_eq, Bool, true, false, ◌||◌, not, Option, none, some, Bytes, [], ◌∷◌, codes,
  if◌then◌else◌,
}
use go_claude_teleport.FilePath.{join}
use go_claude_teleport.Job.Id.{dir}
use go_claude_teleport.Tmux.Window.{TmuxRef}
use go_claude_teleport.Orchestrate.Endpoint.{
  Code, not_found, unavailable, conflict, Reply, answer, remote_error, source, Registry, PaneState,
  Hosts, is_shell,
}
use go_claude_teleport.Orchestrate.Steps.{
  Plan, call_error, saw_status, saw_pane, thawed, waited, exited, typed, State, Out, call, done,
  placeholder_argv,
}

module _ (hosts : Hosts Plan) where
  open hosts use {World, claude_status, pane_state, exit_claude, thaw, type_command}
  open hosts use {wait_source_idle, now_text, is_placeholder}

  abbrev pub source_capture : Plan → ℤ → Bytes
  source_capture p (negsuc n) = []
  source_capture p (pos n) = join (dir p.source_data_dir p.job_id ∷ codes "capture.txt" ∷ [])

  abbrev pub type_placeholder : TmuxRef → State hosts → Out hosts
  type_placeholder ref s =
      let argv =
        placeholder_argv s.plan.session_id (source_capture s.plan s.plan.capture_entry_id) false
          s.plan.dest_hostname (now_text s.world) in
      call hosts s (λ u. typed source ref argv) (type_command source ref argv s.world) (done hosts)

  -- The placeholder is typed where a shell runs.
  abbrev pub leave_placeholder : TmuxRef → PaneState → State hosts → Out hosts
  leave_placeholder ref st s =
      if is_placeholder st.argv || not (is_shell st.command)
      then (none, s)
      else type_placeholder ref s

  -- `sourcePaneGone`.
  abbrev pub is_pane_gone : Code → Bool
  is_pane_gone not_found = true
  is_pane_gone unavailable = true
  is_pane_gone _ = false

  abbrev pub pane_left : TmuxRef → State hosts → Reply PaneState × World → Out hosts
  pane_left ref s (answer st, w) =
      leave_placeholder ref st (record s { world = w; trace = saw_pane source ref st ∷ s.trace })
  pane_left ref s (remote_error c, w) =
      if is_pane_gone c
      then (none, record s { world = w })
      else (some (call_error c), record s { world = w })

  -- After the source is gone: its pane, unless its foreground could not be restored.
  abbrev pub leave_pane : Bool → Option TmuxRef → State hosts → Out hosts
  leave_pane restored none s = (none, s)
  leave_pane false (some ref) s = (none, s)
  leave_pane true (some ref) s = pane_left ref s (pane_state source ref s.world)

  abbrev pub exit_pane : Bool → Plan → Option TmuxRef
  exit_pane true p = p.source_pane
  exit_pane false p = none

  abbrev pub after_exit : Bool → Unit {0} → State hosts → Out hosts
  after_exit restored u s = leave_pane restored s.plan.source_pane s

  -- The source is asked to exit through its pane, or by signals.
  abbrev pub exit_source : Bool → State hosts → Out hosts
  exit_source restored s =
      call hosts s (λ u. exited source (exit_pane restored s.plan) s.plan.source_pid)
        (exit_claude source (exit_pane restored s.plan) s.plan.source_pid s.plan.source_start
          s.world)
        (after_exit restored)

  abbrev pub exit_waited : Unit {0} → State hosts → Out hosts
  exit_waited u s = exit_source true s

  abbrev pub exit_thawed : State hosts → Out hosts
  exit_thawed s =
      if s.plan.bang_mode
      then call hosts s (λ u. waited) (wait_source_idle s.world) exit_waited
      else exit_source true s

  -- What `Thaw` returned decides how the source exits.
  abbrev pub after_thaw : State hosts → Reply (Unit {0}) × World → Out hosts
  after_thaw s (answer u, w) =
      exit_thawed (record s { world = w; trace = thawed s.plan.source_pid (answer u) ∷ s.trace })
  after_thaw s (remote_error not_found, w) =
      exit_thawed (record s {
        world = w;
        trace = thawed s.plan.source_pid (remote_error not_found) ∷ s.trace;
      })
  after_thaw s (remote_error conflict, w) =
      exit_source false
        (record s { world = w; trace = thawed s.plan.source_pid (remote_error conflict) ∷ s.trace })
  after_thaw s (remote_error c, w) = (some (call_error c), record s { world = w })

  -- `sourceAlive`, of what the registry holds.
  abbrev pub is_source : ℤ → Option Registry → Bool
  is_source pid none = false
  is_source pid (some reg) = int_eq reg.pid pid

  abbrev pub exit_seen : Option Registry → State hosts → Out hosts
  exit_seen seen s =
      if is_source s.plan.source_pid seen
      then after_thaw s (thaw s.plan.source_pid s.plan.source_pane s.world)
      else leave_pane true s.plan.source_pane s

  -- `runThawExit`.
  unfoldable pub run_thaw_exit : State hosts → Out hosts
  unfolding int_eq is_shell placeholder_argv join dir
  run_thaw_exit s = call hosts s (saw_status source) (claude_status source s.world) exit_seen
