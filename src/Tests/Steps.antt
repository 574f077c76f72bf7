-- ===== src/Tests/Steps.antt =====
-- The steps that act on the session, on two concrete hosts.
use go_claude_teleport.Base.{int_eq, ◌≡◌, pos, true, false, none, some, [], ◌∷◌, codes, refl, ◌⊎◌}
use go_claude_teleport.Tmux.Window.{TmuxRef}
use go_claude_teleport.Orchestrate.Endpoint.{
  answer, remote_error, conflict, Registry, PaneState, Hosts, WindowPlan,
}
use go_claude_teleport.Orchestrate.Steps.{Plan, end_idle}
use go_claude_teleport.Orchestrate.Steps.Shape.{run_shape}
use go_claude_teleport.Orchestrate.Steps.Start.{run_start}
use go_claude_teleport.Orchestrate.Steps.Guarded.{fresh, Justified}
use go_claude_teleport.Orchestrate.Steps.Verify.{verify_start, verify_thaw_exit}
use go_claude_teleport.Orchestrate.Steps.Verify.Gone.{IsGone, verify_thaw_exit-IsGone}
use go_claude_teleport.Orchestrate.Steps.Verify.Alive.{IsAliveIn, verify_start-IsAliveIn}
use go_claude_teleport.Orchestrate.Steps.Guarded.Shaping.{run_shape-Justified}
use go_claude_teleport.Orchestrate.Steps.Guarded.Starting.{run_start-Justified}

abbrev pane : TmuxRef
pane = record {
  socket_path = codes "/s";
  session = codes "w";
  window_id = codes "@1";
  pane_id = codes "%1";
}

abbrev claude : Registry
claude = record {
  pid = pos 7;
  proc_start = codes "99";
  status = codes "idle";
  tmux = codes "w:@1.%1";
}

abbrev shell_pane : PaneState
shell_pane = record { command = codes "bash"; content = []; argv = codes "bash" ∷ [] }

-- The source runs, its pane's foreground cannot be restored, and every other call works.
abbrev hosts : Hosts Plan
hosts = record {
  World = Unit {0};
  claude_status = λ side w. (answer (some claude), w);
  pane_state = λ side ref w. (answer shell_pane, w);
  exit_claude = λ side ref pid start w. (answer tt, w);
  thaw = λ pid ref w. (remote_error conflict, w);
  freeze = λ pid start ref w. (answer tt, w);
  type_command = λ side ref argv w. (answer tt, w);
  kill_window = λ ref w. (answer tt, w);
  tmux_sessions = λ socket w. (answer [], w);
  open_window = λ plan w. (answer pane, w);
  start_claude = λ ref argv w. (answer tt, w);
  confirm_claude = λ ref trusted w. (answer claude, w);
  run_pty_resume = λ cwd w. (answer tt, w);
  record_history = λ side w. (answer tt, w);
  cleanup = λ side w. (answer tt, w);
  save_journal = λ plan w. (answer tt, w);
  journal_put = λ side plan w. (answer tt, w);
  wait_source_idle = λ w. (answer tt, w);
  now_text = λ w. codes "2026";
  has_trust_prompt = λ content. false;
  is_placeholder = λ argv. false;
}

abbrev planned_window : WindowPlan
planned_window = record { socket_path = codes "/s"; group = codes "w" }

abbrev plan : Plan
plan = record {
  session_id = codes "id";
  source_running = true;
  source_pid = pos 7;
  source_start = codes "99";
  source_pane = some pane;
  source_data_dir = codes "/d";
  job_id = codes "j";
  bang_mode = false;
  source_trusted = false;
  window = some planned_window;
  target = end_idle;
  capture_entry_id = pos 0;
  dest_capture = codes "/c";
  dest_cwd = codes "/h";
  dest_hostname = codes "b";
  has_claude_resume = false;
  dest_ref = some pane;
  created_session = false;
  created_window = true;
  dest_registry = none;
  recorded_src = false;
  recorded_dst = false;
}

run_shape-Justified_example : Justified hosts plan (run_shape hosts (fresh hosts plan tt))
run_shape-Justified_example = run_shape-Justified hosts plan tt

run_start-Justified_example : Justified hosts plan (run_start hosts (fresh hosts plan tt))
run_start-Justified_example = run_start-Justified hosts plan tt

-- The world of these hosts is the plan on disk.
abbrev disk_hosts : Hosts Plan
disk_hosts = record {
  World = Plan;
  claude_status = λ side w. (answer (some claude), w);
  pane_state = λ side ref w. (answer shell_pane, w);
  exit_claude = λ side ref pid start w. (answer tt, w);
  thaw = λ pid ref w. (remote_error conflict, w);
  freeze = λ pid start ref w. (answer tt, w);
  type_command = λ side ref argv w. (answer tt, w);
  kill_window = λ ref w. (answer tt, w);
  tmux_sessions = λ socket w. (answer [], w);
  open_window = λ plan w. (answer pane, w);
  start_claude = λ ref argv w. (answer tt, w);
  confirm_claude = λ ref trusted w. (answer claude, w);
  run_pty_resume = λ cwd w. (answer tt, w);
  record_history = λ side w. (answer tt, w);
  cleanup = λ side w. (answer tt, w);
  save_journal = λ plan w. (answer tt, plan);
  journal_put = λ side plan w. (answer tt, w);
  wait_source_idle = λ w. (answer tt, w);
  now_text = λ w. codes "2026";
  has_trust_prompt = λ content. false;
  is_placeholder = λ argv. false;
}

-- The process that answers as the session is another one than the plan's source.
abbrev moved_plan : Plan
moved_plan = record plan { source_pid = pos 8 }

verify_thaw_exit-IsGone_example : (moved_plan.source_running ≡ false) ⊎ IsGone hosts moved_plan tt
unfolding verify_thaw_exit int_eq
verify_thaw_exit-IsGone_example = verify_thaw_exit-IsGone hosts moved_plan tt refl

verify_start-IsAliveIn_example :
    (ref : TmuxRef) × (plan.dest_ref ≡ some ref) × IsAliveIn hosts ref (answer (some claude))
unfolding verify_start
verify_start-IsAliveIn_example = verify_start-IsAliveIn hosts plan planned_window tt refl refl
