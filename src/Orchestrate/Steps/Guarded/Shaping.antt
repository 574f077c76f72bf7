-- ===== src/Orchestrate/Steps/Guarded/Shaping.antt =====
-- The acts of the step `shape` are guarded.
use mathlib.Core.List.{Memᴰ}
use go_claude_teleport.Base.{
  true, not, Option, none, some, [], ◌∷◌, ◌≡◌, refl, sym, ap, arith, if-both,
}
use go_claude_teleport.Tmux.Window.{TmuxRef}
use go_claude_teleport.Orchestrate.Endpoint.{destination, Registry, PaneState, Hosts, is_shell}
use go_claude_teleport.Orchestrate.Steps.{
  Plan, TargetState, end_running, end_suspended, end_idle, end_other, saw_status, saw_pane, exited,
  typed, killed, State, Out, done, suspend_argv,
}
use go_claude_teleport.Orchestrate.Steps.Shape.{
  capture_on_dest, with_ref, kill_if_shell, type_suspend, close_window, shape_again, shape_end,
  shape_seen, run_shape,
}
use go_claude_teleport.Orchestrate.Steps.Guarded.{
  fresh, SawShell, SawAlive, Guard, IsGuarded, Justified, call-Justified,
}

module _ (hosts : Hosts Plan) where
  open hosts use {
    World, claude_status, pane_state, exit_claude, type_command, kill_window, tmux_sessions,
    open_window, start_claude, confirm_claude, run_pty_resume, has_trust_prompt, is_placeholder,
    thaw, wait_source_idle,
  }

  kill_if_shell-Justified :
      (ref : TmuxRef) (st : PaneState) (s : State hosts)
      → s.plan.dest_ref ≡ some ref
      → s.plan.created_window ≡ true
      → Memᴰ (saw_pane destination ref st) s.trace
      → IsGuarded hosts s.plan s.trace
      → Justified hosts s.plan (kill_if_shell hosts ref st s)
  unfolding Justified Guard SawShell
  kill_if_shell-Justified ref st s mine created m h =
      if-both (Justified hosts s.plan) (not (is_shell st.command)) (none, s) _ (λ _. h)
        (λ e.
          call-Justified hosts s.plan s (λ u. killed ref) (kill_window ref s.world) (done hosts) h
            (λ u. (mine, created, (st, m, ground arith))) (λ u w g. g))

  with_ref-Justified :
      (p : Plan) (s : State hosts) (o : Option TmuxRef) (next : TmuxRef → Out hosts)
      → IsGuarded hosts p s.trace
      → ((ref : TmuxRef) → o ≡ some ref → Justified hosts p (next ref))
      → Justified hosts p (with_ref hosts s o next)
  unfolding Justified
  with_ref-Justified p s none next h f = h
  with_ref-Justified p s (some ref) next h f = f ref refl

  type_suspend-Justified :
      (s : State hosts) (ref : TmuxRef)
      → s.plan.dest_ref ≡ some ref
      → IsGuarded hosts s.plan s.trace
      → Justified hosts s.plan (type_suspend hosts s ref)
  unfolding Guard Justified
  type_suspend-Justified s ref mine h =
      let argv =
        suspend_argv s.plan.session_id (capture_on_dest s.plan.capture_entry_id s.plan.dest_capture)
          s.plan.has_claude_resume in
      call-Justified hosts s.plan s (λ u. typed destination ref argv)
        (type_command destination ref argv s.world) (done hosts) h (λ u. mine) (λ u w g. g)

  close_window-Justified :
      (s : State hosts) (ref : TmuxRef)
      → s.plan.dest_ref ≡ some ref
      → s.plan.created_window ≡ true
      → IsGuarded hosts s.plan s.trace
      → Justified hosts s.plan (close_window hosts s ref)
  unfolding Guard
  close_window-Justified s ref mine c h =
      call-Justified hosts s.plan s (saw_pane destination ref) (pane_state destination ref s.world)
        (kill_if_shell hosts ref) h (λ st. tt)
        (λ st w g.
          kill_if_shell-Justified ref st
            (record s { world = w; trace = saw_pane destination ref st ∷ s.trace }) mine c
            (Memᴰ.head refl) g)

  shape_end-Justified :
      (t : TargetState) (s : State hosts)
      → IsGuarded hosts s.plan s.trace
      → Justified hosts s.plan (shape_end hosts t s)
  unfolding Justified
  shape_end-Justified end_running s h = h
  shape_end-Justified (end_other t) s h = h
  shape_end-Justified end_suspended s h =
      with_ref-Justified s.plan s s.plan.dest_ref (type_suspend hosts s) h
        (λ ref e. type_suspend-Justified s ref e h)
  shape_end-Justified end_idle s h =
      if-both (Justified hosts s.plan) s.plan.created_window
        (with_ref hosts s s.plan.dest_ref (close_window hosts s)) (none, s)
        (λ c.
          with_ref-Justified s.plan s s.plan.dest_ref (close_window hosts s) h
            (λ ref e. close_window-Justified s ref e c h))
        (λ e. h)

  shape_seen-Justified :
      (o : Option Registry) (s : State hosts)
      → ((reg : Registry) → o ≡ some reg → Memᴰ (saw_status destination (some reg)) s.trace)
      → IsGuarded hosts s.plan s.trace
      → Justified hosts s.plan (shape_seen hosts o s)
  unfolding Guard SawAlive
  shape_seen-Justified none s m h = shape_end-Justified s.plan.target s h
  shape_seen-Justified (some reg) s m h =
      call-Justified hosts s.plan s (λ u. exited destination s.plan.dest_ref reg.pid)
        (exit_claude destination s.plan.dest_ref reg.pid reg.proc_start s.world) (shape_again hosts)
        h (λ u. (refl, (reg, m reg refl, refl)))
        (λ u w g.
          shape_end-Justified s.plan.target
            (record s { world = w; trace = exited destination s.plan.dest_ref reg.pid ∷ s.trace })
            g)

  -- Started afresh, the step `shape` asks only a process that the destination's host named to exit,
  -- through the plan's destination pane, types only into that pane, and
  -- closes only the window of the plan's destination pane, only if the plan says that the job created
  -- that window, and only after a shell was seen in the pane.
  pub run_shape-Justified :
      (p : Plan) (w : World) → Justified hosts p (run_shape hosts (fresh hosts p w))
  unfolding run_shape Guard IsGuarded
  run_shape-Justified p w =
      call-Justified hosts p (fresh hosts p w) (saw_status destination)
        (claude_status destination w) (shape_seen hosts) tt (λ o. tt)
        (λ o w1 g.
          shape_seen-Justified o
            (record { plan = p; world = w1; trace = saw_status destination o ∷ [] })
            (λ reg e. Memᴰ.head (ap (saw_status destination) (sym e))) g)
