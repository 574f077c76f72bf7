-- ===== src/Orchestrate/Steps/Guarded/Starting.antt =====
-- The acts of the step `start` are guarded.
use mathlib.Core.List.{Memᴰ}
use go_claude_teleport.Base.{
  true, not, Option, none, some, List, [], ◌∷◌, Bytes, refl, ◌⊎◌, inl, inr, if-both,
}
use go_claude_teleport.Tmux.Window.{SessionInfo, TmuxRef, base_session}
use go_claude_teleport.Orchestrate.Endpoint.{
  not_found, unavailable, conflict, other_code, Reply, answer, remote_error, destination, Registry,
  PaneState, WindowPlan, Hosts, is_shell,
}
use go_claude_teleport.Orchestrate.Steps.{
  trust_waiting, pane_busy, saved, Plan, saw_pane, listed, opened, started, confirmed,
  resumed_under_pty, State, placeholder_argv,
}
use go_claude_teleport.Orchestrate.Steps.Shape.{capture_on_dest}
use go_claude_teleport.Orchestrate.Steps.Start.{
  keep_registry, keep_exited, confirm_started, open_new, exited_entry, confirm, type_start,
  in_new_window, start_new, start_in, start_seen, start_at, start_by, run_start,
}
use go_claude_teleport.Orchestrate.Steps.Guarded.{
  fresh, SawShell, Guard, IsGuarded, Justified, call-Justified, persist-Justified,
}

module _ (hosts : Hosts Plan) (p : Plan) where
  open hosts use {
    World, pane_state, tmux_sessions, open_window, start_claude, confirm_claude, run_pty_resume,
    has_trust_prompt,
  }

  keep_registry-Justified :
      (reg : Registry) (s : State hosts)
      → IsGuarded hosts p s.trace
      → Justified hosts p (keep_registry hosts reg s)
  unfolding Justified
  keep_registry-Justified reg s h =
      persist-Justified hosts p (record s { plan = record s.plan { dest_registry = some reg } })
        (λ s1. (none, s1)) h (λ w g. g)

  confirm-Justified :
      (ref : TmuxRef) (s : State hosts)
      → IsGuarded hosts p s.trace
      → Justified hosts p (confirm hosts ref s)
  unfolding Guard
  confirm-Justified ref s h =
      call-Justified hosts p s (confirmed ref) (confirm_claude ref s.plan.source_trusted s.world)
        (keep_registry hosts) h (λ reg. tt)
        (λ reg w g.
          keep_registry-Justified reg (record s { world = w; trace = confirmed ref reg ∷ s.trace })
            g)

  type_start-Justified :
      (ref : TmuxRef) (s : State hosts)
      → Memᴰ (opened ref) s.trace ⊎ SawShell hosts p destination ref s.trace
      → IsGuarded hosts p s.trace
      → Justified hosts p (type_start hosts ref s)
  unfolding Guard
  type_start-Justified ref s ready h =
      let argv =
        placeholder_argv s.plan.session_id
          (capture_on_dest s.plan.capture_entry_id s.plan.dest_capture) true [] [] in
      call-Justified hosts p s (λ u. started ref argv) (start_claude ref argv s.world)
        (confirm_started hosts ref) h (λ u. ready)
        (λ u w g.
          confirm-Justified ref (record s { world = w; trace = started ref argv ∷ s.trace }) g)

  in_new_window-Justified :
      (sessions : List SessionInfo) (group : Bytes) (ref : TmuxRef) (s : State hosts)
      → Memᴰ (opened ref) s.trace
      → IsGuarded hosts p s.trace
      → Justified hosts p (in_new_window hosts sessions group ref s)
  in_new_window-Justified sessions group ref s m h =
      let plan = record s.plan {
        dest_ref = some ref;
        created_window = true;
        created_session = not (base_session sessions group).1;
      } in
      persist-Justified hosts p (record s { plan = plan }) (type_start hosts ref) h
        (λ w g.
          type_start-Justified ref
            (record { plan = plan; world = w; trace = saved ∷ saved ∷ saved ∷ s.trace })
            (inl (Memᴰ.tail (Memᴰ.tail (Memᴰ.tail m)))) g)

  open_new-Justified :
      (window : WindowPlan) (sessions : List SessionInfo) (s : State hosts)
      → IsGuarded hosts p s.trace
      → Justified hosts p (open_new hosts window sessions s)
  unfolding Guard
  open_new-Justified window sessions s h =
      call-Justified hosts p s opened (open_window window s.world)
        (in_new_window hosts sessions window.group) h (λ ref. tt)
        (λ ref w g.
          in_new_window-Justified sessions window.group ref
            (record s { world = w; trace = opened ref ∷ s.trace }) (Memᴰ.head refl) g)

  start_new-Justified :
      (window : WindowPlan) (s : State hosts)
      → IsGuarded hosts p s.trace
      → Justified hosts p (start_new hosts window s)
  unfolding Guard
  start_new-Justified window s h =
      call-Justified hosts p s listed (tmux_sessions window.socket_path s.world)
        (open_new hosts window) h (λ sessions. tt)
        (λ sessions w g.
          open_new-Justified window sessions
            (record s { world = w; trace = listed sessions ∷ s.trace }) g)

  start_in-Justified :
      (ref : TmuxRef) (st : PaneState) (s : State hosts)
      → Memᴰ (saw_pane destination ref st) s.trace
      → IsGuarded hosts p s.trace
      → Justified hosts p (start_in hosts ref st s)
  unfolding Justified SawShell
  start_in-Justified ref st s m h =
      if-both (Justified hosts p) (is_shell st.command) (type_start hosts ref s) _
        (λ shell. type_start-Justified ref s (inr (st, m, shell)) h)
        (λ busy.
          if-both (Justified hosts p) (not (has_trust_prompt st.content)) (some (pane_busy ref), s)
            _ (λ e. h)
            (λ e.
              if-both (Justified hosts p) s.plan.source_trusted (confirm hosts ref s)
                (some (trust_waiting ref), s) (λ t. confirm-Justified ref s h) (λ t. h)))

  start_seen-Justified :
      (window : WindowPlan) (ref : TmuxRef) (s : State hosts) (r : Reply PaneState × World)
      → IsGuarded hosts p s.trace
      → Justified hosts p (start_seen hosts window ref s r)
  unfolding Justified Guard IsGuarded
  start_seen-Justified window ref s (answer st, w) h =
      start_in-Justified ref st
        (record s { world = w; trace = saw_pane destination ref st ∷ s.trace }) (Memᴰ.head refl)
        (tt, h)
  start_seen-Justified window ref s (remote_error not_found, w) h =
      start_new-Justified window (record s { world = w; plan = record s.plan { dest_ref = none } })
        h
  start_seen-Justified window ref s (remote_error unavailable, w) h = h
  start_seen-Justified window ref s (remote_error conflict, w) h = h
  start_seen-Justified window ref s (remote_error other_code, w) h = h

  start_at-Justified :
      (window : WindowPlan) (o : Option TmuxRef) (s : State hosts)
      → IsGuarded hosts p s.trace
      → Justified hosts p (start_at hosts window o s)
  start_at-Justified window none s h = start_new-Justified window s h
  start_at-Justified window (some ref) s h =
      start_seen-Justified window ref s (pane_state destination ref s.world) h

  start_by-Justified :
      (o : Option WindowPlan) (s : State hosts)
      → IsGuarded hosts p s.trace
      → Justified hosts p (start_by hosts o s)
  unfolding Guard
  start_by-Justified (some window) s h = start_at-Justified window s.plan.dest_ref s h
  start_by-Justified none s h =
      call-Justified hosts p s (λ u. resumed_under_pty) (run_pty_resume s.plan.dest_cwd s.world)
        (keep_exited hosts) h (λ u. tt)
        (λ u w g.
          keep_registry-Justified (exited_entry hosts)
            (record s { world = w; trace = resumed_under_pty ∷ s.trace }) g)

  -- Started afresh, the step `start` types its command only into a window that it opened or into a
  -- pane in which it saw a shell.
  pub run_start-Justified : (w : World) → Justified hosts p (run_start hosts (fresh hosts p w))
  unfolding run_start IsGuarded
  run_start-Justified w = start_by-Justified p.window (fresh hosts p w) tt
