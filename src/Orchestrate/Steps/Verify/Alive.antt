-- ===== src/Orchestrate/Steps/Verify/Alive.antt =====
-- When the step `start` counts as done.
use go_claude_teleport.Base.{
  Bool, true, false, bytes_eq_iff, Option, none, some, ◌∷◌, ◌≡◌, refl, if◌then◌else◌,
}
use go_claude_teleport.Tmux.Window.{TmuxRef, ref_string}
use go_claude_teleport.Orchestrate.Endpoint.{
  Reply, answer, remote_error, destination, Registry, Hosts, WindowPlan,
}
use go_claude_teleport.Orchestrate.Steps.{Plan, State, saw_status}
use go_claude_teleport.Orchestrate.Steps.Guarded.{fresh}
use go_claude_teleport.Orchestrate.Steps.Verify.{
  yes, no, is_in_pane, confirm_alive, start_alive, verify_start_in, verify_start, Verified,
}

module _ (hosts : Hosts Plan) where
  open hosts use {World, claude_status}

  -- The reply names a live session whose registry holds the pane.
  unfoldable pub IsAliveIn : TmuxRef → Reply (Option Registry) → Type 0
  IsAliveIn ref r = (reg : Registry) × (r ≡ answer (some reg)) × (reg.tmux ≡ ref_string ref)

  seen-IsAliveIn :
      (ref : TmuxRef) (o : Option Registry)
      → is_in_pane hosts ref o ≡ true
      → IsAliveIn ref (answer o)
  unfolding is_in_pane IsAliveIn
  seen-IsAliveIn ref none h = cc
  seen-IsAliveIn ref (some reg) h = (reg, refl, (bytes_eq_iff reg.tmux (ref_string ref)).0 h)

  start_alive-IsAliveIn :
      (ref : TmuxRef) (s : State hosts) (r : Reply (Option Registry) × World)
      → (start_alive hosts ref s r).0 ≡ yes
      → IsAliveIn ref r.0
  start_alive-IsAliveIn ref s (remote_error c, w) h = cc
  start_alive-IsAliveIn ref s (answer o, w) h = seen (is_in_pane hosts ref o) refl h
    where
      s1 : State hosts
      s1 = record s { world = w; trace = saw_status destination o ∷ s.trace }

      seen :
          (b : Bool)
          → is_in_pane hosts ref o ≡ b
          → (if◌then◌else◌ {A = Verified hosts} b (confirm_alive hosts ref s1) (no, s1)).0 ≡ yes
          → IsAliveIn ref (answer o)
      seen true e k = seen-IsAliveIn ref o e
      seen false e k = cc

  -- The step `start`, with a tmux window planned, counts as done only when the plan knows the pane it
  -- started and the destination answers that the session is alive in that pane.
  pub verify_start-IsAliveIn :
      (p : Plan) (window : WindowPlan) (w : World)
      → p.window ≡ some window
      → (verify_start hosts (fresh hosts p w)).0 ≡ yes
      → (ref : TmuxRef) × (p.dest_ref ≡ some ref) × IsAliveIn ref (claude_status destination w).0
  unfolding verify_start
  verify_start-IsAliveIn p window w planned h = at p.window p.dest_ref refl planned refl h
    where
      at :
          (o : Option WindowPlan) (r : Option TmuxRef)
          → p.window ≡ o
          → o ≡ some window
          → p.dest_ref ≡ r
          → (verify_start_in hosts o r (fresh hosts p w)).0 ≡ yes
          → (ref : TmuxRef) × (p.dest_ref ≡ some ref)
            × IsAliveIn ref (claude_status destination w).0
      at none r e1 e2 e3 k = cc
      at (some x) none e1 e2 e3 k = cc
      at (some x) (some ref) e1 e2 e3 k =
          (ref, e3, start_alive-IsAliveIn ref (fresh hosts p w) (claude_status destination w) k)
