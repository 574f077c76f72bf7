-- ===== src/Orchestrate/Steps/Guarded.antt =====
-- What the steps do to a session is justified by what they saw or did before.
pub mod Shaping
pub mod Starting
pub mod Exiting
use mathlib.Core.List.{Memᴰ}
use mathlib.Core.List.Memᴰ
use go_claude_teleport.Base.{
  ℤ, Bool, true, false, Option, none, some, List, [], ◌∷◌, Bytes, ◌≡◌, refl, ◌⊎◌, inl, inr,
}
use go_claude_teleport.Tmux.Window.{TmuxRef}
use go_claude_teleport.Orchestrate.Endpoint.{
  Code, not_found, conflict, Reply, answer, remote_error, Side, source, destination, Registry,
  PaneState, Hosts, is_shell,
}
use go_claude_teleport.Orchestrate.Steps.{
  Plan, Event, saw_status, saw_pane, froze, thawed, waited, exited, typed, killed, listed, opened,
  started, confirmed, resumed_under_pty, recorded, cleaned, saved, State, Out, call, persist,
  call_error,
}

-- A step's state at its start.
abbrev pub fresh : (hosts : Hosts Plan) → Plan → hosts.World → State hosts
fresh hosts p w = record { plan = p; world = w; trace = [] }

module _ (hosts : Hosts Plan) (p : Plan) where
  open hosts use {World, is_placeholder, save_journal, journal_put}

  -- A pane in which a shell was seen.
  unfoldable pub SawShell : Side → TmuxRef → List Event → Type 0
  SawShell side ref earlier =
      (st : PaneState) × Memᴰ (saw_pane side ref st) earlier × (is_shell st.command ≡ true)

  -- A process that the host said is the session's.
  unfoldable pub SawAlive : Side → ℤ → List Event → Type 0
  SawAlive side pid earlier =
      (reg : Registry) × Memᴰ (saw_status side (some reg)) earlier × (reg.pid ≡ pid)

  -- How the thaw ended decides which pane `ExitClaude` is given: the plan's own, if it has one, when the
  -- thaw worked or found no process, and none when it ended in a conflict.
  unfoldable pub ThawedFor : Option TmuxRef → ℤ → List Event → Type 0
  ThawedFor pane pid earlier =
      ((pane ≡ p.source_pane)
        × (Memᴰ (thawed pid (answer tt)) earlier
            ⊎ Memᴰ (thawed pid (remote_error not_found)) earlier))
      ⊎ ((pane ≡ none) × Memᴰ (thawed pid (remote_error conflict)) earlier)

  -- What must have happened before an act, in the same run of the step.
  unfoldable pub Guard : Event → List Event → Type 0
  unfolding SawShell SawAlive ThawedFor
  Guard (started ref argv) earlier = Memᴰ (opened ref) earlier ⊎ SawShell destination ref earlier
  Guard (typed source ref argv) earlier =
      (st : PaneState) × Memᴰ (saw_pane source ref st) earlier
      × (is_shell st.command ≡ true)
      × (is_placeholder st.argv ≡ false)
  Guard (exited source pane pid) earlier =
      (pid ≡ p.source_pid) × SawAlive source pid earlier × ThawedFor pane pid earlier
  Guard (exited destination pane pid) earlier =
      (pane ≡ p.dest_ref) × SawAlive destination pid earlier
  Guard (typed destination ref argv) earlier = p.dest_ref ≡ some ref
  Guard (killed ref) earlier =
      (p.dest_ref ≡ some ref) × (p.created_window ≡ true) × SawShell destination ref earlier
  Guard _ earlier = Unit

  unfoldable pub IsGuarded : List Event → Type 0
  unfolding Guard
  IsGuarded [] = Unit
  IsGuarded (e ∷ earlier) = Guard e earlier × IsGuarded earlier

  unfoldable pub Justified : Out hosts → Type 0
  Justified out = IsGuarded out.1.trace

  -- A call: its act is guarded, and so is what follows.
  pub call-Justified :
      {A : Type 0} (s : State hosts) (event : A → Event) (r : Reply A × World)
      (next : A → State hosts → Out hosts)
      → IsGuarded s.trace
      → ((a : A) → Guard (event a) s.trace)
      → ((a : A) (w : World)
          → IsGuarded (event a ∷ s.trace)
          → Justified (next a (record s { world = w; trace = event a ∷ s.trace })))
      → Justified (call hosts s event r next)
  unfolding Justified IsGuarded
  call-Justified s event (answer a, w) next h g k = k a w (g a, h)
  call-Justified s event (remote_error c, w) next h g k = h

  -- Saving the plan adds only that to the trace.
  pub persist-Justified :
      (s : State hosts) (next : State hosts → Out hosts)
      → IsGuarded s.trace
      → ((w : World)
          → IsGuarded (saved ∷ saved ∷ saved ∷ s.trace)
          → Justified (next (record s { world = w; trace = saved ∷ saved ∷ saved ∷ s.trace })))
      → Justified (persist hosts s next)
  unfolding persist Guard
  persist-Justified s next h k =
      call-Justified s (λ u. saved) (save_journal s.plan s.world) _ h (λ u. tt)
        (λ u w1 h1.
          call-Justified (record s { world = w1; trace = saved ∷ s.trace }) (λ u. saved)
            (journal_put source s.plan w1) _ h1 (λ u. tt)
            (λ u w2 h2.
              call-Justified (record s { world = w2; trace = saved ∷ saved ∷ s.trace }) (λ u. saved)
                (journal_put destination s.plan w2) _ h2 (λ u. tt) (λ u w3 h3. k w3 h3)))
