-- ===== src/Orchestrate/Steps/Verify/Gone.antt =====
-- When the step `thaw+exit` counts as done.
use go_claude_teleport.Base.{
  Bool, true, false, ◌||◌, ◌∷◌, Option, none, some, ◌≡◌, refl, ◌⊎◌, inl, inr, if◌then◌else◌,
}
use go_claude_teleport.Tmux.Window.{TmuxRef}
use go_claude_teleport.Orchestrate.Endpoint.{
  Reply, answer, remote_error, source, Registry, PaneState, Hosts, is_shell,
}
use go_claude_teleport.Orchestrate.Steps.{Plan, State, call_error, saw_status}
use go_claude_teleport.Orchestrate.Steps.Exit.{is_source, is_pane_gone}
use go_claude_teleport.Orchestrate.Steps.Guarded.{fresh}
use go_claude_teleport.Orchestrate.Steps.Verify.{
  yes, no, check_fails, answer_of, pane_verified, pane_at, source_verified, verify_thaw_exit,
  Verified,
}

module _ (hosts : Hosts Plan) where
  open hosts use {World, claude_status, pane_state, is_placeholder}

  -- The pane went with the source, or holds the placeholder or a shell.
  unfoldable pub IsLeft : Reply PaneState → Type 0
  IsLeft (remote_error c) = is_pane_gone hosts c ≡ true
  IsLeft (answer st) = (is_placeholder st.argv ≡ true) ⊎ (is_shell st.command ≡ true)

  unfoldable pub IsPaneLeft : Option TmuxRef → World → Type 0
  unfolding IsLeft
  IsPaneLeft none w = Unit
  IsPaneLeft (some ref) w = IsLeft (pane_state source ref w).0

  -- The source's host answered that its process is not the session's any more, and its pane is left.
  unfoldable pub IsGone : Plan → World → Type 0
  unfolding IsPaneLeft
  IsGone p w =
      (o : Option Registry) × ((claude_status source w).0 ≡ answer o)
      × (is_source hosts p.source_pid o ≡ false)
      × IsPaneLeft p.source_pane (claude_status source w).1

  either : (a b : Bool) → answer_of (a || b) ≡ yes → (a ≡ true) ⊎ (b ≡ true)
  either true b h = inl refl
  either false true h = inr refl
  either false false h = cc

  pane_verified-IsLeft :
      (ref : TmuxRef) (s : State hosts) (r : Reply PaneState × World)
      → (pane_verified hosts ref s r).0 ≡ yes
      → IsLeft r.0
  unfolding IsLeft
  pane_verified-IsLeft ref s (answer st, w) h =
      either (is_placeholder st.argv) (is_shell st.command) h
  pane_verified-IsLeft ref s (remote_error c, w) h = gone (is_pane_gone hosts c) h
    where
      gone :
          (b : Bool)
          → (if◌then◌else◌ {A = Verified hosts} b
              (yes, record s { world = w })
              (check_fails (call_error c), record s { world = w })).0
            ≡ yes
          → b ≡ true
      gone true h = refl
      gone false h = cc

  pane_at-IsPaneLeft :
      (o : Option TmuxRef) (s : State hosts) → (pane_at hosts o s).0 ≡ yes → IsPaneLeft o s.world
  unfolding IsPaneLeft
  pane_at-IsPaneLeft none s h = tt
  pane_at-IsPaneLeft (some ref) s h = pane_verified-IsLeft ref s (pane_state source ref s.world) h

  source_verified-IsGone :
      (s : State hosts) (r : Reply (Option Registry) × World)
      → (source_verified hosts s r).0 ≡ yes
      → (o : Option Registry) × (r.0 ≡ answer o)
        × (is_source hosts s.plan.source_pid o ≡ false)
        × IsPaneLeft s.plan.source_pane r.1
  source_verified-IsGone s (remote_error c, w) h = cc
  source_verified-IsGone s (answer o, w) h = seen (is_source hosts s.plan.source_pid o) refl h
    where
      s1 : State hosts
      s1 = record s { world = w; trace = saw_status source o ∷ s.trace }

      seen :
          (b : Bool)
          → is_source hosts s.plan.source_pid o ≡ b
          → (if◌then◌else◌ {A = Verified hosts} b (no, s1) (pane_at hosts s.plan.source_pane s1)).0
            ≡ yes
          → (o1 : Option Registry) × (answer o ≡ answer o1)
            × (is_source hosts s.plan.source_pid o1 ≡ false)
            × IsPaneLeft s.plan.source_pane w
      seen true e k = cc
      seen false e k = (o, refl, e, pane_at-IsPaneLeft s.plan.source_pane s1 k)

  -- The step `thaw+exit` counts as done only when the plan's session was not running, or when the
  -- source's host answers that the session's process is gone and the source's pane, where it had one,
  -- is gone or unreachable too, or holds the placeholder or a shell.
  pub verify_thaw_exit-IsGone :
      (p : Plan) (w : World)
      → (verify_thaw_exit hosts (fresh hosts p w)).0 ≡ yes
      → (p.source_running ≡ false) ⊎ IsGone p w
  unfolding verify_thaw_exit IsGone
  verify_thaw_exit-IsGone p w h = running p.source_running refl h
    where
      running :
          (b : Bool)
          → p.source_running ≡ b
          → (if◌then◌else◌ {A = Verified hosts} b
              (source_verified hosts (fresh hosts p w) (claude_status source w))
              (yes, fresh hosts p w)).0
            ≡ yes
          → (p.source_running ≡ false) ⊎ IsGone p w
      running false e k = inl e
      running true e k = inr (source_verified-IsGone (fresh hosts p w) (claude_status source w) k)
