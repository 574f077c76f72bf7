-- ===== src/Job/Run/Order.antt =====
-- In which order the runner takes the steps, and what it leaves when it stops.
use go_claude_teleport.Base.{
  ℕ, Bool, true, false, Option, none, some, List, ◌++◌, Bytes, codes, bytes_eq_refl, ◌≡◌, refl, ap,
  ◌∙◌, arith, inl, inr, Bool-cases,
}
use go_claude_teleport.Job.Journal.{Journal, StepState, ensure_step, update_step}
use go_claude_teleport.Job.Journal.Steps.{find_step-update_step}
use go_claude_teleport.Job.Save.{Error, wrapped, Result, ok, err, Os, save}
use go_claude_teleport.Job.Save.Fields.{save-fields}
use go_claude_teleport.Job.Run.{
  done_at, mark_running, mark_done, Step, Flow, go, stop, saved_then, failed_save, fail,
  finish_step, after_run, attempt_unless, after_verify, enter_step, run_step,
}
use go_claude_teleport.Job.Run.Frame.{
  has_step, has_step-ensure, has_step-update, has_step-saved, KeepsTable,
}

done_at-update :
    (n : Bytes) (t : ℕ) (xs : List StepState)
    → has_step n xs ≡ true
    → done_at n (update_step n (mark_done t) xs) ≡ true
unfolding has_step done_at
done_at-update n t xs h =
    ground (arith, find_step-update_step n n (mark_done t) xs (λ x. refl), bytes_eq_refl n)

module _ (os : Os) (ctx_err : os.World → Option Error) where
  open os use {World, now}

  -- A flow that goes on has the step `n` done.
  abbrev pub DoneIfGo : Bytes → Flow os ctx_err → Type 0
  DoneIfGo n (go j w) = done_at n j.steps ≡ true
  DoneIfGo n (stop e j w) = Unit

  failed_save-Done :
      (n : Bytes) (e : Error) (r : (Option Error × Journal) × World)
      → DoneIfGo n (failed_save os ctx_err e r)
  failed_save-Done n e ((none, j), w) = tt
  failed_save-Done n e ((some f, j), w) = tt

  fail-Done :
      (n : Bytes) (e : Error) (j : Journal) (w : World) → DoneIfGo n (fail os ctx_err n e j w)
  unfolding fail
  fail-Done n e j w = failed_save-Done n (wrapped (codes "step " ++ n) e) (save os _ w)

  saved_then-Done :
      (n : Bytes) (r : (Option Error × Journal) × World) (next : Journal → World → Flow os ctx_err)
      → DoneIfGo n (next r.0.1 r.1)
      → DoneIfGo n (saved_then os ctx_err r next)
  unfolding saved_then
  saved_then-Done n ((none, j), w) next h = h
  saved_then-Done n ((some e, j), w) next h = tt

  finish_step-Done :
      (n : Bytes) (j : Journal) (w : World)
      → has_step n j.steps ≡ true
      → DoneIfGo n (finish_step os ctx_err n j w)
  unfolding finish_step
  finish_step-Done n j w h =
      let j1 : Journal = record j { steps = update_step n (mark_done (now w)) j.steps } in
      saved_then-Done n (save os j1 w) go
        (rw (save-fields os j1 w).0 (done_at-update n (now w) j.steps h))

  after_run-Done :
      (n : Bytes) (r : Option Error × Journal × World)
      → has_step n r.1.steps ≡ true
      → DoneIfGo n (after_run os ctx_err n r)
  unfolding after_run
  after_run-Done n (some e, j, w) h = fail-Done n e j w
  after_run-Done n (none, j, w) h = finish_step-Done n j w h

  module _ (s : Step os ctx_err) (keeps : KeepsTable os ctx_err s) where
    attempt-Done :
        (c : Option Error) (j : Journal) (w : World)
        → has_step s.name j.steps ≡ true
        → DoneIfGo s.name (attempt_unless os ctx_err c s j w)
    unfolding attempt_unless
    attempt-Done (some e) j w h = fail-Done s.name e j w
    attempt-Done none j w h =
        let j1 : Journal = record j { steps = update_step s.name (mark_running (now w)) j.steps } in
        let saved = save os j1 w in
        saved_then-Done s.name saved (λ j2 w2. after_run os ctx_err s.name (s.run j2 w2))
          (after_run-Done s.name (s.run saved.0.1 saved.1) (
            ap (has_step s.name) (
              keeps.run_keeps saved.0.1 saved.1 (has_step-saved os s.name (now w) j w h)
              ∙ (save-fields os j1 w).0)
            ∙ has_step-update s.name (mark_running (now w)) j.steps (λ x. refl) h))

    after_verify-Done :
        (r : Result Bool × Journal × World)
        → has_step s.name r.1.steps ≡ true
        → DoneIfGo s.name (after_verify os ctx_err s r)
    unfolding after_verify
    after_verify-Done (err e, j, w) h = fail-Done s.name (wrapped (codes "verify") e) j w
    after_verify-Done (ok false, j, w) h = attempt-Done (ctx_err w) j w h
    after_verify-Done (ok true, j, w) h = elim (Bool-cases (done_at s.name j.steps)) [
      | inl e ↦ rw e e
      | inr e ↦ rw e (finish_step-Done s.name j w h)
    ]

    enter_step-Done :
        (v : Option (Journal → World → Result Bool × Journal × World)) (j : Journal) (w : World)
        → s.verify ≡ v
        → has_step s.name j.steps ≡ true
        → DoneIfGo s.name (enter_step os ctx_err v s j w)
    unfolding enter_step
    enter_step-Done (some v) j w e h =
        after_verify-Done (v j w) (ap (has_step s.name) (keeps.verify_keeps v e j w h) ∙ h)
    enter_step-Done none j w e h = elim (Bool-cases (done_at s.name j.steps)) [
      | inl d ↦ rw d d
      | inr d ↦ rw d (attempt-Done (ctx_err w) j w h)
    ]

    -- The runner goes on from a step only when the journal has it done.
    pub run_step-Done : (j : Journal) (w : World) → DoneIfGo s.name (run_step os ctx_err s j w)
    unfolding run_step
    run_step-Done j w =
        enter_step-Done s.verify (record j { steps = ensure_step s.name j.steps }) w refl
          (has_step-ensure s.name j.steps)
