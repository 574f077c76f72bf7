-- ===== src/Orchestrate/Runner/Succeeds.antt =====
-- What a runner that returns no error has done.
use go_claude_teleport.Base.{
  ℤ, true, false, Option, none, some, List, [], ◌∷◌, Bytes, ◌≡◌, refl, ap, ◌∙◌, All,
}
use go_claude_teleport.Job.Journal.{Journal, StepState, success, no_outcome}
use go_claude_teleport.Job.Save.{Error, Result, ok, err, Os, save, open_journal}
use go_claude_teleport.Job.Save.Fields.{save-fields}
use go_claude_teleport.Job.Run.{Step, Flow, go, stop, run_steps, done_at}
use go_claude_teleport.Job.Run.Frame.{KeepsTable}
use go_claude_teleport.Job.Run.Progress.{IsDistinct, AllDone, Progress, run_steps-Progress}
use go_claude_teleport.Orchestrate.Runner.{
  Effects, Ending, fail_early, record_end, run_job, after_save, run_saved, run_dialled, run_planned,
  run_opened,
}

module _ (os : Os) (ctx_err : os.World → Option Error) (fx : Effects os ctx_err) (getpid : ℤ) where
  open os use {World, now}

  -- The ending's journal has all the steps of the plan done, and its outcome is success.
  abbrev IsDone : fx.Plan → Ending os ctx_err → Type 0
  IsDone p r =
      (j : Journal) × (r.journal ≡ some j)
      × AllDone os ctx_err (fx.steps p) j
      × (j.outcome ≡ success)

  -- The journal that was opened has a plan, and that plan's steps are done.
  abbrev pub IsFinished : Result (Option Journal) → Ending os ctx_err → Type 0
  IsFinished opening r =
      (j : Journal) × (p : fx.Plan) × (opening ≡ ok (some j)) × (fx.plan_of j ≡ ok p) × IsDone p r

  abbrev Succeeds : fx.Plan → Ending os ctx_err → Type 0
  Succeeds p r = r.error ≡ none → IsDone p r

  after_save-Succeeds :
      (p : fx.Plan) (r : (Option Error × Journal) × World)
      → AllDone os ctx_err (fx.steps p) r.0.1
      → r.0.1.outcome ≡ success
      → Succeeds p (after_save os ctx_err fx getpid none r)
  after_save-Succeeds p ((none, j), w) all out e = (j, refl, all, out)
  after_save-Succeeds p ((some f, j), w) all out e = cc

  after_failure-Succeeds :
      (p : fx.Plan) (e : Error) (r : (Option Error × Journal) × World)
      → Succeeds p (after_save os ctx_err fx getpid (some e) r)
  after_failure-Succeeds p e ((none, j), w) h = cc
  after_failure-Succeeds p e ((some f, j), w) h = cc

  AllDone-steps :
      (ss : List (Step os ctx_err)) (j k : Journal)
      → k.steps ≡ j.steps
      → AllDone os ctx_err ss j
      → AllDone os ctx_err ss k
  AllDone-steps [] j k e all = tt
  AllDone-steps (s ∷ ss) j k e (h, all) = (ap (done_at s.name) e ∙ h, AllDone-steps ss j k e all)

  record_end-Succeeds :
      (p : fx.Plan) (xs : List StepState) (f : Flow os ctx_err)
      → Progress os ctx_err (fx.steps p) xs f
      → Succeeds p (record_end os ctx_err fx getpid p f)
  unfolding record_end
  record_end-Succeeds p xs (go j w) (all, fin, out) =
      let k : Journal = record j { outcome = success; finished = true; updated_at = now w } in
      let h = save-fields os k w in
      after_save-Succeeds p (save os k w) (AllDone-steps (fx.steps p) j (save os k w).0.1 h.0 all)
        h.2
  record_end-Succeeds p xs (stop e j w) progress = after_failure-Succeeds p e (save os _ _)

  module _ (keeps : (p : fx.Plan) → All (KeepsTable os ctx_err) (fx.steps p))
      (distinct : (p : fx.Plan) → IsDistinct os ctx_err (fx.steps p)) where
    run_saved-Succeeds :
        (p : fx.Plan) (r : (Option Error × Journal) × World)
        → Succeeds p (run_saved os ctx_err fx getpid p r)
    run_saved-Succeeds p ((some e, j), w) = unfold fail_early in λ h. cc
    run_saved-Succeeds p ((none, j), w) =
        record_end-Succeeds p j.steps (run_steps os ctx_err (fx.steps p) j w)
          (run_steps-Progress os ctx_err (fx.steps p) j w (keeps p) (distinct p))

    run_dialled-Succeeds :
        (p : fx.Plan) (j : Journal) (r : Option Error × World)
        → Succeeds p (run_dialled os ctx_err fx getpid p j r)
    run_dialled-Succeeds p j (some e, w) = unfold fail_early in λ h. cc
    run_dialled-Succeeds p j (none, w) =
        run_saved-Succeeds p
          (save os (record j { runner_pid = getpid; finished = false; outcome = no_outcome }) w)

    run_opened-Succeeds :
        (w : World) (r : Result (Option Journal))
        → (run_opened os ctx_err fx getpid w r).error ≡ none
        → IsFinished r (run_opened os ctx_err fx getpid w r)
    run_opened-Succeeds w (err e) = λ h. cc
    run_opened-Succeeds w (ok none) = λ h. cc
    run_opened-Succeeds w (ok (some j)) = planned (fx.plan_of j) refl
      where
        planned :
            (r : Result fx.Plan)
            → fx.plan_of j ≡ r
            → (run_planned os ctx_err fx getpid j w r).error ≡ none
            → IsFinished (ok (some j)) (run_planned os ctx_err fx getpid j w r)
        planned (err e) q = unfold fail_early in λ h. cc
        planned (ok p) q = λ h. (j, p, refl, q, run_dialled-Succeeds p j (fx.factory p w) h)

    -- A runner that returns no error opened a journal, read its plan from it, and ends with a journal
    -- whose outcome is success and in which every step of that plan is done. The names of the steps of
    -- a plan are distinct, and their closures leave a table of steps that has their own entry as it is.
    pub run_job-Succeeds :
        (data_dir id : Bytes) (w : World)
        → (run_job os ctx_err fx getpid data_dir id w).error ≡ none
        → IsFinished (open_journal os data_dir id w) (run_job os ctx_err fx getpid data_dir id w)
    unfolding run_job
    run_job-Succeeds data_dir id w = run_opened-Succeeds w (open_journal os data_dir id w)
