-- ===== src/Job/Run/Resume.antt =====
-- A run that is started again goes on where the last one stopped.
use go_claude_teleport.Base.{
  Bool, true, Option, none, some, List, [], ◌∷◌, ◌++◌, Bytes, ◌≡◌, refl, ◌⊎◌, inl, inr, arith,
}
use go_claude_teleport.Job.Journal.{Journal, StepState, ensure_step, find_step, is_done}
use go_claude_teleport.Job.Save.{Error, Result, ok, Os}
use go_claude_teleport.Job.Run.{done_at, Step, go, run_step, run_steps, enter_step, after_verify}

-- `Step` appends nothing for a name that the table has.
ensure_step-done : (n : Bytes) (xs : List StepState) → done_at n xs ≡ true → ensure_step n xs ≡ xs
unfolding done_at find_step ensure_step
ensure_step-done n [] h = cc
ensure_step-done n (x ∷ xs) h = ground (arith, ensure_step-done n xs)

module _ (os : Os) (ctx_err : os.World → Option Error) where
  open os use {World}

  -- The journal has the step done before and after its `Verify`, if it has one, which confirms it.
  abbrev pub IsConfirmed : Step os ctx_err → Journal → World → Journal → World → Type 0
  IsConfirmed s j w j1 w1 =
      (done_at s.name j.steps ≡ true)
      × (((s.verify ≡ none) × (j1 ≡ j) × (w1 ≡ w))
          ⊎ ((v : Journal → World → Result Bool × Journal × World) × (s.verify ≡ some v)
              × (v j w ≡ (ok true, j1, w1))
              × (done_at s.name j1.steps ≡ true)))

  -- The steps are confirmed one after the other, each from what the one before it left.
  abbrev pub AreConfirmed : List (Step os ctx_err) → Journal → World → Journal → World → Type 0
  AreConfirmed [] j w j1 w1 = (j1 ≡ j) × (w1 ≡ w)
  AreConfirmed (s ∷ ss) j w j1 w1 =
      (j2 : Journal) × (w2 : World) × IsConfirmed s j w j2 w2 × AreConfirmed ss j2 w2 j1 w1

  run_step-confirmed :
      (s : Step os ctx_err) (j : Journal) (w : World) (j1 : Journal) (w1 : World)
      → IsConfirmed s j w j1 w1
      → run_step os ctx_err s j w ≡ go j1 w1
  unfolding run_step enter_step after_verify
  run_step-confirmed s j w j1 w1 (is_done, inl (e, same_journal, same_world)) =
      rw (ensure_step-done s.name j.steps is_done)
        (rw e (rw (is_done, same_journal, same_world) refl))
  run_step-confirmed s j w j1 w1 (is_done, inr (v, e, verified, still_done)) =
      rw (ensure_step-done s.name j.steps is_done) (rw e (rw verified (rw still_done refl)))

  -- Steps that the journal has done, and that `Verify`, where they have one, confirms, are passed over:
  -- none of them is run or marked, nothing is saved for them, and the run goes on with the rest from
  -- the journal and the world that the calls of `Verify` left.
  pub run_steps-resume :
      (before rest : List (Step os ctx_err)) (j : Journal) (w : World) (j1 : Journal) (w1 : World)
      → AreConfirmed before j w j1 w1
      → run_steps os ctx_err (before ++ rest) j w ≡ run_steps os ctx_err rest j1 w1
  unfolding run_steps
  run_steps-resume [] rest j w j1 w1 (same_journal, same_world) = rw (same_journal, same_world) refl
  run_steps-resume (s ∷ before) rest j w j1 w1 (j2, w2, h, all) =
      rw (run_step-confirmed s j w j2 w2 h, run_steps)
        (run_steps-resume before rest j2 w2 j1 w1 all)
