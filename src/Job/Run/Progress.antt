-- ===== src/Job/Run/Progress.antt =====
-- What a whole run of the steps guarantees, when it succeeds and when it stops.
use go_claude_teleport.Base.{
  true, Option, none, some, List, [], ◌∷◌, ◌++◌, Bytes, ◌≡◌, ◌≢◌, refl, ap, ◌∙◌, All, take, arith,
}
use go_claude_teleport.Job.Journal.{Journal, StepState, success, find_step}
use go_claude_teleport.Job.Save.{Error, Os, save}
use go_claude_teleport.Job.Save.Fields.{save-fields}
use go_claude_teleport.Job.Run.{done_at, Step, Flow, go, stop, saved_then, run_step, run_steps}
use go_claude_teleport.Job.Run.Frame.{KeepsTable, SameButAt, journal_of, run_step-Touches}
use go_claude_teleport.Job.Run.Order.{DoneIfGo, run_step-Done}

done_at-find :
    (n : Bytes) (xs ys : List StepState)
    → find_step n ys ≡ find_step n xs
    → done_at n xs ≡ true
    → done_at n ys ≡ true
unfolding done_at
done_at-find n xs ys e h = ground arith

module _ (os : Os) (ctx_err : os.World → Option Error) where
  open os use {World}

  -- The name belongs to none of the steps.
  abbrev pub IsNotIn : Bytes → List (Step os ctx_err) → Type 0
  IsNotIn n = All (λ s. n ≢ s.name)

  abbrev pub IsDistinct : List (Step os ctx_err) → Type 0
  IsDistinct [] = Unit
  IsDistinct (s ∷ ss) = IsNotIn s.name ss × IsDistinct ss

  abbrev pub AllDone : List (Step os ctx_err) → Journal → Type 0
  AllDone ss j = All (λ s. done_at s.name j.steps ≡ true) ss

  -- Where a run stopped: the steps that it passed, all done, and the rest, of which it touched the
  -- first alone. With no rest the last save failed.
  pub record StopsAt (ss : List (Step os ctx_err)) (xs : List StepState) (j : Journal)
      : Type 0 where
    pub passed : List (Step os ctx_err)
    pub rest : List (Step os ctx_err)
    pub split : ss ≡ passed ++ rest
    pub all_done : AllDone passed j
    pub untouched :
        (n : Bytes)
        → IsNotIn n passed
        → IsNotIn n (take 1 rest)
        → find_step n j.steps ≡ find_step n xs

  abbrev pub Progress : List (Step os ctx_err) → List StepState → Flow os ctx_err → Type 0
  Progress ss xs (go j w) = AllDone ss j × (j.finished ≡ true) × (j.outcome ≡ success)
  Progress ss xs (stop e j w) = StopsAt ss xs j

  abbrev continue_with : List (Step os ctx_err) → Flow os ctx_err → Flow os ctx_err
  continue_with ss f = elim f [ go j w ↦ run_steps os ctx_err ss j w | stop e j w ↦ stop e j w ]

  last_save-Progress :
      (xs : List StepState) (r : (Option Error × Journal) × World)
      → (r.0.1.steps ≡ xs)
      → (r.0.1.finished ≡ true)
      → (r.0.1.outcome ≡ success)
      → Progress [] xs (saved_then os ctx_err r go)
  unfolding saved_then
  last_save-Progress xs ((none, j), w) same fin out = (tt, fin, out)
  last_save-Progress xs ((some e, j), w) same fin out = record {
    passed = [];
    rest = [];
    split = refl;
    all_done = tt;
    untouched = λ n a b. ap (find_step n) same;
  }

  last_save-steps :
      (xs : List StepState) (r : (Option Error × Journal) × World)
      → (r.0.1.steps ≡ xs)
      → (journal_of os ctx_err (saved_then os ctx_err r go)).steps ≡ xs
  unfolding saved_then
  last_save-steps xs ((none, j), w) same = same
  last_save-steps xs ((some e, j), w) same = same

  continue_with-find :
      (ss : List (Step os ctx_err)) (n : Bytes) (xs : List StepState) (f : Flow os ctx_err)
      → find_step n (journal_of os ctx_err f).steps ≡ find_step n xs
      → ((j : Journal) (w : World)
          → find_step n (journal_of os ctx_err (run_steps os ctx_err ss j w)).steps
            ≡ find_step n j.steps)
      → find_step n (journal_of os ctx_err (continue_with ss f)).steps ≡ find_step n xs
  continue_with-find ss n xs (go j w) first later = later j w ∙ first
  continue_with-find ss n xs (stop e j w) first later = first

  -- A run leaves every entry alone whose name belongs to no step.
  run_steps-find :
      (ss : List (Step os ctx_err)) (j : Journal) (w : World) (n : Bytes)
      → All (KeepsTable os ctx_err) ss
      → IsNotIn n ss
      → find_step n (journal_of os ctx_err (run_steps os ctx_err ss j w)).steps
        ≡ find_step n j.steps
  unfolding run_steps
  run_steps-find [] j w n keeps out =
      let j1 : Journal = record j { finished = true; outcome = success } in
      ap (find_step n) (last_save-steps j.steps (save os j1 w) (save-fields os j1 w).0)
  run_steps-find (s ∷ ss) j w n (k, ks) (ne, out) =
      continue_with-find ss n j.steps (run_step os ctx_err s j w)
        (run_step-Touches os ctx_err s k j w n ne) (λ j1 w1. run_steps-find ss j1 w1 n ks out)

  -- One step more in front of a run that stopped.
  StopsAt-passed :
      (s : Step os ctx_err) (ss : List (Step os ctx_err)) (xs ys : List StepState) (j : Journal)
      → SameButAt s.name xs ys
      → done_at s.name j.steps ≡ true
      → StopsAt ss ys j
      → StopsAt (s ∷ ss) xs j
  StopsAt-passed s ss xs ys j same is_done at = record {
    passed = s ∷ at.passed;
    rest = at.rest;
    split = ap (λ l. s ∷ l) at.split;
    all_done = (is_done, at.all_done);
    untouched = λ n (ne, out) first. at.untouched n out first ∙ same n ne;
  }

  Progress-cons :
      (s : Step os ctx_err) (ss : List (Step os ctx_err)) (xs ys : List StepState)
      (f : Flow os ctx_err)
      → SameButAt s.name xs ys
      → done_at s.name (journal_of os ctx_err f).steps ≡ true
      → Progress ss ys f
      → Progress (s ∷ ss) xs f
  Progress-cons s ss xs ys (go j w) same is_done (all, fin, out) = ((is_done, all), fin, out)
  Progress-cons s ss xs ys (stop e j w) same is_done at =
      StopsAt-passed s ss xs ys j same is_done at

  continue_with-Progress :
      (s : Step os ctx_err) (ss : List (Step os ctx_err)) (xs : List StepState)
      (f : Flow os ctx_err)
      → All (KeepsTable os ctx_err) ss
      → IsNotIn s.name ss
      → SameButAt s.name xs (journal_of os ctx_err f).steps
      → DoneIfGo os ctx_err s.name f
      → ((j : Journal) (w : World) → Progress ss j.steps (run_steps os ctx_err ss j w))
      → Progress (s ∷ ss) xs (continue_with ss f)
  continue_with-Progress s ss xs (go j w) ks out same is_done later =
      let f = run_steps os ctx_err ss j w in
      Progress-cons s ss xs j.steps f same
        (done_at-find s.name j.steps (journal_of os ctx_err f).steps
          (run_steps-find ss j w s.name ks out) is_done)
        (later j w)
  continue_with-Progress s ss xs (stop e j w) ks out same is_done later = record {
    passed = [];
    rest = s ∷ ss;
    split = refl;
    all_done = tt;
    untouched = λ n a b. same n b.0;
  }

  -- The steps run in order, each on the success of the one before it. If `Run` succeeds, every step
  -- is done in the journal, which is finished with success. If it stops, the steps before some
  -- point are done, and of the steps from there on at most the first was touched: the entries of
  -- all the others are what they were. The names of the steps are distinct, and the closures of
  -- each step leave a table of steps that has its own entry as it is.
  pub run_steps-Progress :
      (ss : List (Step os ctx_err)) (j : Journal) (w : World)
      → All (KeepsTable os ctx_err) ss
      → IsDistinct ss
      → Progress ss j.steps (run_steps os ctx_err ss j w)
  unfolding run_steps
  run_steps-Progress [] j w keeps distinct =
      let j1 : Journal = record j { finished = true; outcome = success } in
      let (steps, fin, out) = save-fields os j1 w in
      last_save-Progress j.steps (save os j1 w) steps fin out
  run_steps-Progress (s ∷ ss) j w (k, ks) (out, distinct) =
      continue_with-Progress s ss j.steps (run_step os ctx_err s j w) ks out
        (run_step-Touches os ctx_err s k j w) (run_step-Done os ctx_err s k j w)
        (λ j1 w1. run_steps-Progress ss j1 w1 ks distinct)
