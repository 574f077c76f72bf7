-- ===== src/Job/Run/Frame.antt =====
-- What one step of the runner leaves alone: the entries of all other names.
use go_claude_teleport.Base.{
  ℕ, Bool, true, false, Option, none, some, List, Bytes, codes, bytes_eq_iff, bytes_eq_refl, ◌≡◌,
  ◌≢◌, refl, ap, ◌∙◌, arith, inl, inr, Bool-cases,
}
use go_claude_teleport.Job.Journal.{Journal, StepState, ensure_step, find_step, update_step}
use go_claude_teleport.Job.Journal.Steps.{find_step-ensure_step, find_step-update_step, KeepsName}
use go_claude_teleport.Job.Save.{Error, wrapped, Result, ok, err, Os, save, message}
use go_claude_teleport.Job.Save.Fields.{save-fields}
use go_claude_teleport.Job.Run.{
  done_at, mark_running, mark_done, mark_failed, Step, Flow, go, stop, saved_then, failed_save,
  fail, finish_step, after_run, attempt_unless, after_verify, enter_step, run_step,
}

-- Two tables agree on every name but `n`.
abbrev pub SameButAt : Bytes → List StepState → List StepState → Type 0
SameButAt n xs ys = (m : Bytes) → m ≢ n → find_step m ys ≡ find_step m xs

pub SameButAt-ensure : (n : Bytes) (xs : List StepState) → SameButAt n xs (ensure_step n xs)
SameButAt-ensure n xs m ne = ground (arith, find_step-ensure_step m n xs, bytes_eq_iff n m)

pub SameButAt-update :
    (n : Bytes) (f : StepState → StepState) (xs : List StepState)
    → KeepsName f
    → SameButAt n xs (update_step n f xs)
SameButAt-update n f xs k m ne = ground (arith, find_step-update_step m n f xs k, bytes_eq_iff n m)

SameButAt-trans :
    (n : Bytes) (xs ys zs : List StepState)
    → SameButAt n xs ys
    → SameButAt n ys zs
    → SameButAt n xs zs
SameButAt-trans n xs ys zs a b m ne = b m ne ∙ a m ne

KeepsName-running : (t : ℕ) → KeepsName (mark_running t)
KeepsName-running t x = refl

KeepsName-done : (t : ℕ) → KeepsName (mark_done t)
KeepsName-done t x = refl

KeepsName-failed : (t : ℕ) (e : Bytes) → KeepsName (mark_failed t e)
KeepsName-failed t e x = refl

-- The table has an entry of the name.
unfoldable pub has_step : Bytes → List StepState → Bool
unfolding find_step
has_step n xs = elim (find_step n xs) [ none ↦ false | some x ↦ true ]

pub has_step-ensure : (n : Bytes) (xs : List StepState) → has_step n (ensure_step n xs) ≡ true
unfolding has_step
has_step-ensure n xs = ground (arith, find_step-ensure_step n n xs, bytes_eq_refl n)

pub has_step-update :
    (n : Bytes) (f : StepState → StepState) (xs : List StepState)
    → KeepsName f
    → has_step n xs ≡ true
    → has_step n (update_step n f xs) ≡ true
unfolding has_step
has_step-update n f xs k h = ground (arith, find_step-update_step n n f xs k, bytes_eq_refl n)

-- A save keeps the entry that it marks as running.
pub has_step-saved :
    (os : Os) (n : Bytes) (t : ℕ) (j : Journal) (w : os.World)
    → has_step n j.steps ≡ true
    → has_step n (save os (record j { steps = update_step n (mark_running t) j.steps }) w).0.1.steps
      ≡ true
has_step-saved os n t j w h =
    ap (has_step n)
      (save-fields os (record j { steps = update_step n (mark_running t) j.steps }) w).0
    ∙ has_step-update n (mark_running t) j.steps (λ x. refl) h

module _ (os : Os) (ctx_err : os.World → Option Error) where
  open os use {World, now}

  -- The closures of a step leave a table of steps that has the step's own entry as it is. (Those of
  -- the program write the plan and read their own entry through `Step`, which appends only what the
  -- table has not.)
  pub record KeepsTable (s : Step os ctx_err) : Type 0 where
    pub verify_keeps :
        (v : Journal → World → Result Bool × Journal × World)
        → s.verify ≡ some v
        → (j : Journal) (w : World) → has_step s.name j.steps ≡ true
        → (v j w).1.steps ≡ j.steps
    pub run_keeps :
        (j : Journal) (w : World) → has_step s.name j.steps ≡ true → (s.run j w).1.steps ≡ j.steps

  -- The journal that a flow hands on or returns.
  abbrev pub journal_of : Flow os ctx_err → Journal
  journal_of (go j w) = j
  journal_of (stop e j w) = j

  -- The table of the journal at the end of a flow agrees with `xs` but at `n`.
  abbrev pub Touches : Bytes → List StepState → Flow os ctx_err → Type 0
  Touches n xs f = SameButAt n xs (journal_of f).steps

  failed_save-Touches :
      (n : Bytes) (xs : List StepState) (e : Error) (r : (Option Error × Journal) × World)
      → SameButAt n xs r.0.1.steps
      → Touches n xs (failed_save os ctx_err e r)
  failed_save-Touches n xs e ((none, j), w) h = h
  failed_save-Touches n xs e ((some f, j), w) h = h

  saved_then-Touches :
      (n : Bytes) (xs : List StepState) (r : (Option Error × Journal) × World)
      (next : Journal → World → Flow os ctx_err)
      → SameButAt n xs r.0.1.steps
      → Touches n xs (next r.0.1 r.1)
      → Touches n xs (saved_then os ctx_err r next)
  unfolding saved_then
  saved_then-Touches n xs ((none, j), w) next h k = k
  saved_then-Touches n xs ((some e, j), w) next h k = h

  -- A save after one write through the pointer of `n`.
  updated-save :
      (n : Bytes) (f : StepState → StepState) (j j1 : Journal) (w : World)
      → KeepsName f
      → j1.steps ≡ update_step n f j.steps
      → SameButAt n j.steps (save os j1 w).0.1.steps
  updated-save n f j j1 w k e = rw ((save-fields os j1 w).0, e) (SameButAt-update n f j.steps k)

  fail-Touches :
      (n : Bytes) (e : Error) (j : Journal) (w : World)
      → Touches n j.steps (fail os ctx_err n e j w)
  unfolding fail
  fail-Touches n e j w = failed_save-Touches n j.steps _ (save os _ w) (
      updated-save n (mark_failed (now w) (message e)) j _ w (KeepsName-failed (now w) (message e))
        refl)

  finish_step-Touches :
      (n : Bytes) (j : Journal) (w : World) → Touches n j.steps (finish_step os ctx_err n j w)
  unfolding finish_step
  finish_step-Touches n j w =
      let h =
        updated-save n (mark_done (now w)) j
          (record j { steps = update_step n (mark_done (now w)) j.steps }) w
          (KeepsName-done (now w)) refl in
      saved_then-Touches n j.steps (save os _ w) go h h

  -- A flow that starts from a table that already agrees with `xs` but at `n`.
  Touches-from :
      (n : Bytes) (xs ys : List StepState) (f : Flow os ctx_err)
      → SameButAt n xs ys
      → Touches n ys f
      → Touches n xs f
  Touches-from n xs ys f a b = SameButAt-trans n xs ys (journal_of f).steps a b

  after_run-Touches :
      (n : Bytes) (r : Option Error × Journal × World)
      → Touches n r.1.steps (after_run os ctx_err n r)
  unfolding after_run
  after_run-Touches n (some e, j, w) = fail-Touches n e j w
  after_run-Touches n (none, j, w) = finish_step-Touches n j w

  module _ (s : Step os ctx_err) (keeps : KeepsTable s) where
    attempt-Touches :
        (c : Option Error) (j : Journal) (w : World)
        → has_step s.name j.steps ≡ true
        → Touches s.name j.steps (attempt_unless os ctx_err c s j w)
    unfolding attempt_unless
    attempt-Touches (some e) j w has = fail-Touches s.name e j w
    attempt-Touches none j w has =
        let j1 : Journal = record j { steps = update_step s.name (mark_running (now w)) j.steps } in
        let saved = save os j1 w in
        let h =
          updated-save s.name (mark_running (now w)) j j1 w (KeepsName-running (now w)) refl in
        saved_then-Touches s.name j.steps saved (λ j2 w2. after_run os ctx_err s.name (s.run j2 w2))
          h
          (Touches-from s.name j.steps (s.run saved.0.1 saved.1).1.steps
            (after_run os ctx_err s.name (s.run saved.0.1 saved.1))
            (rw (keeps.run_keeps saved.0.1 saved.1 (has_step-saved os s.name (now w) j w has)) h)
            (after_run-Touches s.name (s.run saved.0.1 saved.1)))

    after_verify-Touches :
        (r : Result Bool × Journal × World)
        → has_step s.name r.1.steps ≡ true
        → Touches s.name r.1.steps (after_verify os ctx_err s r)
    unfolding after_verify
    after_verify-Touches (err e, j, w) has = fail-Touches s.name (wrapped (codes "verify") e) j w
    after_verify-Touches (ok false, j, w) has = attempt-Touches (ctx_err w) j w has
    after_verify-Touches (ok true, j, w) has = elim (Bool-cases (done_at s.name j.steps)) [
      | inl e ↦ rw e (λ m ne. refl)
      | inr e ↦ rw e (finish_step-Touches s.name j w)
    ]

    enter_step-Touches :
        (v : Option (Journal → World → Result Bool × Journal × World)) (j : Journal) (w : World)
        → s.verify ≡ v
        → has_step s.name j.steps ≡ true
        → Touches s.name j.steps (enter_step os ctx_err v s j w)
    unfolding enter_step
    enter_step-Touches (some v) j w e has =
        Touches-from s.name j.steps (v j w).1.steps (after_verify os ctx_err s (v j w))
          (λ m ne. ap (find_step m) (keeps.verify_keeps v e j w has))
          (after_verify-Touches (v j w)
            (ap (has_step s.name) (keeps.verify_keeps v e j w has) ∙ has))
    enter_step-Touches none j w e has = elim (Bool-cases (done_at s.name j.steps)) [
      | inl d ↦ rw d (λ m ne. refl)
      | inr d ↦ rw d (attempt-Touches (ctx_err w) j w has)
    ]

    -- Whatever a step does and however it ends, the entries of all other names stay as they were.
    pub run_step-Touches :
        (j : Journal) (w : World) → Touches s.name j.steps (run_step os ctx_err s j w)
    unfolding run_step
    run_step-Touches j w =
        Touches-from s.name j.steps (ensure_step s.name j.steps)
          (enter_step os ctx_err s.verify s (record j { steps = ensure_step s.name j.steps }) w)
          (SameButAt-ensure s.name j.steps)
          (enter_step-Touches s.verify (record j { steps = ensure_step s.name j.steps }) w refl
            (has_step-ensure s.name j.steps))
