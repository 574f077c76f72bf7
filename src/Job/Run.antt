-- ===== src/Job/Run.antt =====
-- The resumable step runner (internal/job/run.go). A step's `Verify` and `Run` close over the
-- journal and act on the outside world, so they take and return both. `logf` is left out.
pub mod Frame
pub mod Order
pub mod Progress
pub mod Resume
use go_claude_teleport.Base.{
  ℕ, ◌+◌, Bool, true, false, Option, none, some, List, [], ◌∷◌, ◌++◌, Bytes, codes, if◌then◌else◌,
}
use go_claude_teleport.Job.Journal.{
  Journal, StepState, running, done, failed, success, failure, is_done, ensure_step, find_step,
  update_step,
}
use go_claude_teleport.Job.Save.{Error, wrapped, save_failed, message, Result, ok, err, Os, save}

-- `st.Status == Done` for the entry of a name.
unfoldable pub done_at : Bytes → List StepState → Bool
unfolding find_step
done_at n xs = elim (find_step n xs) [ none ↦ false | some x ↦ is_done x.status ]

-- The three writes through `st`.
abbrev pub mark_running : ℕ → StepState → StepState
mark_running now st = record st {
  status = running;
  attempts = st.attempts + 1;
  started_at = now;
  error = [];
}

abbrev pub mark_done : ℕ → StepState → StepState
mark_done now st = record st { status = done; finished_at = now }

abbrev pub mark_failed : ℕ → Bytes → StepState → StepState
mark_failed now text st = record st { status = failed; error = text; finished_at = now }

-- `ctx_err` is `ctx.Err()`: an error once the context is cancelled.
module _ (os : Os) (ctx_err : os.World → Option Error) where
  open os use {World, now}

  pub record Step : Type 0 where
    pub name : Bytes
    pub verify : Option (Journal → World → Result Bool × Journal × World)
    pub run : Journal → World → Option Error × Journal × World

  -- Going on to the next step, or returning an error from `Run`.
  pub data Flow : Type 0 where
    go : Journal → World → Flow
    stop : Error → Journal → World → Flow

  -- `if err := j.Save(); err != nil { return err }`.
  unfoldable pub saved_then : (Option Error × Journal) × World → (Journal → World → Flow) → Flow
  saved_then ((none, j), w) next = next j w
  saved_then ((some e, j), w) next = stop e j w

  abbrev failed_save : Error → (Option Error × Journal) × World → Flow
  failed_save e ((none, j), w) = stop e j w
  failed_save e ((some f, j), w) = stop (save_failed e f) j w

  -- `fail`.
  unfoldable pub fail : Bytes → Error → Journal → World → Flow
  unfolding update_step message
  fail n inner j w = failed_save (wrapped (codes "step " ++ n) inner) (
      save os
        (record j {
          steps = update_step n (mark_failed (now w) (message inner)) j.steps;
          outcome = failure;
        })
        w)

  -- Marking the step done and saving.
  unfoldable pub finish_step : Bytes → Journal → World → Flow
  unfolding update_step saved_then
  finish_step n j w =
      saved_then (save os (record j { steps = update_step n (mark_done (now w)) j.steps }) w) go

  -- What follows `s.Run`.
  unfoldable pub after_run : Bytes → Option Error × Journal × World → Flow
  unfolding fail finish_step
  after_run n (some e, j, w) = fail n e j w
  after_run n (none, j, w) = finish_step n j w

  -- From the test of the context on.
  unfoldable pub attempt_unless : Option Error → Step → Journal → World → Flow
  unfolding fail after_run saved_then update_step
  attempt_unless (some e) s j w = fail s.name e j w
  attempt_unless none s j w =
      saved_then
        (save os (record j { steps = update_step s.name (mark_running (now w)) j.steps }) w)
        λ j1 w1. after_run s.name (s.run j1 w1)

  -- What follows `s.Verify`.
  unfoldable pub after_verify : Step → Result Bool × Journal × World → Flow
  unfolding fail finish_step attempt_unless done_at
  after_verify s (err e, j, w) = fail s.name (wrapped (codes "verify") e) j w
  after_verify s (ok true, j, w) = if done_at s.name j.steps then go j w else finish_step s.name j w
  after_verify s (ok false, j, w) = attempt_unless (ctx_err w) s j w

  unfoldable pub enter_step :
      Option (Journal → World → Result Bool × Journal × World) → Step → Journal → World → Flow
  unfolding after_verify attempt_unless done_at
  enter_step (some v) s j w = after_verify s (v j w)
  enter_step none s j w =
      if done_at s.name j.steps then go j w else attempt_unless (ctx_err w) s j w

  -- The body of the loop.
  unfoldable pub run_step : Step → Journal → World → Flow
  unfolding enter_step ensure_step
  run_step s j w = enter_step s.verify s (record j { steps = ensure_step s.name j.steps }) w

  -- `Run`.
  unfoldable pub run_steps : List Step → Journal → World → Flow
  run_steps [] j w = saved_then (save os (record j { finished = true; outcome = success }) w) go
  run_steps (s ∷ ss) j w = elim (run_step s j w) [
    | go j1 w1 ↦ run_steps ss j1 w1
    | stop e j1 w1 ↦ stop e j1 w1
  ]
