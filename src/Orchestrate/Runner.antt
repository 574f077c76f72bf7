-- ===== src/Orchestrate/Runner.antt =====
-- The detached runner (internal/orchestrate/runner.go). `Effects` is what `RunJob` uses of the
-- endpoints, of the plan's codec and of the step list; its calls are parameters.
pub mod Codes
pub mod Ends
pub mod Succeeds
use go_claude_teleport.Base.{
  ℕ, ℤ, Bool, true, false, Option, none, some, List, [], ◌∷◌, ◌++◌, Bytes, codes, bytes_eq,
  if◌then◌else◌,
}
use go_claude_teleport.Job.Journal.{
  Journal, StepState, StepStatus, pending, running, done, failed, Outcome, no_outcome, success,
  failure, abandoned,
}
use go_claude_teleport.Job.Save.{Error, os_error, Result, ok, err, Os, save, open_journal}
use go_claude_teleport.Job.Run.{Step, Flow, go, stop, run_steps}

abbrev is_failed : StepStatus → Bool
is_failed failed = true
is_failed _ = false

-- `FailedStep`.
unfoldable pub failed_step : List StepState → Option Bytes
failed_step [] = none
failed_step (x ∷ xs) = if is_failed x.status then some x.name else failed_step xs

-- `ExitOK`, `ExitFailed`, `ExitNotResumed`.
abbrev pub exit_ok : ℕ
exit_ok = 0

abbrev pub exit_failed : ℕ
exit_failed = 1

abbrev pub exit_not_resumed : ℕ
exit_not_resumed = 5

abbrev failed_code : Option Bytes → ℕ
failed_code none = exit_failed
failed_code (some name) = if bytes_eq name (codes "start") then exit_not_resumed else exit_failed

abbrev outcome_code : Outcome → List StepState → ℕ
outcome_code success steps = exit_ok
outcome_code failure steps = failed_code (failed_step steps)
outcome_code _ steps = exit_failed

-- `ExitCode`.
unfoldable pub exit_code : Journal → ℕ
unfolding failed_step bytes_eq
exit_code j = outcome_code j.outcome j.steps

module _ (os : Os) (ctx_err : os.World → Option Error) where
  open os use {World, now}

  -- The plan's type and codec, the endpoints and the steps. `frozen_pid` is the pid that the
  -- source thaws: that of the registry entry, when the session was running.
  pub record Effects : Type 1 where
    pub Plan : Type 0
    pub plan_of : Journal → Result Plan
    pub factory : Plan → World → Option Error × World
    pub close_endpoints : World → World
    pub steps : Plan → List (Step os ctx_err)
    pub frozen_pid : Plan → Option ℤ
    pub thaw : ℤ → World → World
    pub put_source : Journal → World → World
    pub put_dest : Journal → World → World

  -- The end of `RunJob`: its error, the journal in memory, if one was opened, and the world.
  pub record Ending : Type 0 where
    pub error : Option Error
    pub journal : Option Journal
    pub world : World

  module _ (fx : Effects) (getpid : ℤ) where
    -- `failEarly`; the error of its save is only logged.
    unfoldable pub fail_early : Error → Journal → World → Ending
    fail_early e j w =
        let saved =
          save os (record j { outcome = failure; finished = true; updated_at = now w }) w in
        record { error = some e; journal = some saved.0.1; world = saved.1 }

    -- The thaw of the source after a failure.
    abbrev thaw_source : Option ℤ → World → World
    thaw_source none w = w
    thaw_source (some pid) w = fx.thaw pid w

    -- From the outcome on: the last save, and the copies for both hosts.
    abbrev after_save : Option Error → (Option Error × Journal) × World → Ending
    after_save e ((some f, j), w) = record { error = some f; journal = some j; world = w }
    after_save e ((none, j), w) = record {
      error = e;
      journal = some j;
      world = fx.put_dest j (fx.put_source j w);
    }

    unfoldable pub record_end : fx.Plan → Flow os ctx_err → Ending
    record_end p (go j w) =
        after_save none
          (save os (record j { outcome = success; finished = true; updated_at = now w }) w)
    record_end p (stop e j w) =
        let w1 : World = thaw_source (fx.frozen_pid p) w in
        after_save (some e)
          (save os (record j { outcome = failure; finished = true; updated_at = now w1 }) w1)

    abbrev closing : Ending → Ending
    closing r = record r { world = fx.close_endpoints r.world }

    -- From the journal's first save on.
    abbrev run_saved : fx.Plan → (Option Error × Journal) × World → Ending
    run_saved p ((some e, j), w) = fail_early e j w
    run_saved p ((none, j), w) = record_end p (run_steps os ctx_err (fx.steps p) j w)

    abbrev run_dialled : fx.Plan → Journal → Option Error × World → Ending
    run_dialled p j (some e, w) = fail_early e j w
    run_dialled p j (none, w) = closing (
        run_saved p
          (save os (record j { runner_pid = getpid; finished = false; outcome = no_outcome }) w))

    abbrev run_planned : Journal → World → Result fx.Plan → Ending
    run_planned j w (err e) = fail_early e j w
    run_planned j w (ok p) = run_dialled p j (fx.factory p w)

    abbrev run_opened : World → Result (Option Journal) → Ending
    run_opened w (err e) = record { error = some e; journal = none; world = w }
    run_opened w (ok none) = record {
      error = some (os_error (codes "no job"));
      journal = none;
      world = w;
    }
    run_opened w (ok (some j)) = run_planned j w (fx.plan_of j)

    -- `RunJob`.
    unfoldable pub run_job : Bytes → Bytes → World → Ending
    unfolding fail_early record_end
    run_job data_dir id w = run_opened w (open_journal os data_dir id w)
