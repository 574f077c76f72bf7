-- ===== src/Tests/Jobs.antt =====
-- Jobs and their runner on concrete values.
use go_claude_teleport.Base.{
  pos, Bool, true, Option, none, some, List, [], ◌∷◌, Bytes, codes, ◌≡◌, refl, All, inr,
}
use mathlib.Core.List.{reverse}
use go_claude_teleport.FilePath.{render, is_abs, clean_stack}
use go_claude_teleport.Job.Id.{validate_id, dir, staging_dir}
use go_claude_teleport.Job.Id.Laws.{validate_id-dir}
use go_claude_teleport.Job.Journal.{
  Journal, new, journal_path, success, failure, done, failed, ensure_step, find_step, update_step,
}
use go_claude_teleport.Job.Save.{
  Error, Result, ok, content, missing, save_locked, save_merged, save, open_journal,
}
use go_claude_teleport.Job.Save.Atomic.{IsSaved, save_locked-IsSaved}
use go_claude_teleport.Job.Save.Merge.{IsMerged, save_merged-IsMerged}
use go_claude_teleport.Job.Run.{
  Step, run_step, run_steps, done_at, enter_step, attempt_unless, after_run, finish_step,
  saved_then,
}
use go_claude_teleport.Job.Run.Frame.{KeepsTable, Touches, run_step-Touches}
use go_claude_teleport.Job.Run.Progress.{IsDistinct, Progress, run_steps-Progress}
use go_claude_teleport.Job.Run.Resume.{run_steps-resume}
use go_claude_teleport.Orchestrate.Runner.{Effects, run_job}
use go_claude_teleport.Orchestrate.Runner.Succeeds.{IsFinished, run_job-Succeeds}
use go_claude_teleport.Tests.Machine.{machine, machine-IsLawful, set}

abbrev data_dir : Bytes
data_dir = codes "/data"

abbrev job : Bytes
job = codes "abc-1"

plain_job : validate_id job ≡ none
unfolding validate_id
plain_job = refl

validate_id-dir_example :
    (dir data_dir job
      ≡ render (is_abs data_dir) (reverse (job ∷ codes "jobs" ∷ clean_stack data_dir)))
    × (staging_dir data_dir job
        ≡ render (is_abs data_dir) (reverse (job ∷ codes "staging" ∷ clean_stack data_dir)))
validate_id-dir_example = validate_id-dir data_dir job (λ e. cc) plain_job

abbrev journal : Journal
journal = new data_dir job 3

-- The store with the job's journal in it.
unfoldable files : machine.World
unfolding machine set dir journal_path
files = set (journal_path (dir data_dir job)) (content job) (λ p. missing)

save_locked-IsSaved_example :
    IsSaved machine machine-IsLawful journal files (save_locked machine journal files)
save_locked-IsSaved_example = save_locked-IsSaved machine machine-IsLawful journal files

save_merged-IsMerged_example :
    IsMerged machine machine-IsLawful
      (dir data_dir job)
      (λ j. record j { outcome = success })
      (machine.lock (dir data_dir job) files).1
      (save_merged machine data_dir job (λ j. record j { outcome = success }) files)
save_merged-IsMerged_example =
    save_merged-IsMerged machine machine-IsLawful data_dir job (λ j. record j { outcome = success })
      files (λ j. refl)

abbrev never : machine.World → Option Error
never w = none

-- A step that does nothing and has no `Verify`.
abbrev idle : Bytes → Step machine never
idle n = record { name = n; verify = none; run = λ j w. (none, j, w) }

idle-KeepsTable : (n : Bytes) → KeepsTable machine never (idle n)
idle-KeepsTable n = record { verify_keeps = λ v e j w h. cc; run_keeps = λ j w h. refl }

abbrev two_steps : List (Step machine never)
two_steps = idle (codes "freeze") ∷ idle (codes "start") ∷ []

two_steps-IsDistinct : IsDistinct machine never two_steps
two_steps-IsDistinct = (((λ e. cc), tt), ((tt), tt))

two_steps-KeepsTable : All (KeepsTable machine never) two_steps
two_steps-KeepsTable = (idle-KeepsTable (codes "freeze"), (idle-KeepsTable (codes "start"), tt))

run_step-Touches_example :
    Touches machine never
      (codes "freeze")
      journal.steps
      (run_step machine never (idle (codes "freeze")) journal files)
run_step-Touches_example =
    run_step-Touches machine never (idle (codes "freeze")) (idle-KeepsTable (codes "freeze"))
      journal files

run_steps-Progress_example :
    Progress machine never two_steps journal.steps (run_steps machine never two_steps journal files)
run_steps-Progress_example =
    run_steps-Progress machine never two_steps journal files two_steps-KeepsTable
      two_steps-IsDistinct

-- A journal in which the first step is done.
abbrev half_done : Journal
half_done = record journal {
  steps =
      record {
        name = codes "freeze";
        status = done;
        started_at = 1;
        finished_at = 2;
        error = [];
        attempts = 1;
      }
      ∷ [];
}

half_done-freeze : done_at (codes "freeze") half_done.steps ≡ true
unfolding done_at
half_done-freeze = refl

-- What `Verify` writes.
unfoldable touch : machine.World → machine.World
unfolding machine
touch w = set (codes "/seen") (content []) w

abbrev freeze_confirmed : Journal → machine.World → Result Bool × Journal × machine.World
freeze_confirmed j w = (ok true, record j { runner_pid = pos 5 }, touch w)

-- A step whose `Verify` succeeds and writes.
abbrev checked : Step machine never
checked = record {
  name = codes "freeze";
  verify = some freeze_confirmed;
  run = λ j w. (none, j, w);
}

run_steps-resume_example :
    run_steps machine never (checked ∷ idle (codes "start") ∷ []) half_done files
    ≡ run_steps machine never
        (idle (codes "start") ∷ [])
        (record half_done { runner_pid = pos 5 })
        (touch files)
run_steps-resume_example =
    run_steps-resume machine never (checked ∷ []) (idle (codes "start") ∷ []) half_done files
      (record half_done { runner_pid = pos 5 }) (touch files)
      (
        record half_done { runner_pid = pos 5 },
        (touch files),
        (half_done-freeze, inr (freeze_confirmed, refl, refl, half_done-freeze)),
        (refl, refl),
      )

-- A journal whose start failed.
abbrev not_started : Journal
not_started = record journal {
  outcome = failure;
  steps =
      record {
        name = codes "start";
        status = failed;
        started_at = 1;
        finished_at = 2;
        error = codes "x";
        attempts = 1;
      }
      ∷ [];
}

abbrev effects : Effects machine never
effects = record {
  Plan = Bool;
  plan_of = λ j. ok true;
  factory = λ p w. (none, w);
  close_endpoints = λ w. w;
  steps = λ p. two_steps;
  frozen_pid = λ p. some (pos 9);
  thaw = λ pid w. w;
  put_source = λ j w. w;
  put_dest = λ j w. w;
}

no_error : (run_job machine never effects (pos 4) data_dir job files).error ≡ none
unfolding run_job machine set files open_journal save run_steps run_step enter_step attempt_unless
    after_run finish_step saved_then ensure_step find_step update_step done_at
no_error = refl

run_job-Succeeds_example :
    IsFinished machine never effects
      (pos 4)
      (open_journal machine data_dir job files)
      (run_job machine never effects (pos 4) data_dir job files)
run_job-Succeeds_example =
    run_job-Succeeds machine never effects (pos 4) (λ p. two_steps-KeepsTable)
      (λ p. two_steps-IsDistinct) data_dir job files no_error
