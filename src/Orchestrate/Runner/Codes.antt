-- ===== src/Orchestrate/Runner/Codes.antt =====
-- What the exit codes tell.
use go_claude_teleport.Base.{
  Option, none, some, List, Bytes, codes, bytes_eq_iff, ◌≡◌, ◌≢◌, ◌↔◌, refl, arith,
}
use go_claude_teleport.Job.Journal.{
  Journal, StepState, Outcome, no_outcome, success, failure, abandoned,
}
use go_claude_teleport.Orchestrate.Runner.{
  failed_step, exit_ok, exit_not_resumed, exit_code, outcome_code, failed_code,
}

failed_code_iff :
    (o : Option Bytes) → (failed_code o ≡ exit_not_resumed) ↔ (o ≡ some (codes "start"))
failed_code_iff none = (λ h. absurd (omega arith), λ h. cc)
failed_code_iff (some n) = (
  λ h. ground (arith, bytes_eq_iff n (codes "start")),
  λ h. ground (arith, bytes_eq_iff n (codes "start")),
)

failed_code-ne-ok : (o : Option Bytes) → failed_code o ≢ exit_ok
failed_code-ne-ok none = omega arith
failed_code-ne-ok (some n) = ground arith

outcome_code_iff :
    (o : Outcome) (steps : List StepState)
    → ((outcome_code o steps ≡ exit_ok) ↔ (o ≡ success))
      × ((outcome_code o steps ≡ exit_not_resumed)
          ↔ ((o ≡ failure) × (failed_step steps ≡ some (codes "start"))))
outcome_code_iff no_outcome steps =
    ((λ h. absurd (omega arith), λ h. cc), (λ h. absurd (omega arith), λ h. cc h.0))
outcome_code_iff success steps = ((λ h. refl, λ h. refl), (λ h. absurd (omega arith), λ h. cc h.0))
outcome_code_iff failure steps = (
  (λ h. absurd (failed_code-ne-ok (failed_step steps) h), λ h. cc),
  (
    λ h. (refl, (failed_code_iff (failed_step steps)).0 h),
    λ h. (failed_code_iff (failed_step steps)).1 h.1,
  ),
)
outcome_code_iff abandoned steps =
    ((λ h. absurd (omega arith), λ h. cc), (λ h. absurd (omega arith), λ h. cc h.0))

-- The exit code is 0 exactly for an outcome of success, and 5 exactly when the outcome is failure
-- and the first failed step is start.
pub exit_code_iff :
    (j : Journal)
    → ((exit_code j ≡ exit_ok) ↔ (j.outcome ≡ success))
      × ((exit_code j ≡ exit_not_resumed)
          ↔ ((j.outcome ≡ failure) × (failed_step j.steps ≡ some (codes "start"))))
unfolding exit_code
exit_code_iff j = outcome_code_iff j.outcome j.steps
