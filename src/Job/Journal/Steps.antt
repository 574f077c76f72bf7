-- ===== src/Job/Journal/Steps.antt =====
-- The table of steps as a map from names: what `Step` finds after an append and after a write.
use mathlib.Core.Option
use go_claude_teleport.Base.{
  none, some, List, [], ◌∷◌, Bytes, bytes_eq, bytes_eq_iff, ◌≡◌, arith, if◌then◌else◌,
}
use go_claude_teleport.Job.Journal.{StepState, pending_step, ensure_step, find_step, update_step}

-- After `Step(n)` the name `n` is found, and every other name is found as before.
pub find_step-ensure_step :
    (m n : Bytes) (xs : List StepState)
    → find_step m (ensure_step n xs) ≡ elim (find_step m xs) [
      | some x ↦ some x
      | none ↦ if bytes_eq n m then some (pending_step n) else none
    ]
unfolding find_step ensure_step
find_step-ensure_step m n [] = ground arith
find_step-ensure_step m n (x ∷ xs) = ground (
  arith,
  find_step-ensure_step m n xs,
  bytes_eq_iff x.name n,
  bytes_eq_iff x.name m,
  bytes_eq_iff n m,
)

abbrev pub KeepsName : (StepState → StepState) → Type 0
KeepsName f = (x : StepState) → (f x).name ≡ x.name

-- A write through the pointer of `n` changes the entry of `n` alone.
pub find_step-update_step :
    (m n : Bytes) (f : StepState → StepState) (xs : List StepState)
    → KeepsName f
    → find_step m (update_step n f xs)
      ≡ (if bytes_eq n m then Option.map f (find_step m xs) else find_step m xs)
unfolding find_step update_step
find_step-update_step m n f [] k = ground arith
find_step-update_step m n f (x ∷ xs) k = ground (
  arith,
  find_step-update_step m n f xs k,
  k x,
  bytes_eq_iff x.name n,
  bytes_eq_iff x.name m,
  bytes_eq_iff n m,
  bytes_eq_iff (f x).name m,
)

-- Appending and writing leave the names in their order.
pub find_step-name :
    (n : Bytes) (xs : List StepState) {x : StepState} → find_step n xs ≡ some x → x.name ≡ n
unfolding find_step
find_step-name n [] h = cc
find_step-name n (y ∷ ys) {x} h = ground (arith, bytes_eq_iff y.name n, find_step-name n ys {x = x})
