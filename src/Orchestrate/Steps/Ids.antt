-- ===== src/Orchestrate/Steps/Ids.antt =====
-- The ids that the install step keeps (internal/orchestrate/steps.go, `foldInstalledIDs`,
-- `notOwned`, `sameIDs`).
use mathlib.Core.Path.{subst}
use go_claude_teleport.Base.{
  int_eq_iff, if-true, if-false, ℤ, int_eq, Bool, true, false, ◌&&◌, ◌||◌, List, [], ◌∷◌, ◌++◌,
  append-nil, append_assoc, ◌≡◌, refl, sym, ap, ◌∙◌, arith, if-both, Bool-cases, inl, inr,
  if◌then◌else◌,
}

-- A set of ids as a list.
unfoldable pub has_id : ℤ → List ℤ → Bool
unfolding int_eq
has_id x [] = false
has_id x (y ∷ ys) = int_eq y x || has_id x ys

-- `foldInstalledIDs`: the ids so far are those seen.
unfoldable pub fold_installed : List ℤ → List ℤ → List ℤ
unfolding has_id
fold_installed ids [] = ids
fold_installed ids (x ∷ xs) = fold_installed (if has_id x ids then ids else ids ++ x ∷ []) xs

-- `notOwned`.
unfoldable pub not_owned : List ℤ → List ℤ → List ℤ
unfolding has_id
not_owned [] owned = []
not_owned (x ∷ xs) owned = if has_id x owned then not_owned xs owned else x ∷ not_owned xs owned

-- `sameIDs`.
unfoldable pub same_ids : List ℤ → List ℤ → Bool
unfolding int_eq
same_ids [] [] = true
same_ids [] (y ∷ ys) = false
same_ids (x ∷ xs) [] = false
same_ids (x ∷ xs) (y ∷ ys) = int_eq x y && same_ids xs ys

has_id-append : (z : ℤ) (xs ys : List ℤ) → has_id z (xs ++ ys) ≡ has_id z xs || has_id z ys
unfolding has_id
has_id-append z [] ys = refl
has_id-append z (x ∷ xs) ys = ground (arith, has_id-append z xs ys)

-- Old ids stay, in place, and new ones follow them.
unfoldable pub Grows : List ℤ → List ℤ → Type 0
Grows ids out = (more : List ℤ) × (out ≡ ids ++ more)

step-Grows : (ids : List ℤ) (x : ℤ) → Grows ids (if has_id x ids then ids else ids ++ x ∷ [])
unfolding Grows
step-Grows ids x =
    if-both (Grows ids) (has_id x ids) ids (ids ++ x ∷ []) (λ e. ([], sym (append-nil ids)))
      (λ e. (x ∷ [], refl))

Grows-trans : (a b c : List ℤ) → Grows a b → Grows b c → Grows a c
unfolding Grows
Grows-trans a b c (m, e) (n, f) = (m ++ n, f ∙ ap (λ l. l ++ n) e ∙ append_assoc a m n)

-- One round adds its id to the set.
step-has_id :
    (ids : List ℤ) (x z : ℤ)
    → has_id z (if has_id x ids then ids else ids ++ x ∷ []) ≡ has_id z ids || int_eq x z
unfolding has_id
step-has_id ids x z = elim (Bool-cases (has_id x ids)) [
  | inl e ↦
      ap (has_id z) (if-true (has_id x ids) ids (ids ++ x ∷ []) e)
      ∙ known (has_id z ids) (int_eq x z)
          (λ q. subst (λ y. has_id y ids ≡ true) ((int_eq_iff x z).0 q) e)
  | inr e ↦
      ap (has_id z) (if-false (has_id x ids) ids (ids ++ x ∷ []) e)
      ∙ has_id-append z ids (x ∷ [])
      ∙ ap (λ b. has_id z ids || b) (or_false (int_eq x z))
]
  where
    known : (a b : Bool) → (b ≡ true → a ≡ true) → a ≡ a || b
    known true b f = refl
    known false true f = f refl
    known false false f = refl

    or_false : (b : Bool) → b || false ≡ b
    or_false true = refl
    or_false false = refl

or_assoc : (a b c : Bool) → (a || b) || c ≡ a || (b || c)
or_assoc true b c = refl
or_assoc false b c = refl

-- Folding the ids of a report keeps every id that was recorded, in its place, and adds exactly the
-- ids of the report.
fold_installed-Grows :
    (ids new : List ℤ)
    → Grows ids (fold_installed ids new)
      × ((z : ℤ) → has_id z (fold_installed ids new) ≡ has_id z ids || has_id z new)
unfolding fold_installed Grows has_id
fold_installed-Grows ids [] = (([], sym (append-nil ids)), λ z. ground arith)
fold_installed-Grows ids (x ∷ xs) =
    let next = if has_id x ids then ids else ids ++ x ∷ [] in
    let (grown, same) = fold_installed-Grows next xs in
    (
      Grows-trans ids next (fold_installed next xs) (step-Grows ids x) grown,
      λ z.
          same z
          ∙ ap (λ b. b || has_id z xs) (step-has_id ids x z)
          ∙ or_assoc (has_id z ids) (int_eq x z) (has_id z xs),
    )
