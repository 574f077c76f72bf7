-- ===== src/Transfer/Roots/Chosen.antt =====
-- The root that governs an entry is the longest one that holds it.
use mathlib.Core.List.{Memᴰ}
use mathlib.Core.List.Memᴰ
use mathlib.Core.Option.{some-injective}
use mathlib.Core.Path.{subst}
use go_claude_teleport.Base.{
  ℕ, ◌≤◌, Bool, true, false, ◌&&◌, Option, none, some, List, [], ◌∷◌, Bytes, length, ltb, ◌≡◌, refl,
  sym, ap, ◌⊎◌, inl, inr, arith, if◌then◌else◌,
}
use go_claude_teleport.FilePath.{clean}
use go_claude_teleport.FilePath.Idempotent.{clean-clean}
use go_claude_teleport.Transfer.Roots.{Root, contains, is_better, best_root, entry_root}

abbrev pub size_of : Root → ℕ
size_of r = length (clean r.path)

-- A root that was picked: a declared one that holds the path, cleaned.
unfoldable pub IsPicked : Bytes → List Root → Root → Type 0
IsPicked dst roots best =
    (r : Root) × Memᴰ r roots
    × (contains dst r ≡ true)
    × (best ≡ record { path = clean r.path; may_pre_exist = r.may_pre_exist })

-- No declared root that holds the path is longer.
unfoldable pub IsLongest : Bytes → List Root → Root → Type 0
IsLongest dst roots best =
    (r : Root) → Memᴰ r roots → contains dst r ≡ true → size_of r ≤ size_of best

-- What a search returns for a path: the longest root that holds it, or nothing when none does.
unfoldable pub IsGoverning : Bytes → List Root → Option Root → Type 0
unfolding IsPicked IsLongest
IsGoverning dst roots none = (r : Root) → Memᴰ r roots → contains dst r ≡ false
IsGoverning dst roots (some best) = IsPicked dst roots best × IsLongest dst roots best

-- The root that a round keeps.
abbrev kept : Root → Root
kept r = record { path = clean r.path; may_pre_exist = r.may_pre_exist }

size_of-kept : (r : Root) → size_of (kept r) ≡ size_of r
size_of-kept r = ap length (clean-clean r.path)

abbrev next : Bytes → Root → Option Root → Option Root
next dst r best = if contains dst r && is_better r best then some (kept r) else best

-- A best root so far is at most as long as the one returned.
IsBelow : Option Root → Root → Type 0
IsBelow none b = Unit {0}
IsBelow (some x) b = size_of x ≤ size_of b

picked_here :
    (dst : Bytes) (r : Root) (best : Option Root) (b : Root)
    → next dst r best ≡ some b
    → (best ≡ some b) ⊎ ((contains dst r ≡ true) × (b ≡ kept r))
picked_here dst r best b h = choose (contains dst r) (is_better r best) h
  where
    choose :
        (c better : Bool)
        → (if c && better then some (kept r) else best) ≡ some b
        → (best ≡ some b) ⊎ ((c ≡ true) × (b ≡ kept r))
    choose true true h = inr (refl, cc)
    choose true false h = inl h
    choose false better h = inl h

best_root-IsPicked :
    (dst : Bytes) (best : Option Root) (roots : List Root) (b : Root)
    → best_root dst best roots ≡ some b
    → (best ≡ some b) ⊎ IsPicked dst roots b
unfolding best_root IsPicked
best_root-IsPicked dst best [] b h = inl h
best_root-IsPicked dst best (r ∷ rs) b h = elim (best_root-IsPicked dst (next dst r best) rs b h) [
  | inr (x, m, c, e) ↦ inr (x, Memᴰ.tail m, c, e)
  | inl e ↦ elim (picked_here dst r best b e) [
    | inl q ↦ inl q
    | inr (c, q) ↦ inr (r, Memᴰ.head refl, c, q)
  ]
]

-- One round loses nothing: what it keeps is as long as the best so far, and as its own root.
next-IsBelow :
    (dst : Bytes) (r : Root) (best : Option Root) (b : Root)
    → IsBelow (next dst r best) b
    → IsBelow best b × (contains dst r ≡ true → size_of r ≤ size_of b)
unfolding IsBelow
next-IsBelow dst r none b h = choose (contains dst r) h
  where
    choose :
        (c : Bool)
        → IsBelow (if c && true then some (kept r) else none) b
        → Unit {0} × (c ≡ true → size_of r ≤ size_of b)
    choose true h = (tt, λ q. omega (arith, size_of-kept r, h))
    choose false h = (tt, λ q. cc)
next-IsBelow dst r (some x) b h =
    choose (contains dst r) (ltb (length (clean x.path)) (length (clean r.path))) refl h
  where
    choose :
        (c better : Bool)
        → ltb (size_of x) (size_of r) ≡ better
        → IsBelow (if c && better then some (kept r) else some x) b
        → (size_of x ≤ size_of b) × (c ≡ true → size_of r ≤ size_of b)
    choose true true e h = (ground (arith, size_of-kept r), λ q. ground (arith, size_of-kept r))
    choose true false e h = (h, λ q. ground arith)
    choose false better e h = (h, λ q. cc)

IsBelow-same : (best : Option Root) (b : Root) → best ≡ some b → IsBelow best b
unfolding IsBelow
IsBelow-same none b h = cc
IsBelow-same (some x) b h = omega (arith, ap size_of (some-injective x b h))

best_root-IsLongest :
    (dst : Bytes) (best : Option Root) (roots : List Root) (b : Root)
    → best_root dst best roots ≡ some b
    → IsBelow best b × IsLongest dst roots b
unfolding best_root IsLongest
best_root-IsLongest dst best [] b h = (IsBelow-same best b h, λ r m. elim (Memᴰ.not-nil m) [ ])
best_root-IsLongest dst best (r ∷ rs) b h =
    let (low, long) = best_root-IsLongest dst (next dst r best) rs b h in
    let (low', here) = next-IsBelow dst r best b low in (low', longest here long)
  where
    longest :
        (contains dst r ≡ true → size_of r ≤ size_of b)
        → IsLongest dst rs b
        → (x : Root) → Memᴰ x (r ∷ rs)
        → contains dst x ≡ true
        → size_of x ≤ size_of b
    longest here long x (Memᴰ.head q) c =
        subst (λ y. size_of y ≤ size_of b) (sym q) (here (subst (λ y. contains dst y ≡ true) q c))
    longest here long x (Memᴰ.tail m) c = long x m c

best_root-none :
    (dst : Bytes) (best : Option Root) (roots : List Root)
    → best_root dst best roots ≡ none
    → (best ≡ none) × ((r : Root) → Memᴰ r roots → contains dst r ≡ false)
unfolding best_root
best_root-none dst best [] h = (h, λ r m. elim (Memᴰ.not-nil m) [ ])
best_root-none dst best (r ∷ rs) h =
    let (e, others) = best_root-none dst (next dst r best) rs h in
    let (n, here) = empty (contains dst r) best e in (n, λ x m. every here others x m)
  where
    empty :
        (c : Bool) (best : Option Root)
        → (if c && is_better r best then some (kept r) else best) ≡ none
        → (best ≡ none) × (c ≡ false)
    empty false best e = (e, refl)
    empty true none e = cc
    empty true (some x) e = ground arith

    every :
        (contains dst r ≡ false)
        → ((x : Root) → Memᴰ x rs → contains dst x ≡ false)
        → (x : Root) → Memᴰ x (r ∷ rs)
        → contains dst x ≡ false
    every here others x (Memᴰ.head q) = subst (λ y. contains dst y ≡ false) (sym q) here
    every here others x (Memᴰ.tail m) = others x m

-- The search finds the longest declared root that holds the path, or no declared root holds it.
pub entry_root-IsGoverning :
    (dst : Bytes) (roots : List Root) → IsGoverning dst roots (entry_root dst roots)
unfolding entry_root IsGoverning
entry_root-IsGoverning dst roots = found (best_root dst none roots) refl
  where
    found : (o : Option Root) → best_root dst none roots ≡ o → IsGoverning dst roots o
    found none e = (best_root-none dst none roots e).1
    found (some b) e = elim (best_root-IsPicked dst none roots b e) [
      | inl q ↦ cc
      | inr p ↦ (p, (best_root-IsLongest dst none roots b e).1)
    ]
