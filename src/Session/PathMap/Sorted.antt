-- ===== src/Session/PathMap/Sorted.antt =====
-- `NewPathMap` sorts the mappings by the length of `from`, the longest first.
use mathlib.Core.List.{Perm}
use mathlib.Core.List.Perm
use mathlib.Core.Option
use go_claude_teleport.Base.{
  ℕ, ◌≤◌, Option, none, some, List, [], ◌∷◌, ◌≡◌, refl, arith, All, length, ltb, inl, inr,
  Bool-cases,
}
use go_claude_teleport.Session.PathMap.{
  Mapping, PathMap, insert_mapping, sort_mappings, clean_mappings, new_path_map,
}

-- Every later mapping has a `from` that is no longer.
abbrev pub NotLonger : ℕ → List Mapping → Type 0
NotLonger n = All (λ m. length m.from ≤ n)

abbrev pub IsSorted : List Mapping → Type 0
IsSorted [] = Unit
IsSorted (m ∷ ms) = NotLonger (length m.from) ms × IsSorted ms

NotLonger-mono : (a b : ℕ) (ms : List Mapping) → a ≤ b → NotLonger a ms → NotLonger b ms
NotLonger-mono a b [] h all = tt
NotLonger-mono a b (m ∷ ms) h (hm, all) = (omega arith, NotLonger-mono a b ms h all)

NotLonger-insert :
    (n : ℕ) (m : Mapping) (ms : List Mapping)
    → length m.from ≤ n
    → NotLonger n ms
    → NotLonger n (insert_mapping m ms)
unfolding insert_mapping
NotLonger-insert n m [] h all = (h, tt)
NotLonger-insert n m (x ∷ xs) h (hx, all) =
    elim (Bool-cases (ltb (length m.from) (length x.from))) [
      | inl e ↦ rw e (hx, NotLonger-insert n m xs h all)
      | inr e ↦ rw e (h, (hx, all))
    ]

insert_mapping-IsSorted :
    (m : Mapping) (ms : List Mapping) → IsSorted ms → IsSorted (insert_mapping m ms)
unfolding insert_mapping
insert_mapping-IsSorted m [] sorted = (tt, tt)
insert_mapping-IsSorted m (x ∷ xs) (hx, sorted) =
    elim (Bool-cases (ltb (length m.from) (length x.from))) [
      | inl e ↦ rw e (
        NotLonger-insert (length x.from) m xs (ground arith) hx,
        insert_mapping-IsSorted m xs sorted,
      )
      | inr e ↦ rw e (
        (ground arith, NotLonger-mono (length x.from) (length m.from) xs (ground arith) hx),
        (hx, sorted),
      )
    ]

sort_mappings-IsSorted : (ms : List Mapping) → IsSorted (sort_mappings ms)
unfolding sort_mappings
sort_mappings-IsSorted [] = tt
sort_mappings-IsSorted (m ∷ ms) =
    insert_mapping-IsSorted m (sort_mappings ms) (sort_mappings-IsSorted ms)

insert_mapping-perm : (m : Mapping) (ms : List Mapping) → Perm (insert_mapping m ms) (m ∷ ms)
unfolding insert_mapping
insert_mapping-perm m [] = Perm.refl (m ∷ [])
insert_mapping-perm m (x ∷ xs) = elim (Bool-cases (ltb (length m.from) (length x.from))) [
  | inl e ↦ rw e (Perm.trans (Perm.cons x (insert_mapping-perm m xs)) (Perm.swap m x xs))
  | inr e ↦ rw e (Perm.refl (m ∷ x ∷ xs))
]

sort_mappings-perm : (ms : List Mapping) → Perm (sort_mappings ms) ms
unfolding sort_mappings
sort_mappings-perm [] = Perm.refl []
sort_mappings-perm (m ∷ ms) =
    Perm.trans (insert_mapping-perm m (sort_mappings ms)) (Perm.cons m (sort_mappings-perm ms))

-- A path map that `NewPathMap` returns holds exactly the cleaned mappings, the longest `from` first.
pub new_path_map-IsSorted :
    (ms : List Mapping) {pm : PathMap}
    → new_path_map ms ≡ some pm
    → IsSorted pm × ((out : List Mapping) × (clean_mappings [] ms ≡ some out) × Perm pm out)
unfolding new_path_map
new_path_map-IsSorted ms {pm} h = sorted (clean_mappings [] ms) refl h
  where
    sorted :
        (o : Option (List Mapping))
        → clean_mappings [] ms ≡ o
        → Option.map sort_mappings o ≡ some pm
        → IsSorted pm × ((out : List Mapping) × (clean_mappings [] ms ≡ some out) × Perm pm out)
    sorted none e h2 = cc
    sorted (some out) e h2 =
        let same : sort_mappings out ≡ pm = cc in
        (rw (← same) (sort_mappings-IsSorted out), (out, e, rw (← same) (sort_mappings-perm out)))
