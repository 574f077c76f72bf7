-- ===== src/Session/PathMap/Occurrences.antt =====
-- `Apply` on a text: it ends, and on a text that is one path it does what `ApplyPath` does.
use mathlib.Core.Option
use go_claude_teleport.Base.{
  ℕ, zero, suc, ◌-◌, ◌≤◌, ◌<◌, true, Option, none, some, [], ◌∷◌, ◌++◌, Bytes, ◌≡◌, refl, arith,
  All, length, drop, inl, inr, Bool-cases, Option-cases, has_prefix, has_byte,
}
use go_claude_teleport.FilePath.{slash}
use go_claude_teleport.Session.PathMap.{
  Mapping, PathMap, apply, apply_from, first_match, ends_here, last_byte, match_at,
}

pub length-drop-le : (n : ℕ) (s : Bytes) → length (drop n s) ≤ length s - n
length-drop-le zero s = omega arith
length-drop-le (suc n) [] = omega arith
length-drop-le (suc n) (c ∷ s) = omega (arith, length-drop-le n s)

-- No key is empty, as `NewPathMap` ensures: then an occurrence takes the position on.
abbrev pub HasFrom : Mapping → Type 0
HasFrom m = 0 < length m.from

pub first_match-HasFrom :
    (m : PathMap) (s : Bytes) {x : Mapping} → All HasFrom m → first_match m s ≡ some x → HasFrom x
unfolding first_match
first_match-HasFrom [] s all h = cc
first_match-HasFrom (m ∷ ms) s {x} (pm, all) h =
    ground (arith, first_match-HasFrom ms s {x = x} all)

match_at-HasFrom :
    (m : PathMap) (prev : Option ℕ) (s : Bytes) {x : Mapping}
    → All HasFrom m
    → match_at m prev s ≡ some x
    → HasFrom x
unfolding match_at
match_at-HasFrom m prev s {x} all h = ground (arith, first_match-HasFrom m s {x = x} all)

map-some {ℓ κ} :
    {A : Type ℓ} {B : Type κ} (f : A → B) (o : Option A)
    → ((a : A) × (o ≡ some a))
    → (b : B) × (Option.map f o ≡ some b)
map-some f o (a, e) = (f a, rw e)

apply_from-total :
    (fuel : ℕ) (m : PathMap) (prev : Option ℕ) (s : Bytes)
    → All HasFrom m
    → length s ≤ fuel
    → (out : Bytes) × (apply_from fuel m prev s ≡ some out)
unfolding apply_from
apply_from-total zero m prev [] all h = ([], refl)
apply_from-total (suc fuel) m prev [] all h = ([], refl)
apply_from-total zero m prev (c ∷ s) all h = absurd (omega arith)
apply_from-total (suc fuel) m prev (c ∷ s) all h = elim (Option-cases (match_at m prev (c ∷ s))) [
  | inl e ↦
      rw (e, apply_from)
        (map-some (λ (out : Bytes). c ∷ out) (apply_from fuel m (some c) s)
          (apply_from-total fuel m (some c) s all (omega arith)))
  | inr (x, e) ↦
      let long : 0 < length x.from = match_at-HasFrom m prev (c ∷ s) all e in
      let rest : Bytes = drop (length x.from) (c ∷ s) in
      rw (e, apply_from)
        (map-some (λ (out : Bytes). x.to ++ out) (apply_from fuel m (last_byte x.from prev) rest)
          (apply_from-total fuel m (last_byte x.from prev) rest all
            (omega (arith, length-drop-le (length x.from) (c ∷ s)))))
]

-- `Apply` ends on every text, and as many rounds as the text has bytes are enough, if no key of the
-- map is empty.
pub apply_total : (m : PathMap) (s : Bytes) → All HasFrom m → (out : Bytes) × (apply m s ≡ some out)
unfolding apply
apply_total [] s all = (s, refl)
apply_total (x ∷ m) s all = elim (Bool-cases (has_byte slash s)) [
  | inl e ↦ rw e (apply_from-total (length s) (x ∷ m) none s all (omega arith))
  | inr e ↦ rw e (s, refl)
]

-- An empty key fits everywhere and takes the position on by nothing: with one at the head of the
-- map no number of rounds is enough, for any text that has a byte.
pub apply_from-empty_key :
    (fuel : ℕ) (to : Bytes) (m : PathMap) (c : ℕ) (s : Bytes)
    → ends_here (c ∷ s) ≡ true
    → apply_from fuel (record { from = []; to = to } ∷ m) none (c ∷ s) ≡ none
unfolding apply_from match_at first_match has_prefix
apply_from-empty_key zero to m c s h = refl
apply_from-empty_key (suc fuel) to m c s h =
    rw (h, apply_from) (rw (apply_from-empty_key fuel to m c s h))
