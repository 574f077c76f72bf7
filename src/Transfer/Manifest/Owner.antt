-- ===== src/Transfer/Manifest/Owner.antt =====
-- Which files `ffAllowed` gives to a session.
use go_claude_teleport.Base.{
  ℕ, true, ◌&&◌, [], ◌∷◌, ◌++◌, Bytes, &&-both, has_prefix, has_prefix-append, has_prefix→append,
  drop-length, length, drop, ◌≡◌, ◌≢◌, ◌↔◌, ◌⊎◌, inl, inr, ◌==◌, ==_iff, refl, ap, ◌∙◌, sym, arith,
  Bool-cases,
}
use mathlib.Core.Path.{subst}
use go_claude_teleport.FilePath.{slash}
use go_claude_teleport.Transfer.Manifest.{segment_ends, find_marker, ff_allowed}

-- What stands behind the marker: nothing, a dot and more, or a slash and more.
abbrev pub EndsName : Bytes → Type 0
EndsName after =
    (after ≡ [])
    ⊎ (((rest : Bytes) × (after ≡ b'.' ∷ rest)) ⊎ ((rest : Bytes) × (after ≡ slash ∷ rest)))

segment_ends_iff : (after : Bytes) → (segment_ends after ≡ true) ↔ EndsName after
unfolding segment_ends
segment_ends_iff [] = (λ h. inl refl, λ h. refl)
segment_ends_iff (c ∷ s) = (
  λ h. elim (Bool-cases (c == b'.')) [
    | inl e ↦ inr (inl (s, ap (λ x. x ∷ s) ((==_iff c b'.').0 e)))
    | inr e ↦ inr (inr (s, ap (λ x. x ∷ s) ((==_iff c slash).0 (rw e at h))))
  ],
  λ h. elim h [
    | inl e ↦ cc
    | inr r ↦ elim r [ inl (t, e) ↦ ground arith | inr (t, e) ↦ ground arith ]
  ],
)

-- The text holds the marker with the right end.
abbrev pub HasMarker : Bytes → Bytes → Type 0
HasMarker marker s =
    (before : Bytes) × (after : Bytes) × (s ≡ before ++ marker ++ after) × EndsName after

find_marker→Has : (marker s : Bytes) → find_marker marker s ≡ true → HasMarker marker s
unfolding find_marker
find_marker→Has marker [] h = cc
find_marker→Has marker (c ∷ s) h =
    elim (Bool-cases (has_prefix (c ∷ s) marker && segment_ends (drop (length marker) (c ∷ s)))) [
      | inl e ↦
          let (fits, ends) = &&-both _ _ e in
          let (after, split) = has_prefix→append (c ∷ s) marker fits in
          (
            [],
            after,
            split,
            (segment_ends_iff after).0 (
                ap segment_ends (sym (ap (drop (length marker)) split ∙ drop-length marker after))
                ∙ ends),
          )
      | inr e ↦
          let later : find_marker marker s ≡ true = rw e at h in
          let (before, after, split, ends) = find_marker→Has marker s later in
          (c ∷ before, after, ap (λ (t : Bytes). c ∷ t) split, ends)
    ]

find_marker-here :
    (c : ℕ) (marker after : Bytes)
    → segment_ends after ≡ true
    → find_marker (c ∷ marker) ((c ∷ marker) ++ after) ≡ true
unfolding find_marker
find_marker-here c marker after ends =
    rw (has_prefix-append (c ∷ marker) after) (rw (drop-length marker after) (rw ends))

find_marker-later :
    (b : ℕ) (marker s : Bytes) → find_marker marker s ≡ true → find_marker marker (b ∷ s) ≡ true
unfolding find_marker
find_marker-later b marker s h = ground arith

Has→find_marker :
    (c : ℕ) (marker before after : Bytes)
    → segment_ends after ≡ true
    → find_marker (c ∷ marker) (before ++ (c ∷ marker) ++ after) ≡ true
Has→find_marker c marker [] after ends = find_marker-here c marker after ends
Has→find_marker c marker (b ∷ before) after ends =
    find_marker-later b (c ∷ marker) (before ++ (c ∷ marker) ++ after)
      (Has→find_marker c marker before after ends)

-- A path belongs to a session exactly when one of its components is the session's id, or begins
-- with the id and a dot; no path belongs to a session without an id.
pub ff_allowed_iff :
    (rel sid : Bytes)
    → (ff_allowed rel sid ≡ true) ↔ ((sid ≢ []) × HasMarker (slash ∷ sid) (slash ∷ rel))
unfolding ff_allowed
ff_allowed_iff rel [] = (λ h. cc, λ h. absurd (h.0 refl))
ff_allowed_iff rel (c ∷ sid) = (
  λ h. (cc, find_marker→Has (slash ∷ c ∷ sid) (slash ∷ rel) h),
  λ (ne, (before, after, split, ends)).
      subst (λ (t : Bytes). find_marker (slash ∷ c ∷ sid) t ≡ true) (sym split)
        (Has→find_marker slash (c ∷ sid) before after ((segment_ends_iff after).1 ends)),
)
