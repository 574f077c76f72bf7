-- ===== src/Session/PathMap/OnePath.antt =====
-- On a text that is one path, `Apply` does what `ApplyPath` does.
use mathlib.Core.Path.{subst}
use go_claude_teleport.Base.{
  ℕ, zero, suc, ◌≤◌, ◌<◌, true, false, ◌&&◌, ◌||◌, Option, none, some, [], ◌∷◌, ◌++◌, append-nil,
  append_assoc, Bytes, ◌≡◌, ◌≢◌, refl, sym, ap, ◌∙◌, arith, All, length, drop, inl, inr, Bool-cases,
  Option-cases, bytes_eq, bytes_eq_iff, has_prefix, has_prefix→append, has_prefix-append, has_byte,
  drop-length,
}
use go_claude_teleport.FilePath.{slash}
use go_claude_teleport.Session.PathMap.{
  Mapping, PathMap, covers, apply_path, apply, apply_from, first_match, match_at, ends_here,
  is_path_byte, last_byte,
}
use go_claude_teleport.Session.PathMap.Longest.{apply_path-cons}
use go_claude_teleport.Session.PathMap.Occurrences.{HasFrom, first_match-HasFrom, length-drop-le}

abbrev pub IsPathText : Bytes → Type 0
IsPathText = All (λ c. is_path_byte c ≡ true)

-- Behind a path byte no occurrence starts: the rest of a path is copied.
apply_from-copies :
    (fuel : ℕ) (m : PathMap) (prev : ℕ) (s : Bytes)
    → is_path_byte prev ≡ true
    → IsPathText s
    → length s ≤ fuel
    → apply_from fuel m (some prev) s ≡ some s
unfolding apply_from match_at
apply_from-copies zero m prev [] hp hs h = refl
apply_from-copies (suc fuel) m prev [] hp hs h = refl
apply_from-copies zero m prev (c ∷ s) hp hs h = absurd (omega arith)
apply_from-copies (suc fuel) m prev (c ∷ s) hp (hc, hs) h =
    rw (hp, apply_from, match_at) (rw (apply_from-copies fuel m c s hc hs (omega arith)))

bytes_eq-append : (p t : Bytes) → bytes_eq (p ++ t) p ≡ bytes_eq t []
unfolding bytes_eq
bytes_eq-append [] t = refl
bytes_eq-append (c ∷ p) t = ground (arith, bytes_eq-append p t)

has_prefix-cancel : (p t q : Bytes) → has_prefix (p ++ t) (p ++ q) ≡ has_prefix t q
unfolding has_prefix
has_prefix-cancel [] t q = refl
has_prefix-cancel (c ∷ p) t q = ground (arith, has_prefix-cancel p t q)

-- Behind an occurrence in a path stands nothing, a slash, or (not allowed here) a last dot.
ends_here-path :
    (t : Bytes)
    → IsPathText t
    → t ≢ b'.' ∷ []
    → ends_here t ≡ (bytes_eq t [] || has_prefix t (slash ∷ []))
unfolding ends_here bytes_eq has_prefix
ends_here-path [] h ne = refl
ends_here-path (c ∷ []) h ne =
    let other : c ≢ b'.' = λ e. ne (ap (λ (b : ℕ). b ∷ []) e) in ground arith
ends_here-path (c ∷ d ∷ s) (hc, (hd, hs)) ne = ground arith

has_prefix-false→covers :
    (m : Mapping) (p : Bytes) → has_prefix p m.from ≡ false → covers m p ≡ false
unfolding covers
has_prefix-false→covers m p e = elim (Bool-cases (has_prefix p (m.from ++ slash ∷ []))) [
  | inl below ↦
      let (t, split) = has_prefix→append p (m.from ++ slash ∷ []) below in
      cc (
        e,
        ap (λ (q : Bytes). has_prefix q m.from) (split ∙ append_assoc m.from (slash ∷ []) t),
        has_prefix-append m.from (slash ∷ t),
      )
  | inr apart ↦ elim (Bool-cases (bytes_eq p m.from)) [
    | inl same ↦ cc (
      e,
      ap (λ (q : Bytes). has_prefix q m.from)
          ((bytes_eq_iff p m.from).0 same ∙ sym (append-nil m.from)),
      has_prefix-append m.from [],
    )
    | inr other ↦ rw (other, apart)
  ]
]

covers-append :
    (m : Mapping) (t : Bytes)
    → covers m (m.from ++ t) ≡ (bytes_eq t [] || has_prefix t (slash ∷ []))
unfolding covers
covers-append m t = rw (bytes_eq-append m.from t, has_prefix-cancel m.from t (slash ∷ []))

IsPathText-split : (a b : Bytes) → IsPathText (a ++ b) → IsPathText a × IsPathText b
IsPathText-split [] b h = (tt, h)
IsPathText-split (c ∷ a) b (hc, h) = let (ha, hb) = IsPathText-split a b h in ((hc, ha), hb)

-- The test of `Apply` at the start of a path is that of `ApplyPath`.
fits-covers :
    (m : Mapping) (p : Bytes)
    → IsPathText p
    → p ≢ m.from ++ b'.' ∷ []
    → (has_prefix p m.from && ends_here (drop (length m.from) p)) ≡ covers m p
fits-covers m p text ne = elim (Bool-cases (has_prefix p m.from)) [
  | inr e ↦ rw (e, has_prefix-false→covers m p e)
  | inl e ↦
      let (t, split) = has_prefix→append p m.from e in
      let tail : IsPathText t =
        (IsPathText-split m.from t (subst (λ (q : Bytes). IsPathText q) split text)).1 in
      rw (e, split, drop-length m.from t, covers-append m t)
        (ends_here-path t tail (λ dot. ne (split ∙ ap (λ (q : Bytes). m.from ++ q) dot)))
]

-- What `Apply` does with the first mapping that fits at the start.
abbrev rewritten : Bytes → Option Mapping → Bytes
rewritten p none = p
rewritten p (some x) = x.to ++ drop (length x.from) p

rewritten-first_match :
    (m : PathMap) (p : Bytes)
    → IsPathText p
    → All (λ x. p ≢ x.from ++ b'.' ∷ []) m
    → rewritten p (first_match m p) ≡ apply_path m p
unfolding first_match
rewritten-first_match [] p text ne = unfold apply_path in refl
rewritten-first_match (m ∷ ms) p text (hm, ne) =
    rw (apply_path-cons m ms p, fits-covers m p text hm)
      (elim (Bool-cases (covers m p)) [
        | inl e ↦ rw e refl
        | inr e ↦ rw e (rewritten-first_match ms p text ne)
      ])

first_match-prefix :
    (m : PathMap) (p : Bytes) {x : Mapping} → first_match m p ≡ some x → has_prefix p x.from ≡ true
unfolding first_match
first_match-prefix [] p h = cc
first_match-prefix (m ∷ ms) p {x} h = ground (arith, first_match-prefix ms p {x = x})

last_byte-path :
    (s : Bytes) (prev : Option ℕ)
    → 0 < length s
    → IsPathText s
    → (d : ℕ) × (last_byte s prev ≡ some d) × (is_path_byte d ≡ true)
unfolding last_byte
last_byte-path [] prev h text = absurd (omega arith)
last_byte-path (c ∷ []) prev h (hc, text) = (c, refl, hc)
last_byte-path (c ∷ d ∷ s) prev h (hc, text) = last_byte-path (d ∷ s) (some c) (omega arith) text

-- After the first mapping the rest of the path is copied.
moved_on :
    (fuel : ℕ) (m : PathMap) (x : Mapping) (p : Bytes)
    → IsPathText p
    → HasFrom x
    → has_prefix p x.from ≡ true
    → length (drop (length x.from) p) ≤ fuel
    → apply_from fuel m (last_byte x.from none) (drop (length x.from) p)
      ≡ some (drop (length x.from) p)
moved_on fuel m x p text long fits enough =
    let (t, split) = has_prefix→append p x.from fits in
    let parts : IsPathText x.from × IsPathText t =
      IsPathText-split x.from t (subst (λ (q : Bytes). IsPathText q) split text) in
    let rest : drop (length x.from) p ≡ t =
      ap (drop (length x.from)) split ∙ drop-length x.from t in
    let (d, last, path) = last_byte-path x.from none long parts.0 in
    rw (last, rest) (apply_from-copies fuel m d t path parts.1 (rw rest at enough))

apply_from-path :
    (fuel : ℕ) (m : PathMap) (c : ℕ) (s : Bytes)
    → IsPathText (c ∷ s)
    → All HasFrom m
    → length s ≤ fuel
    → apply_from (suc fuel) m none (c ∷ s) ≡ some (rewritten (c ∷ s) (first_match m (c ∷ s)))
unfolding apply_from match_at
apply_from-path fuel m c s text all enough = elim (Option-cases (first_match m (c ∷ s))) [
  | inl e ↦ rw (e, apply_from, match_at) (rw (apply_from-copies fuel m c s text.0 text.1 enough))
  | inr (x, e) ↦
      let long : HasFrom x = first_match-HasFrom m (c ∷ s) all e in
      rw (e, apply_from, match_at)
        (rw (
          moved_on fuel m x (c ∷ s) text long (first_match-prefix m (c ∷ s) e)
            (omega (arith, length-drop-le (length x.from) (c ∷ s)))))
]

-- On a text that is one absolute path, with none of the delimiters of free text in it, `Apply`
-- rewrites exactly what `ApplyPath` rewrites. The keys of the map are not empty, and the path is no
-- key with a dot behind it, which `Apply` takes for the end of a sentence.
pub apply-apply_path :
    (m : PathMap) (s : Bytes)
    → IsPathText (slash ∷ s)
    → All HasFrom m
    → All (λ x. slash ∷ s ≢ x.from ++ b'.' ∷ []) m
    → apply m (slash ∷ s) ≡ some (apply_path m (slash ∷ s))
unfolding apply has_byte
apply-apply_path [] s text all ne = unfold apply_path in refl
apply-apply_path (x ∷ m) s text all ne =
    apply_from-path (length s) (x ∷ m) slash s text all (omega arith)
    ∙ ap some (rewritten-first_match (x ∷ m) (slash ∷ s) text ne)
