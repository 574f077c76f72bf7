-- ===== src/Session/MemoryIndex/Means.antt =====
-- The merge of a memory index, in terms of lines and of `strings.TrimSpace` alone.
use mathlib.Core.List.{Memᴰ, reverse, reverse-append, reverse-reverse, reverse-cons}
use mathlib.Core.Path.{subst}
use mathlib.Core.List.Memᴰ
use go_claude_teleport.Base.{
  ℕ, Bool, true, false, ◌||◌, ◌==◌, List, [], ◌∷◌, ◌++◌, Bytes, length, ◌≡◌, ◌≢◌, refl, sym, ap,
  ◌∙◌, ◌⊎◌, ◌↔◌, All-append, append_assoc, inl, inr, arith, All, has_text, has_suffix, bytes_eq,
  bytes_eq_iff, Bool-cases,
}
use go_claude_teleport.FilePath.{split_on, join_with}
use go_claude_teleport.Session.PathMap.{trim_space}
use go_claude_teleport.Session.MemoryIndex.{
  Found, index_written, newline, is_empty, carried, drop_ends, trim_end, is_known, terminated,
  line_gap, merge_memory_index,
}
use go_claude_teleport.Session.MemoryIndex.Adds.{
  ends, trims, AreNew, IsCovered, Chosen, text_of, merge_memory_index-Chosen,
}

-- Carriage return or newline.
abbrev IsLineEnd : ℕ → Type 0
IsLineEnd c = (c ≡ 13) ⊎ (c ≡ 10)

-- `added` is `line` without the line ends at its end.
abbrev IsLessEnds : Bytes → Bytes → Type 0
IsLessEnds line added =
    (cut : Bytes) × (line ≡ added ++ cut)
    × All IsLineEnd cut
    × ((b : Bytes) (c : ℕ) → added ≡ b ++ c ∷ [] → ¬ (IsLineEnd c))

-- Some line is the text, up to the white space around it.
abbrev IsLike : Bytes → List Bytes → Type 0
IsLike t lines = (line : Bytes) × Memᴰ line lines × (trim_space line ≡ t)

-- None of the lines is blank, like an old one, or like an earlier one of them.
abbrev AreFresh : List Bytes → List Bytes → Type 0
AreFresh old [] = Unit
AreFresh old (l ∷ ls) =
    (trim_space l ≢ []) × (¬ (IsLike (trim_space l) old)) × AreFresh (l ∷ old) ls

abbrev AreLessEnds : List Bytes → List Bytes → Type 0
AreLessEnds [] [] = Unit
AreLessEnds (l ∷ ls) (a ∷ rest) = IsLessEnds l a × AreLessEnds ls rest
AreLessEnds [] (a ∷ rest) = ⊥
AreLessEnds (l ∷ ls) [] = ⊥

-- What is put between the old text and the new lines: a newline exactly when the old text has a last
-- line that is not terminated.
abbrev IsGap : Bytes → Bytes → Type 0
IsGap old gap =
    ((gap ≡ []) × ((old ≡ []) ⊎ ((s : Bytes) × (old ≡ s ++ newline ∷ []))))
    ⊎ ((gap ≡ newline ∷ []) × (old ≢ []) × ((s : Bytes) → old ≢ s ++ newline ∷ []))

-- The new text over the old one, for the lines of the source.
unfoldable pub IsMerge : Bytes → List Bytes → Bytes → ℕ → Type 0
IsMerge old source text n =
    (gap : Bytes) × (added : List Bytes) × (chosen : List Bytes) × (text
      ≡ old ++ (gap ++ (join_with newline added ++ newline ∷ [])))
    × (n ≡ length added)
    × IsGap old gap
    × AreLessEnds chosen added
    × AreFresh (split_on newline old) chosen
    × All (λ l. Memᴰ l source) chosen
    × All
        (λ l.
          (trim_space l ≡ [])
          ⊎ (IsLike (trim_space l) (split_on newline old) ⊎ IsLike (trim_space l) chosen))
        source

-- Dropping line ends from a reversed text.
drop_ends-split :
    (s : Bytes)
    → (cut : Bytes) × (s ≡ cut ++ drop_ends s)
      × All IsLineEnd cut
      × ((c : ℕ) (r : Bytes) → drop_ends s ≡ c ∷ r → ¬ (IsLineEnd c))
unfolding drop_ends
drop_ends-split [] = ([], refl, tt, λ c r e. cc)
drop_ends-split (x ∷ s) = elim (Bool-cases (x == 13 || x == newline)) [
  | inl e ↦
      let (cut, split, all, rest) = drop_ends-split s in
      rw e (x ∷ cut, ap (λ t. x ∷ t) split, (ground arith, all), rest)
  | inr e ↦ rw e ([], refl, tt, λ c r q h. elim h [ inl a ↦ ground arith | inr b ↦ ground arith ])
]

All-reverse : (P : ℕ → Type 0) (s : Bytes) → All P s → All P (reverse s)
All-reverse P [] h = tt
All-reverse P (c ∷ s) (hc, h) =
    subst (All P) (sym (reverse-cons c s))
      (All-append P (reverse s) (c ∷ []) (All-reverse P s h) (hc, tt))

trim_end-IsLessEnds : (line : Bytes) → IsLessEnds line (trim_end line)
unfolding trim_end
trim_end-IsLessEnds line =
    let (cut, split, all, first) = drop_ends-split (reverse line) in
    (
      reverse cut,
      sym (reverse-reverse line) ∙ ap reverse split ∙ reverse-append cut (drop_ends (reverse line)),
      All-reverse IsLineEnd cut all,
      λ b c e. first c (reverse b) (
          sym (reverse-reverse (drop_ends (reverse line)))
          ∙ ap reverse e
          ∙ reverse-append b (c ∷ [])),
    )

ends-AreLessEnds : (ls : List Bytes) → AreLessEnds ls (ends ls)
ends-AreLessEnds [] = tt
ends-AreLessEnds (l ∷ ls) = (trim_end-IsLessEnds l, ends-AreLessEnds ls)

terminated-join :
    (l : Bytes) (ls : List Bytes) → terminated (l ∷ ls) ≡ join_with newline (l ∷ ls) ++ newline ∷ []
unfolding terminated join_with
terminated-join l [] = refl
terminated-join l (k ∷ ls) =
    ap (λ t. l ++ newline ∷ t) (terminated-join k ls)
    ∙ sym (append_assoc l (newline ∷ join_with newline (k ∷ ls)) (newline ∷ []))

-- The texts of `have` are those of the lines of `old`, less the white space around, but for the blank.
abbrev Reads : List Bytes → List Bytes → Type 0
Reads have old = (t : Bytes) → t ≢ [] → (has_text t have ≡ true) ↔ IsLike t old

IsLike-later : (t l : Bytes) (ls : List Bytes) → IsLike t ls → IsLike t (l ∷ ls)
IsLike-later t l ls (k, m, e) = (k, Memᴰ.tail m, e)

IsLike-cases :
    (t l : Bytes) (ls : List Bytes) → IsLike t (l ∷ ls) → (trim_space l ≡ t) ⊎ IsLike t ls
IsLike-cases t l ls (k, Memᴰ.head q, e) = inl (ap trim_space (sym q) ∙ e)
IsLike-cases t l ls (k, Memᴰ.tail m, e) = inr (k, m, e)

Reads-cons :
    (have old : List Bytes) (l : Bytes) → Reads have old → Reads (trim_space l ∷ have) (l ∷ old)
unfolding has_text
Reads-cons have old l r t ne = (
  λ h. elim (Bool-cases (bytes_eq (trim_space l) t)) [
    | inl e ↦ (l, Memᴰ.head refl, (bytes_eq_iff (trim_space l) t).0 e)
    | inr e ↦ IsLike-later t l old ((r t ne).0 (rw e at h))
  ],
  λ like. elim (IsLike-cases t l old like) [
    | inl e ↦ rw ((bytes_eq_iff (trim_space l) t).1 e) refl
    | inr later ↦ ground (arith, (r t ne).1 later)
  ],
)

empty-nil : (t : Bytes) → (is_empty t ≡ true) ↔ (t ≡ [])
empty-nil [] = (λ h. refl, λ h. refl)
empty-nil (c ∷ s) = (λ h. cc, λ h. cc)

carried-Reads : (old : List Bytes) → Reads (carried old) old
unfolding carried has_text
carried-Reads [] t ne = (λ h. cc, λ (k, m, e). elim (Memᴰ.not-nil m) [ ])
carried-Reads (l ∷ old) t ne = elim (Bool-cases (is_empty (trim_space l))) [
  | inr e ↦ rw e (Reads-cons (carried old) old l (carried-Reads old) t ne)
  | inl e ↦ rw e (
    (λ h. IsLike-later t l old ((carried-Reads old t ne).0 h)),
    λ like. elim (IsLike-cases t l old like) [
      | inl q ↦ absurd (ne (sym q ∙ (empty-nil (trim_space l)).0 e))
      | inr later ↦ (carried-Reads old t ne).1 later
    ],
  )
]

-- A text that is not known is neither blank nor like a line.
unknown :
    (have old : List Bytes) (t : Bytes)
    → Reads have old
    → is_known have t ≡ false
    → (t ≢ []) × (¬ (IsLike t old))
unfolding has_text
unknown have old [] r h = cc
unknown have old (c ∷ s) r h = ((λ e. cc), λ like. clash ((r (c ∷ s) (λ e. cc)).1 like))
  where
    clash : has_text (c ∷ s) have ≡ true → ⊥
    clash q = cc

known :
    (have old : List Bytes) (t : Bytes)
    → Reads have old
    → is_known have t ≡ true
    → (t ≡ []) ⊎ IsLike t old
unfolding has_text
known have old [] r h = inl refl
known have old (c ∷ s) r h = inr ((r (c ∷ s) (λ e. cc)).0 h)

AreNew-AreFresh : (have old ls : List Bytes) → Reads have old → AreNew have ls → AreFresh old ls
unfolding AreNew
AreNew-AreFresh have old [] r h = tt
AreNew-AreFresh have old (l ∷ ls) r (h, hs) =
    let (a, b) = unknown have old (trim_space l) r h in
    (a, b, AreNew-AreFresh (trim_space l ∷ have) (l ∷ old) ls (Reads-cons have old l r) hs)

trims-IsLike : (t : Bytes) (ls : List Bytes) → has_text t (trims ls) ≡ true → IsLike t ls
unfolding has_text
trims-IsLike t [] h = cc
trims-IsLike t (l ∷ ls) h = elim (Bool-cases (bytes_eq (trim_space l) t)) [
  | inl e ↦ (l, Memᴰ.head refl, (bytes_eq_iff (trim_space l) t).0 e)
  | inr e ↦ IsLike-later t l ls (trims-IsLike t ls (rw e at h))
]

covered :
    (have old chosen ls : List Bytes)
    → Reads have old
    → All (IsCovered have chosen) ls
    → All (λ l. (trim_space l ≡ []) ⊎ (IsLike (trim_space l) old ⊎ IsLike (trim_space l) chosen)) ls
unfolding IsCovered
covered have old chosen [] r h = tt
covered have old chosen (l ∷ ls) r (inl h, hs) = (
  elim (known have old (trim_space l) r h) [ inl e ↦ inl e | inr k ↦ inr (inl k) ],
  covered have old chosen ls r hs,
)
covered have old chosen (l ∷ ls) r (inr h, hs) =
    (inr (inr (trims-IsLike (trim_space l) chosen h)), covered have old chosen ls r hs)

has_suffix→ends :
    (s : Bytes) → has_suffix s (newline ∷ []) ≡ true → (b : Bytes) × (s ≡ b ++ newline ∷ [])
unfolding has_suffix bytes_eq
has_suffix→ends [] h = cc
has_suffix→ends (a ∷ s) h = elim (Bool-cases (bytes_eq (a ∷ s) (newline ∷ []))) [
  | inl e ↦ ([], (bytes_eq_iff (a ∷ s) (newline ∷ [])).0 e)
  | inr e ↦ let (b, q) = has_suffix→ends s (rw e at h) in (a ∷ b, ap (λ t. a ∷ t) q)
]

ends→has_suffix : (b : Bytes) → has_suffix (b ++ newline ∷ []) (newline ∷ []) ≡ true
unfolding has_suffix bytes_eq
ends→has_suffix [] = refl
ends→has_suffix (x ∷ b) = ground (arith, ends→has_suffix b)

has_suffix_iff :
    (s : Bytes) → (has_suffix s (newline ∷ []) ≡ true) ↔ ((b : Bytes) × (s ≡ b ++ newline ∷ []))
has_suffix_iff s = (
  has_suffix→ends s,
  λ (b, e). subst (λ t. has_suffix t (newline ∷ []) ≡ true) (sym e) (ends→has_suffix b),
)

line_gap-IsGap : (old : Bytes) → IsGap old (line_gap old)
unfolding line_gap
line_gap-IsGap [] = inl (refl, inl refl)
line_gap-IsGap (c ∷ s) = elim (Bool-cases (has_suffix (c ∷ s) (newline ∷ []))) [
  | inl e ↦ rw e (inl (refl, inr ((has_suffix_iff (c ∷ s)).0 e)))
  | inr e ↦ rw e (inr (refl, (λ q. cc), λ b q. clash (sym e ∙ (has_suffix_iff (c ∷ s)).1 (b, q))))
]
  where
    clash : ◌≡◌ {A = Bool} false true → ⊥
    clash q = cc

added_text :
    (added : List Bytes) → added ≢ [] → terminated added ≡ join_with newline added ++ newline ∷ []
added_text [] ne = absurd (ne refl)
added_text (l ∷ ls) ne = terminated-join l ls

-- When MergeMemoryIndex writes the index, the new text is the old one, then a newline exactly when the
-- old text has a last line that is not terminated, then as many lines as it reports, each terminated.
-- They are lines of the source's index less the line ends at their ends, none of which is blank, like a
-- line of the old text or like an earlier one of them; and every line of the source's index is blank or
-- like a line of the old text or like one of them. Blank and like are up to the white space around.
pub merge_memory_index-Adds :
    (found : Found) (src : Bytes) (dir_made written : Bool) (text : Bytes) (n : ℕ)
    → merge_memory_index found src dir_made written ≡ index_written text n
    → IsMerge (text_of found) (split_on newline src) text n
unfolding IsMerge Chosen
merge_memory_index-Adds found src dir_made written text n h =
    let old : List Bytes = split_on newline (text_of found) in
    let (added, whole, count, some_line, (chosen, less, fresh, from, all)) =
      merge_memory_index-Chosen found src dir_made written text n h in
    (
      line_gap (text_of found),
      added,
      chosen,
      whole
          ∙ ap (λ t. text_of found ++ (line_gap (text_of found) ++ t)) (added_text added some_line),
      count,
      line_gap-IsGap (text_of found),
      subst (AreLessEnds chosen) (sym less) (ends-AreLessEnds chosen),
      AreNew-AreFresh (carried old) old chosen (carried-Reads old) fresh,
      from,
      covered (carried old) old chosen (split_on newline src) (carried-Reads old) all,
    )
