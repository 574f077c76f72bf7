-- ===== src/Tmux/Quote/Names.antt =====
-- `UnvisName` undoes the encoding of names that its comment documents, and leaves raw names alone.
use mathlib.Core.Option
use go_claude_teleport.Base.{
  ℕ, zero, suc, ◌+◌, ◌*◌, ◌%◌, ◌/◌, ◌≤◌, ◌<◌, Bool, false, ◌||◌, some, [], ◌∷◌, ◌++◌, Bytes,
  has_byte, length, ◌≡◌, ◌≢◌, ==_iff, refl, ap, ◌∙◌, arith, ◌==◌, if◌then◌else◌, All, inl, inr, ◌⊎◌,
  Bool-cases, ltb,
}
use go_claude_teleport.Tmux.Quote.{
  backslash, is_octal, read_octal, unescape, unvis_step, unvis_from, unvis_name,
}

-- The bytes that vis(3) writes as a mnemonic in C style, besides newline and tab: BEL, BS, VT, FF, CR.
abbrev pub has_mnemonic : ℕ → Bool
has_mnemonic c = c == 7 || c == 8 || c == 11 || c == 12 || c == 13

abbrev mnemonic : ℕ → ℕ
mnemonic c =
    if c == 7
    then b'a'
    else if c == 8
    then b'b'
    else if c == 11
    then b'v'
    else if c == 12
    then b'f'
    else b'r'

-- The encoding of one byte by vis(3), as the comment of `UnvisName` names it (octal, C style, tab and
-- newline): a doubled backslash, mnemonics, octal for the other control bytes. The bytes of UTF-8 text
-- above ASCII stand as they are.
abbrev pub vis_byte : ℕ → Bytes
vis_byte c =
    if c == backslash
    then backslash ∷ backslash ∷ []
    else if c == 10
    then backslash ∷ b'n' ∷ []
    else if c == 9
    then backslash ∷ b't' ∷ []
    else if has_mnemonic c
    then backslash ∷ mnemonic c ∷ []
    else if ltb c 32 || c == 127
    then backslash ∷ (b'0' + c / 64) ∷ (b'0' + c / 8 % 8) ∷ (b'0' + c % 8) ∷ []
    else c ∷ []

pub vis : Bytes → Bytes
vis [] = []
vis (c ∷ s) = vis_byte c ++ vis s

read_octal-three :
    (a b d : ℕ) (s : Bytes)
    → a ≤ 7
    → b ≤ 7
    → d ≤ 7
    → read_octal 3 0 ((b'0' + a) ∷ (b'0' + b) ∷ (b'0' + d) ∷ s) ≡ (a * 64 + b * 8 + d, s)
unfolding read_octal
read_octal-three a b d s ha hb hd = ground arith

unescape-octal :
    (a : ℕ) (t : Bytes)
    → a ≤ 7
    → unescape (b'0' + a) t
      ≡ ((read_octal 3 0 ((b'0' + a) ∷ t)).0 % 256 ∷ [], (read_octal 3 0 ((b'0' + a) ∷ t)).1)
unfolding unescape
unescape-octal a t h = ground arith

-- Three octal digits give the byte back.
unescape-digits :
    (c : ℕ) (s : Bytes)
    → c < 256
    → unescape (b'0' + c / 64) ((b'0' + c / 8 % 8) ∷ (b'0' + c % 8) ∷ s) ≡ (c ∷ [], s)
unescape-digits c s h =
    let e : read_octal 3 0 ((b'0' + c / 64) ∷ (b'0' + c / 8 % 8) ∷ (b'0' + c % 8) ∷ s)
        ≡ (c / 64 * 64 + c / 8 % 8 * 8 + c % 8, s) =
      read_octal-three (c / 64) (c / 8 % 8) (c % 8) s (omega arith) (omega arith) (omega arith) in
    unescape-octal (c / 64) ((b'0' + c / 8 % 8) ∷ (b'0' + c % 8) ∷ s) (omega arith) ∙ ground arith

unvis_step-plain : (c : ℕ) (s : Bytes) → c ≢ backslash → unvis_step c s ≡ (c ∷ [], s)
unfolding unvis_step
unvis_step-plain c [] h = refl
unvis_step-plain c (n ∷ s) h = ground arith

unvis_step-octal :
    (c : ℕ) (s : Bytes)
    → c < 256
    → unvis_step backslash ((b'0' + c / 64) ∷ (b'0' + c / 8 % 8) ∷ (b'0' + c % 8) ∷ s) ≡ (c ∷ [], s)
unfolding unvis_step
unvis_step-octal c s h = unescape-digits c s h

-- One round of the loop reads one encoded byte, whatever stands behind it.
unvis_from-vis_byte :
    (fuel c : ℕ) (s : Bytes)
    → c < 256
    → has_mnemonic c ≡ false
    → unvis_from (suc fuel) (vis_byte c ++ s)
      ≡ Option.map (λ (text : Bytes). c ∷ text) (unvis_from fuel s)
unfolding unvis_from
unvis_from-vis_byte fuel c s h no_mnemonic = elim (Bool-cases (c == backslash)) [
  | inl e ↦ rw e (rw ((==_iff c backslash).0 e) (unfold unvis_step unescape in refl))
  | inr plain ↦ elim (Bool-cases (c == 10)) [
    | inl e ↦ rw (plain, e) (rw ((==_iff c 10).0 e) (unfold unvis_step unescape in refl))
    | inr not_newline ↦ elim (Bool-cases (c == 9)) [
      | inl e ↦
          rw (plain, not_newline, e) (rw ((==_iff c 9).0 e) (unfold unvis_step unescape in refl))
      | inr not_tab ↦ elim (Bool-cases (ltb c 32 || c == 127)) [
        | inl e ↦ rw (plain, not_newline, not_tab, no_mnemonic, e) (rw (unvis_step-octal c s h))
        | inr e ↦
            rw (plain, not_newline, not_tab, no_mnemonic, e)
              (rw (unvis_step-plain c s (ground arith)))
      ]
    ]
  ]
]

-- A byte that a name can hold, and for which vis(3) has no mnemonic but `\n` and `\t`.
abbrev pub IsProbed : ℕ → Type 0
IsProbed c = (c < 256) × (c ≢ 0) × (has_mnemonic c ≡ false)

unvis_from-vis :
    (fuel : ℕ) (s : Bytes) → All IsProbed s → length s ≤ fuel → unvis_from fuel (vis s) ≡ some s
unfolding vis
unvis_from-vis zero [] h enough = unfold unvis_from in refl
unvis_from-vis (suc fuel) [] h enough = unfold unvis_from in refl
unvis_from-vis zero (c ∷ s) h enough = absurd (omega arith)
unvis_from-vis (suc fuel) (c ∷ s) ((hc, named, hm), h) enough =
    rw (unvis_from-vis_byte fuel c (vis s) hc hm) (rw (unvis_from-vis fuel s h (omega arith)))

length-vis_byte : (c : ℕ) (t : Bytes) → suc (length t) ≤ length (vis_byte c ++ t)
length-vis_byte c t = ground arith

length-vis : (s : Bytes) → length s ≤ length (vis s)
unfolding vis
length-vis [] = omega arith
length-vis (c ∷ s) = omega (arith, length-vis_byte c (vis s), length-vis s)

has_byte-vis_byte :
    (c : ℕ) (t : Bytes)
    → has_byte backslash (vis_byte c ++ t) ≡ false
    → (vis_byte c ≡ c ∷ []) × (has_byte backslash t ≡ false)
unfolding has_byte
has_byte-vis_byte c t h = (ground arith, ground arith)

vis-plain : (s : Bytes) → has_byte backslash (vis s) ≡ false → vis s ≡ s
unfolding vis
vis-plain [] h = refl
vis-plain (c ∷ s) h =
    let (one, rest) = has_byte-vis_byte c (vis s) h in
    rw one (ap (λ (t : Bytes). c ∷ t) (vis-plain s rest))

-- A name without NUL, BEL, BS, VT, FF and CR comes back from the encoding that tmux stores it in: a
-- doubled backslash, `\n` and `\t`, and three octal digits for the other control bytes.
pub unvis_name-vis : (s : Bytes) → All IsProbed s → unvis_name (vis s) ≡ some s
unfolding unvis_name
unvis_name-vis s h = elim (Bool-cases (has_byte backslash (vis s))) [
  | inl e ↦ rw e (unvis_from-vis (length (vis s)) s h (length-vis s))
  | inr e ↦ rw e (ap some (vis-plain s e))
]

-- No backslash begins an escape that `UnvisName` knows.
abbrev pub IsRaw : Bytes → Type 0
IsRaw [] = Unit
IsRaw (c ∷ []) = Unit
IsRaw (c ∷ d ∷ s) =
    ((c ≢ backslash) ⊎ ((d ≢ backslash) × (d ≢ b'n') × (d ≢ b't') × (is_octal d ≡ false)))
    × IsRaw (d ∷ s)

IsRaw-tail : (c : ℕ) (s : Bytes) → IsRaw (c ∷ s) → IsRaw s
IsRaw-tail c [] raw = tt
IsRaw-tail c (d ∷ s) raw = raw.1

unescape-raw :
    (d : ℕ) (s : Bytes)
    → d ≢ backslash
    → d ≢ b'n'
    → d ≢ b't'
    → is_octal d ≡ false
    → unescape d s ≡ (backslash ∷ d ∷ [], s)
unfolding unescape
unescape-raw d s h1 h2 h3 h4 =
    rw (unequal d backslash h1, unequal d b'n' h2, unequal d b't' h3, h4) refl
  where
    unequal : (a b : ℕ) → a ≢ b → (a == b) ≡ false
    unequal a b h = ground arith

unvis_from-raw : (fuel : ℕ) (s : Bytes) → IsRaw s → length s ≤ fuel → unvis_from fuel s ≡ some s
unfolding unvis_from
unvis_from-raw zero [] raw h = refl
unvis_from-raw (suc fuel) [] raw h = refl
unvis_from-raw zero (c ∷ s) raw h = absurd (omega arith)
unvis_from-raw (suc fuel) (c ∷ []) raw h =
    unfold unvis_step in
    ap (Option.map (λ (text : Bytes). c ∷ text)) (unvis_from-raw fuel [] tt (omega arith))
unvis_from-raw (suc fuel) (c ∷ d ∷ s) (here, raw) h = elim (Bool-cases (c == backslash)) [
  | inr e ↦
      rw (unvis_step-plain c (d ∷ s) (ground arith))
        (rw (unvis_from-raw fuel (d ∷ s) raw (omega arith)))
  | inl e ↦ elim here [
    | inl ne ↦ absurd (ne ((==_iff c backslash).0 e))
    | inr (h1, h2, h3, h4) ↦
        let step : unvis_step c (d ∷ s) ≡ (c ∷ d ∷ [], s) =
          unfold unvis_step in
          rw e (rw ((==_iff c backslash).0 e) (unescape-raw d s h1 h2 h3 h4)) in
        rw step (rw (unvis_from-raw fuel s (IsRaw-tail d s raw) (omega arith)))
  ]
]

-- A name in which no backslash begins one of the escapes, as an older tmux stored it, is kept.
pub unvis_name-raw : (s : Bytes) → IsRaw s → unvis_name s ≡ some s
unfolding unvis_name
unvis_name-raw s raw = elim (Bool-cases (has_byte backslash s)) [
  | inl e ↦ rw e (unvis_from-raw (length s) s raw (omega arith))
  | inr e ↦ rw e refl
]
