-- ===== src/Session/Prefix/Bytewise.antt =====
-- The comparison in chunks is the bytewise one.
use go_claude_teleport.Base.{
  ℕ, zero, suc, ◌+◌, ◌≤◌, ◌<◌, Bool, true, false, ◌&&◌, not, [], ◌∷◌, Bytes, bytes_eq, has_prefix,
  length, take, drop, ltb, ◌==◌, ==_iff, ◌≡◌, refl, sym, ap, ◌∙◌, arith, if-both,
}
use go_claude_teleport.Session.Prefix.{
  PrefixAnswer, is_prefix_or_not, compare_chunks, prefix_loop, chunk_size, is_prefix,
}

-- A comparison is that of the chunks and of what is behind them.
has_prefix-chunk :
    (k : ℕ) (e i : Bytes)
    → length e ≤ length i
    → has_prefix i e
      ≡ bytes_eq (take k e) (take (length (take k e)) i)
        && has_prefix (drop (length (take k e)) i) (drop k e)
unfolding has_prefix bytes_eq
has_prefix-chunk zero e i h = refl
has_prefix-chunk (suc k) [] i h = refl
has_prefix-chunk (suc k) (a ∷ e) [] h = absurd (omega arith)
has_prefix-chunk (suc k) (a ∷ e) (b ∷ i) h = ground (arith, has_prefix-chunk k e i (omega arith))

length-take-drop : (k : ℕ) (e : Bytes) → length (take k e) + length (drop k e) ≡ length e
length-take-drop zero e = omega arith
length-take-drop (suc k) [] = refl
length-take-drop (suc k) (a ∷ e) = omega (arith, length-take-drop k e)

length-take : (n : ℕ) (i : Bytes) → n ≤ length i → length (take n i) ≡ n
length-take zero i h = refl
length-take (suc n) [] h = absurd (omega arith)
length-take (suc n) (b ∷ i) h = omega (arith, length-take n i (omega arith))

take_short : (k : ℕ) (e : Bytes) → length (take k e) < k → drop k e ≡ []
take_short zero e h = absurd (omega arith)
take_short (suc k) [] h = refl
take_short (suc k) (a ∷ e) h = take_short k e (omega arith)

take_none : (k : ℕ) (e : Bytes) → 0 < k → length (take k e) ≡ 0 → e ≡ []
take_none zero e p h = absurd (omega arith)
take_none (suc k) [] p h = refl
take_none (suc k) (a ∷ e) p h = absurd (omega arith)

-- The answer of a round, from what the chunks are.
compare_chunks_lem :
    (size : ℕ) (mine other : Bytes) (next : PrefixAnswer) (rest : Bool)
    → length other ≡ length mine
    → (length mine ≡ 0 → rest ≡ true)
    → (length mine < size → rest ≡ true)
    → (size ≤ length mine → next ≡ is_prefix_or_not rest)
    → (length mine ≡ 0 → bytes_eq mine other ≡ true)
    → compare_chunks size mine other next ≡ is_prefix_or_not (bytes_eq mine other && rest)
compare_chunks_lem size mine other next rest same none_left short next_lem empty =
    if-both Answers (length mine == 0) (is_prefix_or_not true) _
      (λ z.
        let nothing : length mine ≡ 0 = (==_iff (length mine) 0).0 z in
        sym (ap is_prefix_or_not (both_true _ rest (empty nothing) (none_left nothing))))
      (λ z.
        if-both Answers (ltb (length other) (length mine)) _ _
          (λ l. absurd (not_less (length other) (length mine) same l))
          (λ l.
            if-both Answers (not (bytes_eq mine other)) (is_prefix_or_not false) _
              (λ d. sym (ap is_prefix_or_not (left_false (bytes_eq mine other) rest d)))
              (λ d.
                if-both Answers (ltb (length mine) size) (is_prefix_or_not true) next
                  (λ e. sym (
                    ap is_prefix_or_not
                      (both_true _ rest (not_not (bytes_eq mine other) d) (short (ground arith)))))
                  (λ e.
                    next_lem (ground arith)
                    ∙ sym (
                        ap is_prefix_or_not (
                          left_true (bytes_eq mine other) rest
                            (not_not (bytes_eq mine other) d)))))))
  where
    Answers : PrefixAnswer → Type 0
    Answers x = x ≡ is_prefix_or_not (bytes_eq mine other && rest)

    both_true : (a b : Bool) → a ≡ true → b ≡ true → a && b ≡ true
    both_true a b ha hb = ground arith

    left_true : (a b : Bool) → a ≡ true → a && b ≡ b
    left_true a b ha = ground arith

    left_false : (a b : Bool) → not a ≡ true → a && b ≡ false
    left_false a b ha = ground arith

    not_not : (a : Bool) → not a ≡ false → a ≡ true
    not_not a h = ground arith

    not_less : (a b : ℕ) → a ≡ b → ltb a b ≡ true → ⊥
    not_less a b e h = ground arith

length-drop : (n : ℕ) (i : Bytes) → length i ≤ n + length (drop n i)
length-drop zero i = omega arith
length-drop (suc n) [] = omega arith
length-drop (suc n) (b ∷ i) = omega (arith, length-drop n i)

drop_nil : (k : ℕ) → Path Bytes (drop k []) []
drop_nil zero = refl
drop_nil (suc k) = refl

empty_rest : (i e : Bytes) → e ≡ [] → has_prefix i e ≡ true
unfolding has_prefix
empty_rest i [] h = refl
empty_rest i (a ∷ e) h = cc

same_empty : (mine i : Bytes) → length mine ≡ 0 → bytes_eq mine (take (length mine) i) ≡ true
unfolding bytes_eq
same_empty [] i h = refl
same_empty (a ∷ mine) i h = absurd (omega arith)

longer : (i e : Bytes) → length i < length e → has_prefix i e ≡ false
unfolding has_prefix
longer i [] h = absurd (omega arith)
longer [] (a ∷ e) h = refl
longer (b ∷ i) (a ∷ e) h = ground (arith, longer i e (omega arith))

-- Enough fuel gives the bytewise answer.
prefix_loop_lem :
    (size fuel : ℕ) (e i : Bytes)
    → 0 < size
    → length e < fuel
    → length e ≤ length i
    → prefix_loop size fuel e i ≡ is_prefix_or_not (has_prefix i e)
unfolding prefix_loop
prefix_loop_lem size zero e i p f h = absurd (omega arith)
prefix_loop_lem size (suc fuel) e i p f h =
    let mine = take size e in
    let n = length mine in
    let parts : n + length (drop size e) ≡ length e = length-take-drop size e in
    let behind : length (drop size e) ≤ length (drop n i) = omega (arith, parts, length-drop n i) in
    compare_chunks_lem size mine (take n i) (prefix_loop size fuel (drop size e) (drop n i))
      (has_prefix (drop n i) (drop size e)) (length-take n i (omega (arith, parts)))
      (λ z.
        empty_rest (drop n i) (drop size e) (ap (drop size) (take_none size e p z) ∙ drop_nil size))
      (λ z. empty_rest (drop n i) (drop size e) (take_short size e z))
      (λ z. prefix_loop_lem size fuel (drop size e) (drop n i) p (omega (arith, parts)) behind)
      (λ z. same_empty mine i z)
    ∙ ap is_prefix_or_not (sym (has_prefix-chunk size e i h))

-- In chunks of 64 KiB, and with fuel for every byte, the answer is whether the incoming file begins
-- with the existing one's bytes.
pub is_prefix_lem :
    (existing incoming : Bytes)
    → is_prefix existing incoming ≡ is_prefix_or_not (has_prefix incoming existing)
unfolding is_prefix
is_prefix_lem e i =
    if-both (λ x. x ≡ is_prefix_or_not (has_prefix i e)) (ltb (length i) (length e))
      (is_prefix_or_not false) (prefix_loop chunk_size (suc (length e)) e i)
      (λ l. ap is_prefix_or_not (sym (longer i e (ground arith))))
      (λ l.
        prefix_loop_lem chunk_size (suc (length e)) e i (omega arith) (omega arith) (ground arith))
