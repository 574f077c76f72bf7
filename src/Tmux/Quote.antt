-- ===== src/Tmux/Quote.antt =====
-- Quoting for tmux and its stored names (internal/tmuxx/quote.go). A byte: 10 is the
-- newline, 13 the carriage return, 9 the tab.
pub mod RoundTrip
pub mod Names
use mathlib.Core.Option
use go_claude_teleport.Base.{
  ℕ, zero, suc, ◌+◌, ◌-◌, ◌*◌, ◌%◌, Bool, true, false, ◌&&◌, ◌||◌, not, Option, none, some, List,
  [], ◌∷◌, ◌++◌, Bytes, bytes_eq, has_byte, length, ltb, leb, ◌==◌, if◌then◌else◌,
}

abbrev pub backslash : ℕ
backslash = b'\\'

abbrev pub quote_mark : ℕ
quote_mark = b'"'

abbrev pub dollar : ℕ
dollar = b'$'

-- One round of the loop of `Quote`.
unfoldable pub quote_byte : ℕ → Bytes
quote_byte c =
    if c == backslash || c == quote_mark || c == dollar
    then backslash ∷ c ∷ []
    else if c == 10
    then backslash ∷ b'n' ∷ []
    else if c == 13
    then backslash ∷ b'r' ∷ []
    else c ∷ []

unfoldable pub quote_bytes : Bytes → Bytes
unfolding quote_byte
quote_bytes [] = []
quote_bytes (c ∷ s) = quote_byte c ++ quote_bytes s

-- `Quote`.
unfoldable pub quote : Bytes → Bytes
unfolding quote_bytes
quote s = quote_mark ∷ (quote_bytes s ++ quote_mark ∷ [])

abbrev pub is_octal : ℕ → Bool
is_octal c = leb b'0' c && leb c b'7'

-- The inner loop of `UnvisName`: at most so many octal digits, and what is behind them.
unfoldable pub read_octal : ℕ → ℕ → Bytes → ℕ × Bytes
read_octal zero v s = (v, s)
read_octal (suc k) v [] = (v, [])
read_octal (suc k) v (c ∷ s) =
    let rest = read_octal k (v * 8 + (c - b'0')) s in if is_octal c then rest else (v, c ∷ s)

-- What the byte `n` behind a backslash stands for, with the text that is left.
unfoldable pub unescape : ℕ → Bytes → Bytes × Bytes
unfolding read_octal
unescape n s =
    if n == backslash
    then (backslash ∷ [], s)
    else if n == b'n'
    then (10 ∷ [], s)
    else if n == b't'
    then (9 ∷ [], s)
    else if is_octal n
    then (let (v, rest) = read_octal 3 0 (n ∷ s) in (v % 256 ∷ [], rest))
    else (backslash ∷ n ∷ [], s)

-- One round of the loop of `UnvisName`: what it writes, and the text that is left.
unfoldable pub unvis_step : ℕ → Bytes → Bytes × Bytes
unfolding unescape
unvis_step c [] = (c ∷ [], [])
unvis_step c (n ∷ s) = if c == backslash then unescape n s else (c ∷ [], n ∷ s)

-- The loop of `UnvisName`, on fuel.
unfoldable pub unvis_from : ℕ → Bytes → Option Bytes
unfolding unvis_step
unvis_from fuel [] = some []
unvis_from zero (c ∷ s) = none
unvis_from (suc fuel) (c ∷ s) =
    let (out, rest) = unvis_step c s in
    Option.map (λ (text : Bytes). out ++ text) (unvis_from fuel rest)

-- `UnvisName`.
unfoldable pub unvis_name : Bytes → Option Bytes
unfolding unvis_from has_byte
unvis_name s = if has_byte backslash s then unvis_from (length s) s else some s

-- `m < best` on strings.
unfoldable pub text_lt : Bytes → Bytes → Bool
text_lt [] [] = false
text_lt [] (d ∷ t) = true
text_lt (c ∷ s) [] = false
text_lt (c ∷ s) (d ∷ t) = ltb c d || ((c == d) && text_lt s t)

-- The loop of `CanonicalMember`, over the best name so far.
unfoldable pub canonical_from : Bytes → Bytes → List Bytes → Bytes
unfolding bytes_eq text_lt
canonical_from group best [] = best
canonical_from group best (m ∷ ms) =
    let rest = canonical_from group (if bytes_eq best [] || text_lt m best then m else best) ms in
    if bytes_eq m group then m else rest

-- `CanonicalMember`.
unfoldable pub canonical_member : Bytes → List Bytes → Bytes
unfolding canonical_from
canonical_member group members = canonical_from group [] members
