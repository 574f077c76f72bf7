-- ===== src/Tmux/Quote/RoundTrip.antt =====
-- `Quote` against the double-quote syntax of tmux that its comment documents.
use mathlib.Core.Option
use go_claude_teleport.Base.{
  ℕ, true, false, ◌||◌, Option, none, some, [], ◌∷◌, ◌++◌, append_assoc, Bytes, ◌≡◌, refl, arith,
  ◌==◌, if◌then◌else◌,
}
use go_claude_teleport.Tmux.Quote.{backslash, quote_mark, dollar, quote_byte, quote_bytes, quote}

-- What a backslash makes of the byte behind it inside double quotes.
abbrev escaped : ℕ → ℕ
escaped c = if c == b'n' then 10 else if c == b'r' then 13 else c

-- Reading the inside of a double-quoted argument: the closing quote must end the line, and a bare
-- `$` (which tmux expands), newline or carriage return (which end the command) is an error.
read_quoted : Bytes → Option Bytes
read_quoted [] = none
read_quoted (c ∷ []) = if c == quote_mark then some [] else none
read_quoted (c ∷ d ∷ s) = elim (c == backslash) [
  | true ↦ Option.map (λ (t : Bytes). escaped d ∷ t) (read_quoted s)
  | false ↦
      if c == quote_mark || c == dollar || c == 10 || c == 13
      then none
      else Option.map (λ (t : Bytes). c ∷ t) (read_quoted (d ∷ s))
]

-- The argument that tmux reads from a quoted text.
pub read_argument : Bytes → Option Bytes
unfolding read_quoted
read_argument [] = none
read_argument (c ∷ s) = if c == quote_mark then read_quoted s else none

read_quoted-byte :
    (c d : ℕ) (s t : Bytes)
    → read_quoted (d ∷ s) ≡ some t
    → read_quoted (quote_byte c ++ d ∷ s) ≡ some (c ∷ t)
unfolding read_quoted quote_byte
read_quoted-byte c d s t h = ground arith

read_quoted-append :
    (c : ℕ) (text t : Bytes)
    → read_quoted text ≡ some t
    → read_quoted (quote_byte c ++ text) ≡ some (c ∷ t)
read_quoted-append c [] t h = unfold read_quoted in cc
read_quoted-append c (d ∷ s) t h = read_quoted-byte c d s t h

read_quoted-quote_bytes : (s : Bytes) → read_quoted (quote_bytes s ++ quote_mark ∷ []) ≡ some s
unfolding quote_bytes
read_quoted-quote_bytes [] = unfold read_quoted in refl
read_quoted-quote_bytes (c ∷ s) =
    rw (append_assoc (quote_byte c) (quote_bytes s) (quote_mark ∷ []))
      (read_quoted-append c (quote_bytes s ++ quote_mark ∷ []) s (read_quoted-quote_bytes s))

-- Whatever bytes a text holds, its quotation is one argument that tmux reads as that text: nothing
-- in it ends the argument or the command line early, and nothing is expanded.
pub read_argument-quote : (s : Bytes) → read_argument (quote s) ≡ some s
unfolding read_argument quote
read_argument-quote s = read_quoted-quote_bytes s
