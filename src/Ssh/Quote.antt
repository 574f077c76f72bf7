-- ===== src/Ssh/Quote.antt =====
-- How an argument vector is written for the remote shell (internal/sshx/target.go, `Quote`).
pub mod Words
use go_claude_teleport.Base.{
  ℕ, Bool, true, false, ◌&&◌, ◌||◌, List, [], ◌∷◌, ◌++◌, Bytes, leb, ◌==◌, if◌then◌else◌,
}

-- The class of `safeArg`.
unfoldable pub is_safe_byte : ℕ → Bool
is_safe_byte c =
    (leb b'A' c && leb c b'Z')
    || (leb b'a' c && leb c b'z')
    || (leb b'0' c && leb c b'9')
    || c == b'_'
    || c == b'@'
    || c == b'%'
    || c == b'+'
    || c == b'='
    || c == b':'
    || c == b','
    || c == b'.'
    || c == b'/'
    || c == b'-'

unfoldable pub all_safe : Bytes → Bool
unfolding is_safe_byte
all_safe [] = true
all_safe (c ∷ s) = is_safe_byte c && all_safe s

abbrev pub tick : ℕ
tick = 39

abbrev pub backslash : ℕ
backslash = 92

-- `strings.ReplaceAll(a, "'", `'\''`)`.
unfoldable pub escape_ticks : Bytes → Bytes
escape_ticks [] = []
escape_ticks (c ∷ s) =
    let rest = escape_ticks s in
    if c == tick then tick ∷ backslash ∷ tick ∷ tick ∷ rest else c ∷ rest

-- One argument.
unfoldable pub quote_arg : Bytes → Bytes
unfolding all_safe escape_ticks
quote_arg [] = tick ∷ tick ∷ []
quote_arg (c ∷ s) = if all_safe (c ∷ s) then c ∷ s else tick ∷ (escape_ticks (c ∷ s) ++ tick ∷ [])

-- `Quote`, with `strings.Join(parts, " ")`.
unfoldable pub quote : List Bytes → Bytes
unfolding quote_arg
quote [] = []
quote (a ∷ []) = quote_arg a
quote (a ∷ b ∷ rest) = quote_arg a ++ b' ' ∷ quote (b ∷ rest)
