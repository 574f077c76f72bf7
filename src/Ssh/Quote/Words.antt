-- ===== src/Ssh/Quote/Words.antt =====
-- The remote shell reads the quoted vector back. `sh_words` is how a POSIX shell splits a line into
-- words, as POSIX (2.2, 2.3) has it: blanks part words, a backslash quotes one byte, and apostrophes
-- quote all between them. On a byte that is or may be special to the shell outside quotes it gives up,
-- and so it does on a command that may be read as an assignment or as a reserved word.
use go_claude_teleport.Base.{
  ℕ, true, false, Option, none, some, List, [], ◌∷◌, ◌++◌, append_assoc, append-nil, Bytes, ◌≡◌,
  refl, sym, ap, ◌∙◌, arith, ◌==◌, Bool-cases, &&-both, ==_iff, if-true, if-false, inl, inr,
  if◌then◌else◌, ◌||◌, ◌&&◌, Bool, not, codes, has_text, has_byte,
}
use go_claude_teleport.Ssh.Quote.{
  is_safe_byte, all_safe, tick, backslash, escape_ticks, quote_arg, quote,
}

-- Between words, in a word, in apostrophes, after a backslash.
pub data Reading : Type 0 where
  between word quoted escaped : Reading

-- A byte of the current word, which is the first of those read.
abbrev push : ℕ → Option (List Bytes) → Option (List Bytes)
push c none = none
push c (some []) = none
push c (some (w ∷ ws)) = some ((c ∷ w) ∷ ws)

-- The end of the current word.
abbrev close_word : Option (List Bytes) → Option (List Bytes)
close_word none = none
close_word (some ws) = some ([] ∷ ws)

-- The bytes that POSIX 2.2 lists as to be quoted, less the apostrophe, the backslash and the blank,
-- which are read below, and less `=` and `%`, which `sh_command` and job control look at; `!`, `^`, `{`
-- and `}` are special in some shells.
unfoldable is_special : ℕ → Bool
is_special c =
    c == b'|'
    || c == b'&'
    || c == b';'
    || c == b'<'
    || c == b'>'
    || c == b'('
    || c == b')'
    || c == b'$'
    || c == 96
    || c == 34
    || c == 9
    || c == 10
    || c == b'*'
    || c == b'?'
    || c == b'['
    || c == b'#'
    || c == b'~'
    || c == b'!'
    || c == b'^'
    || c == b'{'
    || c == b'}'

-- A byte outside quotes.
abbrev plain :
    ℕ
    → Option (List Bytes)
    → Option (List Bytes)
    → Option (List Bytes)
    → Option (List Bytes)
    → Option (List Bytes)
plain c at_blank in_quotes behind_backslash in_word =
    if c == b' '
    then at_blank
    else if c == tick
    then in_quotes
    else if c == backslash
    then behind_backslash
    else if is_special c
    then none
    else push c in_word

pub sh_words : Reading → Bytes → Option (List Bytes)
unfolding is_special
sh_words between [] = some []
sh_words word [] = some ([] ∷ [])
sh_words quoted [] = none
sh_words escaped [] = none
sh_words between (c ∷ s) =
    plain c (sh_words between s) (sh_words quoted s) (sh_words escaped s) (sh_words word s)
sh_words word (c ∷ s) =
    plain c (close_word (sh_words between s)) (sh_words quoted s) (sh_words escaped s)
      (sh_words word s)
sh_words quoted (c ∷ s) =
    let inside = sh_words quoted s in
    let after = sh_words word s in if c == tick then after else push c inside
sh_words escaped (c ∷ s) = push c (sh_words word s)

-- A safe byte is none of the others.
differs : (c x : ℕ) → is_safe_byte c ≡ true → is_safe_byte x ≡ false → (c == x) ≡ false
differs c x h k = elim (Bool-cases (c == x)) [
  | inl e ↦ clash (sym h ∙ ap is_safe_byte ((==_iff c x).0 e) ∙ k)
  | inr e ↦ e
]
  where
    clash : ◌≡◌ {A = Bool} true false → (c == x) ≡ false
    clash q = cc

safe-is_special : (c : ℕ) → is_safe_byte c ≡ true → is_special c ≡ false
unfolding is_safe_byte is_special
safe-is_special c h =
    rw
      (
        differs c b'|' h refl,
        differs c b'&' h refl,
        differs c b';' h refl,
        differs c b'<' h refl,
        differs c b'>' h refl,
        differs c b'(' h refl,
        differs c b')' h refl,
        differs c b'$' h refl,
        differs c 96 h refl,
        differs c 34 h refl,
        differs c 9 h refl,
        differs c 10 h refl,
        differs c b'*' h refl,
        differs c b'?' h refl,
        differs c b'[' h refl,
        differs c b'#' h refl,
        differs c b'~' h refl,
        differs c b'!' h refl,
        differs c b'^' h refl,
        differs c b'{' h refl,
        differs c b'}' h refl,
      )
      refl

plain_safe :
    (c : ℕ) (a b d w : Option (List Bytes)) → is_safe_byte c ≡ true → plain c a b d w ≡ push c w
unfolding is_safe_byte
plain_safe c a b d w h =
    rw
      (
        differs c b' ' h refl,
        differs c tick h refl,
        differs c backslash h refl,
        safe-is_special c h,
      )
      refl

quoted-tick : (s : Bytes) → sh_words quoted (tick ∷ s) ≡ sh_words word s
unfolding sh_words
quoted-tick s = refl

-- The escape of an apostrophe, read inside apostrophes.
quoted-escape :
    (s : Bytes)
    → sh_words quoted (tick ∷ backslash ∷ tick ∷ tick ∷ s) ≡ push tick (sh_words quoted s)
unfolding sh_words
quoted-escape s = refl

quoted-byte :
    (c : ℕ) (s : Bytes) → (c == tick) ≡ false → sh_words quoted (c ∷ s) ≡ push c (sh_words quoted s)
unfolding sh_words
quoted-byte c s h = ground arith

-- Apostrophes quote a whole text.
quoted-text :
    (s rest w : Bytes) (ws : List Bytes)
    → sh_words word rest ≡ some (w ∷ ws)
    → sh_words quoted (escape_ticks s ++ tick ∷ rest) ≡ some ((s ++ w) ∷ ws)
unfolding escape_ticks
quoted-text [] rest w ws h = quoted-tick rest ∙ h
quoted-text (c ∷ s) rest w ws h = elim (Bool-cases (c == tick)) [
  | inl e ↦
      ap (λ t. sh_words quoted (t ++ tick ∷ rest))
        (if-true (c == tick) (tick ∷ backslash ∷ tick ∷ tick ∷ escape_ticks s) (c ∷ escape_ticks s)
          e)
      ∙ quoted-escape (escape_ticks s ++ tick ∷ rest)
      ∙ ap (push tick) (quoted-text s rest w ws h)
      ∙ ap (λ b. some ((b ∷ (s ++ w)) ∷ ws)) (sym ((==_iff c tick).0 e))
  | inr e ↦
      ap (λ t. sh_words quoted (t ++ tick ∷ rest))
        (if-false (c == tick) (tick ∷ backslash ∷ tick ∷ tick ∷ escape_ticks s) (c ∷ escape_ticks s)
          e)
      ∙ quoted-byte c (escape_ticks s ++ tick ∷ rest) e
      ∙ ap (push c) (quoted-text s rest w ws h)
]

-- A safe text in a word stands for itself.
word-safe :
    (s rest w : Bytes) (ws : List Bytes)
    → all_safe s ≡ true
    → sh_words word rest ≡ some (w ∷ ws)
    → sh_words word (s ++ rest) ≡ some ((s ++ w) ∷ ws)
unfolding all_safe sh_words
word-safe [] rest w ws a h = h
word-safe (c ∷ s) rest w ws a h =
    let (a1, a2) = &&-both (is_safe_byte c) (all_safe s) a in
    plain_safe c _ _ _ (sh_words word (s ++ rest)) a1 ∙ ap (push c) (word-safe s rest w ws a2 h)

between-tick : (s : Bytes) → sh_words between (tick ∷ s) ≡ sh_words quoted s
unfolding sh_words
between-tick s = refl

between-safe :
    (c : ℕ) (s rest : Bytes) (ws : List Bytes)
    → all_safe (c ∷ s) ≡ true
    → sh_words word rest ≡ some ([] ∷ ws)
    → sh_words between ((c ∷ s) ++ rest) ≡ some ((c ∷ s) ∷ ws)
unfolding all_safe sh_words
between-safe c s rest ws a h =
    let (a1, a2) = &&-both (is_safe_byte c) (all_safe s) a in
    plain_safe c _ _ _ (sh_words word (s ++ rest)) a1
    ∙ ap (push c) (word-safe s rest [] ws a2 h)
    ∙ ap (λ t. some ((c ∷ t) ∷ ws)) (append-nil s)

-- An argument at the start of a line, or behind a blank.
between-arg :
    (a rest : Bytes) (ws : List Bytes)
    → sh_words word rest ≡ some ([] ∷ ws)
    → sh_words between (quote_arg a ++ rest) ≡ some (a ∷ ws)
unfolding quote_arg
between-arg [] rest ws h = between-tick (tick ∷ rest) ∙ quoted-tick rest ∙ h
between-arg (c ∷ s) rest ws h = elim (Bool-cases (all_safe (c ∷ s))) [
  | inl e ↦
      ap (λ t. sh_words between (t ++ rest))
        (if-true (all_safe (c ∷ s)) (c ∷ s) (tick ∷ (escape_ticks (c ∷ s) ++ tick ∷ [])) e)
      ∙ between-safe c s rest ws e h
  | inr e ↦
      ap (λ t. sh_words between (t ++ rest))
        (if-false (all_safe (c ∷ s)) (c ∷ s) (tick ∷ (escape_ticks (c ∷ s) ++ tick ∷ [])) e)
      ∙ between-tick ((escape_ticks (c ∷ s) ++ tick ∷ []) ++ rest)
      ∙ ap (sh_words quoted) (append_assoc (escape_ticks (c ∷ s)) (tick ∷ []) rest)
      ∙ quoted-text (c ∷ s) rest [] ws h
      ∙ ap (λ t. some (t ∷ ws)) (append-nil (c ∷ s))
]

-- The rest of a line behind an argument.
behind : List Bytes → Bytes
behind [] = []
behind (a ∷ rest) = b' ' ∷ quote (a ∷ rest)

quote-behind : (a : Bytes) (rest : List Bytes) → quote (a ∷ rest) ≡ quote_arg a ++ behind rest
unfolding quote behind
quote-behind a [] = sym (append-nil (quote_arg a))
quote-behind a (b ∷ rest) = refl

word-blank : (s : Bytes) → sh_words word (b' ' ∷ s) ≡ close_word (sh_words between s)
unfolding sh_words
word-blank s = refl

word-behind :
    (rest : List Bytes)
    → (sh_words between (quote rest) ≡ some rest)
    → sh_words word (behind rest) ≡ some ([] ∷ rest)
unfolding behind
word-behind [] h = unfold sh_words in refl
word-behind (a ∷ rest) h = word-blank (quote (a ∷ rest)) ∙ ap close_word h

quote-words : (argv : List Bytes) → sh_words between (quote argv) ≡ some argv
quote-words [] = unfold sh_words quote in refl
quote-words (a ∷ rest) =
    ap (sh_words between) (quote-behind a rest)
    ∙ between-arg a (behind rest) rest (word-behind rest (quote-words rest))

-- The reserved words of POSIX 2.4 and of common shells.
abbrev reserved_words : List Bytes
reserved_words =
    codes "!"
    ∷ codes "{"
    ∷ codes "}"
    ∷ codes "case"
    ∷ codes "do"
    ∷ codes "done"
    ∷ codes "elif"
    ∷ codes "else"
    ∷ codes "esac"
    ∷ codes "fi"
    ∷ codes "for"
    ∷ codes "if"
    ∷ codes "in"
    ∷ codes "then"
    ∷ codes "until"
    ∷ codes "while"
    ∷ codes "function"
    ∷ codes "select"
    ∷ codes "time"
    ∷ codes "coproc"
    ∷ []

-- A first word that is the name of a command however it is quoted: it assigns nothing and is not
-- reserved.
unfoldable pub is_command : Bytes → Bool
unfolding has_text has_byte
is_command w = not (has_byte b'=' w) && not (has_text w reserved_words)

abbrev command_of : Option (List Bytes) → Option (List Bytes)
command_of none = none
command_of (some []) = some []
command_of (some (w ∷ ws)) = if is_command w then some (w ∷ ws) else none

-- The simple command that a line is: its name and its arguments.
unfoldable pub sh_command : Bytes → Option (List Bytes)
unfolding sh_words is_command
sh_command line = command_of (sh_words between line)

-- Whatever bytes the arguments hold, a POSIX shell reads the quoted line as the simple command of
-- exactly these words, if the first of them holds no `=` and is no reserved word: no byte of any of
-- them is read as anything but itself.
pub sh_command-quote :
    (name : Bytes) (args : List Bytes)
    → is_command name ≡ true
    → sh_command (quote (name ∷ args)) ≡ some (name ∷ args)
unfolding sh_command
sh_command-quote name args h =
    ap command_of (quote-words (name ∷ args)) ∙ if-true (is_command name) _ _ h
