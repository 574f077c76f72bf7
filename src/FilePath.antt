-- ===== src/FilePath.antt =====
-- Go's package path/filepath on a Unix host, as far as the program calls it: `Clean`, `Join`,
-- `IsAbs` and the program's own `underDir` (internal/transfer/install.go) stand on the components
-- of a path.
pub mod Laws
pub mod Rel
pub mod Normal
pub mod Idempotent
use mathlib.Core.List.{reverse, foldl}
use go_claude_teleport.Base.{
  ℕ, Bool, true, false, ◌&&◌, ◌||◌, not, List, [], ◌∷◌, ◌++◌, Bytes, codes, bytes_eq, has_prefix,
  if◌then◌else◌, ◌==◌,
}

abbrev pub slash : ℕ
slash = b'/'

abbrev pub dot : Bytes
dot = b'.' ∷ []

abbrev pub dot_dot : Bytes
dot_dot = b'.' ∷ b'.' ∷ []

unfoldable pub cons_first : ℕ → List Bytes → List Bytes
cons_first c [] = (c ∷ []) ∷ []
cons_first c (p ∷ ps) = (c ∷ p) ∷ ps

-- `strings.Split(s, sep)` for a separator of one byte.
unfoldable pub split_on : ℕ → Bytes → List Bytes
unfolding cons_first
split_on sep [] = [] ∷ []
split_on sep (c ∷ s) =
    let rest = split_on sep s in if c == sep then [] ∷ rest else cons_first c rest

-- `strings.Join(parts, sep)` for a separator of one byte.
unfoldable pub join_with : ℕ → List Bytes → Bytes
join_with sep [] = []
join_with sep (p ∷ []) = p
join_with sep (p ∷ q ∷ ps) = p ++ sep ∷ join_with sep (q ∷ ps)

-- Backing out of the last component: at the root there is none, and a relative path keeps `..`.
unfoldable pub back_out : Bool → List Bytes → List Bytes
unfolding bytes_eq
back_out true [] = []
back_out false [] = dot_dot ∷ []
back_out rooted (top ∷ below) = if bytes_eq top dot_dot then dot_dot ∷ top ∷ below else below

-- One component of `Clean`, over the components so far, the last one first.
unfoldable pub push_part : Bool → List Bytes → Bytes → List Bytes
unfolding back_out
push_part rooted stack part =
    if bytes_eq part [] || bytes_eq part dot
    then stack
    else if bytes_eq part dot_dot
    then back_out rooted stack
    else part ∷ stack

unfoldable pub push_parts : Bool → List Bytes → List Bytes → List Bytes
unfolding push_part
push_parts rooted stack [] = stack
push_parts rooted stack (part ∷ parts) = push_parts rooted (push_part rooted stack part) parts

-- `filepath.IsAbs(p)`.
unfoldable pub is_abs : Bytes → Bool
is_abs [] = false
is_abs (c ∷ s) = c == slash

-- The components of a path after `Clean`, the last one first.
unfoldable pub clean_stack : Bytes → List Bytes
unfolding push_parts split_on is_abs
clean_stack p = push_parts (is_abs p) [] (split_on slash p)

unfoldable pub render : Bool → List Bytes → Bytes
unfolding join_with
render true parts = slash ∷ join_with slash parts
render false [] = dot
render false (p ∷ ps) = join_with slash (p ∷ ps)

-- `filepath.Clean(p)`.
unfoldable pub clean : Bytes → Bytes
unfolding render clean_stack
clean p = render (is_abs p) (reverse (clean_stack p))

-- `filepath.Join(elem...)`: leading empty elements are left out.
unfoldable pub join : List Bytes → Bytes
unfolding clean
join [] = []
join ([] ∷ es) = join es
join ((c ∷ s) ∷ es) = clean (join_with slash ((c ∷ s) ∷ es))
