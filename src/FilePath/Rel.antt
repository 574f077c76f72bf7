-- ===== src/FilePath/Rel.antt =====
-- `Dir` and `Rel` of Go's package path/filepath on a Unix host, and the first component of a path.
use mathlib.Core.List.{reverse}
use go_claude_teleport.Base.{
  Bool, true, false, ◌||◌, not, Option, none, some, List, [], ◌∷◌, Bytes, bytes_eq, if◌then◌else◌,
  ◌==◌,
}
use go_claude_teleport.FilePath.{slash, dot, dot_dot, join_with, is_abs, clean_stack, clean}

-- A path up to its last slash, which is kept.
unfoldable pub through_slash : Bytes → Bytes
unfolding bytes_eq
through_slash [] = []
through_slash (c ∷ s) =
    let rest = through_slash s in if c == slash || not (bytes_eq rest []) then c ∷ rest else []

-- `filepath.Dir(p)`.
unfoldable pub dir_of : Bytes → Bytes
unfolding clean through_slash
dir_of p = clean (through_slash p)

-- What is left of two paths behind the components they share.
unfoldable pub apart : List Bytes → List Bytes → List Bytes × List Bytes
unfolding bytes_eq
apart [] ts = ([], ts)
apart (b ∷ bs) [] = (b ∷ bs, [])
apart (b ∷ bs) (t ∷ ts) = let rest = apart bs ts in if bytes_eq b t then rest else (b ∷ bs, t ∷ ts)

unfoldable pub climb : List Bytes → List Bytes → List Bytes
climb [] ts = ts
climb (b ∷ bs) ts = dot_dot ∷ climb bs ts

abbrev pub rel_parts : List Bytes × List Bytes → Option Bytes
rel_parts ([], ts) = some (join_with slash ts)
rel_parts (b ∷ bs, ts) =
    if bytes_eq b dot_dot then none else some (join_with slash (climb (b ∷ bs) ts))

abbrev same_root : Bool → Bool → Bool
same_root true b = b
same_root false b = not b

-- `filepath.Rel(base, target)`.
unfoldable pub rel : Bytes → Bytes → Option Bytes
unfolding bytes_eq clean is_abs clean_stack apart climb join_with
rel base target =
    if bytes_eq (clean target) (clean base)
    then some dot
    else if same_root (is_abs base) (is_abs target)
    then rel_parts (apart (reverse (clean_stack base)) (reverse (clean_stack target)))
    else none

-- A path up to its first slash, which is left out.
unfoldable pub first_part : Bytes → Bytes
first_part [] = []
first_part (c ∷ s) = let rest = first_part s in if c == slash then [] else c ∷ rest
