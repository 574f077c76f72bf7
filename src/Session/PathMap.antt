-- ===== src/Session/PathMap.antt =====
-- Path maps (internal/session/pathmap.go). A panic is `none`. `strings.TrimSpace` is written
-- from its documentation, with the white space of Unicode in UTF-8.
pub mod Sorted
pub mod Longest
pub mod Occurrences
pub mod OnePath
use go_claude_teleport.Base.{
  ℕ, zero, suc, ◌+◌, Bool, true, false, ◌&&◌, ◌||◌, not, Option, none, some, List, [], ◌∷◌, ◌++◌,
  Bytes, codes, bytes_eq, has_prefix, has_byte, has_text, length, drop, ltb, leb, ◌==◌,
  if◌then◌else◌,
}
use mathlib.Core.Option
use mathlib.Core.List.{reverse}
use go_claude_teleport.FilePath.{slash, clean}

pub record Mapping : Type 0 where
  pub from : Bytes
  pub to : Bytes

abbrev pub PathMap : Type 0
PathMap = List Mapping

-- ASCII white space.
abbrev pub is_space : ℕ → Bool
is_space c = c == b' ' || c == 9 || c == 10 || c == 11 || c == 12 || c == 13

-- The other white space of Unicode, in UTF-8: U+0085 and U+00A0; U+1680, U+2000 to U+200A, U+2028,
-- U+2029, U+202F, U+205F and U+3000.
abbrev pub is_space2 : ℕ → ℕ → Bool
is_space2 a b = a == 194 && (b == 133 || b == 160)

abbrev pub is_space3 : ℕ → ℕ → ℕ → Bool
is_space3 a b c =
    (a == 225 && b == 154 && c == 128)
    || (a == 226 && b == 128 && ((leb 128 c && leb c 138) || c == 168 || c == 169 || c == 175))
    || (a == 226 && b == 129 && c == 159)
    || (a == 227 && b == 128 && c == 128)

-- What stands behind a white space at the start of a text, and before one at its end, both texts given
-- from that side.
unfoldable pub space_first : Bytes → Option Bytes
space_first [] = none
space_first (a ∷ []) = if is_space a then some [] else none
space_first (a ∷ b ∷ []) =
    if is_space a then some (b ∷ []) else if is_space2 a b then some [] else none
space_first (a ∷ b ∷ c ∷ s) =
    if is_space a
    then some (b ∷ c ∷ s)
    else if is_space2 a b
    then some (c ∷ s)
    else if is_space3 a b c
    then some s
    else none

unfoldable pub space_last : Bytes → Option Bytes
space_last [] = none
space_last (a ∷ []) = if is_space a then some [] else none
space_last (a ∷ b ∷ []) =
    if is_space a then some (b ∷ []) else if is_space2 b a then some [] else none
space_last (a ∷ b ∷ c ∷ s) =
    if is_space a
    then some (b ∷ c ∷ s)
    else if is_space2 b a
    then some (c ∷ s)
    else if is_space3 c b a
    then some s
    else none

-- White space is dropped while there is some; every round drops a byte.
unfoldable pub trim_with : (Bytes → Option Bytes) → ℕ → Bytes → Bytes
trim_with space zero s = s
trim_with space (suc n) s = elim (space s) [ none ↦ s | some t ↦ trim_with space n t ]

-- `strings.TrimSpace`.
unfoldable pub trim_space : Bytes → Bytes
unfolding space_first space_last trim_with
trim_space s =
    let t : Bytes = trim_with space_first (length s) s in
    reverse (trim_with space_last (length t) (reverse t))

-- `cleanAbs`: the empty text for a path that is not absolute.
unfoldable pub clean_abs : Bytes → Bytes
unfolding trim_space has_prefix clean
clean_abs p = let t : Bytes = trim_space p in if has_prefix t (slash ∷ []) then clean t else []

-- `strings.Cut(s, "=")`.
unfoldable pub cut_equals : Bytes → Option (Bytes × Bytes)
cut_equals [] = none
cut_equals (c ∷ s) =
    let rest = Option.map (λ (parts : Bytes × Bytes). (c ∷ parts.0, parts.1)) (cut_equals s) in
    if c == b'=' then some ([], s) else rest

-- What `ParseMappings` refuses, with the text.
pub data MapError : Type 0 where
  no_equals : Bytes → MapError
  not_absolute : Bytes → MapError
  duplicate_from : Bytes → MapError

pub data Parsed : Type 0 where
  parsed : List Mapping → Parsed
  refused : MapError → Parsed

-- One round of the loop, after `Cut` and `cleanAbs`, over the keys that were seen.
abbrev with_mapping : List Bytes → Bytes → Bytes → Bytes → Parsed → Parsed
with_mapping seen spec from to rest =
    if bytes_eq from [] || bytes_eq to []
    then refused (not_absolute spec)
    else if has_text from seen
    then refused (duplicate_from from)
    else elim rest [
      | parsed ms ↦ parsed (record { from = from; to = to } ∷ ms)
      | refused e ↦ refused e
    ]

-- `ParseMappings`.
unfoldable pub parse_from : List Bytes → List Bytes → Parsed
unfolding clean_abs cut_equals bytes_eq has_text
parse_from seen [] = parsed []
parse_from seen (spec ∷ specs) = elim (cut_equals spec) [
  | none ↦ refused (no_equals spec)
  | some (a, b) ↦
      with_mapping seen spec (clean_abs a) (clean_abs b) (parse_from (clean_abs a ∷ seen) specs)
]

unfoldable pub parse_mappings : List Bytes → Parsed
unfolding parse_from
parse_mappings specs = parse_from [] specs

-- `NewPathMap` before its sort: a panic on a relative path or a duplicate.
unfoldable pub clean_mappings : List Bytes → List Mapping → Option (List Mapping)
unfolding clean_abs bytes_eq has_text
clean_mappings seen [] = some []
clean_mappings seen (m ∷ ms) =
    let from : Bytes = clean_abs m.from in
    let to : Bytes = clean_abs m.to in
    let rest =
      Option.map (λ (out : List Mapping). record { from = from; to = to } ∷ out)
        (clean_mappings (from ∷ seen) ms) in
    if bytes_eq from [] || bytes_eq to [] || has_text from seen then none else rest

-- `sort.SliceStable` by the length of `from`, the longest first.
unfoldable pub insert_mapping : Mapping → List Mapping → List Mapping
insert_mapping m [] = m ∷ []
insert_mapping m (x ∷ xs) =
    if ltb (length m.from) (length x.from) then x ∷ insert_mapping m xs else m ∷ x ∷ xs

unfoldable pub sort_mappings : List Mapping → List Mapping
unfolding insert_mapping
sort_mappings [] = []
sort_mappings (m ∷ ms) = insert_mapping m (sort_mappings ms)

-- `NewPathMap`.
unfoldable pub new_path_map : List Mapping → Option PathMap
unfolding clean_mappings sort_mappings
new_path_map ms = Option.map sort_mappings (clean_mappings [] ms)

-- The tests of `ApplyPath` together: a path that is `from`, or below it.
unfoldable pub covers : Mapping → Bytes → Bool
unfolding bytes_eq has_prefix
covers m p = bytes_eq p m.from || has_prefix p (m.from ++ slash ∷ [])

-- `ApplyPath`.
unfoldable pub apply_path : PathMap → Bytes → Bytes
unfolding bytes_eq has_prefix
apply_path [] p = p
apply_path (m ∷ ms) p =
    if bytes_eq p m.from
    then m.to
    else if has_prefix p (m.from ++ slash ∷ [])
    then m.to ++ drop (length m.from) p
    else apply_path ms p

-- `isPathByte`.
unfoldable pub is_path_byte : ℕ → Bool
unfolding has_byte
is_path_byte c = not (has_byte c (b' ' ∷ 9 ∷ 10 ∷ 13 ∷ b'"' ∷ 39 ∷ codes "=:,;()[]{}<>|&"))

-- Where an occurrence may end, seen from the text behind it.
unfoldable pub ends_here : Bytes → Bool
unfolding is_path_byte
ends_here [] = true
ends_here (c ∷ []) = c == slash || not (is_path_byte c) || c == b'.'
ends_here (c ∷ d ∷ s) = c == slash || not (is_path_byte c) || (c == b'.' && not (is_path_byte d))

-- The inner loop of `Apply`: the first mapping that fits at the head of the text.
unfoldable pub first_match : PathMap → Bytes → Option Mapping
unfolding has_prefix ends_here
first_match [] s = none
first_match (m ∷ ms) s =
    if has_prefix s m.from && ends_here (drop (length m.from) s) then some m else first_match ms s

-- Where an occurrence may start, seen from the byte before it.
abbrev pub starts_here : Option ℕ → Bool
starts_here none = true
starts_here (some c) = not (is_path_byte c)

-- The mapping that is applied at a position, if any.
unfoldable pub match_at : PathMap → Option ℕ → Bytes → Option Mapping
unfolding first_match is_path_byte
match_at m prev s = if starts_here prev then first_match m s else none

-- The last byte of a text, or the byte before it.
unfoldable pub last_byte : Bytes → Option ℕ → Option ℕ
last_byte [] prev = prev
last_byte (c ∷ s) prev = last_byte s (some c)

-- The outer loop of `Apply`, on fuel: the byte before the position, and the text from there.
unfoldable pub apply_from : ℕ → PathMap → Option ℕ → Bytes → Option Bytes
unfolding match_at last_byte
apply_from fuel m prev [] = some []
apply_from zero m prev (c ∷ s) = none
apply_from (suc fuel) m prev (c ∷ s) = elim (match_at m prev (c ∷ s)) [
  | some x ↦
      Option.map (λ (out : Bytes). x.to ++ out)
        (apply_from fuel m (last_byte x.from prev) (drop (length x.from) (c ∷ s)))
  | none ↦ Option.map (λ (out : Bytes). c ∷ out) (apply_from fuel m (some c) s)
]

-- `Apply`.
unfoldable pub apply : PathMap → Bytes → Option Bytes
unfolding apply_from has_byte
apply [] s = some s
apply (m ∷ ms) s = if has_byte slash s then apply_from (length s) (m ∷ ms) none s else some s
