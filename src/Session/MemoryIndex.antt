-- ===== src/Session/MemoryIndex.antt =====
-- The index of a project's memory (internal/session/memoryindex.go).
pub mod Adds
pub mod Means
use mathlib.Core.List.{reverse}
use go_claude_teleport.Base.{
  ℕ, Bool, true, false, ◌||◌, not, ◌&&◌, ◌==◌, Option, none, some, List, [], ◌∷◌, ◌++◌, Bytes,
  length, has_text, has_suffix, if◌then◌else◌,
}
use go_claude_teleport.FilePath.{split_on}
use go_claude_teleport.Session.PathMap.{trim_space}

-- What reading the index gave.
pub data Found : Type 0 where
  no_file unreadable : Found
  content : Bytes → Found

-- What the merge came to; `index_written` holds the text written and the count returned.
pub data Merged : Type 0 where
  read_fails unchanged dir_fails write_fails : Merged
  index_written : Bytes → ℕ → Merged

abbrev pub newline : ℕ
newline = 10

abbrev is_empty : Bytes → Bool
is_empty [] = true
is_empty (c ∷ s) = false

-- The set `have`, of the existing text.
unfoldable pub carried : List Bytes → List Bytes
unfolding trim_space
carried [] = []
carried (l ∷ ls) =
    let t = trim_space l in let rest = carried ls in if is_empty t then rest else t ∷ rest

unfoldable drop_ends : Bytes → Bytes
drop_ends [] = []
drop_ends (c ∷ s) = if c == 13 || c == newline then drop_ends s else c ∷ s

-- `strings.TrimRight(l, "\r\n")`.
unfoldable trim_end : Bytes → Bytes
unfolding drop_ends
trim_end l = reverse (drop_ends (reverse l))

abbrev is_known : List Bytes → Bytes → Bool
is_known have t = is_empty t || has_text t have

-- The lines to add.
unfoldable lines_to_add : List Bytes → List Bytes → List Bytes
unfolding has_text trim_space trim_end
lines_to_add have [] = []
lines_to_add have (l ∷ ls) =
    let known = is_known have (trim_space l) in
    let rest = lines_to_add (if known then have else trim_space l ∷ have) ls in
    if known then rest else trim_end l ∷ rest

unfoldable pub terminated : List Bytes → Bytes
terminated [] = []
terminated (l ∷ ls) = l ++ newline ∷ terminated ls

-- A newline after an unterminated last line.
unfoldable pub line_gap : Bytes → Bytes
unfolding has_suffix
line_gap s = if not (is_empty s) && not (has_suffix s (newline ∷ [])) then newline ∷ [] else []

abbrev write_index : Bytes → List Bytes → Bool → Bool → Merged
write_index existing [] dir_made written = unchanged
write_index existing (l ∷ ls) false written = dir_fails
write_index existing (l ∷ ls) true false = write_fails
write_index existing (l ∷ ls) true true =
    index_written (existing ++ (line_gap existing ++ terminated (l ∷ ls))) (length (l ∷ ls))

abbrev merge_text : Bytes → Bytes → Bool → Bool → Merged
merge_text existing src dir_made written =
    write_index existing (lines_to_add (carried (split_on newline existing)) (split_on newline src))
      dir_made written

-- `MergeMemoryIndex`; the tests are what MkdirAll and WriteFile answer.
unfoldable pub merge_memory_index : Found → Bytes → Bool → Bool → Merged
unfolding carried lines_to_add terminated line_gap split_on
merge_memory_index unreadable src dir_made written = read_fails
merge_memory_index no_file src dir_made written = merge_text [] src dir_made written
merge_memory_index (content s) src dir_made written = merge_text s src dir_made written
