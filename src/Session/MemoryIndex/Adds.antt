-- ===== src/Session/MemoryIndex/Adds.antt =====
-- What the merge of a memory index adds.
use mathlib.Core.List.{Memᴰ}
use go_claude_teleport.Base.{
  ℕ, Bool, true, false, List, [], ◌∷◌, ◌++◌, Bytes, length, ◌≡◌, ◌≢◌, refl, ap, ◌⊎◌, inl, inr,
  arith, All, has_text, bytes_eq, Bool-cases, bytes_eq_refl, if◌then◌else◌,
}
use go_claude_teleport.FilePath.{split_on}
use go_claude_teleport.Session.PathMap.{trim_space}
use go_claude_teleport.Session.MemoryIndex.{
  Found, no_file, unreadable, content, index_written, newline, carried, trim_end, is_known,
  lines_to_add, terminated, line_gap, write_index, merge_memory_index,
}

abbrev pub ends : List Bytes → List Bytes
ends [] = []
ends (l ∷ ls) = trim_end l ∷ ends ls

abbrev pub trims : List Bytes → List Bytes
trims [] = []
trims (l ∷ ls) = trim_space l ∷ trims ls

-- None of the lines is blank, carried already, or a repetition of an earlier one of them.
unfoldable pub AreNew : List Bytes → List Bytes → Type 0
unfolding has_text
AreNew have [] = Unit
AreNew have (l ∷ ls) = (is_known have (trim_space l) ≡ false) × AreNew (trim_space l ∷ have) ls

-- The line is blank, carried already, or among the chosen ones.
unfoldable pub IsCovered : List Bytes → List Bytes → Bytes → Type 0
unfolding has_text
IsCovered have chosen l =
    (is_known have (trim_space l) ≡ true) ⊎ (has_text (trim_space l) (trims chosen) ≡ true)

-- The added lines come from the chosen ones of `lines`: these are new, and cover the rest.
unfoldable pub Chosen : List Bytes → List Bytes → List Bytes → Type 0
unfolding AreNew IsCovered
Chosen have lines added =
    (chosen : List Bytes) × (added ≡ ends chosen)
    × AreNew have chosen
    × All (λ l. Memᴰ l lines) chosen
    × All (IsCovered have chosen) lines

later : (l : Bytes) (ls xs : List Bytes) → All (λ x. Memᴰ x ls) xs → All (λ x. Memᴰ x (l ∷ ls)) xs
later l ls [] h = tt
later l ls (x ∷ xs) (m, h) = (Memᴰ.tail m, later l ls xs h)

IsCovered-line :
    (have chosen : List Bytes) (l x : Bytes)
    → IsCovered (trim_space l ∷ have) chosen x
    → IsCovered have (l ∷ chosen) x
unfolding IsCovered has_text
IsCovered-line have chosen l x (inl h) =
    elim (Bool-cases (bytes_eq (trim_space l) (trim_space x))) [
      | inl e ↦ inr (ground arith)
      | inr e ↦ inl (ground arith)
    ]
IsCovered-line have chosen l x (inr h) = inr (ground arith)

IsCovered-lines :
    (have chosen : List Bytes) (l : Bytes) (xs : List Bytes)
    → All (IsCovered (trim_space l ∷ have) chosen) xs
    → All (IsCovered have (l ∷ chosen)) xs
IsCovered-lines have chosen l [] h = tt
IsCovered-lines have chosen l (x ∷ xs) (c, h) =
    (IsCovered-line have chosen l x c, IsCovered-lines have chosen l xs h)

has_text_first : (t : Bytes) (ts : List Bytes) → has_text t (t ∷ ts) ≡ true
unfolding has_text
has_text_first t ts = rw (bytes_eq_refl t) refl

add_line-Chosen :
    (have ls : List Bytes) (l : Bytes) (b : Bool)
    → is_known have (trim_space l) ≡ b
    → Chosen
        (if b then have else trim_space l ∷ have)
        ls
        (lines_to_add (if b then have else trim_space l ∷ have) ls)
    → Chosen have (l ∷ ls) (
        if b
        then lines_to_add (if b then have else trim_space l ∷ have) ls
        else trim_end l ∷ lines_to_add (if b then have else trim_space l ∷ have) ls)
unfolding Chosen AreNew IsCovered
add_line-Chosen have ls l true e (chosen, q, n, m, c) =
    (chosen, q, n, later l ls chosen m, (inl e, c))
add_line-Chosen have ls l false e (chosen, q, n, m, c) = (
  l ∷ chosen,
  ap (λ r. trim_end l ∷ r) q,
  (e, n),
  (Memᴰ.head refl, later l ls chosen m),
  (inr (has_text_first (trim_space l) (trims chosen)), IsCovered-lines have chosen l ls c),
)

lines_to_add-Chosen : (have ls : List Bytes) → Chosen have ls (lines_to_add have ls)
unfolding lines_to_add Chosen AreNew
lines_to_add-Chosen have [] = ([], refl, tt, tt, tt)
lines_to_add-Chosen have (l ∷ ls) =
    add_line-Chosen have ls l (is_known have (trim_space l)) refl
      (lines_to_add-Chosen (if is_known have (trim_space l) then have else trim_space l ∷ have) ls)

-- The text that was there, with a file that is not there as the empty text.
unfoldable pub text_of : Found → Bytes
text_of (content s) = s
text_of _ = []

write_index-Adds :
    (existing : Bytes) (added : List Bytes) (dir_made written : Bool) (text : Bytes) (n : ℕ)
    → write_index existing added dir_made written ≡ index_written text n
    → (text ≡ existing ++ (line_gap existing ++ terminated added))
      × (n ≡ length added)
      × (added ≢ [])
write_index-Adds existing [] d w text n h = cc
write_index-Adds existing (l ∷ ls) false w text n h = cc
write_index-Adds existing (l ∷ ls) true false text n h = cc
write_index-Adds existing (l ∷ ls) true true text n h = (cc, cc, λ e. cc)

-- The same of the whole merge, when it writes.
pub merge_memory_index-Chosen :
    (found : Found) (src : Bytes) (dir_made written : Bool) (text : Bytes) (n : ℕ)
    → merge_memory_index found src dir_made written ≡ index_written text n
    → (added : List Bytes) × (text
        ≡ text_of found ++ (line_gap (text_of found) ++ terminated added))
      × (n ≡ length added)
      × (added ≢ [])
      × Chosen (carried (split_on newline (text_of found))) (split_on newline src) added
unfolding merge_memory_index text_of
merge_memory_index-Chosen unreadable src d w text n h = cc
merge_memory_index-Chosen no_file src d w text n h =
    let have = carried (split_on newline []) in
    let added = lines_to_add have (split_on newline src) in
    let (a, b, c) = write_index-Adds [] added d w text n h in
    (added, a, b, c, lines_to_add-Chosen have (split_on newline src))
merge_memory_index-Chosen (content s) src d w text n h =
    let have = carried (split_on newline s) in
    let added = lines_to_add have (split_on newline src) in
    let (a, b, c) = write_index-Adds s added d w text n h in
    (added, a, b, c, lines_to_add-Chosen have (split_on newline src))
