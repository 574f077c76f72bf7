-- ===== src/Transfer/Manifest.antt =====
-- Manifest entries (internal/transfer/manifest.go). The mode is the number that `os.FileMode`
-- holds, with its bits 31 (directory) and 27 (symbolic link). The time of modification is left out.
pub mod Owner
use go_claude_teleport.Base.{
  ℕ, ℤ, pos, negsuc, int_eq, ◌*◌, ◌/◌, ◌%◌, Bool, true, false, ◌&&◌, ◌||◌, not, Option, none, some,
  List, [], ◌∷◌, ◌++◌, Bytes, bytes_eq, has_prefix, length, drop, get_elem?, ◌==◌, if◌then◌else◌,
}
use go_claude_teleport.FilePath.{slash}

-- `Category` (internal/session/inventory.go): its five words, and any other text of the wire.
pub data Category : Type 0 where
  session repo worktree capture pack : Category
  other_category : Bytes → Category

pub record Entry : Type 0 where
  pub id : ℤ
  pub category : Category
  pub src : Bytes
  pub dst : Bytes
  pub size : ℕ
  pub mode : ℕ
  pub sha256 : Bytes
  pub symlink : Bytes
  pub rewrite : Bool
  pub ff_allowed : Bool
  pub deferred : Bool

abbrev pub mode_dir : ℕ
mode_dir = 2147483648

abbrev pub mode_symlink : ℕ
mode_symlink = 134217728

-- `IsDir`, `IsSymlink`, `IsRegular`.
unfoldable pub is_dir : Entry → Bool
is_dir e = e.mode / mode_dir % 2 == 1

unfoldable pub is_symlink : Entry → Bool
is_symlink e = e.mode / mode_symlink % 2 == 1

unfoldable pub is_regular : Entry → Bool
unfolding is_dir is_symlink
is_regular e = not (is_dir e) && not (is_symlink e)

-- The loop of `ByID`.
unfoldable pub find_id : ℤ → List Entry → Option Entry
unfolding int_eq
find_id id [] = none
find_id id (e ∷ es) = if int_eq e.id id then some e else find_id id es

-- The first test of `ByID`: the entry at the index, if it has the id.
unfoldable pub at_index : ℤ → List Entry → Option Entry
unfolding int_eq
at_index (negsuc n) es = none
at_index (pos n) es = elim (get_elem? es n) [
  | none ↦ none
  | some e ↦ if int_eq e.id (pos n) then some e else none
]

-- `ByID`.
unfoldable pub by_id : ℤ → List Entry → Option Entry
unfolding at_index find_id
by_id id es = elim (at_index id es) [ some e ↦ some e | none ↦ find_id id es ]

-- What may stand behind the session's id: nothing, a dot, or a slash.
unfoldable pub segment_ends : Bytes → Bool
segment_ends [] = true
segment_ends (c ∷ s) = c == b'.' || c == slash

-- The search of `ffAllowed`: an occurrence of the marker, with such an end, at any position.
unfoldable pub find_marker : Bytes → Bytes → Bool
unfolding has_prefix segment_ends
find_marker marker [] = false
find_marker marker (c ∷ s) =
    (has_prefix (c ∷ s) marker && segment_ends (drop (length marker) (c ∷ s)))
    || find_marker marker s

-- `ffAllowed`.
unfoldable pub ff_allowed : Bytes → Bytes → Bool
unfolding find_marker bytes_eq
ff_allowed rel sid = if bytes_eq sid [] then false else find_marker (slash ∷ sid) (slash ∷ rel)
