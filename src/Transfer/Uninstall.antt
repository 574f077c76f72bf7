-- ===== src/Transfer/Uninstall.antt =====
-- The removal of what a job placed (internal/transfer/install.go, `Uninstall` and `UninstallIDs`).
-- The calls on the destination's files are the parameter `Disk`; each call of `Remove` is recorded
-- with the world it is made in. The texts of errors are left out.
pub mod Order
pub mod Created
pub mod Licensed
pub mod Removed
use go_claude_teleport.Base.{
  ℕ, ℤ, int_eq, ◌+◌, Bool, true, false, ◌&&◌, ◌||◌, not, Option, none, some, List, [], ◌∷◌, ◌++◌,
  Bytes, bytes_eq, has_text, has_prefix, ltb, ◌==◌, if◌then◌else◌,
}
use go_claude_teleport.FilePath.{slash, clean}
use go_claude_teleport.Session.Paths.{Paths}
use go_claude_teleport.Transfer.Manifest.{Entry, is_dir, is_symlink}
use go_claude_teleport.Transfer.Diff.{Seen, gone, unreadable, there}
use go_claude_teleport.Transfer.Roots.{Files, Root}
use go_claude_teleport.Transfer.Validate.{
  Checked, NewValidator, ready, bad_job_id, not_ready, new_validator, mode_uninstall, accepted,
  refused, fails, look_up,
}
use go_claude_teleport.Transfer.Validate.Check.{check_each}
use go_claude_teleport.Transfer.Installed.{
  Kind, kind_file, kind_dir, kind_symlink, InstalledRecord, Installed, load_installed,
}

-- The calls: `Readlink`, `HashFile`, `dirEmpty`, and `Remove` with whether it worked.
pub record Disk : Type 1 where
  pub World : Type 0
  pub readlink : Bytes → World → Seen Bytes
  pub hash : Bytes → World → Seen Bytes
  pub dir_empty : Bytes → World → Seen Bool
  pub remove : Bytes → World → Bool × World

abbrev pub is_kind_file : Kind → Bool
is_kind_file kind_file = true
is_kind_file _ = false

abbrev pub is_kind_symlink : Kind → Bool
is_kind_symlink kind_symlink = true
is_kind_symlink _ = false

abbrev pub is_kind_dir : Kind → Bool
is_kind_dir kind_dir = true
is_kind_dir _ = false

-- The test that an entry lies at a directory or below it.
unfoldable pub touches : Bytes → List Entry → Bool
unfolding clean bytes_eq has_prefix
touches d [] = false
touches d (e ∷ es) =
    bytes_eq (clean e.dst) d || has_prefix (clean e.dst) (d ++ slash ∷ []) || touches d es

-- `strings.Count(s, "/")`.
unfoldable pub count_slashes : Bytes → ℕ
count_slashes [] = 0
count_slashes (c ∷ s) = if c == slash then count_slashes s + 1 else count_slashes s

-- `a < b` on strings.
unfoldable pub bytes_less : Bytes → Bytes → Bool
bytes_less s [] = false
bytes_less [] (b ∷ t) = true
bytes_less (a ∷ s) (b ∷ t) = ltb a b || ((a == b) && bytes_less s t)

-- The order of `createdDirsDeepestFirst`.
unfoldable pub is_deeper : Bytes → Bytes → Bool
unfolding count_slashes bytes_less
is_deeper a b =
    if count_slashes a == count_slashes b
    then bytes_less a b
    else ltb (count_slashes b) (count_slashes a)

-- The loop that chooses directories of the record.
unfoldable pub created_dirs : List Entry → List Bytes → Installed → List Bytes
unfolding has_text touches
created_dirs es protected [] = []
created_dirs es protected ((d, r) ∷ rest) =
    if is_kind_dir r.kind && not (has_text d protected) && touches d es
    then d ∷ created_dirs es protected rest
    else created_dirs es protected rest

-- `sort.Slice`: the keys are distinct, so that the result is the one sorted list.
unfoldable pub insert_dir : Bytes → List Bytes → List Bytes
unfolding is_deeper
insert_dir d [] = d ∷ []
insert_dir d (x ∷ xs) = let rest = insert_dir d xs in if is_deeper x d then x ∷ rest else d ∷ x ∷ xs

unfoldable pub sort_dirs : List Bytes → List Bytes
unfolding insert_dir
sort_dirs [] = []
sort_dirs (d ∷ ds) = insert_dir d (sort_dirs ds)

-- `createdDirsDeepestFirst`.
unfoldable pub created_dirs_deepest_first : List Entry → Installed → List Bytes → List Bytes
unfolding created_dirs sort_dirs
created_dirs_deepest_first es installed protected = sort_dirs (created_dirs es protected installed)

-- `want[e.ID]`.
unfoldable pub is_wanted : List ℤ → Entry → Bool
unfolding int_eq
is_wanted [] e = false
is_wanted (i ∷ ids) e = int_eq i e.id || is_wanted ids e

unfoldable pub wanted : List ℤ → List Entry → List Entry
unfolding is_wanted
wanted ids [] = []
wanted ids (e ∷ es) = if is_wanted ids e then e ∷ wanted ids es else wanted ids es

unfoldable pub unnamed : List ℤ → List Entry → List Bytes
unfolding is_wanted clean
unnamed ids [] = []
unnamed ids (e ∷ es) = if is_wanted ids e then unnamed ids es else clean e.dst ∷ unnamed ids es

module _ (disk : Disk) where
  open disk use {World, readlink, hash, dir_empty, remove}

  -- The world, the paths removed, those whose call failed, and the calls of `Remove`, the last first.
  pub record State : Type 0 where
    pub world : World
    pub removed : List Bytes
    pub errors : List Bytes
    pub calls : List (Bytes × World)

  abbrev pub failed : Bytes → State → State
  failed name s = record s { errors = s.errors ++ name ∷ [] }

  abbrev pub removing : Bytes → State → Bool × World → State
  removing name s (true, w) = record s { world = w; removed = s.removed ++ name ∷ [] }
  removing name s (false, w) = record s { world = w; errors = s.errors ++ name ∷ [] }

  -- The call of `Remove` at a path, reported under a name.
  abbrev pub take_out : Bytes → Bytes → State → State
  take_out path name s =
      removing name (record s { calls = (path, s.world) ∷ s.calls }) (remove path s.world)

  -- What is found at a path is compared with what was placed there.
  abbrev pub compared : Bytes → Bytes → Bytes → State → Seen Bytes → State
  compared path name want s gone = s
  compared path name want s unreadable = failed name s
  compared path name want s (there found) = if bytes_eq found want then take_out path name s else s

  -- One entry that the job placed.
  unfoldable pub remove_entry : Entry → InstalledRecord → State → State
  unfolding is_dir is_symlink clean bytes_eq
  remove_entry e r s =
      if is_dir e
      then s
      else if is_symlink e
      then (if not (is_kind_symlink r.kind)
          then s
          else compared (clean e.dst) e.dst r.symlink s (readlink (clean e.dst) s.world))
      else if not (is_kind_file r.kind) || bytes_eq r.sha256 []
      then s
      else compared (clean e.dst) e.dst r.sha256 s (hash (clean e.dst) s.world)

  abbrev pub if_placed : Entry → State → Option InstalledRecord → State
  if_placed e s none = s
  if_placed e s (some r) = remove_entry e r s

  -- The loop over the entries.
  unfoldable pub remove_entries : Installed → List Entry → State → State
  unfolding remove_entry look_up clean
  remove_entries installed [] s = s
  remove_entries installed (e ∷ es) s =
      remove_entries installed es (if_placed e s (look_up (clean e.dst) installed))

  abbrev pub if_empty : Bytes → State → Seen Bool → State
  if_empty d s gone = s
  if_empty d s unreadable = failed d s
  if_empty d s (there false) = s
  if_empty d s (there true) = take_out d d s

  -- The loop over the directories.
  unfoldable pub remove_dirs : List Bytes → State → State
  remove_dirs [] s = s
  remove_dirs (d ∷ ds) s = remove_dirs ds (if_empty d s (dir_empty d s.world))

  abbrev pub start : World → State
  start w = record { world = w; removed = []; errors = []; calls = [] }

  -- What `uninstall` returns: an error before anything is touched, or the state at its end.
  pub data Uninstalled : Type 0 where
    not_begun : Uninstalled
    ended : State → Uninstalled

  abbrev pub remove_all :
      List Entry → List Bytes → Option (List InstalledRecord) → World → Uninstalled
  remove_all es protected none w = not_begun
  remove_all es protected (some held) w =
      let installed = load_installed held in
      ended (
        remove_dirs (created_dirs_deepest_first es installed protected)
          (remove_entries installed es (start w)))

  abbrev pub if_accepted : Checked → Uninstalled → Uninstalled
  if_accepted (accepted, m) next = next
  if_accepted (refused why, m) next = not_begun
  if_accepted (fails, m) next = not_begun

  abbrev pub if_ready : Files → List Entry → NewValidator → Uninstalled → Uninstalled
  if_ready fs es (ready v m) next = if_accepted (check_each fs v es m) next
  if_ready fs es (bad_job_id err) next = not_begun
  if_ready fs es not_ready next = not_begun

  -- `uninstall`, over what the job's two records hold, or an error.
  unfoldable pub uninstall :
      Files
      → Paths
      → Bytes
      → List Root
      → List Entry
      → List Bytes
      → Option (List Bytes)
      → Option (List InstalledRecord)
      → World
      → Uninstalled
  unfolding new_validator check_each created_dirs_deepest_first load_installed remove_entries
      remove_dirs
  uninstall fs p job_id roots es protected job_roots held w =
      if_ready fs es (new_validator fs job_roots job_id roots es p mode_uninstall)
        (remove_all es protected held w)

  -- `UninstallIDs`.
  unfoldable pub uninstall_ids :
      Files
      → Paths
      → Bytes
      → List Root
      → List Entry
      → List ℤ
      → Option (List Bytes)
      → Option (List InstalledRecord)
      → World
      → Uninstalled
  unfolding uninstall wanted unnamed
  uninstall_ids fs p job_id roots es ids job_roots held w =
      uninstall fs p job_id roots (wanted ids es) (unnamed ids es) job_roots held w
