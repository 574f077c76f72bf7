-- ===== src/Job/Save.antt =====
-- How a journal is saved (internal/job/journal.go): `withLock`, `saveLocked`, `Save`, `Open`,
-- `SaveMerged`. The calls of the operating system and of encoding/json are the parameter `Os`;
-- what the theorems assume of them is the record `IsLawful` of the child.
pub mod Atomic
pub mod Merge
pub mod Fields
pub mod Stored
use go_claude_teleport.Base.{
  ℕ, Bool, true, false, Option, none, some, List, [], ◌∷◌, ◌++◌, Bytes, codes, bytes_eq,
  if◌then◌else◌,
}
use go_claude_teleport.Job.Id.{dir}
use go_claude_teleport.Job.Journal.{Journal, journal_path}

-- Errors, wrapped as the program wraps them.
pub data Error : Type 0 where
  os_error : Bytes → Error
  no_dir : Error
  no_journal : Bytes → Error
  wrapped : Bytes → Error → Error
  save_failed : Error → Error → Error

-- `err.Error()`.
unfoldable pub message : Error → Bytes
message (os_error t) = t
message no_dir = codes "journal has no Dir"
message (no_journal p) = codes "no journal at " ++ p
message (wrapped t e) = t ++ codes ": " ++ message e
message (save_failed e f) =
    message e ++ codes " (and saving the journal failed: " ++ message f ++ codes ")"

pub data Result {ℓ} (A : Type ℓ) : Type ℓ where
  ok : A → Result A
  err : Error → Result A

-- The operating system, the clock and the JSON codec. `opened`, `missing` and a failure are the
-- three results of reading a file.
pub data ReadResult : Type 0 where
  content : Bytes → ReadResult
  missing : ReadResult
  unreadable : Bytes → ReadResult

pub record Os : Type 1 where
  pub World : Type 0
  pub now : World → ℕ
  pub read_file : World → Bytes → ReadResult
  pub lock : Bytes → World → Option Bytes × World
  pub unlock : Bytes → World → World
  pub create_temp : Bytes → World → (Result Bytes) × World
  pub write : Bytes → Bytes → World → Option Bytes × World
  pub sync : Bytes → World → Option Bytes × World
  pub close : Bytes → World → Option Bytes × World
  pub chmod : Bytes → World → Option Bytes × World
  pub rename : Bytes → Bytes → World → Option Bytes × World
  pub remove : Bytes → World → World
  pub encode : Journal → Result Bytes
  pub decode : Bytes → Result Journal

module _ (os : Os) where
  open os use {World, now, read_file, lock, unlock, create_temp, write, sync, close, chmod, rename}
  open os use {remove, encode, decode}

  abbrev saving : Bytes → Bytes → Error
  saving path t = wrapped (codes "save journal " ++ path) (os_error t)

  -- A call on the temporary file, with what follows: on an error the file is closed, if it is open,
  -- and removed.
  abbrev or_remove :
      Bytes → Bool → Option Bytes × World → (World → Option Error × World) → Option Error × World
  or_remove tmp is_open (none, w) next = next w
  or_remove tmp is_open (some t, w) next =
      (some (saving tmp t), remove tmp (if is_open then (close tmp w).1 else w))

  -- The rename over the journal, the last call of `saveLocked`.
  abbrev renamed : Bytes → Bytes → Option Bytes × World → Option Error × World
  renamed d tmp (none, w) = (none, w)
  renamed d tmp (some t, w) = (some (saving (journal_path d) t), remove tmp w)

  -- The temporary file from its first write to the rename.
  unfoldable pub fill_and_rename : Bytes → Bytes → Bytes → World → Option Error × World
  fill_and_rename d tmp raw w = or_remove tmp true (write tmp raw w) λ w1.
      or_remove tmp true (sync tmp w1) λ w2. or_remove tmp false (close tmp w2) λ w3.
        or_remove tmp false (chmod tmp w3) λ w4. renamed d tmp (rename tmp (journal_path d) w4)

  abbrev with_temp : Bytes → Bytes → Result Bytes × World → Option Error × World
  with_temp d raw (err e, w) = (some (wrapped (codes "save journal " ++ d) e), w)
  with_temp d raw (ok tmp, w) = fill_and_rename d tmp raw w

  -- `saveLocked`: the error, the journal with its new time, and the world.
  abbrev with_encoded : Journal → World → Result Bytes → Option Error × Journal × World
  with_encoded j w (err e) = (some (wrapped (codes "encode journal") e), j, w)
  with_encoded j w (ok raw) =
      let (r, w') = with_temp j.journal_dir raw (create_temp j.journal_dir w) in (r, j, w')

  unfoldable pub save_locked : Journal → World → Option Error × Journal × World
  unfolding fill_and_rename
  save_locked j w =
      let stamped : Journal = record j { updated_at = now w } in
      with_encoded stamped w (encode stamped)

  -- `withLock`: the lock is released on every path of the body.
  abbrev locked {ℓ} :
      {A : Type ℓ}
      → Bytes
      → (Error → World → A × World)
      → (World → A × World)
      → Option Bytes × World
      → A × World
  locked d failed body (some t, w) = failed (wrapped (codes "lock journal " ++ d) (os_error t)) w
  locked d failed body (none, w) = let (a, w') = body w in (a, unlock d w')

  -- `Save`.
  unfoldable pub save : Journal → World → (Option Error × Journal) × World
  unfolding save_locked bytes_eq
  save j w =
      if bytes_eq j.journal_dir []
      then ((some no_dir, j), w)
      else locked j.journal_dir (λ e w1. ((some e, j), w1))
          (λ w1. let (r, j', w2) = save_locked j w1 in ((r, j'), w2)) (lock j.journal_dir w)

  -- `Open`: a missing journal is no error.
  abbrev decoded : Bytes → Result Journal → Result (Option Journal)
  decoded d (err e) = err (wrapped (codes "parse journal " ++ journal_path d) e)
  decoded d (ok j) = ok (some (record j { journal_dir = d }))

  abbrev opened : Bytes → ReadResult → Result (Option Journal)
  opened d missing = ok none
  opened d (unreadable t) = err (wrapped (codes "open journal " ++ journal_path d) (os_error t))
  opened d (content raw) = decoded d (decode raw)

  unfoldable pub open_journal : Bytes → Bytes → World → Result (Option Journal)
  unfolding dir journal_path
  open_journal data_dir id w =
      let d : Bytes = dir data_dir id in opened d (read_file w (journal_path d))

  -- The body of `SaveMerged` inside the lock.
  abbrev merged : Option Error × Journal × World → Result Journal × World
  merged (none, j, w) = (ok j, w)
  merged (some e, j, w) = (err e, w)

  abbrev merge_into :
      Bytes → (Journal → Journal) → Result (Option Journal) → World → Result Journal × World
  merge_into d mutate (err e) w = (err e, w)
  merge_into d mutate (ok none) w = (err (no_journal (journal_path d)), w)
  merge_into d mutate (ok (some j)) w = merged (save_locked (mutate j) w)

  -- `SaveMerged`.
  unfoldable pub save_merged : Bytes → Bytes → (Journal → Journal) → World → Result Journal × World
  unfolding open_journal save_locked
  save_merged data_dir id mutate w =
      let d : Bytes = dir data_dir id in
      locked d (λ e w1. (err e, w1)) (λ w1. merge_into d mutate (open_journal data_dir id w1) w1)
        (lock d w)
