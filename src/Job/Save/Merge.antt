-- ===== src/Job/Save/Merge.antt =====
-- `SaveMerged` amends the journal that is on disk when the lock is held.
use go_claude_teleport.Base.{Option, none, some, Bytes, ◌≡◌, refl, ap, ◌∙◌, arith}
use go_claude_teleport.Job.Id.{dir}
use go_claude_teleport.Job.Journal.{Journal, journal_path}
use go_claude_teleport.Job.Save.{
  Error, Result, ok, err, ReadResult, content, missing, unreadable, Os, save_locked, open_journal,
  locked, decoded, opened, merged, merge_into, save_merged,
}
use go_claude_teleport.Job.Save.Atomic.{IsLawful, IsSaved, save_locked-IsSaved}

module _ (os : Os) (law : IsLawful os) where
  open os use {World, now, read_file, lock, unlock, decode, encode}

  -- The journal `j` is the decoded text of the file at `d`, with its directory.
  abbrev pub IsOnDisk : Bytes → World → Journal → Type 0
  IsOnDisk d w j =
      (raw : Bytes) × (stored : Journal) × (read_file w (journal_path d) ≡ content raw)
      × (decode raw ≡ ok stored)
      × (j ≡ record stored { journal_dir = d })

  decoded-some :
      (d raw : Bytes) (w : World) (r : Result Journal) {j : Journal}
      → read_file w (journal_path d) ≡ content raw
      → decode raw ≡ r
      → decoded os d r ≡ ok (some j)
      → IsOnDisk d w j
  decoded-some d raw w (err e) there e2 h = cc
  decoded-some d raw w (ok stored) there e2 h = (raw, stored, there, e2, ground arith)

  opened-some :
      (d : Bytes) (w : World) (r : ReadResult) {j : Journal}
      → read_file w (journal_path d) ≡ r
      → opened os d r ≡ ok (some j)
      → IsOnDisk d w j
  opened-some d w missing there h = cc
  opened-some d w (unreadable t) there h = cc
  opened-some d w (content raw) there h = decoded-some d raw w (decode raw) there refl h

  open_journal-IsOnDisk :
      (data_dir id : Bytes) (w : World) {j : Journal}
      → open_journal os data_dir id w ≡ ok (some j)
      → IsOnDisk (dir data_dir id) w j
  unfolding open_journal
  open_journal-IsOnDisk data_dir id w h =
      let d : Bytes = dir data_dir id in opened-some d w (read_file w (journal_path d)) refl h

  -- What `SaveMerged` left behind, seen from the moment when the lock was held (`w`).
  abbrev pub IsMerged : Bytes → (Journal → Journal) → World → Result Journal × World → Type 0
  IsMerged d mutate w (ok j', w') =
      (j : Journal) × IsOnDisk d w j
      × (j' ≡ record (mutate j) { updated_at = now w })
      × (raw : Bytes) × (encode j' ≡ ok raw)
      × (read_file w' (journal_path d) ≡ content raw)
  IsMerged d mutate w (err e, w') = read_file w' (journal_path d) ≡ read_file w (journal_path d)

  merged-IsMerged :
      (d : Bytes) (mutate : Journal → Journal) (w : World) (j k : Journal)
      (r : Option Error × Journal × World)
      → IsOnDisk d w j
      → k ≡ mutate j
      → k.journal_dir ≡ d
      → IsSaved os law k w r
      → IsMerged d mutate w (merged os r)
  merged-IsMerged d mutate w j k (none, j', w') there e at (new, raw, enc, file) =
      (j, there, rw (← e) new, raw, enc, rw (← at) file)
  merged-IsMerged d mutate w j k (some x, j', w') there e at (new, same) = rw (← at) same

  merge_into-IsMerged :
      (d : Bytes) (mutate : Journal → Journal) (w : World) (r : Result (Option Journal))
      → ((j : Journal) → (mutate j).journal_dir ≡ j.journal_dir)
      → ((j : Journal) → r ≡ ok (some j) → IsOnDisk d w j)
      → IsMerged d mutate w (merge_into os d mutate r w)
  merge_into-IsMerged d mutate w (err e) keeps there = refl
  merge_into-IsMerged d mutate w (ok none) keeps there = refl
  merge_into-IsMerged d mutate w (ok (some j)) keeps there =
      let found : IsOnDisk d w j = there j refl in
      merged-IsMerged d mutate w j (mutate j) (save_locked os (mutate j) w) found refl
        (keeps j ∙ ap (λ (k : Journal). k.journal_dir) found.4)
        (save_locked-IsSaved os law (mutate j) w)

  unlocked-IsMerged :
      (d : Bytes) (mutate : Journal → Journal) (w : World) (r : Result Journal × World)
      → IsMerged d mutate w r
      → IsMerged d mutate w (r.0, unlock d r.1)
  unlocked-IsMerged d mutate w (ok j', w') (j, there, new, raw, enc, file) =
      (j, there, new, raw, enc, law.unlock_same d (journal_path d) w' ∙ file)
  unlocked-IsMerged d mutate w (err e, w') same = law.unlock_same d (journal_path d) w' ∙ same

  locked-IsMerged :
      (data_dir id : Bytes) (mutate : Journal → Journal) (c : Option Bytes × World)
      → ((j : Journal) → (mutate j).journal_dir ≡ j.journal_dir)
      → let d = dir data_dir id in
        IsMerged d mutate c.1 (
          locked os d
            (λ e w1. (err e, w1))
            (λ w1. merge_into os d mutate (open_journal os data_dir id w1) w1)
            c)
  locked-IsMerged data_dir id mutate (some t, w) keeps = refl
  locked-IsMerged data_dir id mutate (none, w) keeps =
      let d : Bytes = dir data_dir id in
      unlocked-IsMerged d mutate w (merge_into os d mutate (open_journal os data_dir id w) w) (
        merge_into-IsMerged d mutate w (open_journal os data_dir id w) keeps
          (λ j. open_journal-IsOnDisk data_dir id w))

  -- `SaveMerged` amends the journal that is on disk when it holds the lock, and no older copy: a
  -- success returns and stores the mutation of that journal with its new time, and an error leaves
  -- the file as it was. The mutation may not move the journal to another directory.
  pub save_merged-IsMerged :
      (data_dir id : Bytes) (mutate : Journal → Journal) (w : World)
      → ((j : Journal) → (mutate j).journal_dir ≡ j.journal_dir)
      → let d = dir data_dir id in
        IsMerged d mutate (lock d w).1 (save_merged os data_dir id mutate w)
  unfolding save_merged
  save_merged-IsMerged data_dir id mutate w keeps =
      locked-IsMerged data_dir id mutate (lock (dir data_dir id) w) keeps
