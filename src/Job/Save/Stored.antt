-- ===== src/Job/Save/Stored.antt =====
-- What `Save` leaves in the journal's file.
use go_claude_teleport.Base.{
  Option, none, some, [], Bytes, bytes_eq, ◌≡◌, ap, ◌∙◌, inl, inr, Bool-cases,
}
use go_claude_teleport.Job.Journal.{Journal, journal_path}
use go_claude_teleport.Job.Save.{Error, ok, content, Os, save, locked, save_locked}
use go_claude_teleport.Job.Save.Atomic.{IsLawful, IsSaved, save_locked-IsSaved}

module _ (os : Os) (law : IsLawful os) where
  open os use {World, now, read_file, lock, unlock, encode}

  -- After a success the file holds the text of the journal that the save gave back.
  abbrev pub IsStoredBy : (Option Error × Journal) × World → Type 0
  IsStoredBy r =
      r.0.0 ≡ none
      → (raw : Bytes) × (encode r.0.1 ≡ ok raw)
        × (read_file r.1 (journal_path r.0.1.journal_dir) ≡ content raw)

  unlocked-IsStoredBy :
      (j : Journal) (w : World) (r : Option Error × Journal × World)
      → IsSaved os law j w r
      → IsStoredBy ((r.0, r.1), unlock j.journal_dir r.2)
  unlocked-IsStoredBy j w (some e, j1, w1) h bad = cc
  unlocked-IsStoredBy j w (none, j1, w1) (new, raw, enc, file) good = (
    raw,
    enc,
    law.unlock_same j.journal_dir (journal_path j1.journal_dir) w1
        ∙ ap (λ d. read_file w1 (journal_path d)) (ap (λ (k : Journal). k.journal_dir) new)
        ∙ file,
  )

  locked-IsStoredBy :
      (j : Journal) (c : Option Bytes × World)
      → IsStoredBy (
          locked os {A = Option Error × Journal} j.journal_dir
            (λ e w1. ((some e, j), w1))
            (λ w1. let (r, j', w2) = save_locked os j w1 in ((r, j'), w2))
            c)
  locked-IsStoredBy j (some t, w) = λ h. cc
  locked-IsStoredBy j (none, w) =
      unlocked-IsStoredBy j w (save_locked os j w) (save_locked-IsSaved os law j w)

  pub save-IsStoredBy : (j : Journal) (w : World) → IsStoredBy (save os j w)
  unfolding save
  save-IsStoredBy j w = elim (Bool-cases (bytes_eq j.journal_dir [])) [
    | inl e ↦ rw e (λ h. cc)
    | inr e ↦ rw e (locked-IsStoredBy j (lock j.journal_dir w))
  ]
