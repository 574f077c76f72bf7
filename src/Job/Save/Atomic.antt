-- ===== src/Job/Save/Atomic.antt =====
-- A save replaces the journal as a whole or leaves it alone.
use go_claude_teleport.Base.{
  Bool, true, false, Option, none, some, [], ◌++◌, Bytes, ◌≡◌, ◌≢◌, refl, ◌∙◌,
}
use go_claude_teleport.Job.Journal.{Journal, journal_path}
use go_claude_teleport.Job.Save.{
  Error, Result, ok, err, ReadResult, content, Os, or_remove, renamed, with_encoded,
  fill_and_rename, with_temp, save_locked,
}

-- What the system's documentation says of the calls: `os.CreateTemp` makes an empty file of its own
-- beside the journal, a write through its handle goes behind what was written before, `rename` moves a
-- whole file or does nothing, releasing a lock changes no file, and no other call touches a file but
-- the one that it names. Nothing is said of taking a lock: it may make the lock's file, and others may
-- write while it waits.
pub record IsLawful (os : Os) : Type 0 where
  pub temp_other :
      (d p tmp : Bytes) (w : os.World)
      → (os.create_temp d w).0 ≡ ok tmp
      → (tmp ≢ journal_path d)
        × (tmp ≢ p → os.read_file (os.create_temp d w).1 p ≡ os.read_file w p)
  pub temp_failed :
      (d p : Bytes) (e : Error) (w : os.World)
      → (os.create_temp d w).0 ≡ err e
      → os.read_file (os.create_temp d w).1 p ≡ os.read_file w p
  pub write_other :
      (tmp raw p : Bytes) (w : os.World)
      → tmp ≢ p
      → os.read_file (os.write tmp raw w).1 p ≡ os.read_file w p
  pub temp_empty :
      (d tmp : Bytes) (w : os.World)
      → (os.create_temp d w).0 ≡ ok tmp
      → os.read_file (os.create_temp d w).1 tmp ≡ content []
  pub write_appends :
      (tmp raw before : Bytes) (w : os.World)
      → os.read_file w tmp ≡ content before
      → (os.write tmp raw w).0 ≡ none
      → os.read_file (os.write tmp raw w).1 tmp ≡ content (before ++ raw)
  pub sync_same :
      (tmp p : Bytes) (w : os.World) → os.read_file (os.sync tmp w).1 p ≡ os.read_file w p
  pub close_same :
      (tmp p : Bytes) (w : os.World) → os.read_file (os.close tmp w).1 p ≡ os.read_file w p
  pub chmod_same :
      (tmp p : Bytes) (w : os.World) → os.read_file (os.chmod tmp w).1 p ≡ os.read_file w p
  pub rename_moves :
      (tmp p : Bytes) (w : os.World)
      → (os.rename tmp p w).0 ≡ none
      → os.read_file (os.rename tmp p w).1 p ≡ os.read_file w tmp
  pub rename_failed :
      (tmp p q t : Bytes) (w : os.World)
      → (os.rename tmp p w).0 ≡ some t
      → os.read_file (os.rename tmp p w).1 q ≡ os.read_file w q
  pub remove_other :
      (tmp p : Bytes) (w : os.World) → tmp ≢ p → os.read_file (os.remove tmp w) p ≡ os.read_file w p
  pub unlock_same : (d p : Bytes) (w : os.World) → os.read_file (os.unlock d w) p ≡ os.read_file w p

module _ (os : Os) (law : IsLawful os) where
  open os use {World, now, read_file, lock, unlock, create_temp, write, sync, close, chmod, rename}
  open os use {remove, encode, decode}

  -- The file at `p` holds `new` after a success, and what it held before after an error.
  abbrev Replaces : Bytes → ReadResult → ReadResult → Option Error × World → Type 0
  Replaces p new old (none, w) = read_file w p ≡ new
  Replaces p new old (some e, w) = read_file w p ≡ old

  or_remove-Replaces :
      (tmp p : Bytes) (is_open : Bool) (new old : ReadResult) (c : Option Bytes × World)
      (next : World → Option Error × World)
      → tmp ≢ p
      → read_file c.1 p ≡ old
      → (c.0 ≡ none → Replaces p new old (next c.1))
      → Replaces p new old (or_remove os tmp is_open c next)
  or_remove-Replaces tmp p is_open new old (none, w) next ne same h = h refl
  or_remove-Replaces tmp p true new old (some t, w) next ne same h =
      law.remove_other tmp p (close tmp w).1 ne ∙ law.close_same tmp p w ∙ same
  or_remove-Replaces tmp p false new old (some t, w) next ne same h =
      law.remove_other tmp p w ne ∙ same

  renamed-Replaces :
      (d tmp : Bytes) (new old : ReadResult) (c : Option Bytes × World)
      → tmp ≢ journal_path d
      → (c.0 ≡ none → read_file c.1 (journal_path d) ≡ new)
      → ((t : Bytes) → c.0 ≡ some t → read_file c.1 (journal_path d) ≡ old)
      → Replaces (journal_path d) new old (renamed os d tmp c)
  renamed-Replaces d tmp new old (none, w) ne moved failed = moved refl
  renamed-Replaces d tmp new old (some t, w) ne moved failed =
      law.remove_other tmp (journal_path d) w ne ∙ failed t refl

  fill_and_rename-Replaces :
      (d tmp raw : Bytes) (old : ReadResult) (w : World)
      → tmp ≢ journal_path d
      → read_file w (journal_path d) ≡ old
      → read_file w tmp ≡ content []
      → Replaces (journal_path d) (content raw) old (fill_and_rename os d tmp raw w)
  unfolding fill_and_rename
  fill_and_rename-Replaces d tmp raw old w ne same empty =
      let p : Bytes = journal_path d in
      let w1 : World = (write tmp raw w).1 in
      let w2 : World = (sync tmp w1).1 in
      let w3 : World = (close tmp w2).1 in
      let w4 : World = (chmod tmp w3).1 in
      let s1 : read_file w1 p ≡ old = law.write_other tmp raw p w ne ∙ same in
      let s2 : read_file w2 p ≡ old = law.sync_same tmp p w1 ∙ s1 in
      let s3 : read_file w3 p ≡ old = law.close_same tmp p w2 ∙ s2 in
      let s4 : read_file w4 p ≡ old = law.chmod_same tmp p w3 ∙ s3 in
      or_remove-Replaces tmp p true (content raw) old (write tmp raw w) _ ne s1 λ written.
        or_remove-Replaces tmp p true (content raw) old (sync tmp w1) _ ne s2 λ _.
          or_remove-Replaces tmp p false (content raw) old (close tmp w2) _ ne s3 λ _.
            or_remove-Replaces tmp p false (content raw) old (chmod tmp w3) _ ne s4 λ _.
              renamed-Replaces d tmp (content raw) old (rename tmp p w4) ne
                (λ moved.
                  law.rename_moves tmp p w4 moved
                  ∙ law.chmod_same tmp tmp w3
                  ∙ law.close_same tmp tmp w2
                  ∙ law.sync_same tmp tmp w1
                  ∙ law.write_appends tmp raw [] w empty written)
                (λ t failed. law.rename_failed tmp p p t w4 failed ∙ s4)

  with_temp-Replaces :
      (d raw : Bytes) (old : ReadResult) (c : Result Bytes × World)
      → ((e : Error) → c.0 ≡ err e → read_file c.1 (journal_path d) ≡ old)
      → ((tmp : Bytes)
          → c.0 ≡ ok tmp
          → (tmp ≢ journal_path d)
            × (read_file c.1 (journal_path d) ≡ old)
            × (read_file c.1 tmp ≡ content []))
      → Replaces (journal_path d) (content raw) old (with_temp os d raw c)
  with_temp-Replaces d raw old (err e, w) failed made = failed e refl
  with_temp-Replaces d raw old (ok tmp, w) failed made =
      let (ne, same, empty) = made tmp refl in
      fill_and_rename-Replaces d tmp raw old w ne same empty

  -- What a save left behind: after a success the file is the text of the journal with its new
  -- time, after an error it is what it was.
  abbrev pub IsSaved : Journal → World → Option Error × Journal × World → Type 0
  IsSaved j w (none, j', w') =
      (j' ≡ record j { updated_at = now w })
      × (raw : Bytes) × (encode j' ≡ ok raw)
      × (read_file w' (journal_path j.journal_dir) ≡ content raw)
  IsSaved j w (some e, j', w') =
      (j' ≡ record j { updated_at = now w })
      × (read_file w' (journal_path j.journal_dir) ≡ read_file w (journal_path j.journal_dir))

  with_encoded-IsSaved :
      (j : Journal) (w : World) (enc : Result Bytes)
      → encode (record j { updated_at = now w }) ≡ enc
      → IsSaved j w (with_encoded os (record j { updated_at = now w }) w enc)
  with_encoded-IsSaved j w (err e) h = (refl, refl)
  with_encoded-IsSaved j w (ok raw) h = saved (with_temp os d raw (create_temp d w)) (
      with_temp-Replaces d raw (read_file w p) (create_temp d w)
        (λ e failed. law.temp_failed d p e w failed)
        (λ tmp made.
          let l = law.temp_other d p tmp w made in (l.0, l.1 l.0, law.temp_empty d tmp w made)))
    where
      d : Bytes
      d = j.journal_dir

      p : Bytes
      p = journal_path d

      saved :
          (r : Option Error × World)
          → Replaces p (content raw) (read_file w p) r
          → IsSaved j w (r.0, record j { updated_at = now w }, r.1)
      saved (none, w') replaced = (refl, raw, h, replaced)
      saved (some e, w') replaced = (refl, replaced)

  -- Whatever call fails, `saveLocked` replaces the journal as a whole or leaves it alone: after a
  -- success the file holds the text of the journal with its new time, after an error the file is
  -- what it was.
  pub save_locked-IsSaved : (j : Journal) (w : World) → IsSaved j w (save_locked os j w)
  unfolding save_locked
  save_locked-IsSaved j w = with_encoded-IsSaved j w (encode (record j { updated_at = now w })) refl
