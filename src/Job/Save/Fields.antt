-- ===== src/Job/Save/Fields.antt =====
-- `Save` changes the time of the journal alone.
use go_claude_teleport.Base.{
  Option, none, some, [], Bytes, bytes_eq, ◌≡◌, refl, ap, inl, inr, Bool-cases,
}
use go_claude_teleport.Job.Journal.{Journal}
use go_claude_teleport.Job.Save.{
  Error, Result, ok, err, Os, save, locked, save_locked, with_encoded,
}

module _ (os : Os) where
  open os use {World, now, create_temp, encode, lock}

  with_encoded-journal :
      (j : Journal) (w : World) (enc : Result Bytes) → (with_encoded os j w enc).1 ≡ j
  with_encoded-journal j w (err e) = refl
  with_encoded-journal j w (ok raw) = refl

  abbrev pub SameFields : Journal → Journal → Type 0
  SameFields j k = (k.steps ≡ j.steps) × (k.finished ≡ j.finished) × (k.outcome ≡ j.outcome)

  locked-fields :
      (j : Journal) (c : Option Bytes × World)
      → SameFields j
          (locked os {A = Option Error × Journal} j.journal_dir
            (λ e w1. ((some e, j), w1))
            (λ w1. let (r, j', w2) = save_locked os j w1 in ((r, j'), w2))
            c).0.1
  unfolding save_locked
  locked-fields j (some t, w) = (refl, refl, refl)
  locked-fields j (none, w) =
      let e : (save_locked os j w).1 ≡ record j { updated_at = now w } =
        with_encoded-journal (record j { updated_at = now w }) w _ in
      (
        ap (λ (k : Journal). k.steps) e,
        ap (λ (k : Journal). k.finished) e,
        ap (λ (k : Journal). k.outcome) e,
      )

  pub save-fields : (j : Journal) (w : World) → SameFields j (save os j w).0.1
  unfolding save
  save-fields j w = elim (Bool-cases (bytes_eq j.journal_dir [])) [
    | inl e ↦ rw e (refl, refl, refl)
    | inr e ↦ rw e (locked-fields j (lock j.journal_dir w))
  ]
