-- ===== src/Orchestrate/Runner/Ends.antt =====
-- How a runner ends: the journal that it opened is finished, on every path.
use go_claude_teleport.Base.{ℤ, true, Option, none, some, Bytes, ◌≡◌, ◌≢◌, ◌⊎◌}
use go_claude_teleport.Job.Journal.{Journal, journal_path, success, failure}
use go_claude_teleport.Job.Save.{Error, ok, content, Os, save}
use go_claude_teleport.Job.Save.Atomic.{IsLawful}
use go_claude_teleport.Orchestrate.Runner.{Effects, Ending}

module _ (os : Os) (law : IsLawful os) (ctx_err : os.World → Option Error) (fx : Effects os ctx_err)
    (getpid : ℤ) where
  open os use {World, now, read_file, encode}

  -- What a save came to: it worked, and the journal's file held the text of the journal right after it,
  -- or the runner returns an error.
  abbrev IsStored : Option Error → (Option Error × Journal) × World → Type 0
  IsStored e ((none, j), w) =
      (raw : Bytes) × (encode j ≡ ok raw) × (read_file w (journal_path j.journal_dir) ≡ content raw)
  IsStored e ((some f, j), w) = e ≢ none

  -- Nothing follows the save but, when it worked, the copies for the two hosts.
  abbrev IsLeft : (Option Error × Journal) × World → World → Type 0
  IsLeft r w = (w ≡ r.1) ⊎ ((r.0.0 ≡ none) × (w ≡ fx.put_dest r.0.1 (fx.put_source r.0.1 r.1)))

  -- The journal `j` is the one that the last save gave back.
  abbrev IsKept : Option Error → Journal → World → Type 0
  IsKept e j w =
      (k : Journal) × (before : World) × ((save os k before).0.1 ≡ j)
      × IsStored e (save os k before)
      × IsLeft (save os k before) w

  -- The journal is finished; its outcome is a success, or a failure that is reported as an error.
  abbrev IsDecided : Option Error → Journal → Type 0
  IsDecided e j =
      (j.finished ≡ true) × ((j.outcome ≡ success) ⊎ ((j.outcome ≡ failure) × (e ≢ none)))

  abbrev EndsAt : Option Error → Option Journal → World → Type 0
  EndsAt e none w = e ≢ none
  EndsAt e (some j) w = IsDecided e j × IsKept e j w

  -- Before the endpoints are closed.
  abbrev IsSettled : Ending os ctx_err → Type 0
  IsSettled r = EndsAt r.error r.journal r.world

  -- An ending, with the endpoints closed or never opened.
  abbrev pub IsEnded : Ending os ctx_err → Type 0
  IsEnded r =
      (w : World) × EndsAt r.error r.journal w × ((r.world ≡ w) ⊎ (r.world ≡ fx.close_endpoints w))
