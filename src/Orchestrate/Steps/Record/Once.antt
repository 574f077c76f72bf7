-- ===== src/Orchestrate/Steps/Record/Once.antt =====
-- Each host's history gets at most one row of a job.
use go_claude_teleport.Base.{true, false, List, [], ◌∷◌, ◌≡◌, none}
use go_claude_teleport.Orchestrate.Endpoint.{answer, Side, Hosts}
use go_claude_teleport.Orchestrate.Steps.{Plan, State, Out}
use go_claude_teleport.Orchestrate.Steps.Record.{run_record}
use go_claude_teleport.Orchestrate.Steps.Record.Counted.{rows, Counted}

module _ (hosts : Hosts Plan) where
  open hosts use {World, record_history, cleanup, save_journal, journal_put}

  -- What is assumed of the plan on disk (`reload`): a save that works stores the plan, a copy of the plan
  -- that is stored already changes nothing, and neither do the rows of a history and the clean-up.
  pub record IsJournal (reload : World → Plan) : Type 0 where
    pub stores :
        (p : Plan) (w : World) → (save_journal p w).0 ≡ answer tt → reload (save_journal p w).1 ≡ p
    pub copies :
        (side : Side) (p : Plan) (w : World) → reload w ≡ p → reload (journal_put side p w).1 ≡ p
    pub row_keeps : (side : Side) (w : World) → reload (record_history side w).1 ≡ reload w
    pub cleanup_keeps : (side : Side) (w : World) → reload (cleanup side w).1 ≡ reload w

  -- The step run again and again, whatever it returns, each time on the plan that is read from disk,
  -- with something else happening before.
  unfoldable pub run_again : (World → Plan) → List (World → World) → State hosts → State hosts
  unfolding run_record
  run_again reload [] s = s
  run_again reload (before ∷ rest) s =
      let w = before s.world in
      run_again reload rest (run_record hosts (record s { world = w; plan = reload w })).1

  -- The plan knows of both rows.
  abbrev pub HasBoth : Plan → Type 0
  HasBoth p = (p.recorded_src ≡ true) × (p.recorded_dst ≡ true)

  -- The plan knows of no row.
  abbrev pub HasNone : Plan → Type 0
  HasNone p = (p.recorded_src ≡ false) × (p.recorded_dst ≡ false)

  module _ (reload : World → Plan) (law : IsJournal reload) where
    -- A run that succeeds leaves both rows known on disk.
    abbrev Knows : Out hosts → Type 0
    Knows out = out.0 ≡ none → HasBoth (reload out.1.world)

    -- Nothing is written to a history, and the plan on disk is what it was.
    abbrev Quiet : State hosts → Out hosts → Type 0
    Quiet s out =
        ((side : Side) → rows side out.1.trace ≡ rows side s.trace)
        × (reload out.1.world ≡ reload s.world)
