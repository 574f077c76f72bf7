-- ===== src/Transfer/Install.antt =====
-- The installation of a classified manifest (internal/transfer/install.go): the checks before
-- anything is touched, the loop over the entries, and the loop over the memory entries. The calls on
-- the file system and of the validator are the parameter `Calls`; which of them write at a
-- destination is recorded in a trace. The merges of the index, of the history and of the project's
-- entry, which follow, are one call.
mod Interface
pub mod Allowed
pub mod Refused
unfoldable pub use Interface.*
use go_claude_teleport.Base.{
  ℕ, ℤ, int_eq, ◌+◌, Bool, true, false, ◌&&◌, ◌||◌, not, Option, none, some, List, [], ◌∷◌, ◌++◌,
  Bytes, bytes_eq, if◌then◌else◌,
}
use go_claude_teleport.Transfer.Manifest.{
  Entry, Category, session, capture, is_regular, ff_allowed, by_id,
}
use go_claude_teleport.Transfer.Diff.{
  Status, Statuses, absent, present_same, staged_same, present_different, ff_candidate,
  staged_mismatch, no_status, is_session,
}

module _ (calls : Calls) where
  open calls use {World, check, commit_claims, cancelled, place, drop_staged, is_staged, is_prefix}
  open calls use {staged_hash, remove_dst, merge_memory, merge_rest}

  -- Where an installation is: the world, the report and the trace of the actions, each with the world in
  -- which it was called, the last one first.
  pub record State : Type 0 where
    pub world : World
    pub report : Report
    pub trace : List (Action × World)

  abbrev pub Outcome : Type 0
  Outcome = Option InstallError × State

  abbrev pub on_success : Outcome → (State → Outcome) → Outcome
  on_success (some e, s) next = (some e, s)
  on_success (none, s) next = next s

  abbrev pub called : State → Option Bytes × World → Outcome
  called s (none, w) = (none, record s { world = w })
  called s (some t, w) = (some (call_failed t), record s { world = w })

  -- `v.place`, recorded.
  abbrev pub placing : Entry → Bool → State → Outcome
  placing e file_only s =
      called (record s { trace = (places e file_only, s.world) ∷ s.trace })
        (place e file_only s.world)

  abbrev pub count_installed : Entry → State → Outcome
  count_installed e s = (
    none,
    record s {
      report = record s.report {
        installed = s.report.installed + 1;
        installed_ids = s.report.installed_ids ++ e.id ∷ [];
      };
    },
  )

  abbrev pub count_forwarded : Entry → State → Outcome
  count_forwarded e s = (
    none,
    record s {
      report = record s.report {
        fast_forwarded = s.report.fast_forwarded + 1;
        fast_forwarded_ids = s.report.fast_forwarded_ids ++ e.id ∷ [];
      };
    },
  )

  abbrev pub count_overwritten : State → Outcome
  count_overwritten s = (
    none,
    record s { report = record s.report { force_overwritten = s.report.force_overwritten + 1 } },
  )

  -- The case of a fast-forward, after the staged copy was seen.
  abbrev pub forward : Entry → State → Option Bool → Outcome
  forward e s none = (some (call_failed e.dst), s)
  forward e s (some false) = (some (not_a_prefix e), s)
  forward e s (some true) = on_success (placing e true s) (count_forwarded e)

  -- The case of a forced overwrite, after `checkForceOverwrite`.
  abbrev pub overwrite : Entry → State → Option Bytes → Outcome
  overwrite e s none = (some (call_failed e.dst), s)
  overwrite e s (some sum) =
      if bytes_eq sum e.sha256
      then on_success
          (called (record s { trace = (removes e, s.world) ∷ s.trace }) (remove_dst e s.world))
          (λ s1. on_success (placing e true s1) count_overwritten)
      else (some (hash_differs e), s)

  abbrev pub force : Entry → State → Option InstallError → Outcome
  force e s (some err) = (some err, s)
  force e s none = overwrite e s (staged_hash e s.world)

  -- One entry of the manifest, by its status.
  unfoldable pub install_entry : Bytes → Bool → Entry → Status → State → Outcome
  unfolding check_force_overwrite bytes_eq
  install_entry sid forced e staged_same s = on_success (placing e false s) (count_installed e)
  install_entry sid forced e present_same s = (
    none,
    record s {
      world = drop_staged e s.world;
      report = record s.report { skipped_same = s.report.skipped_same + 1 };
    },
  )
  install_entry sid forced e ff_candidate s =
      if is_staged e s.world
      then forward e s (is_prefix e s.world)
      else (some (nothing_staged e), s)
  install_entry sid forced e present_different s = force e s (check_force_overwrite sid e forced)
  install_entry sid forced e other s = (some (refused_status e other), s)

  abbrev pub unless_cancelled : Option Bytes → State → Outcome → Outcome
  unless_cancelled (some t) s next = (some (call_failed t), s)
  unless_cancelled none s next = next

  -- The loop over the manifest; the memory entries are left to the second loop.
  unfoldable pub install_entries :
      Bytes → Bool → List Entry → Statuses → List Entry → State → Outcome
  unfolding install_entry is_memory
  install_entries sid forced memory st [] s = (none, s)
  install_entries sid forced memory st (e ∷ es) s = unless_cancelled (cancelled s.world) s (
      on_success
        (if is_memory memory e.id then (none, s) else install_entry sid forced e (st e.id) s)
        (install_entries sid forced memory st es))

  abbrev pub merged_memory : Entry → State → Option Bool × World → Outcome
  merged_memory e s (none, w) = (some (call_failed e.dst), record s { world = w })
  merged_memory e s (some true, w) = (none, record s { world = drop_staged e w })
  merged_memory e s (some false, w) = (
    none,
    record s {
      world = drop_staged e w;
      report = record s.report { memory_differs = s.report.memory_differs ++ e.dst ∷ [] };
    },
  )

  abbrev pub count_copied : Entry → State → Outcome
  count_copied e s = (
    none,
    record s { report = record s.report { memory_copied = s.report.memory_copied ++ e.dst ∷ [] } },
  )

  -- One memory entry, by its status.
  unfoldable pub install_memory : Entry → Status → State → Outcome
  install_memory e staged_same s = on_success (placing e false s) (count_copied e)
  install_memory e present_same s = (none, record s { world = drop_staged e s.world })
  install_memory e absent s = (some (refused_status e absent), s)
  install_memory e staged_mismatch s = (some (refused_status e staged_mismatch), s)
  install_memory e other s = merged_memory e s (merge_memory e s.world)

  unfoldable pub install_memories : Statuses → List Entry → State → Outcome
  unfolding install_memory
  install_memories st [] s = (none, s)
  install_memories st (e ∷ es) s =
      on_success (install_memory e (st e.id) s) (install_memories st es)

  -- `v.check` on a list of entries.
  unfoldable pub check_all : List Entry → World → Option Bytes
  check_all [] w = none
  check_all (e ∷ es) w = elim (check e w) [ some t ↦ some t | none ↦ check_all es w ]

  abbrev pub refusing : State → Option InstallError → Outcome
  refusing s r = (r, s)

  abbrev pub failing : State → Option Bytes → Outcome
  failing s none = (none, s)
  failing s (some t) = (some (call_failed t), s)

  -- The stages of `install` after the validation, the last one first.
  abbrev pub finish : State → Outcome
  finish s = called s (merge_rest s.world)

  abbrev pub place_memories : List Entry → Statuses → State → Outcome
  place_memories memory st s = on_success (install_memories st memory s) finish

  abbrev pub place_all : Bytes → Bool → List Entry → List Entry → Statuses → State → Outcome
  place_all sid forced es memory st s =
      on_success (install_entries sid forced memory st es s) (place_memories memory st)

  abbrev pub check_rows : Bytes → Bool → List Entry → List Entry → Statuses → State → Outcome
  check_rows sid forced es memory st s =
      on_success (refusing s (check_memory es memory)) (place_all sid forced es memory st)

  abbrev pub check_deferrals : Bytes → Bool → List Entry → List Entry → Statuses → State → Outcome
  check_deferrals sid forced es memory st s =
      on_success (refusing s (check_deferred (es ++ memory))) (check_rows sid forced es memory st)

  abbrev pub claim : Bytes → Bool → List Entry → List Entry → Statuses → State → Outcome
  claim sid forced es memory st s =
      on_success (called s (commit_claims s.world)) (check_deferrals sid forced es memory st)

  abbrev pub fresh : World → State
  fresh w = record { world = w; report = empty_report; trace = [] }

  -- `install`.
  unfoldable pub install : Bytes → Bool → List Entry → List Entry → Statuses → World → Outcome
  unfolding check_all check_deferred check_memory install_entries install_memories
  install sid forced es memory st w =
      on_success (failing (fresh w) (check_all (es ++ memory) w)) (claim sid forced es memory st)
