-- ===== src/Transfer/Install/Allowed.antt =====
-- What an installation may write at a destination.
use go_claude_teleport.Base.{
  Bool, true, false, Option, none, some, List, [], ◌∷◌, ◌++◌, Bytes, bytes_eq, bytes_eq_iff,
  if◌then◌else◌, ◌≡◌, refl, ap, ◌∙◌, arith, All, ◌⊎◌, inl, inr,
}
use go_claude_teleport.Transfer.Manifest.{Entry, session, is_regular, ff_allowed}
use go_claude_teleport.Transfer.Diff.{
  Status, Statuses, absent, present_same, staged_same, present_different, ff_candidate,
  staged_mismatch, no_status,
}
use go_claude_teleport.Transfer.Install.{
  InstallError, Action, places, removes, Calls, check_force_overwrite, is_memory, check_all,
  check_deferred, check_memory, State, Outcome, on_success, called, placing, count_installed,
  count_forwarded, count_overwritten, count_copied, forward, overwrite, force, install_entry,
  unless_cancelled, install_entries, merged_memory, install_memory, install_memories, failing,
  refusing, finish, place_memories, place_all, check_rows, check_deferrals, claim, fresh, install,
}

-- An entry of the session itself that the user's force may overwrite.
abbrev pub MayForce : Bytes → Bool → Entry → Type 0
MayForce sid forced e =
    (forced ≡ true)
    × ((is_regular e ≡ true)
        × ((e.ff_allowed ≡ true) × ((e.category ≡ session) × (ff_allowed e.dst sid ≡ true))))

check_force_overwrite-MayForce :
    (sid : Bytes) (e : Entry) (forced : Bool)
    → check_force_overwrite sid e forced ≡ none
    → MayForce sid forced e
unfolding check_force_overwrite
check_force_overwrite-MayForce sid e forced h = ground arith

module _ (calls : Calls) (sid : Bytes) (forced : Bool) (st : Statuses) where
  open calls use {World, is_prefix, staged_hash}

  -- A forced overwrite at a moment: the status says that the destination differs, force is allowed, and
  -- the staged copy has the manifest's hash then.
  abbrev pub IsForced : Entry → World → Type 0
  IsForced e w =
      (st e.id ≡ present_different) × (MayForce sid forced e × (staged_hash e w ≡ some e.sha256))

  -- A fast-forward whose file at the destination is a prefix of the staged copy at that moment.
  abbrev pub IsForwarded : Entry → World → Type 0
  IsForwarded e w = (st e.id ≡ ff_candidate) × (is_prefix e w ≡ some true)

  -- What may be done in a world. A forced placement comes directly after the removal.
  abbrev pub IsAllowed : Action × World → Type 0
  IsAllowed (places e false, w) = st e.id ≡ staged_same
  IsAllowed (places e true, w) =
      IsForwarded e w ⊎ ((before : World) × IsForced e before × (w ≡ (calls.remove_dst e before).1))
  IsAllowed (removes e, w) = IsForced e w

  abbrev Keeps : Outcome calls → Type 0
  Keeps o = All IsAllowed o.1.trace

  on_success-Keeps :
      (o : Outcome calls) (next : State calls → Outcome calls)
      → Keeps o
      → ((s : State calls) → All IsAllowed s.trace → Keeps (next s))
      → Keeps (on_success calls o next)
  on_success-Keeps (some e, s) next h k = h
  on_success-Keeps (none, s) next h k = k s h

  called-Keeps :
      (s : State calls) (c : Option Bytes × World)
      → All IsAllowed s.trace
      → Keeps (called calls s c)
  called-Keeps s (none, w) h = h
  called-Keeps s (some t, w) h = h

  placing-Keeps :
      (e : Entry) (b : Bool) (s : State calls)
      → IsAllowed (places e b, s.world)
      → All IsAllowed s.trace
      → Keeps (placing calls e b s)
  placing-Keeps e b s a h =
      called-Keeps (record s { trace = (places e b, s.world) ∷ s.trace }) (calls.place e b s.world)
        (a, h)

  forward-Keeps :
      (e : Entry) (s : State calls) (o : Option Bool)
      → st e.id ≡ ff_candidate
      → is_prefix e s.world ≡ o
      → All IsAllowed s.trace
      → Keeps (forward calls e s o)
  forward-Keeps e s none q p h = h
  forward-Keeps e s (some false) q p h = h
  forward-Keeps e s (some true) q p h =
      on_success-Keeps (placing calls e true s) (count_forwarded calls e)
        (placing-Keeps e true s (inl (q, p)) h) (λ s1 k. k)

  if-Keeps :
      (b : Bool) (x y : Outcome calls)
      → (b ≡ true → Keeps x)
      → (b ≡ false → Keeps y)
      → Keeps (if b then x else y)
  if-Keeps true x y hx hy = hx refl
  if-Keeps false x y hx hy = hy refl

  removed-Keeps :
      (e : Entry) (s : State calls) (c : Option Bytes × World)
      → IsForced e s.world
      → c.1 ≡ (calls.remove_dst e s.world).1
      → All IsAllowed s.trace
      → Keeps (
          on_success calls
            (called calls (record s { trace = (removes e, s.world) ∷ s.trace }) c)
            (λ s1. on_success calls (placing calls e true s1) (count_overwritten calls)))
  removed-Keeps e s (some t, w) is_forced q h = (is_forced, h)
  removed-Keeps e s (none, w) is_forced q h =
      let s1 : State calls = record s { world = w; trace = (removes e, s.world) ∷ s.trace } in
      on_success-Keeps (placing calls e true s1) (count_overwritten calls)
        (placing-Keeps e true s1 (inr (s.world, is_forced, q)) (is_forced, h)) (λ s2 k2. k2)

  overwrite-Keeps :
      (e : Entry) (s : State calls) (o : Option Bytes)
      → st e.id ≡ present_different
      → MayForce sid forced e
      → staged_hash e s.world ≡ o
      → All IsAllowed s.trace
      → Keeps (overwrite calls e s o)
  overwrite-Keeps e s none q may p h = h
  overwrite-Keeps e s (some sum) q may p h =
      if-Keeps (bytes_eq sum e.sha256) _ _
        (λ same. replaced (ap some ((bytes_eq_iff sum e.sha256).0 same))) (λ d. h)
    where
      replaced :
          some sum ≡ some e.sha256
          → Keeps (
              on_success calls
                (called calls
                  (record s { trace = (removes e, s.world) ∷ s.trace })
                  (calls.remove_dst e s.world))
                (λ s1. on_success calls (placing calls e true s1) (count_overwritten calls)))
      replaced same =
          let is_forced : IsForced e s.world = (q, (may, p ∙ same)) in
          removed-Keeps e s (calls.remove_dst e s.world) is_forced refl h

  force-Keeps :
      (e : Entry) (s : State calls) (o : Option InstallError)
      → st e.id ≡ present_different
      → check_force_overwrite sid e forced ≡ o
      → All IsAllowed s.trace
      → Keeps (force calls e s o)
  force-Keeps e s (some err) q c h = h
  force-Keeps e s none q c h =
      overwrite-Keeps e s (staged_hash e s.world) q (check_force_overwrite-MayForce sid e forced c)
        refl h

  install_entry-Keeps :
      (e : Entry) (x : Status) (s : State calls)
      → st e.id ≡ x
      → All IsAllowed s.trace
      → Keeps (install_entry calls sid forced e x s)
  unfolding install_entry
  install_entry-Keeps e staged_same s q h =
      on_success-Keeps (placing calls e false s) (count_installed calls e)
        (placing-Keeps e false s q h) (λ s1 k. k)
  install_entry-Keeps e present_same s q h = h
  install_entry-Keeps e ff_candidate s q h =
      if-Keeps (calls.is_staged e s.world) _ _
        (λ t. forward-Keeps e s (is_prefix e s.world) q refl h) (λ t. h)
  install_entry-Keeps e present_different s q h =
      force-Keeps e s (check_force_overwrite sid e forced) q refl h
  install_entry-Keeps e absent s q h = h
  install_entry-Keeps e staged_mismatch s q h = h
  install_entry-Keeps e no_status s q h = h

  unless_cancelled-Keeps :
      (o : Option Bytes) (s : State calls) (next : Outcome calls)
      → All IsAllowed s.trace
      → Keeps next
      → Keeps (unless_cancelled calls o s next)
  unless_cancelled-Keeps none s next h k = k
  unless_cancelled-Keeps (some t) s next h k = h

  install_entries-Keeps :
      (memory es : List Entry) (s : State calls)
      → All IsAllowed s.trace
      → Keeps (install_entries calls sid forced memory st es s)
  unfolding install_entries
  install_entries-Keeps memory [] s h = h
  install_entries-Keeps memory (e ∷ es) s h =
      unless_cancelled-Keeps (calls.cancelled s.world) s _ h (
        on_success-Keeps _ _
          (if-Keeps (is_memory memory e.id) _ _ (λ t. h)
            (λ t. install_entry-Keeps e (st e.id) s refl h))
          (λ s1 k. install_entries-Keeps memory es s1 k))

  merged_memory-Keeps :
      (e : Entry) (s : State calls) (o : Option Bool × World)
      → All IsAllowed s.trace
      → Keeps (merged_memory calls e s o)
  merged_memory-Keeps e s (none, w) h = h
  merged_memory-Keeps e s (some true, w) h = h
  merged_memory-Keeps e s (some false, w) h = h

  install_memory-Keeps :
      (e : Entry) (x : Status) (s : State calls)
      → st e.id ≡ x
      → All IsAllowed s.trace
      → Keeps (install_memory calls e x s)
  unfolding install_memory
  install_memory-Keeps e staged_same s q h =
      on_success-Keeps (placing calls e false s) (count_copied calls e)
        (placing-Keeps e false s q h) (λ s1 k. k)
  install_memory-Keeps e present_same s q h = h
  install_memory-Keeps e absent s q h = h
  install_memory-Keeps e staged_mismatch s q h = h
  install_memory-Keeps e ff_candidate s q h =
      merged_memory-Keeps e s (calls.merge_memory e s.world) h
  install_memory-Keeps e present_different s q h =
      merged_memory-Keeps e s (calls.merge_memory e s.world) h
  install_memory-Keeps e no_status s q h = merged_memory-Keeps e s (calls.merge_memory e s.world) h

  install_memories-Keeps :
      (es : List Entry) (s : State calls)
      → All IsAllowed s.trace
      → Keeps (install_memories calls st es s)
  unfolding install_memories
  install_memories-Keeps [] s h = h
  install_memories-Keeps (e ∷ es) s h =
      on_success-Keeps _ _ (install_memory-Keeps e (st e.id) s refl h)
        (λ s1 k. install_memories-Keeps es s1 k)

  failing-Keeps :
      (s : State calls) (o : Option Bytes) → All IsAllowed s.trace → Keeps (failing calls s o)
  failing-Keeps s none h = h
  failing-Keeps s (some t) h = h

  refusing-Keeps :
      (s : State calls) (o : Option InstallError)
      → All IsAllowed s.trace
      → Keeps (refusing calls s o)
  refusing-Keeps s o h = h

  place_memories-Keeps :
      (memory : List Entry) (s : State calls)
      → All IsAllowed s.trace
      → Keeps (place_memories calls memory st s)
  place_memories-Keeps memory s h =
      on_success-Keeps (install_memories calls st memory s) (finish calls)
        (install_memories-Keeps memory s h) (λ s1 k. called-Keeps s1 (calls.merge_rest s1.world) k)

  place_all-Keeps :
      (es memory : List Entry) (s : State calls)
      → All IsAllowed s.trace
      → Keeps (place_all calls sid forced es memory st s)
  place_all-Keeps es memory s h =
      on_success-Keeps (install_entries calls sid forced memory st es s)
        (place_memories calls memory st) (install_entries-Keeps memory es s h)
        (place_memories-Keeps memory)

  check_deferrals-Keeps :
      (es memory : List Entry) (s : State calls)
      → All IsAllowed s.trace
      → Keeps (check_deferrals calls sid forced es memory st s)
  check_deferrals-Keeps es memory s h =
      on_success-Keeps (refusing calls s (check_deferred (es ++ memory)))
        (check_rows calls sid forced es memory st) h
        (λ s1 k.
          on_success-Keeps (refusing calls s1 (check_memory es memory))
            (place_all calls sid forced es memory st) k (place_all-Keeps es memory))

  claim-Keeps :
      (es memory : List Entry) (s : State calls)
      → All IsAllowed s.trace
      → Keeps (claim calls sid forced es memory st s)
  claim-Keeps es memory s h =
      on_success-Keeps (called calls s (calls.commit_claims s.world))
        (check_deferrals calls sid forced es memory st)
        (called-Keeps s (calls.commit_claims s.world) h) (check_deferrals-Keeps es memory)

  -- Whatever fails, an installation places an entry only in these cases, by the status that it was given
  -- for the entry's id: staged-same; ff-candidate, when the destination's file is a prefix of the staged
  -- copy in the very world of the placement; or present-different, when the user's force is given, the
  -- entry is a regular file of the session itself, and the placement comes directly after the removal of
  -- the destination's file. A file is removed only in that last case, and only when the staged copy has
  -- the manifest's hash in the very world of the removal.
  pub install-IsAllowed :
      (es memory : List Entry) (w : World)
      → All IsAllowed (install calls sid forced es memory st w).1.trace
  unfolding install
  install-IsAllowed es memory w =
      on_success-Keeps (failing calls (fresh calls w) (check_all calls (es ++ memory) w))
        (claim calls sid forced es memory st)
        (failing-Keeps (fresh calls w) (check_all calls (es ++ memory) w) tt)
        (claim-Keeps es memory)
