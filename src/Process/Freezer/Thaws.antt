-- ===== src/Process/Freezer/Thaws.antt =====
-- A process that the freezer's helper stopped is let go again.
use mathlib.Core.List.{Memᴰ}
use mathlib.Core.List.Memᴰ
use mathlib.Core.Path.{subst}
use go_claude_teleport.Base.{
  ℤ, Bool, true, false, Option, List, [], ◌∷◌, ◌++◌, ◌≡◌, ◌⊎◌, inl, inr, Bytes, bytes_eq_iff, refl,
  arith, Bool-cases, if-true, sym, ap, ◌∙◌,
}
use go_claude_teleport.Process.Freezer.{
  Signal, stop, continue, Target, Event, sent, Moment, check_start, target_of, kill, signal_target,
  thaw, after_stop, thaw_end, restore_end, owner_group, run_freezer_helper, Run, owner_died,
}
use go_claude_teleport.Process.Freezer.Signals.{IsSame, after_stop-sent, thaw-Safe}

Same-check_start : (start : Bytes) (m : Moment) → IsSame start m → check_start start m ≡ true
unfolding check_start
Same-check_start start m (ne, e) =
    rw e (ground (arith, bytes_eq_iff start [], bytes_eq_iff start start))

-- A signal that can be sent is sent.
signal_target-works :
    (pid : ℤ) (start : Bytes) (sig : Signal) (owner : ℤ) (m : Moment)
    → IsSame start m
    → m.killable ≡ true
    → signal_target pid start sig owner m ≡ (sent sig (target_of pid owner m) ∷ [], true)
unfolding signal_target
signal_target-works pid start sig owner m same k =
    if-true (check_start start m) _ _ (Same-check_start start m same)
    ∙ ap (λ b. kill b (sent sig (target_of pid owner m))) k

-- A phase that sent a signal did not fail.
kill-ok : (b : Bool) (e x : Event) → Memᴰ x (kill b e).0 → (kill b e).1 ≡ true
kill-ok true e x m = refl
kill-ok false e x m = elim (Memᴰ.not-nil m) [ ]

signal_target-ok :
    (pid : ℤ) (start : Bytes) (sig : Signal) (owner : ℤ) (m : Moment) (x : Event)
    → Memᴰ x (signal_target pid start sig owner m).0
    → (signal_target pid start sig owner m).1 ≡ true
unfolding signal_target
signal_target-ok pid start sig owner m x h = elim (Bool-cases (check_start start m)) [
  | inl c ↦ rw c (kill-ok m.killable (sent sig (target_of pid owner m)) x (rw c at h))
  | inr c ↦ elim (Memᴰ.not-nil (rw c at h)) [ ]
]

Memᴰ-after : {x : Event} (es : List Event) {fs : List Event} → Memᴰ x fs → Memᴰ x (es ++ fs)
Memᴰ-after [] m = m
Memᴰ-after (e ∷ es) m = Memᴰ.tail (Memᴰ-after es m)

-- Once the stop is acknowledged, the run ends as its second half does.
after_stop-ends :
    (a b : List Event × Bool) (x : Event)
    → a.1 ≡ true
    → Memᴰ x b.0
    → Memᴰ x (after_stop a b).0 × ((after_stop a b).1 ≡ b.1)
after_stop-ends (es, true) (fs, ok) x h m = (Memᴰ-after es (Memᴰ.tail m), refl)
after_stop-ends (es, false) b x h m = cc

thaw-works :
    (pid : ℤ) (start : Bytes) (owner : ℤ) (has : Bool) (r : Run)
    → IsSame start r.after_read
    → IsSame start r.at_thaw
    → r.at_thaw.killable ≡ true
    → thaw pid start owner has r
      ≡ (sent continue (target_of pid owner r.at_thaw) ∷ restore_end (owner_died r) has, true)
unfolding thaw
thaw-works pid start owner has r after same k =
    if-true (check_start start r.after_read) _ _ (Same-check_start start r.after_read after)
    ∙ ap (thaw_end (owner_died r) has)
        (signal_target-works pid start continue owner r.at_thaw same k)

-- When the helper has sent a stop, and the process still has its start time at the check after the
-- pipe's read and at the moment of the thaw, and can then be signalled, the helper sends a continue
-- and returns without an error, whether the owner asked for the thaw or died.
pub run_freezer_helper-Thaws :
    (pid : ℤ) (start : Bytes) (owner : Option ℤ) (has : Bool) (r : Run) (t : Target)
    → Memᴰ (sent stop t) (run_freezer_helper pid start owner has r).0
    → IsSame start r.after_read
    → IsSame start r.at_thaw
    → r.at_thaw.killable ≡ true
    → Memᴰ
        (sent continue (target_of pid (owner_group owner) r.at_thaw))
        (run_freezer_helper pid start owner has r).0
      × ((run_freezer_helper pid start owner has r).1 ≡ true)
unfolding run_freezer_helper
run_freezer_helper-Thaws pid start owner has r t m after same k =
    elim (Bool-cases (check_start start r.at_start)) [
      | inl c ↦ rw c (ends (stopped (after_stop-sent first second stop t (rw c at m))))
      | inr c ↦ elim (Memᴰ.not-nil (rw c at m)) [ ]
    ]
  where
    first : List Event × Bool
    first = signal_target pid start stop (owner_group owner) r.at_stop

    second : List Event × Bool
    second = thaw pid start (owner_group owner) has r

    not_stop : Memᴰ (sent stop t) (thaw pid start (owner_group owner) has r).0 → ⊥
    not_stop x = let (e, s) = thaw-Safe pid start (owner_group owner) has r stop t x in cc

    stopped : Memᴰ (sent stop t) first.0 ⊎ Memᴰ (sent stop t) second.0 → first.1 ≡ true
    stopped (inl x) = signal_target-ok pid start stop (owner_group owner) r.at_stop (sent stop t) x
    stopped (inr x) = elim (not_stop x) [ ]

    thawed : second ≡ (
      sent continue (target_of pid (owner_group owner) r.at_thaw) ∷ restore_end (owner_died r) has,
      true,
    )
    thawed = thaw-works pid start (owner_group owner) has r after same k

    ends :
        first.1 ≡ true
        → Memᴰ
            (sent continue (target_of pid (owner_group owner) r.at_thaw))
            (after_stop first second).0
          × ((after_stop first second).1 ≡ true)
    ends h =
        let (a, b) =
          after_stop-ends first second (sent continue (target_of pid (owner_group owner) r.at_thaw))
            h
            (subst (λ p. Memᴰ (sent continue (target_of pid (owner_group owner) r.at_thaw)) p.0)
              (sym thawed) (Memᴰ.head refl)) in
        (a, b ∙ ap (λ p. p.1) thawed)
