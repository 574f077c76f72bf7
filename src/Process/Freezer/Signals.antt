-- ===== src/Process/Freezer/Signals.antt =====
-- Whom the freezer's helper signals, and when.
use mathlib.Core.List.{Memᴰ}
use mathlib.Core.List.Memᴰ
use mathlib.Core.Path.{subst}
use go_claude_teleport.Base.{
  ℤ, int_eq_iff, Bool, true, false, ◌&&◌, not, Option, none, some, List, [], ◌∷◌, ◌++◌, ◌≡◌, ◌≢◌,
  ◌⊎◌, inl, inr, Bytes, bytes_eq, bytes_eq_iff, is_positive, arith, Bool-cases, if-true, if-false,
  sym, ap, ◌∙◌, &&-both,
}
use go_claude_teleport.Process.Freezer.{
  Signal, stop, continue, Target, group, single, Event, sent, acknowledged, kill, Moment,
  check_start, group_to_signal, target_of, signal_target, thaw, after_stop, thaw_end, restore_end,
  run_freezer_helper, Run, owner_died, at_most_one, owner_group,
}

-- A member of two lists put together is in one of them.
Memᴰ-append :
    (es : List Event) {fs : List Event} {e : Event} → Memᴰ e (es ++ fs) → Memᴰ e es ⊎ Memᴰ e fs
Memᴰ-append [] m = inr m
Memᴰ-append (x ∷ es) (Memᴰ.head q) = inl (Memᴰ.head q)
Memᴰ-append (x ∷ es) (Memᴰ.tail m) = elim (Memᴰ-append es m) [
  | inl a ↦ inl (Memᴰ.tail a)
  | inr b ↦ inr b
]

-- A group that may be signalled: the one that was read, a real job's, not the helper's own, not its
-- owner's.
abbrev pub IsSafeGroup : ℤ → Moment → ℤ → Type 0
IsSafeGroup owner m g =
    (m.pgid ≡ some g) × ((at_most_one g ≡ false) × ((g ≢ m.self_pgid) × (g ≢ owner)))

-- The addressee of a signal at a moment: the process itself, or a safe group.
abbrev pub IsSafeTarget : ℤ → ℤ → Moment → Target → Type 0
IsSafeTarget pid owner m t = (t ≡ single pid) ⊎ ((g : ℤ) × ((t ≡ group g) × IsSafeGroup owner m g))

group-Safe :
    (pid owner self : ℤ) (o : Option ℤ)
    → (is_positive (group_to_signal self owner o) ≡ true)
    → (g : ℤ) × ((group_to_signal self owner o ≡ g)
        × ((o ≡ some g) × ((at_most_one g ≡ false) × ((g ≢ self) × (g ≢ owner)))))
unfolding group_to_signal
group-Safe pid owner self none h = ground arith
group-Safe pid owner self (some g) h = (g, ground (arith, int_eq_iff g self, int_eq_iff g owner))

target_of-Safe : (pid owner : ℤ) (m : Moment) → IsSafeTarget pid owner m (target_of pid owner m)
unfolding target_of
target_of-Safe pid owner m =
    elim (Bool-cases (is_positive (group_to_signal m.self_pgid owner m.pgid))) [
      | inl e ↦
          let (g, (same, safe)) = group-Safe pid owner m.self_pgid m.pgid e in
          inr (
            g,
            (
              if-true (is_positive (group_to_signal m.self_pgid owner m.pgid)) _ _ e
                  ∙ ap group same,
              safe,
            ),
          )
      | inr e ↦ inl (if-false (is_positive (group_to_signal m.self_pgid owner m.pgid)) _ _ e)
    ]

-- The process is the one that was named, at a moment.
abbrev pub IsSame : Bytes → Moment → Type 0
IsSame start m = (start ≢ []) × (m.start_time ≡ some start)

check_start-Same : (start : Bytes) (m : Moment) → check_start start m ≡ true → IsSame start m
unfolding check_start
check_start-Same start m h = same m.start_time h
  where
    same :
        (o : Option Bytes)
        → (elim o [ none ↦ false | some st ↦ not (bytes_eq start []) && bytes_eq st start ]) ≡ true
        → (start ≢ []) × (o ≡ some start)
    same none h = cc
    same (some st) h =
        let (a, b) = &&-both (not (bytes_eq start [])) (bytes_eq st start) h in
        ((λ e. ground (arith, bytes_eq_iff start [])), ap some ((bytes_eq_iff st start).0 b))

-- A signal that may be sent at a moment.
abbrev pub IsSafeAt : ℤ → Bytes → ℤ → Moment → Target → Type 0
IsSafeAt pid start owner m t = IsSame start m × IsSafeTarget pid owner m t

pub signal_target-Safe :
    (pid : ℤ) (start : Bytes) (sig : Signal) (owner : ℤ) (m : Moment) (s : Signal) (t : Target)
    → Memᴰ (sent s t) (signal_target pid start sig owner m).0
    → (s ≡ sig) × IsSafeAt pid start owner m t
unfolding signal_target
signal_target-Safe pid start sig owner m s t h = elim (Bool-cases (check_start start m)) [
  | inl c ↦ by_kill m.killable c (rw c at h)
  | inr c ↦ elim (Memᴰ.not-nil (rw c at h)) [ ]
]
  where
    only :
        Memᴰ (sent s t) (sent sig (target_of pid owner m) ∷ [])
        → (s ≡ sig) × (t ≡ target_of pid owner m)
    only (Memᴰ.head e) = (cc, cc)
    only (Memᴰ.tail x) = elim (Memᴰ.not-nil x) [ ]

    by_kill :
        (b : Bool)
        → check_start start m ≡ true
        → Memᴰ (sent s t) (kill b (sent sig (target_of pid owner m))).0
        → (s ≡ sig) × IsSafeAt pid start owner m t
    by_kill true c x =
        let (a, b) = only x in
        (
          a,
          (
            check_start-Same start m c,
            subst (λ u. IsSafeTarget pid owner m u) (sym b) (target_of-Safe pid owner m),
          ),
        )
    by_kill false c x = elim (Memᴰ.not-nil x) [ ]

restore_end-not_sent :
    (died has : Bool) (s : Signal) (t : Target) → Memᴰ (sent s t) (restore_end died has) → ⊥
restore_end-not_sent true true s t (Memᴰ.head e) = cc
restore_end-not_sent true true s t (Memᴰ.tail m) = Memᴰ.not-nil m
restore_end-not_sent true false s t m = Memᴰ.not-nil m
restore_end-not_sent false has s t m = Memᴰ.not-nil m

thaw_end-sent :
    (died has : Bool) (r : List Event × Bool) (s : Signal) (t : Target)
    → Memᴰ (sent s t) (thaw_end died has r).0
    → Memᴰ (sent s t) r.0
thaw_end-sent died has (es, false) s t m = m
thaw_end-sent died has (es, true) s t m = elim (Memᴰ-append es m) [
  | inl x ↦ x
  | inr x ↦ elim (restore_end-not_sent died has s t x) [ ]
]

pub after_stop-sent :
    (a b : List Event × Bool) (s : Signal) (t : Target)
    → Memᴰ (sent s t) (after_stop a b).0
    → Memᴰ (sent s t) a.0 ⊎ Memᴰ (sent s t) b.0
after_stop-sent (es, false) b s t m = inl m
after_stop-sent (es, true) (fs, ok) s t m = elim (Memᴰ-append es m) [
  | inl x ↦ inl x
  | inr x ↦ inr (past x)
]
  where
    past : Memᴰ (sent s t) (acknowledged ∷ fs) → Memᴰ (sent s t) fs
    past (Memᴰ.head e) = cc
    past (Memᴰ.tail x) = x

pub thaw-Safe :
    (pid : ℤ) (start : Bytes) (owner : ℤ) (has : Bool) (r : Run) (s : Signal) (t : Target)
    → Memᴰ (sent s t) (thaw pid start owner has r).0
    → (s ≡ continue) × IsSafeAt pid start owner r.at_thaw t
unfolding thaw
thaw-Safe pid start owner has r s t m = elim (Bool-cases (check_start start r.after_read)) [
  | inl c ↦ signal_target-Safe pid start continue owner r.at_thaw s t (
      thaw_end-sent (owner_died r) has (signal_target pid start continue owner r.at_thaw) s t
        (rw c at m))
  | inr c ↦ elim (Memᴰ.not-nil (rw c at m)) [ ]
]

-- Every signal that the helper sends, a stop or a continue, is sent at a moment at which the
-- process with that number still has the start time that was asked for, and goes to that process
-- alone or to its process group, and then the group's number is above 1 and is neither the helper's
-- own group nor its owner's.
pub run_freezer_helper-Safe :
    (pid : ℤ) (start : Bytes) (owner : Option ℤ) (has : Bool) (r : Run) (s : Signal) (t : Target)
    → Memᴰ (sent s t) (run_freezer_helper pid start owner has r).0
    → ((s ≡ stop) × IsSafeAt pid start (owner_group owner) r.at_stop t)
      ⊎ ((s ≡ continue) × IsSafeAt pid start (owner_group owner) r.at_thaw t)
unfolding run_freezer_helper
run_freezer_helper-Safe pid start owner has r s t m =
    elim (Bool-cases (check_start start r.at_start)) [
      | inl c ↦
          elim (after_stop-sent (signal_target pid start stop (owner_group owner) r.at_stop)
            (thaw pid start (owner_group owner) has r) s t (rw c at m)) [
              | inl x ↦ inl (signal_target-Safe pid start stop (owner_group owner) r.at_stop s t x)
              | inr x ↦ inr (thaw-Safe pid start (owner_group owner) has r s t x)
            ]
      | inr c ↦ elim (Memᴰ.not-nil (rw c at m)) [ ]
    ]
