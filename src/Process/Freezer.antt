-- ===== src/Process/Freezer.antt =====
-- The freezer's helper process (internal/procx/freezer.go): which group is signalled, and the run
-- that stops the target and always thaws it. What the kernel and the control pipe return enters as
-- values, one record for each moment at which the helper reads; signals sent are a trace.
pub mod Signals
pub mod Thaws
use go_claude_teleport.Base.{
  ℕ, ℤ, pos, negsuc, int_eq, Bool, true, false, ◌&&◌, ◌||◌, not, Option, none, some, List, [], ◌∷◌,
  ◌++◌, Bytes, bytes_eq, leb, ltb, is_positive, ◌==◌, if◌then◌else◌,
}

pub data Signal : Type 0 where
  stop continue : Signal

-- Whom `Kill` addresses: a process group or one process.
pub data Target : Type 0 where
  group : ℤ → Target
  single : ℤ → Target

-- What the helper does that others see.
pub data Event : Type 0 where
  sent : Signal → Target → Event
  acknowledged : Event
  restored : Event

-- What the kernel says of the process at one moment: its start time, its group, the helper's own
-- group, and whether `Kill` succeeds.
pub record Moment : Type 0 where
  pub start_time : Option Bytes
  pub pgid : Option ℤ
  pub self_pgid : ℤ
  pub killable : Bool

-- `checkStart`.
unfoldable pub check_start : Bytes → Moment → Bool
unfolding bytes_eq
check_start start m = elim m.start_time [
  | none ↦ false
  | some st ↦ not (bytes_eq start []) && bytes_eq st start
]

-- `a <= 1` on `int`.
abbrev pub at_most_one : ℤ → Bool
at_most_one (pos n) = leb n 1
at_most_one (negsuc n) = true

-- `groupToSignal`, without its warnings: 0 is for the process alone.
unfoldable pub group_to_signal : ℤ → ℤ → Option ℤ → ℤ
unfolding int_eq
group_to_signal self owner none = pos 0
group_to_signal self owner (some pgid) =
    if at_most_one pgid
    then pos 0
    else if int_eq pgid self
    then pos 0
    else if int_eq pgid owner
    then pos 0
    else pgid

-- The addressee that `signalTarget` chooses.
unfoldable pub target_of : ℤ → ℤ → Moment → Target
unfolding group_to_signal
target_of pid owner m =
    let pgid : ℤ = group_to_signal m.self_pgid owner m.pgid in
    if is_positive pgid then group pgid else single pid

-- `Kill`, which works or fails.
abbrev pub kill : Bool → Event → List Event × Bool
kill true e = (e ∷ [], true)
kill false e = ([], false)

-- `signalTarget`: the signal sent, if any, and whether it returns without an error. `now` is what the
-- check before the signal reads.
unfoldable pub signal_target : ℤ → Bytes → Signal → ℤ → Moment → List Event × Bool
unfolding check_start target_of
signal_target pid start sig owner now =
    if check_start start now
    then kill now.killable (sent sig (target_of pid owner now))
    else ([], false)

-- The end of the run: the restore of the terminal, when the owner died and there is one to call. Its
-- failure is only logged.
abbrev pub restore_end : Bool → Bool → List Event
restore_end owner_died has_restore = if owner_died && has_restore then restored ∷ [] else []

abbrev pub thaw_end : Bool → Bool → List Event × Bool → List Event × Bool
thaw_end owner_died has_restore (es, false) = (es, false)
thaw_end owner_died has_restore (es, true) = (es ++ restore_end owner_died has_restore, true)

-- What the helper sees: the first check, the moment of the stop, what the read of the control pipe
-- returns (`n == 0`, or an error), the check after it, and the moment of the thaw.
pub record Run : Type 0 where
  pub at_start : Moment
  pub at_stop : Moment
  pub read_bytes : ℕ
  pub read_fails : Bool
  pub after_read : Moment
  pub at_thaw : Moment

abbrev pub owner_died : Run → Bool
owner_died r = r.read_bytes == 0 || r.read_fails

-- The second half of `RunFreezerHelper`, after the read.
unfoldable pub thaw : ℤ → Bytes → ℤ → Bool → Run → List Event × Bool
unfolding check_start signal_target
thaw pid start owner has_restore r =
    if check_start start r.after_read
    then thaw_end (owner_died r) has_restore (signal_target pid start continue owner r.at_thaw)
    else ([], true)

abbrev pub after_stop : List Event × Bool → List Event × Bool → List Event × Bool
after_stop (es, false) rest = (es, false)
after_stop (es, true) (fs, ok) = (es ++ acknowledged ∷ fs, ok)

-- The owner's group, 0 when it cannot be read.
abbrev pub owner_group : Option ℤ → ℤ
owner_group none = pos 0
owner_group (some g) = g

-- `RunFreezerHelper`: the events, and whether it returns without an error.
unfoldable pub run_freezer_helper : ℤ → Bytes → Option ℤ → Bool → Run → List Event × Bool
unfolding check_start signal_target thaw
run_freezer_helper pid start owner has_restore r =
    let owner_pgid : ℤ = owner_group owner in
    if check_start start r.at_start
    then after_stop (signal_target pid start stop owner_pgid r.at_stop)
        (thaw pid start owner_pgid has_restore r)
    else ([], false)
