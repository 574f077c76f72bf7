-- ===== src/Transfer/Diff.antt =====
-- The classification of a manifest on the destination (internal/transfer/diff.go). The destination's
-- files enter as what the calls on them return; the validator is the parameter `check`, through
-- which a cancelled context enters as an error too.
mod Present
pub mod Own
pub mod Need
pub mod SameId
pub mod Means
unfoldable pub use Present.*
use go_claude_teleport.Base.{
  ℕ, ℤ, int_eq, Bool, true, false, ◌&&◌, ◌||◌, not, Option, none, some, List, [], ◌∷◌, ◌++◌, Bytes,
  codes, bytes_eq, has_suffix, ◌==◌, if◌then◌else◌,
}
use go_claude_teleport.Transfer.Manifest.{
  Entry, Category, session, repo, worktree, capture, pack, other_category, is_dir, is_symlink,
}

-- One refusal of the validator (internal/transfer/validate.go).
pub record Refusal : Type 0 where
  pub id : ℤ
  pub dst : Bytes
  pub category : Category
  pub reason : Bytes

-- What the validator says of an entry.
pub data Check : Type 0 where
  passes : Check
  refuses : List Refusal → Check
  check_fails : Check

-- The destination: the validator, what `Lstat`, `Readlink` and `HashFile` find at a path, the two
-- prefix comparisons, and the path of a staged copy.
pub record Dest : Type 0 where
  pub check : Entry → Check
  pub look : Bytes → Seen FileKind
  pub records : PrefixCheck
  pub bytes : PrefixCheck
  pub staged_path : ℤ → Bytes

abbrev pub Staging : Type 0
Staging = ℤ → Staged

unfoldable pub put_staged : ℤ → Staged → Staging → Staging
unfolding int_eq
put_staged id s g i = if int_eq id i then s else g i

pub data DiffResult : Type 0 where
  classified : Statuses → Staging → DiffResult
  all_refused : List Refusal → DiffResult
  diff_fails : DiffResult

abbrev pub diff_end : Statuses → Staging → List Refusal → DiffResult
diff_end out g [] = classified out g
diff_end out g (r ∷ rs) = all_refused (r ∷ rs)

-- The status of an entry alone, with what is left of its staged copy.
unfoldable pub own : Dest → Entry → Option ((Bool × Bool) × Staged) → Option (Status × Staged)
unfolding own_status ff_prefix_check
own d e none = none
own d e (some (state, left)) =
    elim (own_status e state (ff_prefix_check d.records d.bytes e.dst (d.staged_path e.id))
      (d.look e.dst)) [ none ↦ none | some s ↦ some (s, left) ]

-- One round of the loop, and how it goes on.
abbrev pub diff_own :
    (Statuses → Staging → List Refusal → DiffResult)
    → ℤ
    → Option (Status × Staged)
    → Statuses
    → Staging
    → List Refusal
    → DiffResult
diff_own next id none out g rs = diff_fails
diff_own next id (some (s, left)) out g rs = next (put id s out) (put_staged id left g) rs

abbrev pub diff_checked :
    (Statuses → Staging → List Refusal → DiffResult)
    → Dest
    → Entry
    → Check
    → Statuses
    → Staging
    → List Refusal
    → DiffResult
diff_checked next d e check_fails out g rs = diff_fails
diff_checked next d e (refuses more) out g rs = next out g (rs ++ more)
diff_checked next d e passes out g rs =
    diff_own next e.id (own d e (staged_state e (g e.id))) out g rs

-- The loop of `Diff`, over the statuses, the staging directory and the refusals so far.
unfoldable pub diff_from : Dest → List Entry → Statuses → Staging → List Refusal → DiffResult
unfolding own staged_state put put_staged
diff_from d [] out g rs = diff_end out g rs
diff_from d (e ∷ es) out g rs = diff_checked (diff_from d es) d e (d.check e) out g rs

-- `Diff`.
unfoldable pub diff : Dest → List Entry → Staging → DiffResult
unfolding diff_from
diff d es g = diff_from d es no_statuses g []

-- The statuses that `Need` sends, for an entry that may be fast-forwarded or not.
abbrev pub is_needed : Bool → Status → Bool
is_needed ff absent = true
is_needed ff staged_mismatch = true
is_needed ff ff_candidate = true
is_needed ff present_different = ff
is_needed ff _ = false

abbrev pub is_pending : Status → Bool
is_pending absent = true
is_pending staged_mismatch = true
is_pending _ = false

-- `Need`.
unfoldable pub need : List Entry → Statuses → List ℤ
need [] st = []
need (e ∷ es) st = if is_needed e.ff_allowed (st e.id) then e.id ∷ need es st else need es st

-- `Pending`.
unfoldable pub pending_ids : List Entry → Statuses → List ℤ
pending_ids [] st = []
pending_ids (e ∷ es) st =
    if is_pending (st e.id) then e.id ∷ pending_ids es st else pending_ids es st

abbrev pub is_session : Category → Bool
is_session session = true
is_session _ = false

abbrev pub is_different : Status → Bool
is_different present_different = true
is_different _ = false

-- `exempt`.
abbrev pub is_exempt : Bool → Entry → Bool
is_exempt force e = force && e.ff_allowed && is_session e.category

-- `Blocking`.
unfoldable pub blocking : List Entry → Statuses → Bool → List Entry
blocking [] st force = []
blocking (e ∷ es) st force =
    if is_different (st e.id) && not (is_exempt force e)
    then e ∷ blocking es st force
    else blocking es st force
