-- ===== src/Transfer/Diff/Present.antt =====
-- What an entry finds on the destination (internal/transfer/diff.go): its staged copy, and the
-- status over what lies at its path.
use go_claude_teleport.Base.{
  ℕ, ℤ, int_eq, Bool, true, false, ◌&&◌, ◌||◌, not, Option, none, some, Bytes, codes, bytes_eq,
  has_suffix, ◌==◌, if◌then◌else◌,
}
use go_claude_teleport.Transfer.Manifest.{
  Entry, Category, repo, worktree, capture, is_dir, is_symlink,
}

-- `Status`; a missing key of the map reads as the empty text, `no_status`.
pub data Status : Type 0 where
  absent present_same staged_same present_different ff_candidate staged_mismatch no_status : Status

-- A map from ids: a key that was not written reads as `no_status`.
abbrev pub Statuses : Type 0
Statuses = ℤ → Status

abbrev pub no_statuses : Statuses
no_statuses i = no_status

-- `out[id] = s`.
unfoldable pub put : ℤ → Status → Statuses → Statuses
unfolding int_eq
put id s out i = if int_eq id i then s else out i

-- What a call on a path returns: nothing there, an error, or a value.
pub data Seen {ℓ} (A : Type ℓ) : Type ℓ where
  gone : Seen A
  unreadable : Seen A
  there : A → Seen A

-- The staged copy of one id: the remnant `.part`, the marks `.dir` and `.symlink`, the file with its
-- size and whether it is regular, and whether the two removals work.
pub record Staged : Type 0 where
  pub part : Bool
  pub dir_mark : Seen (Unit {0})
  pub link : Seen Bytes
  pub file : Seen (ℕ × Bool)
  pub part_removable : Bool
  pub file_removable : Bool

-- The directory, symbolic link (with what `Readlink` returns), regular file (with its hash) or other
-- thing at a destination path.
pub data FileKind : Type 0 where
  directory : FileKind
  link_to : Option Bytes → FileKind
  regular : Option Bytes → FileKind
  special : FileKind

-- The rest of `stagedState`, once a remnant is out of the way. `none` is an error.
abbrev pub staged_file : Entry → Bool → Staged → Option ((Bool × Bool) × Staged)
staged_file e mismatch g = elim g.file [
  | gone ↦ some ((false, mismatch), g)
  | unreadable ↦ none
  | there found ↦
      if not (found.0 == e.size) || not found.1
      then (if g.file_removable then some ((false, true), record g { file = gone }) else none)
      else some ((true, mismatch), g)
]

abbrev pub staged_entry : Entry → Bool → Staged → Option ((Bool × Bool) × Staged)
staged_entry e mismatch g =
    if is_dir e
    then elim g.dir_mark [
      | there u ↦ some ((true, mismatch), g)
      | gone ↦ some ((false, mismatch), g)
      | unreadable ↦ none
    ]
    else if is_symlink e
    then elim g.link [
      | there t ↦ some ((bytes_eq t e.symlink, mismatch), g)
      | gone ↦ some ((false, mismatch), g)
      | unreadable ↦ none
    ]
    else staged_file e mismatch g

-- `stagedState`: whether a staged copy is there, whether a mismatch was removed, and what is left.
unfoldable pub staged_state : Entry → Staged → Option ((Bool × Bool) × Staged)
unfolding is_dir is_symlink bytes_eq
staged_state e g =
    if g.part
    then (if g.part_removable then staged_entry e true (record g { part = false }) else none)
    else staged_entry e false g

-- The closure `stagedStatus`.
abbrev pub staged_status : Bool → Bool → Status
staged_status true mismatch = staged_same
staged_status false true = staged_mismatch
staged_status false false = absent

-- `deferrableCategory`.
abbrev pub deferrable_category : Category → Bool
deferrable_category capture = true
deferrable_category repo = true
deferrable_category worktree = true
deferrable_category _ = false

-- `ffPrefixCheck`: record by record for a transcript, byte by byte for any other file. The two
-- comparisons are parameters: the paths, and `none` for an error.
abbrev pub PrefixCheck : Type 0
PrefixCheck = Bytes → Bytes → Option Bool

unfoldable pub ff_prefix_check : PrefixCheck → PrefixCheck → PrefixCheck
unfolding has_suffix
ff_prefix_check records bytes dst staged =
    if has_suffix dst (codes ".jsonl") then records dst staged else bytes dst staged

-- The status of a regular entry over a regular file with the given hash.
abbrev pub regular_status : Entry → Bool → Option Bool → Bytes → Option Status
regular_status e staged prefix sum =
    if bytes_eq sum e.sha256
    then some present_same
    else if not e.ff_allowed
    then some present_different
    else if not staged
    then some ff_candidate
    else elim prefix [
      | none ↦ none
      | some true ↦ some ff_candidate
      | some false ↦ some present_different
    ]

abbrev pub same_if : Bool → Status
same_if b = if b then present_same else present_different

-- The three branches of the `switch` over what lies at `Dst`.
abbrev pub dir_status : FileKind → Option Status
dir_status directory = some present_same
dir_status _ = some present_different

abbrev pub link_status : Entry → FileKind → Option Status
link_status e (link_to none) = none
link_status e (link_to (some target)) = some (same_if (bytes_eq target e.symlink))
link_status e _ = some present_different

abbrev pub file_status : Entry → Bool → Option Bool → FileKind → Option Status
file_status e staged prefix (regular none) = none
file_status e staged prefix (regular (some sum)) = regular_status e staged prefix sum
file_status e staged prefix _ = some present_different

-- The status of an entry over what lies at `Dst`.
unfoldable pub present_status : Entry → Bool → Option Bool → FileKind → Option Status
unfolding is_dir is_symlink bytes_eq
present_status e staged prefix kind =
    if is_dir e
    then dir_status kind
    else if is_symlink e
    then link_status e kind
    else file_status e staged prefix kind

-- The status of an entry after `stagedState`.
unfoldable pub own_status : Entry → Bool × Bool → Option Bool → Seen FileKind → Option Status
unfolding present_status
own_status e (staged, mismatch) prefix seen =
    if e.deferred && deferrable_category e.category
    then some (staged_status staged mismatch)
    else elim seen [
      | gone ↦ some (staged_status staged mismatch)
      | unreadable ↦ none
      | there kind ↦ present_status e staged prefix kind
    ]
