-- ===== src/Transfer/Validate/Check.antt =====
-- The checks of one entry (internal/transfer/validate.go): `check` with its three cases, the pass
-- over a manifest, and `commitClaims` with `recordJobRoot` (internal/transfer/roots.go).
use go_claude_teleport.Base.{
  Bool, true, false, ◌&&◌, ◌||◌, not, Option, none, some, List, [], ◌∷◌, Bytes, bytes_eq, has_text,
  if◌then◌else◌,
}
use go_claude_teleport.FilePath.{is_abs, clean}
use go_claude_teleport.FilePath.Rel.{rel}
use go_claude_teleport.Session.Paths.{munge}
use go_claude_teleport.Transfer.Manifest.{
  Entry, Category, session, repo, worktree, capture, is_dir, is_regular,
}
use go_claude_teleport.Transfer.Diff.{Seen, gone, unreadable, there}
use go_claude_teleport.Transfer.Build.{forbidden}
use go_claude_teleport.Transfer.Under.{under_dir}
use go_claude_teleport.Transfer.Roots.{Files, Root, Fault, entry_root, resolve_existing}
use go_claude_teleport.Transfer.Validate.Placement.{check_placement}
use go_claude_teleport.Transfer.Validate.{
  Mode, mode_install, Memory, Validator, Checked, is_allowed, look_up, or_empty, root_reason,
  check_symlink, Verdict, accepted, refused, fails, unclean_path, unknown_category, outside_home,
  outside_config_dir, no_relative_path, forbidden_path, no_capture_path, other_capture_path,
  capture_not_regular, no_root, bad_root, not_resolved, lands_outside, root_not_seen,
  root_not_directory, root_not_claimed, root_not_own,
}

abbrev pub session_rel : Files → Entry → Bytes → Option Bytes → Verdict
session_rel fs e cfg none = refused no_relative_path
session_rel fs e cfg (some r) =
    if forbidden r then refused (forbidden_path r) else check_symlink fs e e.dst cfg

-- `checkSession`.
unfoldable pub check_session : Files → Validator → Entry → Verdict
unfolding clean under_dir rel forbidden check_symlink
check_session fs v e =
    let cfg = clean v.paths.config_dir in
    if under_dir e.dst cfg then session_rel fs e cfg (rel cfg e.dst) else refused outside_config_dir

abbrev pub capture_at : Entry → Option Bytes → Verdict
capture_at e none = refused no_capture_path
capture_at e (some dst) =
    if not (bytes_eq e.dst dst)
    then refused (other_capture_path dst)
    else if is_regular e
    then accepted
    else refused capture_not_regular

-- `checkCapture`.
unfoldable pub check_capture : Validator → Entry → Verdict
unfolding bytes_eq is_regular
check_capture v e = capture_at e v.capture_dst

abbrev is_install : Mode → Bool
is_install mode_install = true
is_install _ = false

-- A root that is absent: an installation will claim it.
abbrev pub claimed : Mode → Bytes → Memory → Checked
claimed mode res m =
    if is_install mode then (accepted, record m { pending = res ∷ m.pending }) else (accepted, m)

abbrev pub pre_existing : Validator → Root → Bytes → Bool → Verdict
pre_existing v r res false = refused (root_not_directory r.path)
pre_existing v r res true =
    if not (has_text (munge (clean r.path)) v.claimed_cwds)
      && not (has_text (munge res) v.claimed_cwds)
    then refused (root_not_claimed r.path)
    else accepted

abbrev pub root_seen : Validator → Memory → Entry → Root → Bytes → Seen Bool → Checked
root_seen v m e r res gone = claimed v.mode res m
root_seen v m e r res unreadable = (refused (root_not_seen r.path), m)
root_seen v m e r res (there directory) =
    if r.may_pre_exist
    then (pre_existing v r res directory, m)
    else if is_dir e
    then (accepted, m)
    else (refused (root_not_own r.path), m)

-- The provenance of a root: recorded for the job, about to be claimed, absent, or the session's own.
unfoldable pub provenance : Files → Validator → Memory → Entry → Root → Bytes → Checked
unfolding has_text is_dir munge clean
provenance fs v m e r res =
    if has_text res m.recorded || has_text res m.pending
    then (accepted, m)
    else root_seen v m e r res (fs.lstat r.path)

abbrev pub git_linked : Files → Validator → Memory → Entry → Root → Bytes → Verdict → Checked
git_linked fs v m e r res accepted = provenance fs v m e r res
git_linked fs v m e r res (refused why) = (refused why, m)
git_linked fs v m e r res fails = (fails, m)

abbrev pub git_landed : Files → Validator → Memory → Entry → Root → Bytes → Option Bytes → Checked
git_landed fs v m e r res none = (refused not_resolved, m)
git_landed fs v m e r res (some d) =
    if under_dir d res
    then git_linked fs v m e r res (check_symlink fs e e.dst (clean r.path))
    else (refused (lands_outside d res), m)

abbrev pub git_judged : Files → Validator → Entry → Root → Option (Option Fault) × Memory → Checked
git_judged fs v e r (none, m) = (fails, m)
git_judged fs v e r (some (some f), m) = (refused (bad_root r.path f), m)
git_judged fs v e r (some none, m) =
    git_landed fs v m e r (or_empty (look_up r.path m.root_res)) (resolve_existing fs e.dst)

abbrev pub git_at : Files → Validator → Memory → Entry → Option Root → Checked
git_at fs v m e none = (refused no_root, m)
git_at fs v m e (some r) = git_judged fs v e r (root_reason fs v.real m r)

-- `checkGit`.
unfoldable pub check_git : Files → Validator → Memory → Entry → Checked
unfolding entry_root root_reason look_up resolve_existing under_dir check_symlink clean provenance
check_git fs v m e =
    if e.deferred then (accepted, m) else git_at fs v m e (entry_root e.dst v.roots)

-- The case of `check` for a category.
abbrev pub by_category : Files → Validator → Memory → Entry → Category → Checked
by_category fs v m e session = (check_session fs v e, m)
by_category fs v m e capture = (check_capture v e, m)
by_category fs v m e repo = check_git fs v m e
by_category fs v m e worktree = check_git fs v m e
by_category fs v m e _ = (accepted, m)

abbrev pub then_place : Files → Validator → Entry → Checked → Checked
then_place fs v e (accepted, m) = check_placement fs v m e
then_place fs v e (refused why, m) = (refused why, m)
then_place fs v e (fails, m) = (fails, m)

-- `check`.
unfoldable pub check : Files → Validator → Memory → Entry → Checked
unfolding is_abs bytes_eq clean under_dir check_session check_capture check_git check_placement
check fs v m e =
    if not (is_abs e.dst) || not (bytes_eq e.dst (clean e.dst))
    then (refused unclean_path, m)
    else if not (is_allowed e.category)
    then (refused unknown_category, m)
    else if not (under_dir e.dst (clean v.paths.home))
    then (refused outside_home, m)
    else then_place fs v e (by_category fs v m e e.category)

-- The loop of the first pass of an installation: it ends at the first entry that is not accepted.
abbrev pub check_next : (Memory → Checked) → Checked → Checked
check_next next (accepted, m) = next m
check_next next (refused why, m) = (refused why, m)
check_next next (fails, m) = (fails, m)

unfoldable pub check_each : Files → Validator → List Entry → Memory → Checked
unfolding check
check_each fs v [] m = (accepted, m)
check_each fs v (e ∷ es) m = check_next (check_each fs v es) (check fs v m e)

-- `recordJobRoot`, over whether the write of the recorded roots works.
abbrev pub record_job_root : (List Bytes → Bool) → List Bytes → Bytes → Bool × List Bytes
record_job_root write recorded root = (write (clean root ∷ recorded), clean root ∷ recorded)

abbrev pub claim_next :
    (Memory → Bool × Memory) → Memory → List Bytes → Bool × List Bytes → Bool × Memory
claim_next next m rest (false, recorded) = (false, record m { recorded = recorded })
claim_next next m rest (true, recorded) = next (record m { recorded = recorded; pending = rest })

-- The loop of `commitClaims` over the pending roots, in the order of the list.
unfoldable pub claim_roots : (List Bytes → Bool) → List Bytes → Memory → Bool × Memory
unfolding clean
claim_roots write [] m = (true, m)
claim_roots write (root ∷ rest) m =
    claim_next (claim_roots write rest) m rest (record_job_root write m.recorded root)

-- `commitClaims`.
unfoldable pub commit_claims : (List Bytes → Bool) → Memory → Bool × Memory
unfolding claim_roots
commit_claims write m = claim_roots write m.pending m
