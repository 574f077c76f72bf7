-- ===== src/Transfer/Validate/Placement.antt =====
-- Where a placement really lands (internal/transfer/validate.go): `boundary`, `checkPlacement`,
-- `symlinkBoundary` and `recheckBeforePlacement`.
use go_claude_teleport.Base.{
  Bool, true, false, ◌&&◌, ◌||◌, not, Option, none, some, Bytes, if◌then◌else◌,
}
use go_claude_teleport.FilePath.{clean}
use go_claude_teleport.Transfer.Manifest.{Entry, Category, session, repo, worktree, capture}
use go_claude_teleport.Transfer.Under.{under_dir}
use go_claude_teleport.Transfer.Roots.{Files, Root, entry_root, resolve_existing, is_git_root}
use go_claude_teleport.Transfer.Validate.{
  Mode, mode_uninstall, Memory, Validator, Checked, resolved_root, check_symlink, Verdict, accepted,
  refused, fails, no_root, not_resolved, lands_outside,
}

-- What `boundary` returns: the directory, none, a refusal, or an error.
pub data Boundary : Type 0 where
  within : Bytes → Boundary
  unbounded : Boundary
  rootless : Boundary
  boundary_fails : Boundary

abbrev pub root_boundary : Option Bytes × Memory → Boundary × Memory
root_boundary (none, m) = (boundary_fails, m)
root_boundary (some res, m) = (within res, m)

abbrev pub boundary_at : Files → Memory → Option Root → Boundary × Memory
boundary_at fs m none = (rootless, m)
boundary_at fs m (some r) = root_boundary (resolved_root fs m r)

abbrev pub is_uninstall : Mode → Bool
is_uninstall mode_uninstall = true
is_uninstall _ = false

unfoldable pub git_boundary : Files → Validator → Memory → Entry → Boundary × Memory
unfolding clean entry_root resolved_root
git_boundary fs v m e =
    if e.deferred || is_uninstall v.mode
    then (unbounded, m)
    else boundary_at fs m (entry_root (clean e.dst) v.roots)

abbrev pub boundary_by : Files → Validator → Memory → Entry → Category → Boundary × Memory
boundary_by fs v m e session = (within v.real.config_dir, m)
boundary_by fs v m e capture = (within v.real.data_dir, m)
boundary_by fs v m e repo = git_boundary fs v m e
boundary_by fs v m e worktree = git_boundary fs v m e
boundary_by fs v m e _ = (unbounded, m)

-- `boundary`.
unfoldable pub boundary : Files → Validator → Memory → Entry → Boundary × Memory
unfolding git_boundary
boundary fs v m e = boundary_by fs v m e e.category

abbrev pub landed_in : Bytes → Option Bytes → Verdict
landed_in b none = refused not_resolved
landed_in b (some res) = if under_dir res b then accepted else refused (lands_outside res b)

abbrev pub placement_in : Files → Entry → Boundary × Memory → Checked
placement_in fs e (within b, m) = (landed_in b (resolve_existing fs (clean e.dst)), m)
placement_in fs e (unbounded, m) = (accepted, m)
placement_in fs e (rootless, m) = (refused no_root, m)
placement_in fs e (boundary_fails, m) = (fails, m)

-- `checkPlacement`.
unfoldable pub check_placement : Files → Validator → Memory → Entry → Checked
unfolding boundary under_dir resolve_existing clean
check_placement fs v m e = placement_in fs e (boundary fs v m e)

abbrev pub link_root : Option Root → Boundary
link_root none = rootless
link_root (some r) = within (clean r.path)

-- `symlinkBoundary`.
unfoldable pub symlink_boundary : Validator → Entry → Boundary
unfolding clean entry_root
symlink_boundary v e = elim e.category [
  | session ↦ within (clean v.paths.config_dir)
  | c ↦
      if is_git_root c && not e.deferred
      then link_root (entry_root (clean e.dst) v.roots)
      else unbounded
]

abbrev pub link_in : Files → Entry → Boundary → Verdict
link_in fs e (within b) = check_symlink fs e (clean e.dst) b
link_in fs e unbounded = accepted
link_in fs e rootless = refused no_root
link_in fs e boundary_fails = fails

abbrev pub recheck_link : Files → Validator → Entry → Checked → Checked
recheck_link fs v e (accepted, m) = (link_in fs e (symlink_boundary v e), m)
recheck_link fs v e (refused why, m) = (refused why, m)
recheck_link fs v e (fails, m) = (fails, m)

-- `recheckBeforePlacement`.
unfoldable pub recheck : Files → Validator → Memory → Entry → Checked
unfolding check_placement check_symlink symlink_boundary clean
recheck fs v m e = recheck_link fs v e (check_placement fs v m e)
