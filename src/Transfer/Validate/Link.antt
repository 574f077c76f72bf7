-- ===== src/Transfer/Validate/Link.antt =====
-- Where a symbolic link of a manifest may point (internal/transfer/validate.go,
-- `checkSymlinkTarget`).
use go_claude_teleport.Base.{not, Option, none, some, [], ◌∷◌, Bytes, bytes_eq, if◌then◌else◌}
use go_claude_teleport.FilePath.{is_abs, join}
use go_claude_teleport.FilePath.Rel.{dir_of}
use go_claude_teleport.Transfer.Manifest.{Entry, is_symlink}
use go_claude_teleport.Transfer.Under.{under_dir}
use go_claude_teleport.Transfer.Roots.{Files, resolve_existing}
use go_claude_teleport.Transfer.Validate.Reasons.{
  Verdict, accepted, refused, no_target, absolute_target, escaping_target, target_not_resolved,
  boundary_not_resolved, target_lands_outside,
}

-- The target of a relative link at a path.
unfoldable pub link_target : Entry → Bytes → Bytes
unfolding join dir_of
link_target e dst = join (dir_of dst ∷ e.symlink ∷ [])

abbrev pub target_landed : Option Bytes → Option Bytes → Verdict
target_landed none boundary = refused target_not_resolved
target_landed (some res) none = refused boundary_not_resolved
target_landed (some res) (some b) =
    if under_dir res b then accepted else refused (target_lands_outside res b)

-- `checkSymlinkTarget`.
unfoldable pub check_symlink : Files → Entry → Bytes → Bytes → Verdict
unfolding is_symlink bytes_eq is_abs under_dir link_target resolve_existing
check_symlink fs e dst boundary =
    if not (is_symlink e)
    then accepted
    else if bytes_eq e.symlink []
    then refused no_target
    else if is_abs e.symlink
    then refused absolute_target
    else if not (under_dir (link_target e dst) boundary)
    then refused escaping_target
    else target_landed (resolve_existing fs (link_target e dst)) (resolve_existing fs boundary)
