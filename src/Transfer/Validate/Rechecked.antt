-- ===== src/Transfer/Validate/Rechecked.antt =====
-- What the check just before a placement ensures, although the files may have changed since the
-- pass.
use mathlib.Core.Path.{subst}
use go_claude_teleport.Base.{
  Bool, true, false, ◌||◌, Option, none, some, Bytes, ◌≡◌, refl, ap, ◌∙◌, arith, if-false,
}
use go_claude_teleport.FilePath.{clean}
use go_claude_teleport.Transfer.Manifest.{
  Entry, Category, session, repo, worktree, capture, pack, other_category,
}
use go_claude_teleport.Transfer.Roots.{Files, Root, is_git_root, entry_root, resolve_existing}
use go_claude_teleport.Transfer.Validate.{
  Mode, mode_install, Validator, Memory, Checked, look_up, resolved_before, resolved_root, accepted,
  refused, fails,
}
use go_claude_teleport.Transfer.Validate.Placement.{
  Boundary, within, unbounded, root_boundary, boundary_at, git_boundary, boundary_by, boundary,
  landed_in, placement_in, check_placement, recheck_link, recheck, is_uninstall,
}
use go_claude_teleport.Transfer.Validate.Permitted.{Lands}

module _ (fs : Files) (v : Validator) (m : Memory) (e : Entry) where
  landed :
      (b : Bytes) (o : Option Bytes)
      → resolve_existing fs (clean e.dst) ≡ o
      → landed_in b o ≡ accepted
      → Lands fs (clean e.dst) b
  unfolding Lands
  landed b none q h = cc
  landed b (some d) q h = (d, q, ground arith)

  -- The first half of an accepted check.
  recheck-placement : (out : Checked) → (recheck_link fs v e out).0 ≡ accepted → out.0 ≡ accepted
  recheck-placement (accepted, m1) h = refl
  recheck-placement (refused why, m1) h = h
  recheck-placement (fails, m1) h = h

  placed_within :
      (b : Bytes) (out : Boundary × Memory)
      → out ≡ (within b, m)
      → (recheck_link fs v e (placement_in fs e out)).0 ≡ accepted
      → Lands fs (clean e.dst) b
  placed_within b out q h = landed b (resolve_existing fs (clean e.dst)) refl (
      subst (λ o. (placement_in fs e o).0 ≡ accepted) q
        (recheck-placement (placement_in fs e out) h))

  git_boundary-pinned :
      (r : Root) (res : Bytes)
      → v.mode ≡ mode_install
      → e.deferred ≡ false
      → entry_root (clean e.dst) v.roots ≡ some r
      → look_up r.path m.root_res ≡ some res
      → git_boundary fs v m e ≡ (within res, m)
  unfolding git_boundary resolved_root
  git_boundary-pinned r res mo d q k =
      if-false (e.deferred || is_uninstall v.mode) (unbounded, m)
        (boundary_at fs m (entry_root (clean e.dst) v.roots)) (stays e.deferred v.mode d mo)
      ∙ ap (boundary_at fs m) q
      ∙ ap (λ o. root_boundary (resolved_before fs m r o)) k
    where
      stays :
          (b : Bool) (mode : Mode)
          → b ≡ false
          → mode ≡ mode_install
          → b || is_uninstall mode ≡ false
      stays true mode d mo = d
      stays false mode d mo = ap is_uninstall mo

  boundary-pinned :
      (r : Root) (res : Bytes) (c : Category)
      → is_git_root c ≡ true
      → git_boundary fs v m e ≡ (within res, m)
      → boundary_by fs v m e c ≡ (within res, m)
  boundary-pinned r res repo g h = h
  boundary-pinned r res worktree g h = h
  boundary-pinned r res session g h = cc
  boundary-pinned r res capture g h = cc
  boundary-pinned r res pack g h = cc
  boundary-pinned r res (other_category t) g h = cc

  -- Once an installation remembers where a declared root resolved, the check just before a placement
  -- accepts an entry of a repository under that root, not deferred, only if its path really lies in
  -- the remembered directory in the files as they are now, wherever the root's own path leads by
  -- then.
  pub recheck-Lands :
      (r : Root) (res : Bytes)
      → v.mode ≡ mode_install
      → is_git_root e.category ≡ true
      → e.deferred ≡ false
      → entry_root (clean e.dst) v.roots ≡ some r
      → look_up r.path m.root_res ≡ some res
      → (recheck fs v m e).0 ≡ accepted
      → Lands fs (clean e.dst) res
  unfolding recheck check_placement boundary
  recheck-Lands r res mo g d q k h =
      placed_within res (boundary fs v m e)
        (boundary-pinned r res e.category g (git_boundary-pinned r res mo d q k)) h
