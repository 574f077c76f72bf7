-- ===== src/Transfer/Validate/Accepts.antt =====
-- Each entry that the validator accepts is one of the writes that the rules list.
use go_claude_teleport.Base.{
  Bool, true, false, ◌||◌, not, Option, none, some, List, Bytes, bytes_eq, bytes_eq_iff, ◌≡◌, refl,
  ap, ◌⊎◌, inl, inr, arith, if-both, if◌then◌else◌,
}
use go_claude_teleport.FilePath.{is_abs, clean}
use go_claude_teleport.FilePath.Rel.{rel}
use go_claude_teleport.Transfer.Manifest.{
  Entry, Category, session, repo, worktree, capture, pack, other_category, is_regular,
}
use go_claude_teleport.Transfer.Build.{forbidden}
use go_claude_teleport.Transfer.Under.{under_dir}
use go_claude_teleport.Transfer.Roots.{Files, Root, is_git_root, entry_root, resolve_existing}
use go_claude_teleport.Transfer.Roots.Chosen.{IsGoverning, entry_root-IsGoverning}
use go_claude_teleport.Transfer.Validate.{
  Reason, lands_outside, forbidden_path, unclean_path, unknown_category, outside_home,
  outside_config_dir, Validator, Memory, Checked, is_allowed, check_symlink, resolved_root, Verdict,
  accepted, refused, fails, root_reason,
}
use go_claude_teleport.Transfer.Validate.Placement.{
  unbounded, root_boundary, boundary_at, git_boundary, boundary_by, boundary, is_uninstall,
  landed_in, placement_in, check_placement,
}
use go_claude_teleport.Transfer.Validate.Check.{
  session_rel, check_session, capture_at, check_capture, git_judged, git_at, check_git, by_category,
  then_place, check,
}
use go_claude_teleport.Transfer.Validate.Sound.{
  IsSound, Resolves, resolved_root-Resolves, root_reason-Judges,
}
use go_claude_teleport.Transfer.Validate.Permitted.{
  Lands, IsNamed, IsPermitted, of_session, of_capture, of_deferred, of_repository,
}
use go_claude_teleport.Transfer.Validate.Provenance.{Grants, Grants-map, Grants-verdict}
use go_claude_teleport.Transfer.Validate.Granted.{InSomeRoot, git_judged-Grants}

module _ (fs : Files) (v : Validator) (recorded : List Bytes) where
  -- What holds of an entry of a category that is accepted before its placement is looked at.
  Admitted : Entry → Category → Type 0
  Admitted e session =
      (under_dir e.dst (clean v.paths.config_dir) ≡ true)
      × ((r : Bytes) × (rel (clean v.paths.config_dir) e.dst ≡ some r) × (forbidden r ≡ false))
      × (check_symlink fs e e.dst (clean v.paths.config_dir) ≡ accepted)
  Admitted e capture = (v.capture_dst ≡ some e.dst) × (is_regular e ≡ true)
  Admitted e repo = (e.deferred ≡ true) ⊎ InSomeRoot fs v recorded e
  Admitted e worktree = (e.deferred ≡ true) ⊎ InSomeRoot fs v recorded e
  Admitted e _ = ⊥

  accepts :
      (b : Bool) (why : Reason) (x : Verdict)
      → (if b then x else refused why) ≡ accepted
      → (b ≡ true) × (x ≡ accepted)
  accepts true why x h = (refl, h)
  accepts false why x h = cc

  session-Admitted : (e : Entry) → check_session fs v e ≡ accepted → Admitted e session
  unfolding check_session Admitted
  session-Admitted e h =
      let cfg : Bytes = clean v.paths.config_dir in
      let (inside, h1) =
        accepts (under_dir e.dst cfg) outside_config_dir (session_rel fs e cfg (rel cfg e.dst)) h in
      let (found, link) = relative (rel cfg e.dst) refl h1 in (inside, found, link)
    where
      allowed :
          (b : Bool) (r : Bytes) (link : Verdict)
          → (if b then refused (forbidden_path r) else link) ≡ accepted
          → (b ≡ false) × (link ≡ accepted)
      allowed true r link h = cc
      allowed false r link h = (refl, h)

      relative :
          (o : Option Bytes)
          → rel (clean v.paths.config_dir) e.dst ≡ o
          → session_rel fs e (clean v.paths.config_dir) o ≡ accepted
          → ((r : Bytes) × (rel (clean v.paths.config_dir) e.dst ≡ some r) × (forbidden r ≡ false))
            × (check_symlink fs e e.dst (clean v.paths.config_dir) ≡ accepted)
      relative none q h = cc
      relative (some r) q h =
          let (allow, link) =
            allowed (forbidden r) r (check_symlink fs e e.dst (clean v.paths.config_dir)) h in
          ((r, q, allow), link)

  capture-Admitted : (e : Entry) → check_capture v e ≡ accepted → Admitted e capture
  unfolding check_capture Admitted
  capture-Admitted e h = at_path v.capture_dst h
    where
      at_path :
          (o : Option Bytes) → capture_at e o ≡ accepted → (o ≡ some e.dst) × (is_regular e ≡ true)
      at_path none h = cc
      at_path (some dst) h = ground (arith, bytes_eq_iff e.dst dst)

  check_git-Grants :
      (m : Memory) (e : Entry)
      → IsSound fs v recorded m
      → Grants fs v recorded ((e.deferred ≡ true) ⊎ InSomeRoot fs v recorded e) (check_git fs v m e)
  unfolding check_git Grants
  check_git-Grants m e s =
      if-both (Grants fs v recorded ((e.deferred ≡ true) ⊎ InSomeRoot fs v recorded e)) e.deferred
        (accepted, m) (git_at fs v m e (entry_root e.dst v.roots)) (λ later. (s, inl later))
        (λ _. at_root (entry_root e.dst v.roots) (entry_root-IsGoverning e.dst v.roots))
    where
      at_root :
          (o : Option Root)
          → IsGoverning e.dst v.roots o
          → Grants fs v recorded
              ((e.deferred ≡ true) ⊎ InSomeRoot fs v recorded e)
              (git_at fs v m e o)
      at_root none g = s
      at_root (some r) g =
          Grants-map fs v recorded _ _ (git_judged fs v e r (root_reason fs v.real m r)) inr (
            git_judged-Grants fs v recorded e r (root_reason fs v.real m r) g
              (root_reason-Judges fs v recorded m r s))

  by_category-Grants :
      (m : Memory) (e : Entry) (c : Category)
      → IsSound fs v recorded m
      → is_allowed c ≡ true
      → Grants fs v recorded (Admitted e c) (by_category fs v m e c)
  unfolding Admitted
  by_category-Grants m e session s a =
      Grants-verdict fs v recorded _ (check_session fs v e) m s (session-Admitted e)
  by_category-Grants m e capture s a =
      Grants-verdict fs v recorded _ (check_capture v e) m s (capture-Admitted e)
  by_category-Grants m e repo s a = check_git-Grants m e s
  by_category-Grants m e worktree s a = check_git-Grants m e s
  by_category-Grants m e pack s a = cc
  by_category-Grants m e (other_category t) s a = cc

  -- What the look at the placement adds.
  Placed : Entry → Category → Type 0
  Placed e session = Lands fs e.dst v.real.config_dir
  Placed e capture = Lands fs e.dst v.real.data_dir
  Placed e _ = Unit

  landed-Lands :
      (dst b : Bytes) (o : Option Bytes)
      → resolve_existing fs dst ≡ o
      → landed_in b o ≡ accepted
      → Lands fs dst b
  unfolding Lands
  landed-Lands dst b none q h = cc
  landed-Lands dst b (some d) q h =
      (d, q, (accepts (under_dir d b) (lands_outside d b) accepted h).0)

  -- The rules, from what holds of an accepted entry.
  permitted :
      (e : Entry) (c : Category)
      → e.category ≡ c
      → is_allowed c ≡ true
      → Admitted e c
      → Placed e c
      → IsPermitted fs v recorded e
  unfolding Admitted Placed InSomeRoot
  permitted e session q a (inside, found, link) p = of_session q inside found link p
  permitted e capture q a (path, regular) p = of_capture q path regular p
  permitted e repo q a (inl later) p = of_deferred (ap is_git_root q) later
  permitted e repo q a (inr (r, res, i)) p = of_repository (ap is_git_root q) r res i
  permitted e worktree q a (inl later) p = of_deferred (ap is_git_root q) later
  permitted e worktree q a (inr (r, res, i)) p = of_repository (ap is_git_root q) r res i
  permitted e pack q a h p = elim h [ ]
  permitted e (other_category t) q a h p = elim h [ ]

  git_boundary-Grants :
      (m : Memory) (e : Entry)
      → IsSound fs v recorded m
      → Grants fs v recorded (Unit {0}) (placement_in fs e (git_boundary fs v m e))
  unfolding git_boundary Grants Resolves
  git_boundary-Grants m e s =
      if-both (λ b. Grants fs v recorded (Unit {0}) (placement_in fs e b))
        (e.deferred || is_uninstall v.mode) (unbounded, m)
        (boundary_at fs m (entry_root (clean e.dst) v.roots)) (λ _. (s, tt))
        (λ _. at_root (entry_root (clean e.dst) v.roots))
    where
      at_resolved :
          (r : Root) (out : Option Bytes × Memory)
          → Resolves fs v recorded r out
          → Grants fs v recorded (Unit {0}) (placement_in fs e (root_boundary out))
      at_resolved r (none, m1) s1 = s1
      at_resolved r (some res, m1) (s1, found, q) =
          Grants-verdict fs v recorded (Unit {0})
            (landed_in res (resolve_existing fs (clean e.dst))) m1 s1 (λ _. tt)

      at_root :
          (o : Option Root)
          → Grants fs v recorded (Unit {0}) (placement_in fs e (boundary_at fs m o))
      at_root none = s
      at_root (some r) =
          at_resolved r (resolved_root fs m r) (resolved_root-Resolves fs v recorded m r s)

  placement-Grants :
      (m : Memory) (e : Entry) (c : Category)
      → e.dst ≡ clean e.dst
      → IsSound fs v recorded m
      → Grants fs v recorded (Placed e c) (placement_in fs e (boundary_by fs v m e c))
  unfolding Placed Grants
  placement-Grants m e session cl s =
      Grants-verdict fs v recorded _
        (landed_in v.real.config_dir (resolve_existing fs (clean e.dst))) m s
        (λ h.
          landed-Lands e.dst v.real.config_dir (resolve_existing fs (clean e.dst))
            (ap (resolve_existing fs) cl) h)
  placement-Grants m e capture cl s =
      Grants-verdict fs v recorded _ (landed_in v.real.data_dir (resolve_existing fs (clean e.dst)))
        m s
        (λ h.
          landed-Lands e.dst v.real.data_dir (resolve_existing fs (clean e.dst))
            (ap (resolve_existing fs) cl) h)
  placement-Grants m e repo cl s = git_boundary-Grants m e s
  placement-Grants m e worktree cl s = git_boundary-Grants m e s
  placement-Grants m e pack cl s = (s, tt)
  placement-Grants m e (other_category t) cl s = (s, tt)

  placed-Grants :
      (e : Entry) (out : Checked)
      → e.dst ≡ clean e.dst
      → is_allowed e.category ≡ true
      → Grants fs v recorded (Admitted e e.category) out
      → Grants fs v recorded (IsPermitted fs v recorded e) (then_place fs v e out)
  unfolding Grants check_placement boundary
  placed-Grants e (refused why, m) cl a s = s
  placed-Grants e (fails, m) cl a s = s
  placed-Grants e (accepted, m) cl a (s, admitted) =
      Grants-map fs v recorded _ _ (check_placement fs v m e)
        (permitted e e.category refl a admitted) (placement-Grants m e e.category cl s)

  pub check-Grants :
      (m : Memory) (e : Entry)
      → IsSound fs v recorded m
      → Grants fs v recorded (IsNamed v e × IsPermitted fs v recorded e) (check fs v m e)
  unfolding check Grants
  check-Grants m e s =
      if-both Good (not (is_abs e.dst) || not (bytes_eq e.dst (clean e.dst)))
        (refused unclean_path, m) _ (λ _. s)
        (λ cl.
          if-both Good (not (is_allowed e.category)) (refused unknown_category, m) _ (λ _. s)
            (λ a.
              if-both Good (not (under_dir e.dst (clean v.paths.home))) (refused outside_home, m) _
                (λ _. s)
                (λ h.
                  named (ground arith) (ground (arith, bytes_eq_iff e.dst (clean e.dst)))
                    (ground arith) (ground arith))))
    where
      Good : Checked → Type 0
      Good = Grants fs v recorded (IsNamed v e × IsPermitted fs v recorded e)

      named :
          is_abs e.dst ≡ true
          → e.dst ≡ clean e.dst
          → is_allowed e.category ≡ true
          → under_dir e.dst (clean v.paths.home) ≡ true
          → Good (then_place fs v e (by_category fs v m e e.category))
      named abs cl a home =
          Grants-map fs v recorded _ _ (then_place fs v e (by_category fs v m e e.category))
            (λ p. (record { absolute = abs; cleaned = cl; in_home = home }, p))
            (placed-Grants e (by_category fs v m e e.category) cl a
              (by_category-Grants m e e.category s a))
