-- ===== src/Transfer/Validate/Provenance.antt =====
-- Which entries the rule of provenance accepts, and what it claims.
use mathlib.Core.Path.{subst}
use go_claude_teleport.Base.{
  Bool, true, false, ◌&&◌, ◌||◌, not, some, List, Bytes, has_text, has_text-All, ◌≡◌, refl, ◌⊎◌,
  inl, inr, Bool-cases, if-both, if◌then◌else◌,
}
use go_claude_teleport.FilePath.{clean}
use go_claude_teleport.Session.Paths.{munge}
use go_claude_teleport.Transfer.Manifest.{Entry, is_dir}
use go_claude_teleport.Transfer.Diff.{Seen, gone, unreadable, there}
use go_claude_teleport.Transfer.Roots.{Files, Root, resolve_existing}
use go_claude_teleport.Transfer.Roots.Chosen.{IsPicked}
use go_claude_teleport.Transfer.Roots.Landing.{IsFit}
use go_claude_teleport.Transfer.Validate.{
  root_not_claimed, root_not_own, Mode, mode_diff, mode_install, mode_uninstall, Validator, Memory,
  Checked, Verdict, accepted, refused, fails,
}
use go_claude_teleport.Transfer.Validate.Check.{claimed, pre_existing, root_seen, provenance}
use go_claude_teleport.Transfer.Validate.Sound.{IsClaim, IsSound}
use go_claude_teleport.Transfer.Validate.Permitted.{
  IsOwned, was_recorded, to_claim, was_absent, ran_there, no_content,
}

module _ (fs : Files) (v : Validator) (recorded : List Bytes) where
  -- A check leaves sound memory, and accepts only what has a property.
  unfoldable pub Grants : Type 0 → Checked → Type 0
  Grants P (accepted, m) = IsSound fs v recorded m × P
  Grants P (refused why, m) = IsSound fs v recorded m
  Grants P (fails, m) = IsSound fs v recorded m

  pub Grants-map : (P Q : Type 0) (out : Checked) → (P → Q) → Grants P out → Grants Q out
  unfolding Grants
  Grants-map P Q (accepted, m) f (s, p) = (s, f p)
  Grants-map P Q (refused why, m) f s = s
  Grants-map P Q (fails, m) f s = s

  -- A verdict of a check that changes no memory.
  pub Grants-verdict :
      (P : Type 0) (o : Verdict) (m : Memory)
      → IsSound fs v recorded m
      → (o ≡ accepted → P)
      → Grants P (o, m)
  unfolding Grants
  Grants-verdict P accepted m s f = (s, f refl)
  Grants-verdict P (refused why) m s f = s
  Grants-verdict P fails m s f = s

  claimed-Grants :
      (P : Type 0) (mode : Mode) (res : Bytes) (m : Memory)
      → IsSound fs v recorded m
      → (mode ≡ mode_install → IsClaim fs v res)
      → P
      → Grants P (claimed mode res m)
  unfolding Grants
  claimed-Grants P mode_diff res m s c p = (s, p)
  claimed-Grants P mode_uninstall res m s c p = (s, p)
  claimed-Grants P mode_install res m s c p = (
    record {
      keeps = s.keeps;
      resolves = s.resolves;
      judges = s.judges;
      claims = (c refl, s.claims);
    },
    p,
  )

  ran_there_lem :
      (e : Entry) (r : Root) (res : Bytes) (directory : Bool)
      → r.may_pre_exist ≡ true
      → fs.lstat r.path ≡ there directory
      → pre_existing v r res directory ≡ accepted
      → IsOwned fs v recorded e r res
  ran_there_lem e r res false may seen h = cc
  ran_there_lem e r res true may seen h = ran_there may seen (
      either (has_text (munge (clean r.path)) v.claimed_cwds) (has_text (munge res) v.claimed_cwds)
        h)
    where
      either :
          (a b : Bool)
          → (if not a && not b then refused (root_not_claimed r.path) else accepted) ≡ accepted
          → (a ≡ true) ⊎ (b ≡ true)
      either true b h = inl refl
      either false true h = inr refl
      either false false h = cc

  root_seen-Grants :
      (m : Memory) (e : Entry) (r : Root) (res : Bytes) (o : Seen Bool)
      → IsSound fs v recorded m
      → IsPicked e.dst v.roots r
      → resolve_existing fs r.path ≡ some res
      → IsFit v.real res
      → fs.lstat r.path ≡ o
      → Grants (IsOwned fs v recorded e r res) (root_seen v m e r res o)
  unfolding IsClaim Grants
  root_seen-Grants m e r res gone s p q f seen =
      claimed-Grants _ v.mode res m s (λ i. (i, (e.dst, r, p, q, seen, f))) (was_absent seen)
  root_seen-Grants m e r res unreadable s p q f seen = s
  root_seen-Grants m e r res (there directory) s p q f seen =
      if-both (Grants (IsOwned fs v recorded e r res)) r.may_pre_exist
        (pre_existing v r res directory, m)
        (if is_dir e then (accepted, m) else (refused (root_not_own r.path), m))
        (λ may.
          Grants-verdict _ (pre_existing v r res directory) m s
            (ran_there_lem e r res directory may seen))
        (λ _.
          if-both (Grants (IsOwned fs v recorded e r res)) (is_dir e) (accepted, m)
            (refused (root_not_own r.path), m) (λ d. (s, no_content d)) (λ _. s))

  pub provenance-Grants :
      (m : Memory) (e : Entry) (r : Root) (res : Bytes)
      → IsSound fs v recorded m
      → IsPicked e.dst v.roots r
      → resolve_existing fs r.path ≡ some res
      → IsFit v.real res
      → Grants (IsOwned fs v recorded e r res) (provenance fs v m e r res)
  unfolding provenance Grants
  provenance-Grants m e r res s p q f =
      if-both (Grants (IsOwned fs v recorded e r res))
        (has_text res m.recorded || has_text res m.pending) (accepted, m)
        (root_seen v m e r res (fs.lstat r.path)) (λ known. (s, known_lem known))
        (λ _. root_seen-Grants m e r res (fs.lstat r.path) s p q f refl)
    where
      known_lem :
          has_text res m.recorded || has_text res m.pending ≡ true → IsOwned fs v recorded e r res
      known_lem known = elim (Bool-cases (has_text res m.recorded)) [
        | inl a ↦ was_recorded (subst (λ l. has_text res l ≡ true) s.keeps a)
        | inr a ↦ to_claim (has_text-All (IsClaim fs v) res m.pending s.claims (rw a at known))
      ]
