-- ===== src/Transfer/Validate/Granted.antt =====
-- Which repository entries the validator accepts under a declared root.
use mathlib.Core.Path.{subst}
use go_claude_teleport.Base.{Option, none, some, List, Bytes, ◌≡◌, refl, sym, if-both}
use go_claude_teleport.FilePath.{clean}
use go_claude_teleport.Transfer.Manifest.{Entry}
use go_claude_teleport.Transfer.Under.{under_dir}
use go_claude_teleport.Transfer.Roots.{Files, Root, Fault, resolve_existing}
use go_claude_teleport.Transfer.Roots.Chosen.{IsGoverning}
use go_claude_teleport.Transfer.Roots.Landing.{IsFit, root_fault-IsFit}
use go_claude_teleport.Transfer.Validate.{
  lands_outside, Validator, Memory, or_empty, check_symlink, Verdict, accepted, refused, fails,
}
use go_claude_teleport.Transfer.Validate.Check.{provenance, git_linked, git_landed, git_judged}
use go_claude_teleport.Transfer.Validate.Sound.{IsSound, Judges}
use go_claude_teleport.Transfer.Validate.Permitted.{Lands, IsInRoot}
use go_claude_teleport.Transfer.Validate.Provenance.{Grants, Grants-map, provenance-Grants}

module _ (fs : Files) (v : Validator) (recorded : List Bytes) where
  git_linked-Grants :
      (m : Memory) (e : Entry) (r : Root) (res : Bytes) (o : Verdict)
      → IsSound fs v recorded m
      → IsGoverning e.dst v.roots (some r)
      → resolve_existing fs r.path ≡ some res
      → IsFit v.real res
      → Lands fs e.dst res
      → check_symlink fs e e.dst (clean r.path) ≡ o
      → Grants fs v recorded (IsInRoot fs v recorded e r res) (git_linked fs v m e r res o)
  unfolding IsGoverning Grants
  git_linked-Grants m e r res (refused why) s (p, l) q f land link = s
  git_linked-Grants m e r res fails s (p, l) q f land link = s
  git_linked-Grants m e r res accepted s (p, l) q f land link =
      Grants-map fs v recorded _ _ (provenance fs v m e r res)
        (λ o. record {
          picked = p;
          longest = l;
          resolved = q;
          fit = f;
          landed = land;
          linked = link;
          owned = o;
        })
        (provenance-Grants fs v recorded m e r res s p q f)

  git_landed-Grants :
      (m : Memory) (e : Entry) (r : Root) (res : Bytes) (o : Option Bytes)
      → IsSound fs v recorded m
      → IsGoverning e.dst v.roots (some r)
      → resolve_existing fs r.path ≡ some res
      → IsFit v.real res
      → resolve_existing fs e.dst ≡ o
      → Grants fs v recorded (IsInRoot fs v recorded e r res) (git_landed fs v m e r res o)
  unfolding Grants Lands
  git_landed-Grants m e r res none s g q f land = s
  git_landed-Grants m e r res (some d) s g q f land =
      if-both (Grants fs v recorded (IsInRoot fs v recorded e r res)) (under_dir d res)
        (git_linked fs v m e r res (check_symlink fs e e.dst (clean r.path)))
        (refused (lands_outside d res), m)
        (λ inside.
          git_linked-Grants m e r res (check_symlink fs e e.dst (clean r.path)) s g q f
            (d, land, inside) refl)
        (λ _. s)

  -- What holds of a repository's entry that is accepted before its placement is looked at.
  unfoldable pub InSomeRoot : Entry → Type 0
  InSomeRoot e = (r : Root) × (res : Bytes) × IsInRoot fs v recorded e r res

  pub git_judged-Grants :
      (e : Entry) (r : Root) (out : Option (Option Fault) × Memory)
      → IsGoverning e.dst v.roots (some r)
      → Judges fs v recorded r out
      → Grants fs v recorded (InSomeRoot e) (git_judged fs v e r out)
  unfolding Judges Grants InSomeRoot
  git_judged-Grants e r (none, m) g j = j
  git_judged-Grants e r (some (some f), m) g (s, j) = s
  git_judged-Grants e r (some none, m) g (s, (res, found, q, f)) =
      subst
        (λ o.
          Grants fs v recorded (InSomeRoot e)
            (git_landed fs v m e r (or_empty o) (resolve_existing fs e.dst)))
        (sym found)
        (Grants-map fs v recorded _ _ (git_landed fs v m e r res (resolve_existing fs e.dst))
          (λ i. (r, res, i))
          (git_landed-Grants m e r res (resolve_existing fs e.dst) s g q
            (root_fault-IsFit v.real res f) refl))
