-- ===== src/Transfer/Roots/Landing.antt =====
-- Which directories may be a root, where a path lands, and what `CheckDestDir` lets pass.
use go_claude_teleport.Base.{
  Bool, true, false, not, Option, none, some, Bytes, bytes_eq, bytes_eq_iff, ◌≡◌, ◌≢◌, refl, arith,
  if◌then◌else◌,
}
use go_claude_teleport.Session.Paths.{Paths}
use go_claude_teleport.Transfer.Under.{under_dir}
use go_claude_teleport.Transfer.Roots.{
  Files, ResolvedPaths, Fault, first_component_dotted, dotted_fault, root_fault, resolve_paths,
  resolve_existing, fits, fault_found, dir_landed, dir_checked, check_dest_dir,
}

-- A real directory that may be a root: under home and not home itself, outside the configuration
-- and the data, and with no dot at the front of its first component under home.
pub record IsFit (rp : ResolvedPaths) (res : Bytes) : Type 0 where
  pub in_home : under_dir res rp.home ≡ true
  pub below_home : res ≢ rp.home
  pub off_config : under_dir res rp.config_dir ≡ false
  pub off_data : under_dir res rp.data_dir ≡ false
  pub undotted : first_component_dotted rp.home res ≡ some false

undotted_lem : (o : Option Bool) → dotted_fault o ≡ some none → o ≡ some false
undotted_lem none h = cc
undotted_lem (some true) h = cc
undotted_lem (some false) h = refl

passed :
    {A : Type 0} (b : Bool) (x y z : A) → (if b then x else y) ≡ z → x ≢ z → (b ≡ false) × (y ≡ z)
passed true x y z h ne = absurd (ne h)
passed false x y z h ne = (refl, h)

pub root_fault-IsFit :
    (rp : ResolvedPaths) (res : Bytes) → root_fault rp res ≡ some none → IsFit rp res
unfolding root_fault
root_fault-IsFit rp res h =
    let (e1, h1) = passed (not (under_dir res rp.home)) _ _ _ h cc in
    let (e2, h2) = passed (bytes_eq res rp.home) _ _ _ h1 cc in
    let (e3, h3) = passed (under_dir res rp.config_dir) _ _ _ h2 cc in
    let (e4, h4) = passed (under_dir res rp.data_dir) _ _ _ h3 cc in
    record {
      in_home = ground arith;
      below_home = ground (arith, bytes_eq_iff res rp.home);
      off_config = e3;
      off_data = e4;
      undotted = undotted_lem (first_component_dotted rp.home res) h4;
    }

-- A directory that passes `CheckDestDir` lands in a real directory that may be a root, for the real
-- places of home, the configuration and the data.
pub check_dest_dir-IsFit :
    (fs : Files) (p : Paths) (dir : Bytes)
    → check_dest_dir fs p dir ≡ fits
    → (rp : ResolvedPaths) × (res : Bytes) × (resolve_paths fs p ≡ some rp)
      × (resolve_existing fs dir ≡ some res)
      × IsFit rp res
unfolding check_dest_dir
check_dest_dir-IsFit fs p dir h = found (resolve_paths fs p) refl h
  where
    fault : (o : Option (Option Fault)) → fault_found o ≡ fits → o ≡ some none
    fault none h = cc
    fault (some none) h = refl
    fault (some (some f)) h = cc

    landed :
        (rp : ResolvedPaths) (o : Option Bytes)
        → dir_landed rp o ≡ fits
        → (res : Bytes) × (o ≡ some res) × IsFit rp res
    landed rp none h = cc
    landed rp (some res) h = (res, refl, root_fault-IsFit rp res (fault (root_fault rp res) h))

    found :
        (o : Option ResolvedPaths)
        → resolve_paths fs p ≡ o
        → dir_checked fs dir o ≡ fits
        → (rp : ResolvedPaths) × (res : Bytes) × (resolve_paths fs p ≡ some rp)
          × (resolve_existing fs dir ≡ some res)
          × IsFit rp res
    found none e h = cc
    found (some rp) e h =
        let (res, r, fit) = landed rp (resolve_existing fs dir) h in (rp, res, e, r, fit)
