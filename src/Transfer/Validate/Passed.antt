-- ===== src/Transfer/Validate/Passed.antt =====
-- What a manifest that passes the validator may write, what the pass records, and what holds just
-- before a placement.
use mathlib.Core.Path.{subst}
use mathlib.Core.List.{Memᴰ}
use mathlib.Core.List.Memᴰ
use go_claude_teleport.Base.{
  Bool, true, false, Option, none, some, List, [], ◌∷◌, Bytes, ◌≡◌, refl, sym, ◌⊎◌, inl, inr, All,
  All-Mem,
}
use go_claude_teleport.FilePath.{clean}
use go_claude_teleport.Job.Id.{IdError, validate_id}
use go_claude_teleport.Session.Paths.{Paths}
use go_claude_teleport.Transfer.Manifest.{Entry}
use go_claude_teleport.Transfer.Roots.{Files, Root, ResolvedPaths, resolve_paths}
use go_claude_teleport.Transfer.Validate.{
  Mode, Validator, Memory, Checked, NewValidator, ready, bad_job_id, new_with, new_validator,
  canonical_capture_dst, accepted, refused, fails,
}
use go_claude_teleport.Transfer.Validate.Check.{
  check, check_next, check_each, claim_next, claim_roots, commit_claims,
}
use go_claude_teleport.Transfer.Validate.Sound.{IsClaim, IsSound, look_up_empty}
use go_claude_teleport.Transfer.Validate.Permitted.{IsNamed, IsPermitted}
use go_claude_teleport.Transfer.Validate.Provenance.{Grants}
use go_claude_teleport.Transfer.Validate.Accepts.{check-Grants}

module _ (fs : Files) (v : Validator) (recorded : List Bytes) where
  abbrev Fine : Entry → Type 0
  Fine e = IsNamed v e × IsPermitted fs v recorded e

  -- A pass over a list that ends well: its entries are fine, and the memory is sound.
  abbrev Passes : List Entry → Checked → Type 0
  Passes es out = ((e : Entry) → Memᴰ e es → Fine e) × IsSound fs v recorded out.1

  every :
      (x : Entry) (es : List Entry)
      → Fine x
      → ((e : Entry) → Memᴰ e es → Fine e)
      → (e : Entry) → Memᴰ e (x ∷ es)
      → Fine e
  every x es f others e (Memᴰ.head q) = subst Fine (sym q) f
  every x es f others e (Memᴰ.tail i) = others e i

  check_next-Passes :
      (x : Entry) (es : List Entry) (out : Checked)
      → Grants fs v recorded (Fine x) out
      → ((m : Memory)
          → IsSound fs v recorded m
          → (check_each fs v es m).0 ≡ accepted
          → Passes es (check_each fs v es m))
      → (check_next (check_each fs v es) out).0 ≡ accepted
      → Passes (x ∷ es) (check_next (check_each fs v es) out)
  unfolding Grants
  check_next-Passes x es (accepted, m) (s, f) next h =
      let (others, s1) = next m s h in (every x es f others, s1)
  check_next-Passes x es (refused why, m) s next h = cc
  check_next-Passes x es (fails, m) s next h = cc

  check_each-Passes :
      (es : List Entry) (m : Memory)
      → IsSound fs v recorded m
      → (check_each fs v es m).0 ≡ accepted
      → Passes es (check_each fs v es m)
  unfolding check_each
  check_each-Passes [] m s h = (λ e i. elim (Memᴰ.not-nil i) [ ], s)
  check_each-Passes (x ∷ es) m s h =
      check_next-Passes x es (check fs v m x) (check-Grants fs v recorded m x s)
        (check_each-Passes es) h

  -- The roots that are recorded after a commit were recorded before, or were claimed.
  claim_roots-Mem :
      (write : List Bytes → Bool) (pending : List Bytes) (m m1 : Memory) (q : Bytes)
      → claim_roots write pending m ≡ (true, m1)
      → Memᴰ q m1.recorded
      → Memᴰ q m.recorded ⊎ ((res : Bytes) × Memᴰ res pending × (q ≡ clean res))
  unfolding claim_roots
  claim_roots-Mem write [] m m1 q h i = inl (subst (λ o. Memᴰ q o.1.recorded) (sym h) i)
  claim_roots-Mem write (root ∷ rest) m m1 q h i =
      claimed (write (clean root ∷ m.recorded)) h (λ m2 h2. claim_roots-Mem write rest m2 m1 q h2 i)
    where
      here :
          Memᴰ q (clean root ∷ m.recorded) ⊎ ((res : Bytes) × Memᴰ res rest × (q ≡ clean res))
          → Memᴰ q m.recorded ⊎ ((res : Bytes) × Memᴰ res (root ∷ rest) × (q ≡ clean res))
      here (inl (Memᴰ.head e)) = inr (root, Memᴰ.head refl, e)
      here (inl (Memᴰ.tail j)) = inl j
      here (inr (res, j, e)) = inr (res, Memᴰ.tail j, e)

      claimed :
          (b : Bool)
          → claim_next (claim_roots write rest) m rest (b, clean root ∷ m.recorded) ≡ (true, m1)
          → ((m2 : Memory)
              → claim_roots write rest m2 ≡ (true, m1)
              → Memᴰ q m2.recorded ⊎ ((res : Bytes) × Memᴰ res rest × (q ≡ clean res)))
          → Memᴰ q m.recorded ⊎ ((res : Bytes) × Memᴰ res (root ∷ rest) × (q ≡ clean res))
      claimed false h next = cc
      claimed true h next = here (next _ h)

-- A new validator remembers nothing yet.
abbrev IsFresh : NewValidator → Type 0
IsFresh (ready v m) = (m.pending ≡ []) × (m.root_res ≡ []) × (m.root_bad ≡ [])
IsFresh _ = Unit

new_with-IsFresh :
    (p : Paths) (roots : List Root) (mode : Mode) (es : List Entry) (c : Option Bytes)
    (real : Option ResolvedPaths) (recorded : Option (List Bytes))
    → IsFresh (new_with p roots mode es c real recorded)
new_with-IsFresh p roots mode es c none recorded = tt
new_with-IsFresh p roots mode es c (some real) none = tt
new_with-IsFresh p roots mode es c (some real) (some recorded) = (refl, refl, refl)

module _ (fs : Files) (job_roots : Option (List Bytes)) (job_id : Bytes) (roots : List Root) where
  module _ (all : List Entry) (p : Paths) (mode : Mode) (v : Validator) (m : Memory) where
    new_validator-IsSound :
        new_validator fs job_roots job_id roots all p mode ≡ ready v m → IsSound fs v m.recorded m
    unfolding new_validator
    new_validator-IsSound h = sound (subst IsFresh h (fresh (validate_id job_id)))
      where
        fresh :
            (o : Option IdError)
            → IsFresh (elim o [
              | some err ↦ bad_job_id err
              | none ↦
                  new_with p roots mode all
                    (canonical_capture_dst p.data_dir job_id)
                    (resolve_paths fs p)
                    job_roots
            ])
        fresh (some err) = tt
        fresh none =
            new_with-IsFresh p roots mode all (canonical_capture_dst p.data_dir job_id)
              (resolve_paths fs p) job_roots

        sound : (m.pending ≡ []) × (m.root_res ≡ []) × (m.root_bad ≡ []) → IsSound fs v m.recorded m
        sound (e1, e2, e3) = record {
          keeps = refl;
          resolves = λ q res h. absurd (look_up_empty q res m.root_res e2 h);
          judges = λ q f h. absurd (look_up_empty q f m.root_bad e3 h);
          claims = subst (All (IsClaim fs v)) (sym e1) tt;
        }

    -- When the validator of a manifest accepts every entry of a list, each of them names a clean
    -- absolute path under home and is one of the writes that the rules permit: a session's file that
    -- is not forbidden and really lies in the configuration, the job's own capture as a regular file
    -- in the data, a repository's entry that really lies in the longest declared root that holds it,
    -- where that is a real directory under home which may be a root, or a deferred one.
    pub check_each-IsPermitted :
        (es : List Entry) (e : Entry)
        → new_validator fs job_roots job_id roots all p mode ≡ ready v m
        → (check_each fs v es m).0 ≡ accepted
        → Memᴰ e es
        → IsNamed v e × IsPermitted fs v m.recorded e
    check_each-IsPermitted es e h ok i =
        (check_each-Passes fs v m.recorded es m (new_validator-IsSound h) ok).0 e i

    -- Every root that is recorded for the job after an accepted pass and the commit of its claims was
    -- recorded before, or the pass is that of an installation which found it absent: a directory that
    -- may be a root, where a declared root resolves.
    pub commit_claims-IsClaim :
        (es : List Entry) (write : List Bytes → Bool) (m1 : Memory) (q : Bytes)
        → new_validator fs job_roots job_id roots all p mode ≡ ready v m
        → (check_each fs v es m).0 ≡ accepted
        → commit_claims write (check_each fs v es m).1 ≡ (true, m1)
        → Memᴰ q m1.recorded
        → Memᴰ q m.recorded ⊎ ((res : Bytes) × IsClaim fs v res × (q ≡ clean res))
    unfolding commit_claims
    commit_claims-IsClaim es write m1 q h ok done i =
        let (fine, s) = check_each-Passes fs v m.recorded es m (new_validator-IsSound h) ok in
        let m2 : Memory = (check_each fs v es m).1 in
        elim (claim_roots-Mem fs v m.recorded write m2.pending m2 m1 q done i) [
          | inl j ↦ inl (subst (Memᴰ q) s.keeps j)
          | inr (res, j, e) ↦ inr (res, All-Mem (IsClaim fs v) res m2.pending s.claims j, e)
        ]
