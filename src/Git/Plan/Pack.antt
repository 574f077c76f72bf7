-- ===== src/Git/Plan/Pack.antt =====
-- What a plan sends: the pack, the fast-forward and the tips that the destination has.
use mathlib.Core.List.{Memᴰ}
use mathlib.Core.Path.{subst}
use go_claude_teleport.Base.{
  Bool, true, false, some, List, [], ◌∷◌, ◌≡◌, ◌≢◌, ◌⊎◌, inl, inr, ◌↔◌, Bytes, bytes_eq, has_text,
  length, ltb, if◌then◌else◌, arith, refl, Bool-cases, bytes_eq_iff, if-true, ◌∙◌, ap, sym,
}
use go_claude_teleport.Session.PathMap.{PathMap}
use go_claude_teleport.Git.Plan.{
  existing_main, base_plan, Info, DestState, Plan, planned, branch_step, have_tips_of, insert_text,
  bytes_leb, plan_repo, plan_transfer, set_staged_blobs,
}
use go_claude_teleport.Git.Plan.Accepts.{with_branch, if-planned, plan_existing-Fits}

has_text→Mem : (t : Bytes) (ss : List Bytes) → has_text t ss ≡ true → Memᴰ t ss
unfolding has_text
has_text→Mem t [] h = cc
has_text→Mem t (s ∷ ss) h = elim (Bool-cases (bytes_eq s t)) [
  | inl e ↦ Memᴰ.head (sym ((bytes_eq_iff s t).0 e))
  | inr e ↦ Memᴰ.tail (has_text→Mem t ss (rw e at h))
]

module _ {ℓ} {A : Type ℓ} (t : A) where
  Mem-cons : (x : A) (xs : List A) → Memᴰ t (x ∷ xs) ↔ ((t ≡ x) ⊎ Memᴰ t xs)
  Mem-cons x xs = (split, join)
    where
      split : Memᴰ t (x ∷ xs) → (t ≡ x) ⊎ Memᴰ t xs
      split (Memᴰ.head e) = inl e
      split (Memᴰ.tail m) = inr m

      join : (t ≡ x) ⊎ Memᴰ t xs → Memᴰ t (x ∷ xs)
      join (inl e) = Memᴰ.head e
      join (inr m) = Memᴰ.tail m

  -- The members of a list with an element put second.
  Mem-second :
      (s u : A) (us r : List A)
      → (Memᴰ t r ↔ ((t ≡ s) ⊎ Memᴰ t us))
      → Memᴰ t (u ∷ r) ↔ ((t ≡ s) ⊎ Memᴰ t (u ∷ us))
  Mem-second s u us r ih = (later, earlier)
    where
      later : Memᴰ t (u ∷ r) → (t ≡ s) ⊎ Memᴰ t (u ∷ us)
      later (Memᴰ.head e) = inr (Memᴰ.head e)
      later (Memᴰ.tail m) = elim (ih.0 m) [ inl e ↦ inl e | inr m' ↦ inr (Memᴰ.tail m') ]

      earlier : (t ≡ s) ⊎ Memᴰ t (u ∷ us) → Memᴰ t (u ∷ r)
      earlier (inl e) = Memᴰ.tail (ih.1 (inl e))
      earlier (inr (Memᴰ.head e)) = Memᴰ.head e
      earlier (inr (Memᴰ.tail m)) = Memᴰ.tail (ih.1 (inr m))

  Mem-if :
      (b : Bool) (xs ys : List A) (P : Type ℓ)
      → (Memᴰ t xs ↔ P)
      → (Memᴰ t ys ↔ P)
      → Memᴰ t (if b then xs else ys) ↔ P
  Mem-if true xs ys P hx hy = hx
  Mem-if false xs ys P hx hy = hy

insert_text-Mem :
    (t s : Bytes) (ts : List Bytes) → Memᴰ t (insert_text s ts) ↔ ((t ≡ s) ⊎ Memᴰ t ts)
unfolding insert_text
insert_text-Mem t s [] = Mem-cons t s []
insert_text-Mem t s (u ∷ us) =
    Mem-if t (bytes_leb s u) _ _ _ (Mem-cons t s (u ∷ us))
      (Mem-second t s u us _ (insert_text-Mem t s us))

-- A text that is already listed adds no member.
Mem-dup :
    (t s : Bytes) (ss r : List Bytes)
    → Memᴰ s ss
    → (Memᴰ t r ↔ Memᴰ t ss)
    → Memᴰ t r ↔ Memᴰ t (s ∷ ss)
Mem-dup t s ss r m ih = (λ x. Memᴰ.tail (ih.0 x), λ x. ih.1 (shorter ((Mem-cons t s ss).0 x)))
  where
    shorter : (t ≡ s) ⊎ Memᴰ t ss → Memᴰ t ss
    shorter (inl e) = subst (λ u. Memᴰ u ss) (sym e) m
    shorter (inr x) = x

Mem-new :
    (t s : Bytes) (ss r : List Bytes)
    → (Memᴰ t r ↔ Memᴰ t ss)
    → Memᴰ t (insert_text s r) ↔ Memᴰ t (s ∷ ss)
Mem-new t s ss r ih = (
  λ x. (Mem-cons t s ss).1 (there ((insert_text-Mem t s r).0 x)),
  λ x. (insert_text-Mem t s r).1 (back ((Mem-cons t s ss).0 x)),
)
  where
    there : (t ≡ s) ⊎ Memᴰ t r → (t ≡ s) ⊎ Memᴰ t ss
    there (inl e) = inl e
    there (inr m) = inr (ih.0 m)

    back : (t ≡ s) ⊎ Memᴰ t ss → (t ≡ s) ⊎ Memᴰ t r
    back (inl e) = inl e
    back (inr m) = inr (ih.1 m)

have_tips_of-Mem : (t : Bytes) (tips : List Bytes) → Memᴰ t (have_tips_of tips) ↔ Memᴰ t tips
unfolding have_tips_of
have_tips_of-Mem t [] = (λ m. m, λ m. m)
have_tips_of-Mem t (h ∷ hs) = elim (Bool-cases (has_text h hs)) [
  | inl e ↦ rw e (Mem-dup t h hs _ (has_text→Mem h hs e) (have_tips_of-Mem t hs))
  | inr e ↦ rw e (Mem-new t h hs _ (have_tips_of-Mem t hs))
]

-- What the plan says of the branch, given how it was decided.
branch_step-Pack :
    (src : Info) (dst : DestState) (ff pack : Bool)
    → branch_step src dst ≡ some (ff, pack)
    → (pack ≡ false
        → ((src.detached ≡ true) × (has_text src.head dst.ref_tips ≡ true))
          ⊎ (dst.branch_tip ≡ src.head))
      × (ff ≡ true
          → (src.detached ≡ false)
            × ((dst.branch_tip ≢ [])
                × ((dst.branch_tip ≢ src.head)
                    × ((dst.branch_tip_reachable ≡ true) × (pack ≡ true)))))
unfolding branch_step
branch_step-Pack src dst ff pack h =
    ground (arith, bytes_eq_iff dst.branch_tip [], bytes_eq_iff dst.branch_tip src.head)

-- The plan onto an existing repository is the starting plan with what the branch decided.
plan_transfer-with_branch :
    (src : Info) (dst : DestState) (pm : PathMap) (q : Plan)
    → dst.main_exists ≡ true
    → plan_transfer (some src) dst pm ≡ planned q
    → (x : Bool × Bool) × ((branch_step src dst ≡ some x)
        × (q ≡ with_branch dst (base_plan existing_main src pm) x))
unfolding plan_transfer plan_repo
plan_transfer-with_branch src dst pm q m h =
    let (subs, h') = if-planned (ltb 0 (length src.dirty_submodules)) _ _ q h in
    (plan_existing-Fits src dst (base_plan existing_main src pm) q
      (sym (if-true dst.main_exists _ _ m) ∙ h')).1

-- A plan onto an existing repository leaves the pack out only when the session's head is among the
-- destination's tips (a detached session) or is the tip of the destination's branch.
pub plan_transfer-NoPack :
    (src : Info) (dst : DestState) (pm : PathMap) (q : Plan)
    → dst.main_exists ≡ true
    → plan_transfer (some src) dst pm ≡ planned q
    → q.need_pack ≡ false
    → ((src.detached ≡ true) × Memᴰ src.head dst.ref_tips) ⊎ (dst.branch_tip ≡ src.head)
plan_transfer-NoPack src dst pm q m h no_pack =
    let ((ff, pack), (step, same)) = plan_transfer-with_branch src dst pm q m h in
    listed ((branch_step-Pack src dst ff pack step).0 (sym (ap (λ p. p.need_pack) same) ∙ no_pack))
  where
    listed :
        ((src.detached ≡ true) × (has_text src.head dst.ref_tips ≡ true))
          ⊎ (dst.branch_tip ≡ src.head)
        → ((src.detached ≡ true) × Memᴰ src.head dst.ref_tips) ⊎ (dst.branch_tip ≡ src.head)
    listed (inl (d, t)) = inl (d, has_text→Mem src.head dst.ref_tips t)
    listed (inr e) = inr e

-- A plan onto an existing repository fast-forwards only a branch that the destination has, that is
-- not at the session's head yet and that the head reaches, for a session on a branch, and it sends
-- a pack.
pub plan_transfer-FastForward :
    (src : Info) (dst : DestState) (pm : PathMap) (q : Plan)
    → dst.main_exists ≡ true
    → plan_transfer (some src) dst pm ≡ planned q
    → q.fast_forward ≡ true
    → (src.detached ≡ false)
      × ((dst.branch_tip ≢ [])
          × ((dst.branch_tip ≢ src.head)
              × ((dst.branch_tip_reachable ≡ true) × (q.need_pack ≡ true))))
plan_transfer-FastForward src dst pm q m h forward =
    let ((ff, pack), (step, same)) = plan_transfer-with_branch src dst pm q m h in
    let (d, (some_tip, (other, (reached, packed)))) =
      (branch_step-Pack src dst ff pack step).1 (sym (ap (λ p. p.fast_forward) same) ∙ forward) in
    (d, (some_tip, (other, (reached, ap (λ p. p.need_pack) same ∙ packed))))

-- The tips that a plan onto an existing repository excludes from the pack are those that the
-- destination has.
pub plan_transfer-HaveTips :
    (src : Info) (dst : DestState) (pm : PathMap) (q : Plan) (t : Bytes)
    → dst.main_exists ≡ true
    → plan_transfer (some src) dst pm ≡ planned q
    → Memᴰ t q.have_tips ↔ Memᴰ t dst.ref_tips
plan_transfer-HaveTips src dst pm q t m h =
    let (x, (step, same)) = plan_transfer-with_branch src dst pm q m h in
    rw same (have_tips_of-Mem t dst.ref_tips)

-- A plan with staged blobs has a pack.
set_staged_blobs-Pack :
    (blobs : List Bytes) (p : Plan) → blobs ≢ [] → (set_staged_blobs blobs p).need_pack ≡ true
unfolding set_staged_blobs
set_staged_blobs-Pack [] p h = elim (h refl) [ ]
set_staged_blobs-Pack (b ∷ bs) p h = ground arith
