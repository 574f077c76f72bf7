-- ===== src/Git/Plan/Accepts.antt =====
-- When a repository's transfer is planned, and when it is refused.
use go_claude_teleport.Base.{
  Bool, true, false, not, Option, none, some, List, [], ◌∷◌, ◌≡◌, ◌≢◌, ◌⊎◌, inl, inr, ◌↔◌, Bytes,
  bytes_eq, length, ltb, if◌then◌else◌, arith, refl, Option-cases, bytes_eq_iff, if-cases, if-true,
  if-false, ◌∙◌, ap,
}
use go_claude_teleport.Session.PathMap.{PathMap}
use go_claude_teleport.Git.Plan.{
  base_plan, existing_main, fresh_main, Info, DestState, Plan, PlanResult, Refusal,
  empty_repository, planned, refused, branch_step, branch_end, have_tips_of, linked_end, main_end,
  plan_existing, plan_repo, plan_transfer,
}

-- The destination can take the session's branch.
abbrev pub BranchFits : Info → DestState → Type 0
BranchFits src dst =
    (src.detached ≡ true)
    ⊎ (dst.branch_tip ≡ [])
    ⊎ (dst.branch_tip ≡ src.head)
    ⊎ (dst.branch_tip_reachable ≡ true)

-- The destination can take the session's worktree.
abbrev pub LinkedFits : Info → DestState → Type 0
LinkedFits src dst = (dst.worktree_exists ≡ false) × (dst.branch_checked_out_elsewhere ≡ [])

abbrev pub MainFits : Info → DestState → Type 0
MainFits src dst =
    (dst.worktree_exists ≡ true)
    × (dst.clean ≡ true)
    × (((src.detached ≡ true) × (dst.worktree_detached ≡ true))
        ⊎ ((src.detached ≡ false)
            × ((dst.worktree_branch ≢ []) × (dst.worktree_branch ≡ src.branch))))

main_end-Fits :
    (src : Info) (dst : DestState) (p q : Plan)
    → main_end src dst p ≡ planned q
    → MainFits src dst × (q ≡ p)
unfolding main_end
main_end-Fits src dst p q h =
    ground (arith, bytes_eq_iff dst.worktree_branch [], bytes_eq_iff dst.worktree_branch src.branch)

linked_end-Fits :
    (src : Info) (dst : DestState) (p q : Plan)
    → linked_end src dst p ≡ planned q
    → LinkedFits src dst × (q ≡ p)
unfolding linked_end
linked_end-Fits src dst p q h = ground (arith, bytes_eq_iff dst.branch_checked_out_elsewhere [])

Fits-linked_end :
    (src : Info) (dst : DestState) (p : Plan)
    → LinkedFits src dst
    → linked_end src dst p ≡ planned p
unfolding linked_end
Fits-linked_end src dst p h = ground (arith, bytes_eq_iff dst.branch_checked_out_elsewhere [])

Fits-main_end :
    (src : Info) (dst : DestState) (p : Plan) → MainFits src dst → main_end src dst p ≡ planned p
unfolding main_end
Fits-main_end src dst p h =
    ground (arith, bytes_eq_iff dst.worktree_branch [], bytes_eq_iff dst.worktree_branch src.branch)

branch_step-Fits :
    (src : Info) (dst : DestState) (x : Bool × Bool)
    → branch_step src dst ≡ some x
    → BranchFits src dst
unfolding branch_step
branch_step-Fits src dst x h =
    ground (arith, bytes_eq_iff dst.branch_tip [], bytes_eq_iff dst.branch_tip src.head)

Fits-branch_step : (src : Info) (dst : DestState) → BranchFits src dst → branch_step src dst ≢ none
unfolding branch_step
Fits-branch_step src dst h e =
    ground (arith, bytes_eq_iff dst.branch_tip [], bytes_eq_iff dst.branch_tip src.head)

-- A plan does not come out of a refusal.
pub if-planned :
    (b : Bool) (r : Refusal) (y : PlanResult) (q : Plan)
    → (if b then refused r else y) ≡ planned q
    → (b ≡ false) × (y ≡ planned q)
if-planned true r y q h = cc
if-planned false r y q h = (refl, h)

abbrev pub WorktreeFits : Info → DestState → Type 0
WorktreeFits src dst =
    ((src.is_linked ≡ true) × LinkedFits src dst) ⊎ ((src.is_linked ≡ false) × MainFits src dst)

-- The plan with what the branch decided.
abbrev pub with_branch : DestState → Plan → Bool × Bool → Plan
with_branch dst p (ff, pack) = record p {
  have_tips = have_tips_of dst.ref_tips;
  fast_forward = ff;
  need_pack = pack;
}

branch_end-Fits :
    (src : Info) (dst : DestState) (p q : Plan) (o : Option (Bool × Bool))
    → branch_end src dst p o ≡ planned q
    → (x : Bool × Bool) × ((o ≡ some x) × (WorktreeFits src dst × (q ≡ with_branch dst p x)))
branch_end-Fits src dst p q none h = cc
branch_end-Fits src dst p q (some (ff, pack)) h =
    let p' = with_branch dst p (ff, pack) in
    elim (if-cases src.is_linked (linked_end src dst p') (main_end src dst p') (planned q) h) [
      | inl (l, e) ↦
          let (fits, same) = linked_end-Fits src dst p' q e in
          ((ff, pack), (refl, (inl (l, fits), same)))
      | inr (l, e) ↦
          let (fits, same) = main_end-Fits src dst p' q e in
          ((ff, pack), (refl, (inr (l, fits), same)))
    ]

Fits-branch_end :
    (src : Info) (dst : DestState) (p : Plan) (x : Bool × Bool)
    → WorktreeFits src dst
    → branch_end src dst p (some x) ≡ planned (with_branch dst p x)
Fits-branch_end src dst p (ff, pack) (inl (l, fits)) =
    if-true src.is_linked _ _ l ∙ Fits-linked_end src dst (with_branch dst p (ff, pack)) fits
Fits-branch_end src dst p (ff, pack) (inr (l, fits)) =
    if-false src.is_linked _ _ l ∙ Fits-main_end src dst (with_branch dst p (ff, pack)) fits

-- What the destination's repository must be for a plan onto it.
abbrev pub ExistingFits : Info → DestState → Type 0
ExistingFits src dst =
    (dst.root_commit ≢ [])
    × ((dst.root_commit ≡ src.root_commit) × (BranchFits src dst × WorktreeFits src dst))

pub plan_existing-Fits :
    (src : Info) (dst : DestState) (p q : Plan)
    → plan_existing src dst p ≡ planned q
    → ExistingFits src dst
      × ((x : Bool × Bool) × ((branch_step src dst ≡ some x) × (q ≡ with_branch dst p x)))
unfolding plan_existing
plan_existing-Fits src dst p q h =
    let (some_root, h') =
      if-planned (bytes_eq dst.root_commit []) (empty_repository p.dst_main) _ q h in
    let (same_root, h'') = if-planned (not (bytes_eq dst.root_commit src.root_commit)) _ _ q h' in
    let (x, (step, (fits, same))) = branch_end-Fits src dst p q (branch_step src dst) h'' in
    (
      (
        (λ e. ground (arith, bytes_eq_iff dst.root_commit [])),
        (
          ground (arith, bytes_eq_iff dst.root_commit src.root_commit),
          (branch_step-Fits src dst x step, fits),
        ),
      ),
      (x, (step, same)),
    )

Fits-plan_existing :
    (src : Info) (dst : DestState) (p : Plan)
    → ExistingFits src dst
    → (x : Bool × Bool) × (plan_existing src dst p ≡ planned (with_branch dst p x))
unfolding plan_existing
Fits-plan_existing src dst p (some_root, (same_root, (branch, tree))) =
    elim (Option-cases (branch_step src dst)) [
      | inl e ↦ elim (Fits-branch_step src dst branch e) [ ]
      | inr (x, e) ↦ (
        x,
        if-false (bytes_eq dst.root_commit []) _ _ (ground (arith, bytes_eq_iff dst.root_commit []))
            ∙ if-false (not (bytes_eq dst.root_commit src.root_commit)) _ _
                (ground (arith, bytes_eq_iff dst.root_commit src.root_commit))
            ∙ ap (branch_end src dst p) e
            ∙ Fits-branch_end src dst p x tree,
      )
    ]

-- What the destination must be for a plan at all.
abbrev pub Accepts : Info → DestState → Type 0
Accepts src dst =
    (src.dirty_submodules ≡ [])
    × (((dst.main_exists ≡ false) × (dst.worktree_exists ≡ false))
        ⊎ ((dst.main_exists ≡ true) × ExistingFits src dst))

clean_submodules : (l : List Bytes) → ltb 0 (length l) ≡ false → l ≡ []
clean_submodules [] h = refl
clean_submodules (s ∷ l) h = ground arith

plan_repo-Accepts :
    (src : Info) (dst : DestState) (pm : PathMap) (q : Plan)
    → plan_repo src dst pm ≡ planned q
    → Accepts src dst
unfolding plan_repo
plan_repo-Accepts src dst pm q h =
    let (clean_subs, h') = if-planned (ltb 0 (length src.dirty_submodules)) _ _ q h in
    (
      clean_submodules src.dirty_submodules clean_subs,
      elim (if-cases dst.main_exists _ _ _ h') [
        | inl (m, e) ↦ inr (m, (plan_existing-Fits src dst (base_plan existing_main src pm) q e).0)
        | inr (m, e) ↦ inl (m, (if-planned dst.worktree_exists _ _ q e).0)
      ],
    )

Accepts-plan_repo :
    (src : Info) (dst : DestState) (pm : PathMap)
    → Accepts src dst
    → (q : Plan) × (plan_repo src dst pm ≡ planned q)
unfolding plan_repo
Accepts-plan_repo src dst pm (subs, inl (m, w)) = (
  base_plan fresh_main src pm,
  if-false (ltb 0 (length src.dirty_submodules)) _ _ (rw subs refl)
      ∙ if-false dst.main_exists _ _ m
      ∙ if-false dst.worktree_exists _ _ w,
)
Accepts-plan_repo src dst pm (subs, inr (m, fits)) =
    let (x, e) = Fits-plan_existing src dst (base_plan existing_main src pm) fits in
    (
      with_branch dst (base_plan existing_main src pm) x,
      if-false (ltb 0 (length src.dirty_submodules)) _ _ (rw subs refl)
          ∙ if-true dst.main_exists _ _ m
          ∙ e,
    )

-- `PlanTransfer` plans a repository's transfer exactly when no submodule is dirty and either the
-- destination has neither the main checkout nor the worktree, or it has the main checkout, with the
-- session's root commit, a branch that is absent, equal or an ancestor (or a detached head), and,
-- for a linked worktree, neither its directory nor its branch checked out elsewhere, for the main
-- checkout, a clean working tree on the session's branch (or both sides detached).
pub plan_transfer_iff :
    (src : Info) (dst : DestState) (pm : PathMap)
    → ((q : Plan) × (plan_transfer (some src) dst pm ≡ planned q)) ↔ Accepts src dst
unfolding plan_transfer
plan_transfer_iff src dst pm =
    (λ (q, e). plan_repo-Accepts src dst pm q e, Accepts-plan_repo src dst pm)
