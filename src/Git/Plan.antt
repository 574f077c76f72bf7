-- ===== src/Git/Plan.antt =====
-- The plan of a repository's transfer (internal/gitx/plan.go). The refusals are values with what
-- their texts print. The values of the map `RefTips` are a list.
mod Data
pub mod Accepts
pub mod Pack
unfoldable pub use Data.*
use go_claude_teleport.Base.{
  ℕ, ℤ, pos, negsuc, Bool, true, false, ◌&&◌, ◌||◌, not, Option, none, some, List, [], ◌∷◌, ◌≡◌,
  Bytes, codes, bytes_eq, has_text, length, take, ltb, ◌==◌, if◌then◌else◌,
}
use go_claude_teleport.FilePath.{join}
use go_claude_teleport.Session.PathMap.{PathMap, apply_path}

-- `short`.
unfoldable pub short : Bytes → Bytes
short h = if ltb 7 (length h) then take 7 h else h

-- `a <= b` on strings.
unfoldable pub bytes_leb : Bytes → Bytes → Bool
bytes_leb [] t = true
bytes_leb (a ∷ s) [] = false
bytes_leb (a ∷ s) (b ∷ t) = ltb a b || (a == b) && bytes_leb s t

-- `sort.Strings`.
unfoldable pub insert_text : Bytes → List Bytes → List Bytes
unfolding bytes_leb
insert_text s [] = s ∷ []
insert_text s (t ∷ ts) = if bytes_leb s t then s ∷ t ∷ ts else t ∷ insert_text s ts

-- `HaveTips`: the distinct tips, sorted.
unfoldable pub have_tips_of : List Bytes → List Bytes
unfolding insert_text has_text
have_tips_of [] = []
have_tips_of (h ∷ hs) =
    let rest = have_tips_of hs in if has_text h hs then rest else insert_text h rest

abbrev pub no_dirty : Dirty
no_dirty = record { staged = []; modified = []; untracked = []; deleted = [] }

-- The plan of a session outside any repository.
abbrev pub not_repo_plan : Plan
not_repo_plan = record {
  mode = not_repo;
  src_main = [];
  src_worktree = [];
  dst_main = [];
  dst_worktree = [];
  linked = false;
  worktree_name = [];
  branch = [];
  tip = [];
  detached = false;
  need_pack = false;
  have_tips = [];
  fast_forward = false;
  dirty = no_dirty;
  index_rel = [];
  staged_blobs = [];
  pack_entry_id = no_entry;
  index_entry_id = no_entry;
  dirty_entries = [];
}

-- The plan that `PlanTransfer` starts from; no `Mode` is set yet, and both ways out set it.
unfoldable pub base_plan : Mode → Info → PathMap → Plan
unfolding apply_path join
base_plan m src pm = record {
  mode = m;
  src_main = src.main_dir;
  src_worktree = src.root;
  dst_main = apply_path pm src.main_dir;
  dst_worktree = apply_path pm src.root;
  linked = src.is_linked;
  worktree_name = src.worktree_name;
  branch = src.branch;
  tip = src.head;
  detached = src.detached;
  need_pack = false;
  have_tips = [];
  fast_forward = false;
  dirty = src.dirty;
  index_rel =
      if src.is_linked
      then join (codes ".git/worktrees" ∷ src.worktree_name ∷ codes "index" ∷ [])
      else codes ".git/index";
  staged_blobs = [];
  pack_entry_id = no_entry;
  index_entry_id = no_entry;
  dirty_entries = [];
}

-- The `switch` over the branch: `FastForward` and `NeedPack`, or `none` for its refusal.
unfoldable pub branch_step : Info → DestState → Option (Bool × Bool)
unfolding has_text bytes_eq
branch_step src dst =
    if src.detached
    then some (false, not (has_text src.head dst.ref_tips))
    else if bytes_eq dst.branch_tip []
    then some (false, true)
    else if bytes_eq dst.branch_tip src.head
    then some (false, false)
    else if dst.branch_tip_reachable
    then some (true, true)
    else none

-- The last checks, for a linked worktree.
unfoldable pub linked_end : Info → DestState → Plan → PlanResult
unfolding bytes_eq
linked_end src dst p =
    if dst.worktree_exists
    then refused (worktree_in_the_way p.dst_worktree)
    else if not (bytes_eq dst.branch_checked_out_elsewhere [])
    then refused (branch_elsewhere src.branch dst.branch_checked_out_elsewhere)
    else planned p

-- The last checks, for the main checkout.
unfoldable pub main_end : Info → DestState → Plan → PlanResult
unfolding bytes_eq short
main_end src dst p =
    let rest = if not dst.clean then refused (not_clean p.dst_main) else planned p in
    if not dst.worktree_exists
    then refused (no_working_tree p.dst_main)
    else if src.detached && dst.worktree_detached
    then rest
    else if src.detached
    then refused (session_detached p.dst_main dst.worktree_branch (short src.head))
    else if bytes_eq dst.worktree_branch []
    then refused (checkout_detached p.dst_main src.branch)
    else if not (bytes_eq dst.worktree_branch src.branch)
    then refused (other_branch p.dst_main dst.worktree_branch src.branch)
    else rest

-- What follows the `switch` over the branch.
abbrev pub branch_end : Info → DestState → Plan → Option (Bool × Bool) → PlanResult
branch_end src dst p none =
    refused (not_fast_forward src.branch (short dst.branch_tip) (short src.head))
branch_end src dst p (some (ff, pack)) =
    let q : Plan = record p {
      have_tips = have_tips_of dst.ref_tips;
      fast_forward = ff;
      need_pack = pack;
    } in
    if src.is_linked then linked_end src dst q else main_end src dst q

-- `PlanTransfer` when the destination has the repository.
unfoldable pub plan_existing : Info → DestState → Plan → PlanResult
unfolding bytes_eq short branch_step linked_end main_end have_tips_of
plan_existing src dst p =
    if bytes_eq dst.root_commit []
    then refused (empty_repository p.dst_main)
    else if not (bytes_eq dst.root_commit src.root_commit)
    then refused (other_repository p.dst_main (short dst.root_commit) (short src.root_commit))
    else branch_end src dst p (branch_step src dst)

-- `PlanTransfer` for a repository, and for any session.
unfoldable pub plan_repo : Info → DestState → PathMap → PlanResult
unfolding base_plan plan_existing
plan_repo src dst pm =
    if ltb 0 (length src.dirty_submodules)
    then refused (dirty_submodules src.dirty_submodules)
    else if dst.main_exists
    then plan_existing src dst (base_plan existing_main src pm)
    else if dst.worktree_exists
    then refused (worktree_in_the_way (base_plan fresh_main src pm).dst_worktree)
    else planned (base_plan fresh_main src pm)

unfoldable pub plan_transfer : Option Info → DestState → PathMap → PlanResult
unfolding plan_repo
plan_transfer none dst pm = planned not_repo_plan
plan_transfer (some src) dst pm = plan_repo src dst pm
