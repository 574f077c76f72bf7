-- ===== src/Git/Plan/Data.antt =====
-- What a plan is made from and what it holds (internal/gitx/plan.go, inspect.go, deststate.go).
use go_claude_teleport.Base.{ℤ, negsuc, Bool, ◌||◌, List, Bytes, length, ltb}

pub data Mode : Type 0 where
  not_repo fresh_main existing_main : Mode

-- `NoEntry`.
abbrev pub no_entry : ℤ
no_entry = negsuc 0

pub record Dirty : Type 0 where
  pub staged : List Bytes
  pub modified : List Bytes
  pub untracked : List Bytes
  pub deleted : List Bytes

-- `Info`.
pub record Info : Type 0 where
  pub root : Bytes
  pub common_dir : Bytes
  pub main_dir : Bytes
  pub is_linked : Bool
  pub worktree_name : Bytes
  pub branch : Bytes
  pub head : Bytes
  pub detached : Bool
  pub root_commit : Bytes
  pub dirty : Dirty
  pub submodules : List Bytes
  pub dirty_submodules : List Bytes
  pub other_worktrees : List Bytes

-- `DestState`.
pub record DestState : Type 0 where
  pub main_exists : Bool
  pub root_commit : Bytes
  pub ref_tips : List Bytes
  pub branch_tip : Bytes
  pub worktree_exists : Bool
  pub worktree_branch : Bytes
  pub worktree_detached : Bool
  pub clean : Bool
  pub branch_checked_out_elsewhere : Bytes
  pub branch_tip_reachable : Bool

pub record Plan : Type 0 where
  pub mode : Mode
  pub src_main : Bytes
  pub src_worktree : Bytes
  pub dst_main : Bytes
  pub dst_worktree : Bytes
  pub linked : Bool
  pub worktree_name : Bytes
  pub branch : Bytes
  pub tip : Bytes
  pub detached : Bool
  pub need_pack : Bool
  pub have_tips : List Bytes
  pub fast_forward : Bool
  pub dirty : Dirty
  pub index_rel : Bytes
  pub staged_blobs : List Bytes
  pub pack_entry_id : ℤ
  pub index_entry_id : ℤ
  pub dirty_entries : List (Bytes × ℤ)

-- `SetStagedBlobs`.
unfoldable pub set_staged_blobs : List Bytes → Plan → Plan
set_staged_blobs blobs p = record p {
  staged_blobs = blobs;
  need_pack = p.need_pack || ltb 0 (length blobs);
}

-- The calls of `refuse`, each with what its text prints.
pub data Refusal : Type 0 where
  dirty_submodules : List Bytes → Refusal
  worktree_in_the_way : Bytes → Refusal
  empty_repository : Bytes → Refusal
  other_repository : Bytes → Bytes → Bytes → Refusal
  not_fast_forward : Bytes → Bytes → Bytes → Refusal
  branch_elsewhere : Bytes → Bytes → Refusal
  no_working_tree : Bytes → Refusal
  session_detached : Bytes → Bytes → Bytes → Refusal
  checkout_detached : Bytes → Bytes → Refusal
  other_branch : Bytes → Bytes → Bytes → Refusal
  not_clean : Bytes → Refusal

pub data PlanResult : Type 0 where
  planned : Plan → PlanResult
  refused : Refusal → PlanResult
