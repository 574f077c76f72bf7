-- ===== src/Tests/Sessions.antt =====
-- Path maps, the quoting of tmux and git plans on concrete values.
use mathlib.Core.List.{Memᴰ}
use go_claude_teleport.Base.{
  true, false, some, List, [], ◌∷◌, Bytes, codes, ◌≡◌, ◌↔◌, ◌⊎◌, refl, arith, All,
}
use go_claude_teleport.Session.PathMap.{
  Mapping, PathMap, new_path_map, apply_path, apply, is_path_byte,
}
use go_claude_teleport.Session.PathMap.Sorted.{new_path_map-IsSorted}
use go_claude_teleport.Session.PathMap.Longest.{Rewritten, apply_path-Rewritten}
use go_claude_teleport.Session.PathMap.Occurrences.{HasFrom, apply_total}
use go_claude_teleport.Session.PathMap.OnePath.{IsPathText, apply-apply_path}
use go_claude_teleport.Tmux.Quote.{quote, unvis_name}
use go_claude_teleport.Tmux.Quote.RoundTrip.{read_argument, read_argument-quote}
use go_claude_teleport.Tmux.Quote.Names.{vis, unvis_name-vis}
use go_claude_teleport.Git.Plan.{
  Info, DestState, Plan, no_dirty, planned, plan_transfer, existing_main, base_plan,
}
use go_claude_teleport.Git.Plan.Accepts.{Accepts, plan_transfer_iff, with_branch}
use go_claude_teleport.Git.Plan.Pack.{plan_transfer-NoPack}

abbrev homes : List Mapping
homes =
    record { from = codes "/home/a"; to = codes "/home/b" }
    ∷ record { from = codes "/home/a/src"; to = codes "/work" }
    ∷ []

abbrev sorted_homes : PathMap
sorted_homes =
    record { from = codes "/home/a/src"; to = codes "/work" }
    ∷ record { from = codes "/home/a"; to = codes "/home/b" }
    ∷ []

homes-new : new_path_map homes ≡ some sorted_homes
unfolding new_path_map
homes-new = refl

apply_path-Rewritten_example : Rewritten sorted_homes (codes "/home/a/src/x")
apply_path-Rewritten_example =
    apply_path-Rewritten sorted_homes (codes "/home/a/src/x")
      (new_path_map-IsSorted homes homes-new).0

sorted_homes-HasFrom : All HasFrom sorted_homes
sorted_homes-HasFrom = (omega arith, (omega arith, tt))

apply_total_example : (out : Bytes) × (apply sorted_homes (codes "see /home/a/src/x.") ≡ some out)
apply_total_example = apply_total sorted_homes (codes "see /home/a/src/x.") sorted_homes-HasFrom

work_path : IsPathText (codes "/home/a/src/x")
unfolding is_path_byte
work_path = (
  refl,
  (
    refl,
    (refl, (refl, (refl, (refl, (refl, (refl, (refl, (refl, (refl, (refl, (refl, tt))))))))))),
  ),
)

apply-apply_path_example :
    apply sorted_homes (codes "/home/a/src/x")
    ≡ some (apply_path sorted_homes (codes "/home/a/src/x"))
apply-apply_path_example =
    apply-apply_path sorted_homes (codes "home/a/src/x") work_path sorted_homes-HasFrom
      ((λ e. cc), ((λ e. cc), tt))

read_argument-quote_example : read_argument (quote (codes "a'b $x")) ≡ some (codes "a'b $x")
read_argument-quote_example = read_argument-quote (codes "a'b $x")

unvis_name-vis_example : unvis_name (vis (codes "a\\b")) ≡ some (codes "a\\b")
unvis_name-vis_example = unvis_name-vis (codes "a\\b") (
  (omega arith, omega arith, refl),
  ((omega arith, omega arith, refl), ((omega arith, omega arith, refl), tt)),
)

abbrev source : Info
source = record {
  root = codes "/src";
  common_dir = codes "/src/.git";
  main_dir = codes "/src";
  is_linked = false;
  worktree_name = [];
  branch = codes "main";
  head = codes "bbb";
  detached = false;
  root_commit = codes "000";
  dirty = no_dirty;
  submodules = [];
  dirty_submodules = [];
  other_worktrees = [];
}

abbrev behind : DestState
behind = record {
  main_exists = true;
  root_commit = codes "000";
  ref_tips = codes "aaa" ∷ [];
  branch_tip = codes "aaa";
  worktree_exists = true;
  worktree_branch = codes "main";
  worktree_detached = false;
  clean = true;
  branch_checked_out_elsewhere = [];
  branch_tip_reachable = true;
}

-- The destination that is up to date already.
abbrev level : DestState
level = record behind { ref_tips = codes "bbb" ∷ []; branch_tip = codes "bbb" }

behind-plan :
    plan_transfer (some source) behind []
    ≡ planned (with_branch behind (base_plan existing_main source []) (true, true))
unfolding plan_transfer
behind-plan = refl

level-plan :
    plan_transfer (some source) level []
    ≡ planned (with_branch level (base_plan existing_main source []) (false, false))
unfolding plan_transfer
level-plan = refl

plan_transfer_iff_example :
    ((q : Plan) × (plan_transfer (some source) behind [] ≡ planned q)) ↔ Accepts source behind
plan_transfer_iff_example = plan_transfer_iff source behind []

plan_transfer-NoPack_example :
    ((false ≡ true) × Memᴰ (codes "bbb") (codes "bbb" ∷ [])) ⊎ (codes "bbb" ≡ codes "bbb")
plan_transfer-NoPack_example =
    plan_transfer-NoPack source level []
      (with_branch level (base_plan existing_main source []) (false, false)) refl level-plan refl
