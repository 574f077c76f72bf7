-- ===== src/Tests/Hosts.antt =====
-- The freezer's helper on concrete moments, and paths and trust on concrete hosts.
use mathlib.Core.List.{Memᴰ}
use go_claude_teleport.Ssh.Quote.{quote}
use go_claude_teleport.Ssh.Quote.Words.{sh_command, is_command, sh_command-quote}
use go_claude_teleport.Session.Prefix.{is_prefix, is_prefix_or_not}
use go_claude_teleport.Session.Prefix.Bytewise.{is_prefix_lem}
use go_claude_teleport.Tmux.Window.{SessionInfo, base_session}
use go_claude_teleport.FilePath.{is_abs, clean}
use go_claude_teleport.Session.Paths.{Paths, new_paths}
use go_claude_teleport.Transfer.Trust.{grants, grant_trust, reserved_paths}
use go_claude_teleport.Transfer.Trust.Granted.{grant_trust-Named}
use go_claude_teleport.Base.{
  has_prefix, ◌≢◌, ◌∷◌, Bytes, List, [], All, pos, true, false, some, codes, ◌≡◌, ◌⊎◌, refl,
}
use go_claude_teleport.Process.Freezer.{
  stop, continue, group, sent, Moment, Run, target_of, run_freezer_helper, owner_group,
}
use go_claude_teleport.Process.Freezer.Signals.{IsSame, IsSafeAt, run_freezer_helper-Safe}
use go_claude_teleport.Process.Freezer.Thaws.{run_freezer_helper-Thaws}

abbrev moment : Moment
moment = record {
  start_time = some (codes "77");
  pgid = some (pos 40);
  self_pgid = pos 50;
  killable = true;
}

-- The owner dies: the read of the pipe returns no bytes.
abbrev run : Run
run = record {
  at_start = moment;
  at_stop = moment;
  read_bytes = 0;
  read_fails = false;
  after_read = moment;
  at_thaw = moment;
}

run-stops :
    Memᴰ
      (sent stop (group (pos 40)))
      (run_freezer_helper (pos 40) (codes "77") (some (pos 60)) true run).0
unfolding run_freezer_helper
run-stops = Memᴰ.head refl

moment-IsSame : IsSame (codes "77") moment
moment-IsSame = ((λ e. cc), refl)

run_freezer_helper-Safe_example :
    ((stop ≡ stop)
      × IsSafeAt (pos 40) (codes "77") (owner_group (some (pos 60))) moment (group (pos 40)))
    ⊎ ((stop ≡ continue)
        × IsSafeAt (pos 40) (codes "77") (owner_group (some (pos 60))) moment (group (pos 40)))
run_freezer_helper-Safe_example =
    run_freezer_helper-Safe (pos 40) (codes "77") (some (pos 60)) true run stop (group (pos 40))
      run-stops

run_freezer_helper-Thaws_example :
    Memᴰ
      (sent continue (target_of (pos 40) (owner_group (some (pos 60))) moment))
      (run_freezer_helper (pos 40) (codes "77") (some (pos 60)) true run).0
    × ((run_freezer_helper (pos 40) (codes "77") (some (pos 60)) true run).1 ≡ true)
run_freezer_helper-Thaws_example =
    run_freezer_helper-Thaws (pos 40) (codes "77") (some (pos 60)) true run (group (pos 40))
      run-stops moment-IsSame moment-IsSame refl

abbrev host : Paths
host = record {
  home = codes "/home/b";
  config_dir = codes "/home/b/.claude";
  config_dir_from_env = false;
  global_json = codes "/home/b/.claude.json";
  data_dir = codes "/home/b/data";
  proc_root = codes "/proc";
}

new_host : (new_paths (codes "/home/b") [] [] true).global_json ≡ codes "/home/b/.claude.json"
unfolding new_paths
new_host = refl

host-grants : grant_trust true (codes "/home/b/src") (codes "/home/b/src/") [] host ≡ grants
unfolding grant_trust
host-grants = refl

grant_trust-Named_example :
    (true ≡ true)
    × (((is_abs (codes "/home/b/src") ≡ true) × (clean (codes "/home/b/src") ≡ codes "/home/b/src"))
        × (((a : Bytes) × (Memᴰ a (codes "/home/b/src/" ∷ [])
                × ((a ≢ []) × (clean a ≡ codes "/home/b/src"))))
            × All (λ f. (f ≡ []) ⊎ (codes "/home/b/src" ≢ clean f)) (reserved_paths host)))
grant_trust-Named_example =
    grant_trust-Named true (codes "/home/b/src") (codes "/home/b/src/") [] host host-grants

abbrev members : List SessionInfo
members =
    record { name = codes "main-2"; group = codes "main" }
    ∷ record { name = codes "main-1"; group = codes "main" }
    ∷ []

smallest : base_session members (codes "main") ≡ (codes "main-1", true)
unfolding base_session
smallest = refl

home-is_abs : is_abs (codes "/home/b/") ≡ true
unfolding is_abs
home-is_abs = refl

sh_command-quote_example :
    sh_command (quote (codes "echo" ∷ codes "it's; done" ∷ codes "A=b" ∷ []))
    ≡ some (codes "echo" ∷ codes "it's; done" ∷ codes "A=b" ∷ [])
unfolding is_command
sh_command-quote_example =
    sh_command-quote (codes "echo") (codes "it's; done" ∷ codes "A=b" ∷ []) refl

is_prefix_lem_example :
    is_prefix (codes "one") (codes "one two")
    ≡ is_prefix_or_not (has_prefix (codes "one two") (codes "one"))
is_prefix_lem_example = is_prefix_lem (codes "one") (codes "one two")
