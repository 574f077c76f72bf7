-- ===== src/Session/Paths.antt =====
-- The places on disk (internal/session/paths.go).
pub mod Munged
use go_claude_teleport.Base.{
  ℕ, Bool, true, false, ◌&&◌, ◌||◌, not, List, [], ◌∷◌, Bytes, codes, bytes_eq, ◌==◌, if◌then◌else◌,
}
use go_claude_teleport.FilePath.{slash, join}

-- One byte of `Munge`.
abbrev pub munge_byte : ℕ → ℕ
munge_byte c = if c == slash || c == b'.' then b'-' else c

-- `Munge`.
unfoldable pub munge : Bytes → Bytes
munge [] = []
munge (c ∷ s) = munge_byte c ∷ munge s

pub record Paths : Type 0 where
  pub home : Bytes
  pub config_dir : Bytes
  pub config_dir_from_env : Bool
  pub global_json : Bytes
  pub data_dir : Bytes
  pub proc_root : Bytes

-- `NewPaths`.
unfoldable pub new_paths : Bytes → Bytes → Bytes → Bool → Paths
unfolding bytes_eq join
new_paths home config_dir xdg_data_home from_env =
    let set : Bool = from_env && not (bytes_eq config_dir []) in
    let config : Bytes =
      if bytes_eq config_dir [] then join (home ∷ codes ".claude" ∷ []) else config_dir in
    let share : Bytes =
      if bytes_eq xdg_data_home []
      then join (home ∷ codes ".local" ∷ codes "share" ∷ [])
      else xdg_data_home in
    record {
      home = home;
      config_dir = config;
      config_dir_from_env = set;
      global_json =
          if set
          then join (config ∷ codes ".claude.json" ∷ [])
          else join (home ∷ codes ".claude.json" ∷ []);
      data_dir = join (share ∷ codes "claude-teleport" ∷ []);
      proc_root = codes "/proc";
    }

-- `ProjectsDir`, `SessionsDir`, `HistoryFile`, `ProjectDir`.
unfoldable pub projects_dir : Paths → Bytes
unfolding join
projects_dir p = join (p.config_dir ∷ codes "projects" ∷ [])

unfoldable pub sessions_dir : Paths → Bytes
unfolding join
sessions_dir p = join (p.config_dir ∷ codes "sessions" ∷ [])

unfoldable pub history_file : Paths → Bytes
unfolding join
history_file p = join (p.config_dir ∷ codes "history.jsonl" ∷ [])

unfoldable pub project_dir : Paths → Bytes → Bytes
unfolding join projects_dir munge
project_dir p cwd = join (projects_dir p ∷ munge cwd ∷ [])
