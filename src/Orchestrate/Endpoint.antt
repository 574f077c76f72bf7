-- ===== src/Orchestrate/Endpoint.antt =====
-- What the steps use of the two endpoints (internal/remote/endpoint.go): the calls are functions over
-- a world that holds both hosts. Of a remote error the code is kept, as far as the steps ask for it.
use go_claude_teleport.Base.{ℤ, Bool, Option, List, [], ◌∷◌, Bytes, codes, has_text}
use go_claude_teleport.Tmux.Window.{SessionInfo, TmuxRef}

pub data Code : Type 0 where
  not_found unavailable conflict other_code : Code

pub data Reply {ℓ} (A : Type ℓ) : Type ℓ where
  answer : A → Reply A
  remote_error : Code → Reply A

pub data Side : Type 0 where
  source destination : Side

-- `Registry` (internal/session/registry.go), the fields that the steps read.
pub record Registry : Type 0 where
  pub pid : ℤ
  pub proc_start : Bytes
  pub status : Bytes
  pub tmux : Bytes

-- `PaneState`: the command in the foreground, the screen, and the command's arguments.
pub record PaneState : Type 0 where
  pub command : Bytes
  pub content : List Bytes
  pub argv : List Bytes

-- `Plan` (internal/tmuxx): the socket and the group of the window to open.
pub record WindowPlan : Type 0 where
  pub socket_path : Bytes
  pub group : Bytes

-- `shells` and `IsShell` (internal/tmuxx/pane.go).
abbrev pub shells : List Bytes
shells = codes "bash" ∷ codes "zsh" ∷ codes "sh" ∷ codes "fish" ∷ codes "dash" ∷ []

unfoldable pub is_shell : Bytes → Bool
unfolding has_text
is_shell comm = has_text comm shells

-- The calls. `has_trust_prompt` and `is_placeholder` are the tests of a screen and of arguments;
-- `wait_source_idle` is the wait for the source's prompt under `!`.
pub record Hosts (Plan : Type 0) : Type 1 where
  pub World : Type 0
  pub claude_status : Side → World → Reply (Option Registry) × World
  pub pane_state : Side → TmuxRef → World → Reply PaneState × World
  pub exit_claude : Side → Option TmuxRef → ℤ → Bytes → World → Reply (Unit {0}) × World
  pub thaw : ℤ → Option TmuxRef → World → Reply (Unit {0}) × World
  pub freeze : ℤ → Bytes → Option TmuxRef → World → Reply (Unit {0}) × World
  pub type_command : Side → TmuxRef → List Bytes → World → Reply (Unit {0}) × World
  pub kill_window : TmuxRef → World → Reply (Unit {0}) × World
  pub tmux_sessions : Bytes → World → Reply (List SessionInfo) × World
  pub open_window : WindowPlan → World → Reply TmuxRef × World
  pub start_claude : TmuxRef → List Bytes → World → Reply (Unit {0}) × World
  pub confirm_claude : TmuxRef → Bool → World → Reply Registry × World
  pub run_pty_resume : Bytes → World → Reply (Unit {0}) × World
  pub record_history : Side → World → Reply (Unit {0}) × World
  pub cleanup : Side → World → Reply (Unit {0}) × World
  pub save_journal : Plan → World → Reply (Unit {0}) × World
  pub journal_put : Side → Plan → World → Reply (Unit {0}) × World
  pub wait_source_idle : World → Reply (Unit {0}) × World
  pub now_text : World → Bytes
  pub has_trust_prompt : List Bytes → Bool
  pub is_placeholder : List Bytes → Bool
