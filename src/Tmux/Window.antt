-- ===== src/Tmux/Window.antt =====
-- Which session a window goes to (internal/tmuxx/window.go).
pub mod Chosen
use go_claude_teleport.Base.{
  ℕ, Bool, true, false, ◌&&◌, ◌||◌, not, Option, none, some, List, [], ◌∷◌, ◌++◌, Bytes, codes,
  bytes_eq, if◌then◌else◌,
}
use go_claude_teleport.Tmux.Quote.{text_lt, unvis_name}

-- `SessionInfo`.
pub record SessionInfo : Type 0 where
  pub name : Bytes
  pub group : Bytes

-- The loop of `BaseSession`, over the best name so far.
unfoldable pub base_from : Bytes → Bytes → List SessionInfo → Bytes × Bool
unfolding bytes_eq text_lt
base_from group best [] = (best, not (bytes_eq best []))
base_from group best (s ∷ ss) =
    let better : Bool = bytes_eq s.group group && (bytes_eq best [] || text_lt s.name best) in
    let rest = base_from group (if better then s.name else best) ss in
    if bytes_eq s.name group then (s.name, true) else rest

-- `BaseSession`.
unfoldable pub base_session : List SessionInfo → Bytes → Bytes × Bool
unfolding base_from
base_session ss group = base_from group [] ss

-- The first loop of `StoredSessionName`.
unfoldable pub is_stored : Bytes → List SessionInfo → Bool
unfolding bytes_eq
is_stored typed [] = false
is_stored typed (s ∷ ss) = bytes_eq s.name typed || is_stored typed ss

abbrev is_decoded : Option Bytes → Bytes → Bool
is_decoded none typed = false
is_decoded (some t) typed = bytes_eq t typed

-- Its second loop, over the decoded names.
unfoldable pub find_decoded : Bytes → List SessionInfo → Bytes
unfolding unvis_name bytes_eq
find_decoded typed [] = typed
find_decoded typed (s ∷ ss) =
    let rest = find_decoded typed ss in
    if is_decoded (unvis_name s.name) typed then s.name else rest

-- `StoredSessionName`.
unfoldable pub stored_session_name : List SessionInfo → Bytes → Bytes
unfolding is_stored find_decoded
stored_session_name ss typed = if is_stored typed ss then typed else find_decoded typed ss

-- `TmuxRef` (internal/session/resolve.go).
pub record TmuxRef : Type 0 where
  pub socket_path : Bytes
  pub session : Bytes
  pub window_id : Bytes
  pub pane_id : Bytes

-- `RefString`.
abbrev pub ref_string : TmuxRef → Bytes
ref_string r = r.session ++ b':' ∷ (r.window_id ++ b'.' ∷ r.pane_id)
