-- ===== src/Transfer/Trust.antt =====
-- Whether an installation grants the first-run trust of a directory (internal/transfer/install.go,
-- `grantTrust`).
pub mod Granted
use go_claude_teleport.Base.{
  ℕ, Bool, true, false, ◌&&◌, ◌||◌, not, Option, none, some, List, [], ◌∷◌, Bytes, bytes_eq,
  if◌then◌else◌,
}
use go_claude_teleport.FilePath.{slash, is_abs, clean}
use go_claude_teleport.Session.Paths.{Paths}

-- What `grantTrust` decides: nothing to do, one of its refusals, or the call of `GrantProjectTrust`.
pub data Decision : Type 0 where
  untrusted : Decision
  not_clean : Decision
  not_named : Decision
  reserved : Bytes → Decision
  grants : Decision

-- The loop over the paths that the manifest names.
unfoldable pub is_named : Bytes → List Bytes → Bool
unfolding bytes_eq clean
is_named cwd [] = false
is_named cwd (a ∷ rest) = (not (bytes_eq a []) && bytes_eq (clean a) cwd) || is_named cwd rest

-- The loop over the directories that are never trusted.
unfoldable pub find_reserved : Bytes → List Bytes → Option Bytes
unfolding bytes_eq clean
find_reserved cwd [] = none
find_reserved cwd (f ∷ fs) =
    if not (bytes_eq f []) && bytes_eq cwd (clean f) then some f else find_reserved cwd fs

abbrev pub reserved_paths : Paths → List Bytes
reserved_paths p = p.home ∷ p.config_dir ∷ p.data_dir ∷ (slash ∷ []) ∷ []

abbrev pub unless_reserved : Option Bytes → Decision
unless_reserved none = grants
unless_reserved (some f) = reserved f

-- `grantTrust`.
unfoldable pub grant_trust : Bool → Bytes → Bytes → List Bytes → Paths → Decision
unfolding bytes_eq is_abs clean is_named find_reserved
grant_trust source_trusted cwd project_cwd roots p =
    if not source_trusted
    then untrusted
    else if bytes_eq cwd [] || not (is_abs cwd) || not (bytes_eq (clean cwd) cwd)
    then not_clean
    else if not (is_named cwd (project_cwd ∷ roots))
    then not_named
    else unless_reserved (find_reserved cwd (reserved_paths p))
