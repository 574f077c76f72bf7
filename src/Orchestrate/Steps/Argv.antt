-- ===== src/Orchestrate/Steps/Argv.antt =====
-- The command lines that are typed into panes (internal/orchestrate/placeholder_argv.go).
use go_claude_teleport.Base.{
  Bool, false, List, [], ◌∷◌, ◌++◌, Bytes, codes, bytes_eq, if◌then◌else◌,
}

abbrev option_of : Bytes → Bytes → List Bytes
option_of flag [] = []
option_of flag (c ∷ s) = flag ∷ (c ∷ s) ∷ []

-- `PlaceholderArgv`.
unfoldable pub placeholder_argv : Bytes → Bytes → Bool → Bytes → Bytes → List Bytes
unfolding bytes_eq
placeholder_argv id saved_output now teleported_to teleported_at =
    (codes "claude-teleport" ∷ codes "placeholder" ∷ codes "--resume" ∷ id ∷ [])
    ++ option_of (codes "--saved-output") saved_output
    ++ (if now then codes "--now" ∷ [] else [])
    ++ (if bytes_eq teleported_to []
        then []
        else option_of (codes "--teleported-to") teleported_to
          ++ option_of (codes "--teleported-at") teleported_at)

-- `SuspendArgv`.
unfoldable pub suspend_argv : Bytes → Bytes → Bool → List Bytes
unfolding placeholder_argv
suspend_argv id saved_output has_claude_resume =
    if has_claude_resume
    then codes "claude-resume" ∷ id ∷ option_of (codes "--saved-output") saved_output
    else placeholder_argv id saved_output false [] []
