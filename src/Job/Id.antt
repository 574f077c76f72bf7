-- ===== src/Job/Id.antt =====
-- Job ids (internal/job/id.go) and the directories that are named by them
-- (internal/job/journal.go).
pub mod Laws
use go_claude_teleport.Base.{
  ℕ, suc, ◌<◌, Bool, true, false, ◌&&◌, ◌||◌, Option, none, some, List, [], ◌∷◌, ◌++◌, Bytes, codes,
  length, ltb, leb, ◌==◌, if◌then◌else◌,
}
use go_claude_teleport.FilePath.{join}

-- `MaxIDLen`.
abbrev pub max_id_len : ℕ
max_id_len = 128

-- The four errors of `ValidateID`, without their texts.
pub data IdError : Type 0 where
  empty_id : IdError
  id_too_long : ℕ → IdError
  leading_dot : IdError
  bad_id_byte : ℕ → ℕ → IdError

-- The bytes that an id may hold.
unfoldable pub is_id_byte : ℕ → Bool
is_id_byte c =
    c == b'-'
    || c == b'.'
    || c == b'_'
    || (leb b'0' c && leb c b'9')
    || (leb b'a' c && leb c b'z')
    || (leb b'A' c && leb c b'Z')

-- The loop over the bytes from index `i`.
unfoldable pub check_bytes : ℕ → Bytes → Option IdError
unfolding is_id_byte
check_bytes i [] = none
check_bytes i (c ∷ s) =
    let rest = check_bytes (suc i) s in if is_id_byte c then rest else some (bad_id_byte c i)

-- `ValidateID`: no error is `none`.
unfoldable pub validate_id : Bytes → Option IdError
unfolding check_bytes
validate_id [] = some empty_id
validate_id (c ∷ s) =
    if ltb max_id_len (length (c ∷ s))
    then some (id_too_long (length (c ∷ s)))
    else if c == b'.'
    then some leading_dot
    else check_bytes 0 (c ∷ s)

-- `Dir` and `StagingDir`.
unfoldable pub dir : Bytes → Bytes → Bytes
unfolding join
dir data_dir id = join (data_dir ∷ codes "jobs" ∷ id ∷ [])

unfoldable pub staging_dir : Bytes → Bytes → Bytes
unfolding join
staging_dir data_dir id = join (data_dir ∷ codes "staging" ∷ id ∷ [])
