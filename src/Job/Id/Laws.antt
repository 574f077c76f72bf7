-- ===== src/Job/Id/Laws.antt =====
-- What an accepted job id looks like, and where its directory lies.
use go_claude_teleport.Base.{
  ℕ, suc, ◌≤◌, true, none, [], ◌∷◌, ◌++◌, append_assoc, Bytes, codes, length, ◌≡◌, ◌≢◌, ◌↔◌, refl,
  ap, arith, All, Lacks,
}
use mathlib.Core.List.{reverse}
use go_claude_teleport.FilePath.{slash, dot, dot_dot, clean_stack, is_abs, render, join, clean}
use go_claude_teleport.FilePath.Laws.{clean_stack-plain}
use go_claude_teleport.Job.Id.{max_id_len, is_id_byte, check_bytes, validate_id, dir, staging_dir}

-- Letters, digits, `.`, `_` and `-`, written out.
abbrev pub IsIdByte : ℕ → Type 0
IsIdByte c = is_id_byte c ≡ true

pub record IsPlainId (id : Bytes) : Type 0 where
  pub non_empty : id ≢ []
  pub short : length id ≤ max_id_len
  pub no_dot : (s : Bytes) → id ≢ b'.' ∷ s
  pub bytes : All IsIdByte id

check_bytes→All : (i : ℕ) (s : Bytes) → check_bytes i s ≡ none → All IsIdByte s
unfolding check_bytes
check_bytes→All i [] h = tt
check_bytes→All i (c ∷ s) h = ground (arith, check_bytes→All (suc i) s)

All→check_bytes : (i : ℕ) (s : Bytes) → All IsIdByte s → check_bytes i s ≡ none
unfolding check_bytes
All→check_bytes i [] h = refl
All→check_bytes i (c ∷ s) h = ground (arith, All→check_bytes (suc i) s)

-- `ValidateID` accepts exactly the plain ids: not empty, at most 128 bytes, no leading dot, and
-- letters, digits, `.`, `_` and `-` only.
validate_id_iff : (id : Bytes) → (validate_id id ≡ none) ↔ IsPlainId id
unfolding validate_id
validate_id_iff [] = (λ h. cc, λ h. absurd (h.non_empty refl))
validate_id_iff (c ∷ s) = (
  λ h. record {
    non_empty = cc;
    short = ground arith;
    no_dot = λ t e. ground arith;
    bytes = check_bytes→All 0 (c ∷ s) (ground arith);
  },
  λ h. ground (arith, All→check_bytes 0 (c ∷ s) h.bytes, h.no_dot s, h.short),
)

IsIdByte-slash : (c : ℕ) → IsIdByte c → c ≢ slash
unfolding is_id_byte
IsIdByte-slash c h = ground arith

All-IsIdByte-Lacks : (s : Bytes) → All IsIdByte s → Lacks slash s
All-IsIdByte-Lacks [] h = tt
All-IsIdByte-Lacks (c ∷ s) (hc, hs) = (IsIdByte-slash c hc, All-IsIdByte-Lacks s hs)

clean_stack-two :
    (path name id : Bytes)
    → path ≢ []
    → Lacks slash name × (name ≢ []) × (name ≢ dot) × (name ≢ dot_dot)
    → IsPlainId id
    → clean_stack (path ++ slash ∷ (name ++ slash ∷ id)) ≡ id ∷ name ∷ clean_stack path
clean_stack-two [] name id h plain p = absurd (h refl)
clean_stack-two (c ∷ s) name id h (lacks, n1, n2, n3) p =
    rw (← append_assoc (c ∷ s) (slash ∷ name) (slash ∷ id)) (
      rw
        (
          clean_stack-plain ((c ∷ s) ++ slash ∷ name) id (cc) (All-IsIdByte-Lacks id p.bytes)
              p.non_empty (p.no_dot []) (p.no_dot dot),
          clean_stack-plain (c ∷ s) name h lacks n1 n2 n3,
        )
        refl)

-- A plain id in a directory below the data directory: the path has exactly these two components
-- more than the data directory.
joined_id :
    (data_dir name id : Bytes)
    → data_dir ≢ []
    → Lacks slash name × (name ≢ []) × (name ≢ dot) × (name ≢ dot_dot)
    → IsPlainId id
    → join (data_dir ∷ name ∷ id ∷ [])
      ≡ render (is_abs data_dir) (reverse (id ∷ name ∷ clean_stack data_dir))
unfolding join clean
joined_id [] name id h plain p = absurd (h refl)
joined_id (c ∷ s) name id h plain p =
    ap (λ stack. render (is_abs (c ∷ s)) (reverse stack))
      (clean_stack-two (c ∷ s) name id h plain p)

-- However a peer chooses an id that `ValidateID` accepts, the job's directory and its staging
-- directory are direct children of jobs and of staging, and jobs and staging are direct children of
-- the data directory: the id adds one component, and cannot climb out.
pub validate_id-dir :
    (data_dir id : Bytes)
    → data_dir ≢ []
    → validate_id id ≡ none
    → (dir data_dir id
        ≡ render (is_abs data_dir) (reverse (id ∷ codes "jobs" ∷ clean_stack data_dir)))
      × (staging_dir data_dir id
          ≡ render (is_abs data_dir) (reverse (id ∷ codes "staging" ∷ clean_stack data_dir)))
unfolding dir staging_dir
validate_id-dir data_dir id h ok =
    let p = (validate_id_iff id).0 ok in
    (
      joined_id data_dir (codes "jobs") id h (omega arith, cc, cc, cc) p,
      joined_id data_dir (codes "staging") id h (omega arith, cc, cc, cc) p,
    )
