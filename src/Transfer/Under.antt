-- ===== src/Transfer/Under.antt =====
-- Whether a path lies under a directory (internal/transfer/install.go, `underDir`).
use go_claude_teleport.Base.{
  ℕ, Bool, true, false, ◌||◌, not, [], ◌∷◌, ◌++◌, Bytes, bytes_eq, has_prefix, has_prefix-append,
  has_prefix→append, bytes_eq_iff, if◌then◌else◌, ◌≡◌, ◌⊎◌, ◌↔◌, inl, inr, sym, ap, arith,
  Bool-cases, if-false,
}
use mathlib.Core.Path.{subst}
use go_claude_teleport.FilePath.{slash, is_abs, clean}

-- `underDir`.
unfoldable pub under_dir : Bytes → Bytes → Bool
unfolding bytes_eq has_prefix is_abs clean
under_dir p dir =
    if bytes_eq dir [] || not (is_abs dir)
    then false
    else bytes_eq p (clean dir) || has_prefix p (clean dir ++ slash ∷ [])

-- The second half, for any directory.
below : Bytes → Bytes → Bool
below p d = bytes_eq p d || has_prefix p (d ++ slash ∷ [])

below_iff :
    (p d : Bytes)
    → (below p d ≡ true) ↔ ((p ≡ d) ⊎ ((rest : Bytes) × (p ≡ (d ++ slash ∷ []) ++ rest)))
unfolding below
below_iff p d = (split (Bool-cases (bytes_eq p d)), join)
  where
    split :
        (bytes_eq p d ≡ true) ⊎ (bytes_eq p d ≡ false)
        → bytes_eq p d || has_prefix p (d ++ slash ∷ []) ≡ true
        → (p ≡ d) ⊎ ((rest : Bytes) × (p ≡ (d ++ slash ∷ []) ++ rest))
    split (inl e) h = inl ((bytes_eq_iff p d).0 e)
    split (inr e) h = inr (has_prefix→append p (d ++ slash ∷ []) (rw e at h))

    join :
        (p ≡ d) ⊎ ((rest : Bytes) × (p ≡ (d ++ slash ∷ []) ++ rest))
        → bytes_eq p d || has_prefix p (d ++ slash ∷ []) ≡ true
    join (inl e) = ground (arith, bytes_eq_iff p d)
    join (inr (rest, e)) = ground (
      arith,
      subst (λ q. has_prefix q (d ++ slash ∷ []) ≡ true) (sym e)
          (has_prefix-append (d ++ slash ∷ []) rest),
    )

under_dir-below :
    (p : Bytes) (c : ℕ) (dir : Bytes)
    → is_abs (c ∷ dir) ≡ true
    → under_dir p (c ∷ dir) ≡ below p (clean (c ∷ dir))
unfolding under_dir below
under_dir-below p c dir abs =
    if-false (not (is_abs (c ∷ dir))) false (below p (clean (c ∷ dir))) (ap not abs)

not_abs : is_abs [] ≡ true → ⊥
unfolding is_abs
not_abs h = cc

-- A path lies under an absolute directory exactly when it is the cleaned directory, or continues it
-- behind a slash.
pub under_dir_iff :
    (p dir : Bytes)
    → is_abs dir ≡ true
    → (under_dir p dir ≡ true)
      ↔ ((p ≡ clean dir) ⊎ ((rest : Bytes) × (p ≡ (clean dir ++ slash ∷ []) ++ rest)))
under_dir_iff p [] abs = elim (not_abs abs) [ ]
under_dir_iff p (c ∷ dir) abs =
    subst
      (λ b. (b ≡ true) ↔ (
        (p ≡ clean (c ∷ dir)) ⊎ ((rest : Bytes) × (p ≡ (clean (c ∷ dir) ++ slash ∷ []) ++ rest))))
      (sym (under_dir-below p c dir abs)) (below_iff p (clean (c ∷ dir)))
