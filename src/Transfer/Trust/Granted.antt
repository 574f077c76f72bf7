-- ===== src/Transfer/Trust/Granted.antt =====
-- What a grant of trust says of its directory.
use mathlib.Core.List.{Memᴰ}
use go_claude_teleport.Base.{
  Bool, true, false, ◌&&◌, ◌||◌, not, Option, none, some, List, [], ◌∷◌, Bytes, bytes_eq,
  bytes_eq_iff, if◌then◌else◌, ◌≡◌, ◌≢◌, refl, sym, ◌∙◌, arith, All, ◌⊎◌, inl, inr, Bool-cases,
  if-true, if-false,
}
use go_claude_teleport.FilePath.{is_abs, clean}
use go_claude_teleport.Session.Paths.{Paths}
use go_claude_teleport.Transfer.Trust.{
  Decision, grants, unless_reserved, is_named, find_reserved, reserved_paths, grant_trust,
}

is_named-Mem :
    (cwd : Bytes) (names : List Bytes)
    → is_named cwd names ≡ true
    → (a : Bytes) × (Memᴰ a names × ((a ≢ []) × (clean a ≡ cwd)))
unfolding is_named
is_named-Mem cwd [] h = cc
is_named-Mem cwd (a ∷ names) h = elim (Bool-cases (not (bytes_eq a []) && bytes_eq (clean a) cwd)) [
  | inl t ↦
      (a, (Memᴰ.head refl, ((λ e. here_ne t e), (bytes_eq_iff (clean a) cwd).0 (here_same t))))
  | inr f ↦ let (x, (m, r)) = is_named-Mem cwd names (rw f at h) in (x, (Memᴰ.tail m, r))
]
  where
    here_ne : not (bytes_eq a []) && bytes_eq (clean a) cwd ≡ true → a ≡ [] → ⊥
    here_ne t e = ground (arith, bytes_eq_iff a [])

    here_same : not (bytes_eq a []) && bytes_eq (clean a) cwd ≡ true → bytes_eq (clean a) cwd ≡ true
    here_same t = ground arith

find_reserved-none :
    (cwd : Bytes) (fs : List Bytes)
    → find_reserved cwd fs ≡ none
    → All (λ f. (f ≡ []) ⊎ (cwd ≢ clean f)) fs
unfolding find_reserved
find_reserved-none cwd [] h = tt
find_reserved-none cwd (f ∷ fs) h =
    elim (Bool-cases (not (bytes_eq f []) && bytes_eq cwd (clean f))) [
      | inl t ↦
          elim (found (sym (if-true (not (bytes_eq f []) && bytes_eq cwd (clean f)) _ _ t) ∙ h)) [ ]
      | inr e ↦ (
        either (Bool-cases (bytes_eq f [])) e,
        find_reserved-none cwd fs
            (sym (if-false (not (bytes_eq f []) && bytes_eq cwd (clean f)) _ _ e) ∙ h),
      )
    ]
  where
    found : some f ≡ none → ⊥
    found z = cc

    differs :
        not (bytes_eq f []) && bytes_eq cwd (clean f) ≡ false
        → bytes_eq f [] ≡ false
        → cwd ≡ clean f
        → ⊥
    differs e ne same = ground (arith, bytes_eq_iff cwd (clean f))

    either :
        (bytes_eq f [] ≡ true) ⊎ (bytes_eq f [] ≡ false)
        → not (bytes_eq f []) && bytes_eq cwd (clean f) ≡ false
        → (f ≡ []) ⊎ (cwd ≢ clean f)
    either (inl t) e = inl ((bytes_eq_iff f []).0 t)
    either (inr ne) e = inr (λ same. differs e ne same)

-- A decision that is not a grant.
not_granted :
    (b : Bool) (d r : Decision)
    → d ≢ grants
    → (if b then d else r) ≡ grants
    → (b ≡ false) × (r ≡ grants)
not_granted true d r ne h = elim (ne h) [ ]
not_granted false d r ne h = (refl, h)

none-reserved : (o : Option Bytes) → unless_reserved o ≡ grants → o ≡ none
none-reserved none h = refl
none-reserved (some f) h = cc

-- Trust is granted only when the source trusts the directory, for a clean absolute path that is, up
-- to cleaning, the session's directory or one of the manifest's roots, and that is none of the
-- home, configuration and data directories nor the root of the file system.
pub grant_trust-Named :
    (trusted : Bool) (cwd project_cwd : Bytes) (roots : List Bytes) (p : Paths)
    → grant_trust trusted cwd project_cwd roots p ≡ grants
    → (trusted ≡ true)
      × (((is_abs cwd ≡ true) × (clean cwd ≡ cwd))
          × (((a : Bytes) × (Memᴰ a (project_cwd ∷ roots) × ((a ≢ []) × (clean a ≡ cwd))))
              × All (λ f. (f ≡ []) ⊎ (cwd ≢ clean f)) (reserved_paths p)))
unfolding grant_trust
grant_trust-Named trusted cwd project_cwd roots p h =
    let (t, h1) = not_granted (not trusted) _ _ (λ z. cc) h in
    let (c, h2) =
      not_granted (bytes_eq cwd [] || not (is_abs cwd) || not (bytes_eq (clean cwd) cwd)) _ _
        (λ z. cc) h1 in
    let (n, h3) = not_granted (not (is_named cwd (project_cwd ∷ roots))) _ _ (λ z. cc) h2 in
    (
      positive trusted t,
      (
        (
          middle (bytes_eq cwd []) (is_abs cwd) (bytes_eq (clean cwd) cwd) c,
          (bytes_eq_iff (clean cwd) cwd).0
              (last (bytes_eq cwd []) (is_abs cwd) (bytes_eq (clean cwd) cwd) c),
        ),
        (
          is_named-Mem cwd (project_cwd ∷ roots) (positive (is_named cwd (project_cwd ∷ roots)) n),
          find_reserved-none cwd (reserved_paths p)
              (none-reserved (find_reserved cwd (reserved_paths p)) h3),
        ),
      ),
    )
  where
    positive : (b : Bool) → not b ≡ false → b ≡ true
    positive b k = ground arith

    last : (a b c : Bool) → a || not b || not c ≡ false → c ≡ true
    last a b c k = ground arith

    middle : (a b c : Bool) → a || not b || not c ≡ false → b ≡ true
    middle a b c k = ground arith
