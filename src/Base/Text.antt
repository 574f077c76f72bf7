-- ===== src/Base/Text.antt =====
-- Go strings: byte strings as lists of numbers, with the tests of the packages strings and bytes.
use Prim.Native.Nat.{ℕ}
use Prim.Native.Char.{code}
use Prim.Native.String.{String}
use mathlib.Core.Path.{◌≡◌, refl, subst}
use mathlib.Core.Logic.{◌↔◌, ◌≢◌, inl, inr}
use mathlib.Core.Bool.{Bool, true, false, ◌&&◌, ◌||◌}
use mathlib.Core.List.{List, [], ◌∷◌, ◌++◌}
use native.Mathlib.Omega.{arith}
use go_claude_teleport.Base.Tests.{◌==◌, Bool-cases}
use go_claude_teleport.Base.Lists.{All}

abbrev pub Bytes : Type 0
Bytes = List ℕ

-- The code points of a literal: its bytes, when the text is ASCII.
abbrev pub codes : String → Bytes
codes String.[] = []
codes (String.◌∷◌ c s) = code c ∷ codes s

-- `a == b` on strings.
unfoldable pub bytes_eq : Bytes → Bytes → Bool
bytes_eq [] [] = true
bytes_eq [] (b ∷ t) = false
bytes_eq (a ∷ s) [] = false
bytes_eq (a ∷ s) (b ∷ t) = (a == b) && bytes_eq s t

-- `strings.HasPrefix(s, p)`.
unfoldable pub has_prefix : Bytes → Bytes → Bool
has_prefix s [] = true
has_prefix [] (b ∷ p) = false
has_prefix (a ∷ s) (b ∷ p) = (a == b) && has_prefix s p

-- `strings.HasSuffix(s, p)`: some tail of `s` is `p`.
unfoldable pub has_suffix : Bytes → Bytes → Bool
unfolding bytes_eq
has_suffix [] p = bytes_eq [] p
has_suffix (a ∷ s) p = bytes_eq (a ∷ s) p || has_suffix s p

-- Membership of a byte, of a string in a list of strings.
unfoldable pub has_byte : ℕ → Bytes → Bool
has_byte b [] = false
has_byte b (a ∷ s) = (a == b) || has_byte b s

unfoldable pub has_text : Bytes → List Bytes → Bool
unfolding bytes_eq
has_text t [] = false
has_text t (s ∷ ss) = bytes_eq s t || has_text t ss

abbrev pub Lacks : ℕ → Bytes → Type 0
Lacks b = All (λ c. c ≢ b)

pub bytes_eq_refl : (s : Bytes) → bytes_eq s s ≡ true
unfolding bytes_eq
bytes_eq_refl [] = refl
bytes_eq_refl (a ∷ s) = ground (arith, bytes_eq_refl s)

pub bytes_eq→eq : (s t : Bytes) → bytes_eq s t ≡ true → s ≡ t
unfolding bytes_eq
bytes_eq→eq [] [] h = refl
bytes_eq→eq [] (b ∷ t) h = cc
bytes_eq→eq (a ∷ s) [] h = cc
bytes_eq→eq (a ∷ s) (b ∷ t) h = ground (arith, bytes_eq→eq s t)

pub bytes_eq_iff : (s t : Bytes) → (bytes_eq s t ≡ true) ↔ (s ≡ t)
bytes_eq_iff s t = (bytes_eq→eq s t, λ e. rw (← e) (bytes_eq_refl s))

pub has_prefix-append : (p s : Bytes) → has_prefix (p ++ s) p ≡ true
unfolding has_prefix
has_prefix-append [] s = refl
has_prefix-append (a ∷ p) s = ground (arith, has_prefix-append p s)

-- A prefix leaves a rest.
pub has_prefix→append : (s p : Bytes) → has_prefix s p ≡ true → (t : Bytes) × (s ≡ p ++ t)
unfolding has_prefix
has_prefix→append s [] h = (s, refl)
has_prefix→append [] (b ∷ p) h = cc
has_prefix→append (a ∷ s) (b ∷ p) h =
    let (t, e) = has_prefix→append s p (ground arith) in (t, ground arith)

-- What holds of every string of a list holds of one that is in it.
pub has_text-All {κ} :
    (P : Bytes → Type κ) (t : Bytes) (ss : List Bytes) → All P ss → has_text t ss ≡ true → P t
unfolding has_text
has_text-All P t [] ps h = cc
has_text-All P t (s ∷ ss) (p, ps) h = elim (Bool-cases (bytes_eq s t)) [
  | inl e ↦ subst P (bytes_eq→eq s t e) p
  | inr e ↦ has_text-All P t ss ps (rw e at h)
]
