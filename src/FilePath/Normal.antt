-- ===== src/FilePath/Normal.antt =====
-- The components that `Clean` leaves: plain names, but for `..` at the front of a relative path.
use mathlib.Core.Path.{subst}
use go_claude_teleport.Base.{
  ℕ, Bool, true, false, ◌||◌, List, [], ◌∷◌, Bytes, bytes_eq, bytes_eq_iff, ◌≡◌, ◌≢◌, refl, sym,
  inl, inr, arith, Lacks, All, Bool-cases, ◌==◌, if◌then◌else◌,
}
use go_claude_teleport.FilePath.{
  slash, dot, dot_dot, cons_first, split_on, back_out, push_part, push_parts, is_abs, clean_stack,
}

-- A component: it holds no slash, and it is neither empty nor a dot.
unfoldable pub IsPart : Bytes → Type 0
IsPart p = Lacks slash p × (p ≢ []) × (p ≢ dot)

-- A `..` stands over nothing but `..`, in a relative path.
unfoldable pub IsBase : Bool → List Bytes → Type 0
IsBase rooted below = (rooted ≡ false) × All (λ q. q ≡ dot_dot) below

unfoldable pub IsNormal : Bool → List Bytes → Type 0
IsNormal rooted [] = Unit
IsNormal rooted (p ∷ below) =
    IsPart p × ((p ≡ dot_dot) → IsBase rooted below) × IsNormal rooted below

dot_dot-IsPart : IsPart dot_dot
unfolding IsPart
dot_dot-IsPart = ((cc, (cc, tt)), cc, cc)

back_out-IsNormal :
    (rooted : Bool) (stack : List Bytes)
    → IsNormal rooted stack
    → IsNormal rooted (back_out rooted stack)
unfolding IsNormal IsBase back_out
back_out-IsNormal true [] h = tt
back_out-IsNormal false [] h = (dot_dot-IsPart, λ e. (refl, tt), tt)
back_out-IsNormal rooted (top ∷ below) (part, base, rest) =
    elim (Bool-cases (bytes_eq top dot_dot)) [
      | inl e ↦
          let d : top ≡ dot_dot = (bytes_eq_iff top dot_dot).0 e in
          subst (λ b. IsNormal rooted (if b then dot_dot ∷ top ∷ below else below)) (sym e)
            (dot_dot-IsPart, λ q. ((base d).0, (d, (base d).1)), (part, base, rest))
      | inr e ↦
          subst (λ b. IsNormal rooted (if b then dot_dot ∷ top ∷ below else below)) (sym e) rest
    ]

push_part-IsNormal :
    (rooted : Bool) (stack : List Bytes) (p : Bytes)
    → Lacks slash p
    → IsNormal rooted stack
    → IsNormal rooted (push_part rooted stack p)
unfolding push_part IsNormal IsPart
push_part-IsNormal rooted stack p lacks h = elim (Bool-cases (bytes_eq p [] || bytes_eq p dot)) [
  | inl e ↦ subst (λ b. IsNormal rooted (if b then stack else other)) (sym e) h
  | inr e ↦
      subst (λ b. IsNormal rooted (if b then stack else other)) (sym e)
        (elim (Bool-cases (bytes_eq p dot_dot)) [
          | inl d ↦
              subst (λ b. IsNormal rooted (if b then back_out rooted stack else p ∷ stack)) (sym d)
                (back_out-IsNormal rooted stack h)
          | inr d ↦
              subst (λ b. IsNormal rooted (if b then back_out rooted stack else p ∷ stack)) (sym d)
                (
                  (
                    lacks,
                    ground (arith, bytes_eq_iff p [], bytes_eq_iff p dot),
                    ground (arith, bytes_eq_iff p [], bytes_eq_iff p dot),
                  ),
                  λ q. absurd (ground (arith, bytes_eq_iff p dot_dot)),
                  h,
                )
        ])
]
  where
    other : List Bytes
    other = if bytes_eq p dot_dot then back_out rooted stack else p ∷ stack

push_parts-IsNormal :
    (rooted : Bool) (stack parts : List Bytes)
    → All (Lacks slash) parts
    → IsNormal rooted stack
    → IsNormal rooted (push_parts rooted stack parts)
unfolding push_parts
push_parts-IsNormal rooted stack [] lacks h = h
push_parts-IsNormal rooted stack (p ∷ parts) (l, lacks) h =
    push_parts-IsNormal rooted (push_part rooted stack p) parts lacks
      (push_part-IsNormal rooted stack p l h)

split_on-Lacks-All : (s : Bytes) → All (Lacks slash) (split_on slash s)
unfolding split_on
split_on-Lacks-All [] = (tt, tt)
split_on-Lacks-All (c ∷ s) = elim (Bool-cases (c == slash)) [
  | inl e ↦
      subst
        (λ b.
          All (Lacks slash) (if b then [] ∷ split_on slash s else cons_first c (split_on slash s)))
        (sym e) (tt, split_on-Lacks-All s)
  | inr e ↦
      subst
        (λ b.
          All (Lacks slash) (if b then [] ∷ split_on slash s else cons_first c (split_on slash s)))
        (sym e) (first c (split_on slash s) (ground arith) (split_on-Lacks-All s))
]
  where
    first :
        (c : ℕ) (ps : List Bytes)
        → c ≢ slash
        → All (Lacks slash) ps
        → All (Lacks slash) (cons_first c ps)
    first c [] ne h = ((ne, tt), tt)
    first c (p ∷ ps) ne (h, hs) = ((ne, h), hs)

pub clean_stack-IsNormal : (p : Bytes) → IsNormal (is_abs p) (clean_stack p)
unfolding clean_stack IsNormal
clean_stack-IsNormal p =
    push_parts-IsNormal (is_abs p) [] (split_on slash p) (split_on-Lacks-All p) tt
