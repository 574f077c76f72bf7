-- ===== src/FilePath/Laws.antt =====
-- How `Clean` and `Split` work on a path that is put together from parts.
use go_claude_teleport.Base.{
  ℕ, Bool, List, [], ◌∷◌, ◌++◌, Bytes, ◌≡◌, ◌≢◌, refl, arith, Lacks, bytes_eq_iff,
}
use go_claude_teleport.FilePath.{
  slash, dot, dot_dot, cons_first, split_on, push_part, push_parts, is_abs, clean_stack,
}

cons_first-append :
    (c : ℕ) (ps qs : List Bytes) → ps ≢ [] → cons_first c (ps ++ qs) ≡ cons_first c ps ++ qs
unfolding cons_first
cons_first-append c [] qs h = absurd (h refl)
cons_first-append c (p ∷ ps) qs h = refl

split_on-ne-nil : (sep : ℕ) (s : Bytes) → split_on sep s ≢ []
unfolding split_on
split_on-ne-nil sep [] = cc
split_on-ne-nil sep (c ∷ s) = ground (arith, cons_first_ne c (split_on sep s))
  where
    cons_first_ne : (c : ℕ) (ps : List Bytes) → cons_first c ps ≢ []
    cons_first_ne c [] = cc
    cons_first_ne c (p ∷ ps) = cc

pub split_on-append :
    (sep : ℕ) (a b : Bytes) → split_on sep (a ++ sep ∷ b) ≡ split_on sep a ++ split_on sep b
unfolding split_on
split_on-append sep [] b = ground arith
split_on-append sep (c ∷ a) b = ground (
  arith,
  split_on-append sep a b,
  cons_first-append c (split_on sep a) (split_on sep b) (split_on-ne-nil sep a),
)

-- A text without the separator is one part.
pub split_on-Lacks : (sep : ℕ) (s : Bytes) → Lacks sep s → split_on sep s ≡ s ∷ []
unfolding split_on
split_on-Lacks sep [] h = refl
split_on-Lacks sep (c ∷ s) h = ground (arith, split_on-Lacks sep s)

pub push_parts-append :
    (rooted : Bool) (stack ps qs : List Bytes)
    → push_parts rooted stack (ps ++ qs) ≡ push_parts rooted (push_parts rooted stack ps) qs
unfolding push_parts
push_parts-append rooted stack [] qs = refl
push_parts-append rooted stack (p ∷ ps) qs =
    push_parts-append rooted (push_part rooted stack p) ps qs

-- A part that is a plain name is pushed.
pub push_part_plain :
    (rooted : Bool) (stack : List Bytes) (p : Bytes)
    → p ≢ []
    → p ≢ dot
    → p ≢ dot_dot
    → push_part rooted stack p ≡ p ∷ stack
unfolding push_part
push_part_plain rooted stack p h1 h2 h3 =
    ground (arith, bytes_eq_iff p [], bytes_eq_iff p dot, bytes_eq_iff p dot_dot)

is_abs-append : (a b : Bytes) → a ≢ [] → is_abs (a ++ b) ≡ is_abs a
unfolding is_abs
is_abs-append [] b h = absurd (h refl)
is_abs-append (c ∷ a) b h = refl

-- Joining a plain name to a path adds that one component: it cannot climb out of the path.
pub clean_stack-plain :
    (a p : Bytes)
    → a ≢ []
    → Lacks slash p
    → p ≢ []
    → p ≢ dot
    → p ≢ dot_dot
    → clean_stack (a ++ slash ∷ p) ≡ p ∷ clean_stack a
unfolding clean_stack
clean_stack-plain a p ha hp h1 h2 h3 =
    rw
      (
        is_abs-append a (slash ∷ p) ha,
        split_on-append slash a p,
        split_on-Lacks slash p hp,
        push_parts-append (is_abs a) [] (split_on slash a) (p ∷ []),
      )
      (push_part_plain (is_abs a) (push_parts (is_abs a) [] (split_on slash a)) p h1 h2 h3)
