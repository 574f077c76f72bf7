-- ===== src/FilePath/Idempotent.antt =====
-- `Clean` is idempotent.
use mathlib.Core.List.{reverse, reverse-cons}
use mathlib.Core.Path.{subst}
use go_claude_teleport.Base.{
  Bool, true, false, List, [], ◌∷◌, ◌++◌, Bytes, bytes_eq, bytes_eq_iff, ◌≡◌, refl, sym, ap, ◌∙◌,
  inl, inr, arith, All, All-append, Bool-cases,
}
use go_claude_teleport.FilePath.{
  slash, dot, dot_dot, split_on, join_with, back_out, push_part, push_parts, is_abs, clean_stack,
  render, clean,
}
use go_claude_teleport.FilePath.Laws.{split_on-append, split_on-Lacks, push_parts-append}
use go_claude_teleport.FilePath.Normal.{IsPart, IsBase, IsNormal, clean_stack-IsNormal}

-- Pushing the components again, from the first one, gives the same stack.
back_out-base :
    (below : List Bytes) → All (λ q. q ≡ dot_dot) below → back_out false below ≡ dot_dot ∷ below
unfolding back_out
back_out-base [] h = refl
back_out-base (q ∷ qs) (e, h) = ground (arith, bytes_eq_iff q dot_dot)

push_part-again :
    (rooted : Bool) (p : Bytes) (below : List Bytes)
    → IsNormal rooted (p ∷ below)
    → push_part rooted below p ≡ p ∷ below
unfolding push_part IsNormal IsPart IsBase
push_part-again rooted p below ((lacks, ne, nd), base, rest) =
    elim (Bool-cases (bytes_eq p dot_dot)) [
      | inl e ↦
          let d : p ≡ dot_dot = (bytes_eq_iff p dot_dot).0 e in
          ground (
            arith,
            bytes_eq_iff p [],
            bytes_eq_iff p dot,
            (base d).0,
            back_out-base below (base d).1,
          )
      | inr e ↦ ground (arith, bytes_eq_iff p [], bytes_eq_iff p dot)
    ]

push_parts-again :
    (rooted : Bool) (stack : List Bytes)
    → IsNormal rooted stack
    → push_parts rooted [] (reverse stack) ≡ stack
unfolding push_parts IsNormal
push_parts-again rooted [] h = refl
push_parts-again rooted (p ∷ below) h =
    ap (push_parts rooted []) (reverse-cons p below)
    ∙ push_parts-append rooted [] (reverse below) (p ∷ [])
    ∙ ap (λ st. push_part rooted st p) (push_parts-again rooted below h.2)
    ∙ push_part-again rooted p below h

-- The parts of a rendered path.
Parts : List Bytes → Type 0
Parts = All IsPart

IsNormal-Parts :
    (rooted : Bool) (stack : List Bytes) → IsNormal rooted stack → Parts (reverse stack)
unfolding IsNormal Parts
IsNormal-Parts rooted [] h = tt
IsNormal-Parts rooted (p ∷ below) (part, base, rest) =
    subst Parts (sym (reverse-cons p below))
      (All-append IsPart (reverse below) (p ∷ []) (IsNormal-Parts rooted below rest) (part, tt))

split_on-join :
    (p : Bytes) (ps : List Bytes)
    → Parts (p ∷ ps)
    → split_on slash (join_with slash (p ∷ ps)) ≡ p ∷ ps
unfolding join_with Parts IsPart
split_on-join p [] ((lacks, ne, nd), h) = split_on-Lacks slash p lacks
split_on-join p (q ∷ ps) ((lacks, ne, nd), h) =
    split_on-append slash p (join_with slash (q ∷ ps))
    ∙ ap (λ rest. split_on slash p ++ rest) (split_on-join q ps h)
    ∙ ap (λ first. first ++ q ∷ ps) (split_on-Lacks slash p lacks)

split_on-slash : (s : Bytes) → split_on slash (slash ∷ s) ≡ [] ∷ split_on slash s
unfolding split_on
split_on-slash s = refl

relative : (p : Bytes) (ps : List Bytes) → IsPart p → is_abs (join_with slash (p ∷ ps)) ≡ false
unfolding is_abs join_with IsPart
relative [] ps (lacks, ne, nd) = absurd (ne refl)
relative (c ∷ p) [] ((lc, lacks), ne, nd) = ground arith
relative (c ∷ p) (q ∷ ps) ((lc, lacks), ne, nd) = ground arith

push_parts_nil :
    (rooted : Bool) (ps : List Bytes) → push_parts rooted [] ([] ∷ ps) ≡ push_parts rooted [] ps
unfolding push_parts push_part bytes_eq
push_parts_nil rooted ps = refl

is_abs-render : (rooted : Bool) (ps : List Bytes) → Parts ps → is_abs (render rooted ps) ≡ rooted
unfolding render is_abs Parts
is_abs-render true ps h = refl
is_abs-render false [] h = refl
is_abs-render false (p ∷ ps) (h, hs) = relative p ps h

push_parts-render :
    (rooted : Bool) (ps : List Bytes)
    → Parts ps
    → push_parts rooted [] (split_on slash (render rooted ps)) ≡ push_parts rooted [] ps
unfolding render split_on push_parts
push_parts-render true [] h = refl
push_parts-render true (p ∷ ps) h =
    ap (push_parts true []) (split_on-slash (join_with slash (p ∷ ps)))
    ∙ push_parts_nil true (split_on slash (join_with slash (p ∷ ps)))
    ∙ ap (push_parts true []) (split_on-join p ps h)
push_parts-render false [] h = refl
push_parts-render false (p ∷ ps) h = ap (push_parts false []) (split_on-join p ps h)

-- The components of a cleaned path are those of the path.
pub clean_stack-clean : (p : Bytes) → clean_stack (clean p) ≡ clean_stack p
unfolding clean clean_stack
clean_stack-clean p =
    let rooted = is_abs p in
    let n : IsNormal rooted (clean_stack p) = clean_stack-IsNormal p in
    let parts : Parts (reverse (clean_stack p)) = IsNormal-Parts rooted (clean_stack p) n in
    ap (λ b. push_parts b [] (split_on slash (clean p)))
      (is_abs-render rooted (reverse (clean_stack p)) parts)
    ∙ push_parts-render rooted (reverse (clean_stack p)) parts
    ∙ push_parts-again rooted (clean_stack p) n

pub is_abs-clean : (p : Bytes) → is_abs (clean p) ≡ is_abs p
unfolding clean
is_abs-clean p =
    is_abs-render (is_abs p) (reverse (clean_stack p))
      (IsNormal-Parts (is_abs p) (clean_stack p) (clean_stack-IsNormal p))

-- Cleaning twice is cleaning once.
pub clean-clean : (p : Bytes) → clean (clean p) ≡ clean p
unfolding clean
clean-clean p =
    ap (λ b. render b (reverse (clean_stack (clean p)))) (is_abs-clean p)
    ∙ ap (λ st. render (is_abs p) (reverse st)) (clean_stack-clean p)
