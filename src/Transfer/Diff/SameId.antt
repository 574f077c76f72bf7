-- ===== src/Transfer/Diff/SameId.antt =====
-- The status map is keyed by the id alone: what two entries of one id come to.
use go_claude_teleport.Base.{
  ℤ, int_eq_iff, Bool, false, ◌&&◌, not, some, List, [], ◌∷◌, ◌≡◌, ◌≢◌, refl, sym, ap, ◌∙◌, arith,
  if-false,
}
use go_claude_teleport.Transfer.Manifest.{Entry}
use go_claude_teleport.Transfer.Diff.{
  Status, Statuses, no_statuses, put, Staged, Staging, put_staged, staged_state, present_different,
  passes, Dest, own, classified, diff_own, diff_checked, diff_from, diff, blocking, is_different,
  is_exempt,
}

step :
    (d : Dest) (e : Entry) (es : List Entry) (out : Statuses) (g : Staging) (s : Status)
    (left : Staged)
    → d.check e ≡ passes
    → own d e (staged_state e (g e.id)) ≡ some (s, left)
    → diff_from d (e ∷ es) out g [] ≡ diff_from d es (put e.id s out) (put_staged e.id left g) []
unfolding diff_from
step d e es out g s left c o =
    ap (λ k. diff_checked (diff_from d es) d e k out g []) c
    ∙ ap (λ k. diff_own (diff_from d es) e.id k out g []) o

not_different : (s : Status) → s ≢ present_different → is_different s ≡ false
not_different s h = ground arith

nothing_blocks :
    (e : Entry) (es : List Entry) (st : Statuses) (force : Bool)
    → st e.id ≢ present_different
    → blocking es st force ≡ []
    → blocking (e ∷ es) st force ≡ []
unfolding blocking
nothing_blocks e es st force ne h =
    if-false (is_different (st e.id) && not (is_exempt force e)) _ _
      (rw (not_different (st e.id) ne) refl)
    ∙ h

no_entries : (st : Statuses) (force : Bool) → blocking [] st force ≡ []
unfolding blocking
no_entries st force = refl

put-last : (id : ℤ) (s : Status) (out : Statuses) → put id s out id ≡ s
unfolding put
put-last id s out = ground (arith, int_eq_iff id id)

put_staged-last : (id : ℤ) (s : Staged) (g : Staging) → put_staged id s g id ≡ s
unfolding put_staged
put_staged-last id s g = ground (arith, int_eq_iff id id)

-- Two entries of one id, both passed by the validator: when the second one's own status is not
-- present-different, `Blocking` lists neither of them, with force or without, whatever the first
-- one's own status was.
pub diff-same_id :
    (d : Dest) (a b : Entry) (g : Staging) (s s' : Status) (left left' : Staged) (force : Bool)
    → b.id ≡ a.id
    → d.check a ≡ passes
    → d.check b ≡ passes
    → own d a (staged_state a (g a.id)) ≡ some (s, left)
    → own d b (staged_state b left) ≡ some (s', left')
    → s' ≢ present_different
    → (out : Statuses) × ((g' : Staging) × ((diff d (a ∷ b ∷ []) g ≡ classified out g')
          × (blocking (a ∷ b ∷ []) out force ≡ [])))
unfolding diff diff_from
diff-same_id d a b g s s' left left' force same ca cb oa ob ne = (
  st,
  (
    _,
    (
      step d a (b ∷ []) no_statuses g s left ca oa
          ∙ step d b [] (put a.id s no_statuses) (put_staged a.id left g) s' left' cb (
              ap (λ k. own d b (staged_state b k))
                (ap (put_staged a.id left g) same ∙ put_staged-last a.id left g)
              ∙ ob),
      nothing_blocks a (b ∷ []) st force (λ e. ne (sym last_a ∙ e))
          (nothing_blocks b [] st force (λ e. ne (sym last_b ∙ e)) (no_entries st force)),
    ),
  ),
)
  where
    st : Statuses
    st = put b.id s' (put a.id s no_statuses)

    last_b : put b.id s' (put a.id s no_statuses) b.id ≡ s'
    last_b = put-last b.id s' (put a.id s no_statuses)

    last_a : put b.id s' (put a.id s no_statuses) a.id ≡ s'
    last_a = ap (put b.id s' (put a.id s no_statuses)) (sym same) ∙ last_b
