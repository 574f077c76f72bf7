-- ===== src/Transfer/Diff/Need.antt =====
-- How `Need`, `Pending` and `Blocking` divide the entries of a classified manifest.
use mathlib.Core.List.{Memᴰ}
use mathlib.Core.List.Memᴰ
use mathlib.Core.Path.{subst}
use go_claude_teleport.Base.{
  ℤ, Bool, true, false, ◌&&◌, not, List, [], ◌∷◌, ◌≡◌, ◌≢◌, ◌⊎◌, inl, inr, refl, arith,
  if◌then◌else◌, Bool-cases, ◌↔◌, sym, ap,
}
use go_claude_teleport.Transfer.Manifest.{Entry, Category, session}
use go_claude_teleport.Transfer.Diff.{
  Status, Statuses, absent, present_same, staged_same, present_different, ff_candidate,
  staged_mismatch, no_status, need, blocking, is_needed, is_different, is_exempt, is_session,
}

-- Membership in a list that a test extends.
module _ {ℓ} {A : Type ℓ} where
  kept :
      (b : Bool) (x y : A) (r : List A)
      → Memᴰ y (if b then x ∷ r else r)
      → ((b ≡ true) × (y ≡ x)) ⊎ Memᴰ y r
  kept true x y r (Memᴰ.head e) = inl (refl, e)
  kept true x y r (Memᴰ.tail m) = inr m
  kept false x y r m = inr m

  keep : (b : Bool) (x y : A) (r : List A) → b ≡ true → y ≡ x → Memᴰ y (if b then x ∷ r else r)
  keep true x y r h e = Memᴰ.head e
  keep false x y r h e = cc

  keep_rest : (b : Bool) (x y : A) (r : List A) → Memᴰ y r → Memᴰ y (if b then x ∷ r else r)
  keep_rest true x y r m = Memᴰ.tail m
  keep_rest false x y r m = m

-- What makes an entry block.
abbrev Blocks : Bool → Entry → Status → Type 0
Blocks force e s =
    (s ≡ present_different) × ((force ≡ false) ⊎ (e.ff_allowed ≡ false) ⊎ (e.category ≢ session))

is_session-not : (c : Category) → is_session c ≡ false → c ≢ session
is_session-not c h = ground arith

not_exempt :
    (force ff : Bool) (c : Category)
    → not (force && ff && is_session c) ≡ true
    → (force ≡ false) ⊎ (ff ≡ false) ⊎ (c ≢ session)
not_exempt false ff c h = inl refl
not_exempt true false c h = inr (inl refl)
not_exempt true true c h = inr (inr (λ e. ground arith))

not_session : (c : Category) → c ≢ session → not (is_session c) ≡ true
not_session c h = ground arith

not_exempt_of :
    (force ff : Bool) (c : Category)
    → (force ≡ false) ⊎ (ff ≡ false) ⊎ (c ≢ session)
    → not (force && ff && is_session c) ≡ true
not_exempt_of false ff c h = refl
not_exempt_of true false c h = refl
not_exempt_of true true c (inl h) = cc
not_exempt_of true true c (inr (inl h)) = cc
not_exempt_of true true c (inr (inr h)) = not_session c h

test→Blocks :
    (force : Bool) (e : Entry) (s : Status)
    → is_different s && not (is_exempt force e) ≡ true
    → Blocks force e s
test→Blocks force e present_different h = (refl, not_exempt force e.ff_allowed e.category h)
test→Blocks force e absent h = cc
test→Blocks force e present_same h = cc
test→Blocks force e staged_same h = cc
test→Blocks force e ff_candidate h = cc
test→Blocks force e staged_mismatch h = cc
test→Blocks force e no_status h = cc

Blocks→test :
    (force : Bool) (e : Entry) (s : Status)
    → Blocks force e s
    → is_different s && not (is_exempt force e) ≡ true
Blocks→test force e s (d, r) = rw d (not_exempt_of force e.ff_allowed e.category r)

listed :
    (e : Entry) (es : List Entry) (st : Statuses) (force : Bool)
    → Memᴰ e (blocking es st force)
    → Memᴰ e es × Blocks force e (st e.id)
unfolding blocking
listed e [] st force m = elim (Memᴰ.not-nil m) [ ]
listed e (x ∷ es) st force m =
    elim (kept (is_different (st x.id) && not (is_exempt force x)) x e (blocking es st force) m) [
      | inl (t, q) ↦ (
        Memᴰ.head q,
        subst (λ y. Blocks force y (st y.id)) (sym q) (test→Blocks force x (st x.id) t),
      )
      | inr m' ↦ let (l, b) = listed e es st force m' in (Memᴰ.tail l, b)
    ]

blocks :
    (e : Entry) (es : List Entry) (st : Statuses) (force : Bool)
    → Memᴰ e es
    → Blocks force e (st e.id)
    → Memᴰ e (blocking es st force)
unfolding blocking
blocks e [] st force m b = elim (Memᴰ.not-nil m) [ ]
blocks e (x ∷ es) st force (Memᴰ.head q) b =
    keep (is_different (st x.id) && not (is_exempt force x)) x e (blocking es st force)
      (Blocks→test force x (st x.id) (subst (λ y. Blocks force y (st y.id)) q b)) q
blocks e (x ∷ es) st force (Memᴰ.tail m) b =
    keep_rest (is_different (st x.id) && not (is_exempt force x)) x e (blocking es st force)
      (blocks e es st force m b)

-- `Blocking` lists exactly the entries of the manifest whose status is present-different and that
-- are not exempt; exempt are, under force, the fast-forwardable entries of the session's category.
pub blocking_iff :
    (e : Entry) (es : List Entry) (st : Statuses) (force : Bool)
    → Memᴰ e (blocking es st force) ↔ (
        Memᴰ e es
        × (st e.id ≡ present_different)
        × ((force ≡ false) ⊎ (e.ff_allowed ≡ false) ⊎ (e.category ≢ session)))
blocking_iff e es st force = (
  λ m. let (l, b) = listed e es st force m in (l, b.0, b.1),
  λ (l, d, r). blocks e es st force l (d, r),
)

-- The id of an entry whose status `Need` sends is listed.
sent :
    (e : Entry) (es : List Entry) (st : Statuses)
    → Memᴰ e es
    → is_needed e.ff_allowed (st e.id) ≡ true
    → Memᴰ e.id (need es st)
unfolding need
sent e [] st m h = elim (Memᴰ.not-nil m) [ ]
sent e (x ∷ es) st (Memᴰ.head q) h =
    keep (is_needed x.ff_allowed (st x.id)) x.id e.id (need es st)
      (subst (λ y. is_needed y.ff_allowed (st y.id) ≡ true) q h) (ap (λ y. y.id) q)
sent e (x ∷ es) st (Memᴰ.tail m) h =
    keep_rest (is_needed x.ff_allowed (st x.id)) x.id e.id (need es st) (sent e es st m h)

-- The status of an entry that does not block decides what becomes of it.
abbrev Settled : Entry → Status → List ℤ → Type 0
Settled e s sent_ids = (s ≡ present_same) ⊎ (s ≡ staged_same) ⊎ Memᴰ e.id sent_ids

settle :
    (e : Entry) (es : List Entry) (st : Statuses) (s : Status)
    → st e.id ≡ s
    → s ≢ no_status
    → (s ≡ present_different → e.ff_allowed ≡ true)
    → Memᴰ e es
    → Settled e s (need es st)
settle e es st absent q known ff m = inr (inr (sent e es st m (rw q refl)))
settle e es st present_same q known ff m = inl refl
settle e es st staged_same q known ff m = inr (inl refl)
settle e es st present_different q known ff m = inr (inr (sent e es st m (rw q (ff refl))))
settle e es st ff_candidate q known ff m = inr (inr (sent e es st m (rw q refl)))
settle e es st staged_mismatch q known ff m = inr (inr (sent e es st m (rw q refl)))
settle e es st no_status q known ff m = elim (known refl) [ ]

-- When nothing blocks, every entry of the manifest that has a status is either already there (at its
-- destination or in the staging directory) or its id is among those that `Need` asks for.
pub blocking_nil-Settled :
    (es : List Entry) (st : Statuses) (force : Bool) (e : Entry)
    → blocking es st force ≡ []
    → Memᴰ e es
    → st e.id ≢ no_status
    → (st e.id ≡ present_same) ⊎ (st e.id ≡ staged_same) ⊎ Memᴰ e.id (need es st)
blocking_nil-Settled es st force e clear m known = settle e es st (st e.id) refl known allowed m
  where
    unblocked : st e.id ≡ present_different → e.ff_allowed ≡ false → ⊥
    unblocked d f =
        Memᴰ.not-nil
          (subst (λ es'. Memᴰ e es') clear ((blocking_iff e es st force).1 (m, d, inr (inl f))))

    allowed : st e.id ≡ present_different → e.ff_allowed ≡ true
    allowed d = elim (Bool-cases e.ff_allowed) [ inl t ↦ t | inr f ↦ elim (unblocked d f) [ ] ]
