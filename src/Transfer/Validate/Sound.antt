-- ===== src/Transfer/Validate/Sound.antt =====
-- What the validator remembers during a pass is true of the files: how a root resolved, whether it
-- may be one, and what it is about to claim.
use mathlib.Core.Option.{some-injective}
use go_claude_teleport.Base.{
  Option, none, some, List, [], ◌∷◌, Bytes, bytes_eq, bytes_eq_iff, bytes_eq_refl, ◌≡◌, ◌≢◌, refl,
  sym, ap, ◌∙◌, ◌⊎◌, inl, inr, All, Bool-cases, if-true, if-false, if-cases,
}
use go_claude_teleport.Transfer.Diff.{gone}
use go_claude_teleport.Transfer.Roots.{Files, Root, Fault, resolve_existing, root_fault}
use go_claude_teleport.Transfer.Roots.Chosen.{IsPicked}
use go_claude_teleport.Transfer.Roots.Landing.{IsFit}
use go_claude_teleport.Transfer.Validate.{
  mode_install, Validator, Memory, look_up, resolved_now, resolved_before, resolved_root,
  judged_now, judge, judged_before, root_reason,
}

module _ {ℓ} {A : Type ℓ} where
  pub look_up_here :
      (k : Bytes) (x : A) (rest : List (Bytes × A)) → look_up k ((k, x) ∷ rest) ≡ some x
  unfolding look_up
  look_up_here k x rest = if-true (bytes_eq k k) (some x) (look_up k rest) (bytes_eq_refl k)

  pub look_up_empty : (p : Bytes) (y : A) (l : List (Bytes × A)) → l ≡ [] → look_up p l ≢ some y
  unfolding look_up
  look_up_empty p y [] e h = cc
  look_up_empty p y (x ∷ l) e h = cc

  look_up-cases :
      (p k : Bytes) (x y : A) (rest : List (Bytes × A))
      → look_up p ((k, x) ∷ rest) ≡ some y
      → ((k ≡ p) × (x ≡ y)) ⊎ (look_up p rest ≡ some y)
  unfolding look_up
  look_up-cases p k x y rest h =
      elim (if-cases (bytes_eq k p) (some x) (look_up p rest) (some y) h) [
        | inl (e, s) ↦ inl ((bytes_eq_iff k p).0 e, some-injective x y s)
        | inr (e, s) ↦ inr s
      ]

  -- A new key hides no old one.
  look_up_keep :
      (p k : Bytes) (x y : A) (rest : List (Bytes × A))
      → look_up k rest ≡ none
      → look_up p rest ≡ some y
      → look_up p ((k, x) ∷ rest) ≡ some y
  unfolding look_up
  look_up_keep p k x y rest n h = elim (Bool-cases (bytes_eq k p)) [
    | inl e ↦ absurd (none-some y (sym n ∙ ap (λ q. look_up q rest) ((bytes_eq_iff k p).0 e) ∙ h))
    | inr e ↦ if-false (bytes_eq k p) (some x) (look_up p rest) e ∙ h
  ]
    where
      none-some : (y : A) → Path (Option A) none (some y) → ⊥
      none-some y e = cc

-- A root about to be claimed: an installation found it absent, and it may be a root.
unfoldable pub IsClaim : Files → Validator → Bytes → Type 0
IsClaim fs v res =
    (v.mode ≡ mode_install)
    × ((dst : Bytes) × (r : Root) × IsPicked dst v.roots r
        × (resolve_existing fs r.path ≡ some res)
        × (fs.lstat r.path ≡ gone)
        × IsFit v.real res)

pub record IsSound (fs : Files) (v : Validator) (recorded : List Bytes) (m : Memory) : Type 0 where
  pub keeps : m.recorded ≡ recorded
  pub resolves :
      (p res : Bytes) → look_up p m.root_res ≡ some res → resolve_existing fs p ≡ some res
  pub judges :
      (p : Bytes) (f : Option Fault)
      → look_up p m.root_bad ≡ some f
      → (res : Bytes) × (look_up p m.root_res ≡ some res) × (root_fault v.real res ≡ some f)
  pub claims : All (IsClaim fs v) m.pending

module _ (fs : Files) (v : Validator) (recorded : List Bytes) where
  -- What the resolution of a root leaves: sound memory, and its result in it.
  unfoldable pub Resolves : Root → Option Bytes × Memory → Type 0
  Resolves r (none, m) = IsSound fs v recorded m
  Resolves r (some res, m) =
      IsSound fs v recorded m
      × (look_up r.path m.root_res ≡ some res)
      × (resolve_existing fs r.path ≡ some res)

  resolved_now-Resolves :
      (m : Memory) (r : Root) (o : Option Bytes)
      → IsSound fs v recorded m
      → look_up r.path m.root_res ≡ none
      → resolve_existing fs r.path ≡ o
      → Resolves r (resolved_now m r.path o)
  unfolding Resolves
  resolved_now-Resolves m r none s n e = s
  resolved_now-Resolves m r (some res) s n e = (
    record {
      keeps = s.keeps;
      resolves = λ p y h. elim (look_up-cases p r.path res y m.root_res h) [
        | inl (k, x) ↦ ap (resolve_existing fs) (sym k) ∙ e ∙ ap some x
        | inr h' ↦ s.resolves p y h'
      ];
      judges = λ p f h.
          let (y, found, judged) = s.judges p f h in
          (y, look_up_keep p r.path res y m.root_res n found, judged);
      claims = s.claims;
    },
    look_up_here r.path res m.root_res,
    e,
  )

  pub resolved_root-Resolves :
      (m : Memory) (r : Root) → IsSound fs v recorded m → Resolves r (resolved_root fs m r)
  unfolding resolved_root Resolves
  resolved_root-Resolves m r s = before (look_up r.path m.root_res) refl
    where
      before :
          (o : Option Bytes) → look_up r.path m.root_res ≡ o → Resolves r (resolved_before fs m r o)
      before (some res) e = (s, e, s.resolves r.path res e)
      before none e = resolved_now-Resolves m r (resolve_existing fs r.path) s e refl

  -- What the judgement of a root leaves; the fault is that of where the root resolves.
  unfoldable pub Judges : Root → Option (Option Fault) × Memory → Type 0
  Judges r (none, m) = IsSound fs v recorded m
  Judges r (some f, m) =
      IsSound fs v recorded m
      × ((res : Bytes) × (look_up r.path m.root_res ≡ some res)
          × (resolve_existing fs r.path ≡ some res)
          × (root_fault v.real res ≡ some f))

  judged_now-Judges :
      (m : Memory) (r : Root) (res : Bytes) (o : Option (Option Fault))
      → Resolves r (some res, m)
      → root_fault v.real res ≡ o
      → Judges r (judged_now r.path o m)
  unfolding Judges Resolves
  judged_now-Judges m r res none (s, found, e) j = s
  judged_now-Judges m r res (some f) (s, found, e) j = (
    record {
      keeps = s.keeps;
      resolves = s.resolves;
      judges = λ p g h. elim (look_up-cases p r.path f g m.root_bad h) [
        | inl (k, x) ↦ (res, ap (λ q. look_up q m.root_res) (sym k) ∙ found, j ∙ ap some x)
        | inr h' ↦ s.judges p g h'
      ];
      claims = s.claims;
    },
    (res, found, e, j),
  )

  judge-Judges :
      (r : Root) (out : Option Bytes × Memory) → Resolves r out → Judges r (judge v.real r.path out)
  unfolding Judges Resolves
  judge-Judges r (none, m) h = h
  judge-Judges r (some res, m) h = judged_now-Judges m r res (root_fault v.real res) h refl

  pub root_reason-Judges :
      (m : Memory) (r : Root) → IsSound fs v recorded m → Judges r (root_reason fs v.real m r)
  unfolding root_reason Judges
  root_reason-Judges m r s = before (look_up r.path m.root_bad) refl
    where
      before :
          (o : Option (Option Fault))
          → look_up r.path m.root_bad ≡ o
          → Judges r (judged_before fs v.real m r o)
      before (some f) e =
          let (res, found, j) = s.judges r.path f e in
          (s, (res, found, s.resolves r.path res found, j))
      before none e = judge-Judges r (resolved_root fs m r) (resolved_root-Resolves m r s)
