-- ===== src/Transfer/Install/Refused.antt =====
-- An installation that the validator refuses touches nothing.
use mathlib.Core.List.{Memᴰ}
use mathlib.Core.List.Memᴰ
use mathlib.Core.Path.{subst}
use go_claude_teleport.Base.{
  none, some, List, [], ◌∷◌, ◌++◌, Bool, Bytes, ◌≡◌, ap, ◌∙◌, inl, inr, Option-cases,
}
use go_claude_teleport.Transfer.Manifest.{Entry}
use go_claude_teleport.Transfer.Diff.{Statuses}
use go_claude_teleport.Transfer.Install.{
  Calls, call_failed, on_success, failing, claim, fresh, check_all, install,
}

module _ (calls : Calls) where
  open calls use {World, check}

  check_all-some :
      (es : List Entry) (e : Entry) (w : World) (t : Bytes)
      → Memᴰ e es
      → check e w ≡ some t
      → (u : Bytes) × (check_all calls es w ≡ some u)
  unfolding check_all
  check_all-some [] e w t m h = elim (Memᴰ.not-nil m) [ ]
  check_all-some (x ∷ es) e w t (Memᴰ.head q) h = (
    t,
    ap (λ o. elim o [ some u ↦ some u | none ↦ check_all calls es w ])
        (subst (λ y. check y w ≡ some t) q h),
  )
  check_all-some (x ∷ es) e w t (Memᴰ.tail m) h = elim (Option-cases (check x w)) [
    | inl n ↦
        let (u, s) = check_all-some es e w t m h in
        (u, ap (λ o. elim o [ some v ↦ some v | none ↦ check_all calls es w ]) n ∙ s)
    | inr (u, s) ↦ (u, ap (λ o. elim o [ some v ↦ some v | none ↦ check_all calls es w ]) s)
  ]

  -- If the validator refuses any entry of the manifest or of the memory entries, the installation
  -- returns an error with the world, the report and the trace as they were at its start.
  pub install-refused :
      (sid : Bytes) (forced : Bool) (es memory : List Entry) (st : Statuses) (w : World) (e : Entry)
      (t : Bytes)
      → Memᴰ e (es ++ memory)
      → check e w ≡ some t
      → (u : Bytes) × (install calls sid forced es memory st w
          ≡ (some (call_failed u), fresh calls w))
  unfolding install
  install-refused sid forced es memory st w e t m h =
      let (u, s) = check_all-some (es ++ memory) e w t m h in
      (
        u,
        ap
            (λ o.
              on_success calls (failing calls (fresh calls w) o)
                (claim calls sid forced es memory st))
            s,
      )
