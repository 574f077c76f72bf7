-- ===== src/Tmux/Window/Chosen.antt =====
-- The session that `BaseSession` picks is one of its group.
use mathlib.Core.List.{Memᴰ}
use go_claude_teleport.Base.{
  Bool, true, false, ◌&&◌, ◌||◌, List, [], ◌∷◌, Bytes, bytes_eq, bytes_eq_iff, if◌then◌else◌, ◌≡◌,
  ◌≢◌, ◌⊎◌, inl, inr, refl, sym, ap, ◌∙◌, if-cases, if-true, if-false, Bool-cases, &&-both,
}
use go_claude_teleport.Tmux.Quote.{text_lt}
use go_claude_teleport.Tmux.Window.{SessionInfo, base_from, base_session}

-- A session of the group, by its own name or by its group.
abbrev pub IsOfGroup : Bytes → Bytes → SessionInfo → Type 0
IsOfGroup group name s = (s.name ≡ name) × ((name ≡ group) ⊎ (s.group ≡ group))

Chosen : Bytes → Bytes → List SessionInfo → Type 0
Chosen group name ss = (s : SessionInfo) × (Memᴰ s ss × IsOfGroup group name s)

later :
    (group name : Bytes) (x : SessionInfo) (ss : List SessionInfo)
    → Chosen group name ss
    → Chosen group name (x ∷ ss)
unfolding Chosen
later group name x ss (s, (m, h)) = (s, (Memᴰ.tail m, h))

base_from-Chosen :
    (group best name : Bytes) (ss : List SessionInfo)
    → base_from group best ss ≡ (name, true)
    → (name ≡ best) ⊎ Chosen group name ss
unfolding base_from Chosen
base_from-Chosen group best name [] h = inl (sym (ap (λ p. p.0) h))
base_from-Chosen group best name (s ∷ ss) h = elim (if-cases (bytes_eq s.name group) _ _ _ h) [
  | inl (t, k) ↦
      let e : s.name ≡ name = ap (λ p. p.0) k in
      inr (s, (Memᴰ.head refl, (e, inl (sym e ∙ (bytes_eq_iff s.name group).0 t))))
  | inr (t, k) ↦
      go_on (Bool-cases better) (base_from-Chosen group (if better then s.name else best) name ss k)
]
  where
    better : Bool
    better = bytes_eq s.group group && (bytes_eq best [] || text_lt s.name best)

    go_on :
        (better ≡ true) ⊎ (better ≡ false)
        → (name ≡ (if better then s.name else best)) ⊎ Chosen group name ss
        → (name ≡ best) ⊎ Chosen group name (s ∷ ss)
    go_on b (inr c) = inr (later group name s ss c)
    go_on (inl b) (inl e) = inr (
      s,
      (
        Memᴰ.head refl,
        (
          sym (e ∙ if-true better _ _ b),
          inr (
              (bytes_eq_iff s.group group).0
                (&&-both (bytes_eq s.group group) (bytes_eq best [] || text_lt s.name best) b).0),
        ),
      ),
    )
    go_on (inr b) (inl e) = inl (e ∙ if-false better _ _ b)

-- When `BaseSession` picks a session, and its name is not empty, it is the name of a listed session
-- that is named for the group or belongs to it.
pub base_session-IsOfGroup :
    (ss : List SessionInfo) (group name : Bytes)
    → base_session ss group ≡ (name, true)
    → name ≢ []
    → (s : SessionInfo) × (Memᴰ s ss × ((s.name ≡ name) × ((name ≡ group) ⊎ (s.group ≡ group))))
unfolding base_session Chosen
base_session-IsOfGroup ss group name h ne = elim (base_from-Chosen group [] name ss h) [
  | inl e ↦ elim (ne e) [ ]
  | inr c ↦ c
]
