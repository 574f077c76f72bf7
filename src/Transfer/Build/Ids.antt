-- ===== src/Transfer/Build/Ids.antt =====
-- The manifests that `Build` returns: ids by index, and no forbidden file.
use mathlib.Core.List.{Memᴰ}
use mathlib.Core.List.Memᴰ
use mathlib.Core.Path.{subst}
use go_claude_teleport.Base.{
  ℕ, ℤ, pos, suc, ◌≤◌, Bool, true, false, ◌&&◌, ◌||◌, Option, none, some, List, [], ◌∷◌, Bytes,
  ◌==◌, if◌then◌else◌, ◌≡◌, ◌≢◌, refl, sym, ap, ◌∙◌, arith, All, inl, inr, if-cases,
}
use go_claude_teleport.Session.PathMap.{PathMap}
use go_claude_teleport.Transfer.Manifest.{Entry, session, is_regular}
use go_claude_teleport.Transfer.Diff.{is_session}
use go_claude_teleport.Transfer.Diff.Own.{IsDistinct}
use go_claude_teleport.Transfer.Build.{
  FileEntry, forbidden, Source, BuildResult, built, has_forbidden, build_fails, bad_files,
  new_entry, with_mode, with_hash, finish_entry, add_entry, build_from, build_clean, build,
}

with_mode-id : (e x : Entry) (o : Option ℕ) → with_mode e o ≡ some x → x.id ≡ e.id
with_mode-id e x none h = cc
with_mode-id e x (some m) h = ap (λ o. elim o [ none ↦ e.id | some y ↦ y.id ]) (sym h)

with_hash-id :
    (src : Source) (f : FileEntry) (e x : Entry) (o : Option (Bytes × ℕ))
    → with_hash src f e o ≡ some x
    → x.id ≡ e.id
with_hash-id src f e x none h = cc
with_hash-id src f e x (some (sum, n)) h = elim (if-cases (f.mode == 0 || f.has_no_time) _ _ _ h) [
  | inl (t, k) ↦ with_mode-id (record e { sha256 = sum; size = n }) x (src.stat_mode e.src) k
  | inr (t, k) ↦ ap (λ o. elim o [ none ↦ e.id | some y ↦ y.id ]) (sym k)
]

finish_entry-id :
    (src : Source) (f : FileEntry) (e x : Entry) → finish_entry src f e ≡ some x → x.id ≡ e.id
unfolding finish_entry
finish_entry-id src f e x h = elim (if-cases (is_regular e) _ _ _ h) [
  | inl (t, k) ↦ with_hash-id src f e x (src.hash e.src f.rewrite) k
  | inr (t, k) ↦ ap (λ o. elim o [ none ↦ e.id | some y ↦ y.id ]) (sym k)
]

-- A list that was built with one more entry.
add_entry-built :
    (o : Option Entry) (r : BuildResult) (es : List Entry)
    → add_entry o r ≡ built es
    → (x : Entry) × ((xs : List Entry) × ((o ≡ some x) × ((r ≡ built xs) × (es ≡ x ∷ xs))))
add_entry-built none r es h = cc
add_entry-built (some e) (built xs) es h = (e, (xs, (refl, (refl, cc))))
add_entry-built (some e) (has_forbidden bs) es h = cc
add_entry-built (some e) build_fails es h = cc

-- Every entry's id is an index from `n` on.
abbrev From : ℕ → Entry → Type 0
From n e = (k : ℕ) × ((e.id ≡ pos k) × (n ≤ k))

From-later : (n : ℕ) (es : List Entry) → All (From (suc n)) es → All (From n) es
From-later n [] h = tt
From-later n (e ∷ es) ((k, (q, le)), h) = ((k, (q, omega arith)), From-later n es h)

From-fresh :
    (n : ℕ) (i : ℤ) (es : List Entry) → i ≡ pos n → All (From (suc n)) es → All (λ x. x.id ≢ i) es
From-fresh n i [] q h = tt
From-fresh n i (e ∷ es) q ((k, (p, le)), h) =
    ((λ same. absurd (omega (arith, index_eq k n (sym p ∙ same ∙ q)))), From-fresh n i es q h)
  where
    index_eq : (a b : ℕ) → pos a ≡ pos b → a ≡ b
    index_eq a b r = cc

new_entry-id :
    (sid : Bytes) (pm : PathMap) (i : ℕ) (f : FileEntry) → (new_entry sid pm i f).id ≡ pos i
unfolding new_entry
new_entry-id sid pm i f = refl

built-From :
    (src : Source) (sid : Bytes) (pm : PathMap) (n : ℕ) (fs : List FileEntry) (es : List Entry)
    → build_from src sid pm n fs ≡ built es
    → All (From n) es × IsDistinct es
unfolding build_from
built-From src sid pm n [] [] h = (tt, tt)
built-From src sid pm n [] (e ∷ es) h = cc
built-From src sid pm n (f ∷ fs) es h = elim (if-cases (src.cancelled n) _ _ _ h) [
  | inl (t, k) ↦ elim (fails k) [ ]
  | inr (t, k) ↦
      let (x, (xs, (o, (r, q)))) =
        add_entry-built (finish_entry src f (new_entry sid pm n f))
          (build_from src sid pm (suc n) fs) es k in
      let (later, distinct) = built-From src sid pm (suc n) fs xs r in
      let own : x.id ≡ pos n =
        finish_entry-id src f (new_entry sid pm n f) x o ∙ new_entry-id sid pm n f in
      subst (λ l. All (From n) l × IsDistinct l) (sym q)
        (
          ((n, (own, omega arith)), From-later n xs later),
          (From-fresh n x.id xs own later, distinct),
        )
]
  where
    fails : build_fails ≡ built es → ⊥
    fails z = cc

clean-built :
    (r : BuildResult) (bs : List Bytes) (es : List Entry)
    → build_clean r bs ≡ built es
    → (bs ≡ []) × (r ≡ built es)
clean-built r [] es h = (refl, h)
clean-built r (b ∷ bs) es h = cc

-- The entries of a manifest that `Build` returns have distinct ids.
pub build-IsDistinct :
    (src : Source) (sid : Bytes) (pm : PathMap) (files : List FileEntry) (es : List Entry)
    → build src sid pm files ≡ built es
    → IsDistinct es
unfolding build
build-IsDistinct src sid pm files es h =
    (built-From src sid pm 0 files es
      (clean-built (build_from src sid pm 0 files) (bad_files files) es h).1).1

not_kept :
    (b : Bool) (r : Bytes) (rs : List Bytes)
    → (if b then r ∷ rs else rs) ≡ []
    → (b ≡ false) × (rs ≡ [])
not_kept true r rs h = cc
not_kept false r rs h = (refl, h)

second : (a b : Bool) → a && b ≡ false → a ≡ true → b ≡ false
second a b h k = ground arith

no_bad :
    (files : List FileEntry) (f : FileEntry)
    → bad_files files ≡ []
    → Memᴰ f files
    → f.category ≡ session
    → forbidden f.rel ≡ false
unfolding bad_files
no_bad [] f h m s = elim (Memᴰ.not-nil m) [ ]
no_bad (x ∷ xs) f h (Memᴰ.head q) s =
    second (is_session f.category) (forbidden f.rel)
      (subst (λ y. is_session y.category && forbidden y.rel ≡ false) (sym q)
        (not_kept (is_session x.category && forbidden x.rel) x.rel (bad_files xs) h).0)
      (ap is_session s)
no_bad (x ∷ xs) f h (Memᴰ.tail m) s =
    no_bad xs f (not_kept (is_session x.category && forbidden x.rel) x.rel (bad_files xs) h).1 m s

-- `Build` returns a manifest only when no file of the session's category is forbidden.
pub build-allowed :
    (src : Source) (sid : Bytes) (pm : PathMap) (files : List FileEntry) (es : List Entry)
    (f : FileEntry)
    → build src sid pm files ≡ built es
    → Memᴰ f files
    → f.category ≡ session
    → forbidden f.rel ≡ false
unfolding build
build-allowed src sid pm files es f h m s =
    no_bad files f (clean-built (build_from src sid pm 0 files) (bad_files files) es h).0 m s
