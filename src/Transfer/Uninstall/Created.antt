-- ===== src/Transfer/Uninstall/Created.antt =====
-- The directories that are removed: those that the job created and that the manifest is about, the
-- deepest first.
use mathlib.Core.Path.{subst}
use mathlib.Core.List.{Memᴰ}
use mathlib.Core.List.Memᴰ
use go_claude_teleport.Base.{
  Bool, true, false, ◌&&◌, not, List, [], ◌∷◌, Bytes, has_text, ◌≡◌, refl, sym, ap, ◌↔◌, arith,
  if-both, if-true, if◌then◌else◌,
}
use go_claude_teleport.Transfer.Manifest.{Entry}
use go_claude_teleport.Transfer.Installed.{Installed, kind_dir}
use go_claude_teleport.Transfer.Uninstall.{
  is_kind_dir, touches, created_dirs, created_dirs_deepest_first,
}
use go_claude_teleport.Transfer.Uninstall.Order.{
  IsCreated, IsDeepestFirst, kind_dir_iff, sort_dirs-IsDeepestFirst, sort_dirs-Mem,
}

module _ (es : List Entry) (protected : List Bytes) (y : Bytes) where
  created_dirs-IsCreated :
      (installed : Installed)
      → Memᴰ y (created_dirs es protected installed)
      → IsCreated es installed protected y
  unfolding created_dirs IsCreated
  created_dirs-IsCreated [] m = elim (Memᴰ.not-nil m) [ ]
  created_dirs-IsCreated ((d, r) ∷ rest) m =
      chosen (is_kind_dir r.kind) (has_text d protected) (touches d es) refl refl refl m
        (created_dirs-IsCreated rest)
    where
      later : IsCreated es rest protected y → IsCreated es ((d, r) ∷ rest) protected y
      later ((x, i, k), t, p) = ((x, Memᴰ.tail i, k), t, p)

      chosen :
          (k p t : Bool)
          → is_kind_dir r.kind ≡ k
          → has_text d protected ≡ p
          → touches d es ≡ t
          → Memᴰ y (
              if k && not p && t
              then d ∷ created_dirs es protected rest
              else created_dirs es protected rest)
          → (Memᴰ y (created_dirs es protected rest) → IsCreated es rest protected y)
          → IsCreated es ((d, r) ∷ rest) protected y
      chosen true false true ek ep et (Memᴰ.head e) next = (
        (r, Memᴰ.head (ap (λ q. (q, r)) e), (kind_dir_iff r.kind).0 ek),
        subst (λ q. touches q es ≡ true) (sym e) et,
        subst (λ q. has_text q protected ≡ false) (sym e) ep,
      )
      chosen true false true ek ep et (Memᴰ.tail i) next = later (next i)
      chosen true false false ek ep et i next = later (next i)
      chosen true true t ek ep et i next = later (next i)
      chosen false p t ek ep et i next = later (next i)

  IsCreated-Mem :
      (installed : Installed)
      → IsCreated es installed protected y
      → Memᴰ y (created_dirs es protected installed)
  unfolding created_dirs IsCreated
  IsCreated-Mem [] ((r, i, k), t, p) = elim (Memᴰ.not-nil i) [ ]
  IsCreated-Mem ((d, x) ∷ rest) ((r, Memᴰ.head e, k), t, p) =
      let chosen : (is_kind_dir x.kind && not (has_text d protected) && touches d es) ≡ true =
        ground (
          arith,
          (kind_dir_iff x.kind).1 (subst (λ q. q.1.kind ≡ kind_dir) e k),
          subst (λ q. touches q.0 es ≡ true) e t,
          subst (λ q. has_text q.0 protected ≡ false) e p,
        ) in
      subst (Memᴰ y)
        (sym (
          if-true (is_kind_dir x.kind && not (has_text d protected) && touches d es)
            (d ∷ created_dirs es protected rest) (created_dirs es protected rest) chosen))
        (Memᴰ.head (ap (λ q. q.0) e))
  IsCreated-Mem ((d, x) ∷ rest) ((r, Memᴰ.tail i, k), t, p) =
      if-both (Memᴰ y) (is_kind_dir x.kind && not (has_text d protected) && touches d es)
        (d ∷ created_dirs es protected rest) (created_dirs es protected rest)
        (λ _. Memᴰ.tail (IsCreated-Mem rest ((r, i, k), t, p)))
        (λ _. IsCreated-Mem rest ((r, i, k), t, p))

-- The directories to remove are exactly those that the record has as created by the job, that lie at
-- or above a path of the manifest and that no left out entry names, and none is listed before a
-- deeper one.
pub created_dirs_deepest_first_iff :
    (es : List Entry) (installed : Installed) (protected : List Bytes)
    → IsDeepestFirst (created_dirs_deepest_first es installed protected)
      × ((d : Bytes)
          → Memᴰ d (created_dirs_deepest_first es installed protected)
            ↔ IsCreated es installed protected d)
unfolding created_dirs_deepest_first
created_dirs_deepest_first_iff es installed protected = (
  sort_dirs-IsDeepestFirst (created_dirs es protected installed),
  λ d.
      let (to, back) = sort_dirs-Mem d (created_dirs es protected installed) in
      (
        λ m. created_dirs-IsCreated es protected d installed (to m),
        λ c. back (IsCreated-Mem es protected d installed c),
      ),
)
