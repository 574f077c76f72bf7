-- ===== src/Transfer/Uninstall/Order.antt =====
-- Which directories are removed, and in which order.
use mathlib.Core.List.{Memᴰ}
use go_claude_teleport.Base.{
  ℕ, ◌≤◌, Bool, true, false, List, [], ◌∷◌, Bytes, has_text, ◌≡◌, refl, ◌↔◌, ◌⊎◌, inl, inr, arith,
  All, if-both, if◌then◌else◌, ltb, ◌==◌,
}
use go_claude_teleport.Transfer.Manifest.{Entry}
use go_claude_teleport.Transfer.Installed.{
  Kind, kind_file, kind_dir, kind_symlink, other_kind, InstalledRecord, Installed,
}
use go_claude_teleport.Transfer.Uninstall.{
  is_kind_dir, touches, count_slashes, is_deeper, bytes_less, insert_dir, sort_dirs,
}

pub kind_dir_iff : (k : Kind) → (is_kind_dir k ≡ true) ↔ (k ≡ kind_dir)
kind_dir_iff kind_dir = (λ h. refl, λ h. refl)
kind_dir_iff kind_file = (λ h. cc, λ h. cc)
kind_dir_iff kind_symlink = (λ h. cc, λ h. cc)
kind_dir_iff (other_kind t) = (λ h. cc, λ h. cc)

-- A directory that may be removed: the record has it as one the job created, the manifest is about
-- it, and no entry that was left out names it.
unfoldable pub IsCreated : List Entry → Installed → List Bytes → Bytes → Type 0
IsCreated es installed protected d =
    ((r : InstalledRecord) × Memᴰ (d, r) installed × (r.kind ≡ kind_dir))
    × (touches d es ≡ true)
    × (has_text d protected ≡ false)

-- Every later path has no more slashes.
abbrev NotDeeper : ℕ → List Bytes → Type 0
NotDeeper n = All (λ d. count_slashes d ≤ n)

abbrev pub IsDeepestFirst : List Bytes → Type 0
IsDeepestFirst [] = Unit
IsDeepestFirst (d ∷ ds) = NotDeeper (count_slashes d) ds × IsDeepestFirst ds

is_deeper-count :
    (a b : Bytes)
    → ((is_deeper a b ≡ true) → count_slashes b ≤ count_slashes a)
      × ((is_deeper a b ≡ false) → count_slashes a ≤ count_slashes b)
unfolding is_deeper
is_deeper-count a b = depths (count_slashes a) (count_slashes b) (bytes_less a b)
  where
    depths :
        (m n : ℕ) (less : Bool)
        → (((if m == n then less else ltb n m) ≡ true) → n ≤ m)
          × (((if m == n then less else ltb n m) ≡ false) → m ≤ n)
    depths m n less = (λ h. ground arith, λ h. ground arith)

NotDeeper-mono : (a b : ℕ) (ds : List Bytes) → a ≤ b → NotDeeper a ds → NotDeeper b ds
NotDeeper-mono a b [] h all = tt
NotDeeper-mono a b (d ∷ ds) h (hd, all) = (omega arith, NotDeeper-mono a b ds h all)

NotDeeper-insert :
    (n : ℕ) (d : Bytes) (ds : List Bytes)
    → count_slashes d ≤ n
    → NotDeeper n ds
    → NotDeeper n (insert_dir d ds)
unfolding insert_dir
NotDeeper-insert n d [] h all = (h, tt)
NotDeeper-insert n d (x ∷ xs) h (hx, all) =
    if-both (NotDeeper n) (is_deeper x d) (x ∷ insert_dir d xs) (d ∷ x ∷ xs)
      (λ e. (hx, NotDeeper-insert n d xs h all)) (λ e. (h, (hx, all)))

insert_dir-IsDeepestFirst :
    (d : Bytes) (ds : List Bytes) → IsDeepestFirst ds → IsDeepestFirst (insert_dir d ds)
unfolding insert_dir
insert_dir-IsDeepestFirst d [] h = (tt, tt)
insert_dir-IsDeepestFirst d (x ∷ xs) (hx, h) =
    if-both IsDeepestFirst (is_deeper x d) (x ∷ insert_dir d xs) (d ∷ x ∷ xs)
      (λ e. (
        NotDeeper-insert (count_slashes x) d xs ((is_deeper-count x d).0 e) hx,
        insert_dir-IsDeepestFirst d xs h,
      ))
      (λ e.
        let low : count_slashes x ≤ count_slashes d = (is_deeper-count x d).1 e in
        ((low, NotDeeper-mono (count_slashes x) (count_slashes d) xs low hx), (hx, h)))

pub sort_dirs-IsDeepestFirst : (ds : List Bytes) → IsDeepestFirst (sort_dirs ds)
unfolding sort_dirs
sort_dirs-IsDeepestFirst [] = tt
sort_dirs-IsDeepestFirst (d ∷ ds) =
    insert_dir-IsDeepestFirst d (sort_dirs ds) (sort_dirs-IsDeepestFirst ds)

Inserted : Bytes → Bytes → List Bytes → List Bytes → Type 0
Inserted y d ds out = (Memᴰ y out → (y ≡ d) ⊎ Memᴰ y ds) × ((y ≡ d) ⊎ Memᴰ y ds → Memᴰ y out)

insert_dir-Inserted : (y d : Bytes) (ds : List Bytes) → Inserted y d ds (insert_dir d ds)
unfolding insert_dir Inserted
insert_dir-Inserted y d [] = (split, join)
  where
    split : Memᴰ y (d ∷ []) → (y ≡ d) ⊎ Memᴰ y []
    split (Memᴰ.head e) = inl e
    split (Memᴰ.tail m) = inr m

    join : (y ≡ d) ⊎ Memᴰ y [] → Memᴰ y (d ∷ [])
    join (inl e) = Memᴰ.head e
    join (inr m) = Memᴰ.tail m
insert_dir-Inserted y d (x ∷ xs) =
    let (to, back) = insert_dir-Inserted y d xs in
    if-both (Inserted y d (x ∷ xs)) (is_deeper x d) (x ∷ insert_dir d xs) (d ∷ x ∷ xs)
      (λ e. (behind to, before back)) (λ e. (split, join))
  where
    behind :
        (Memᴰ y (insert_dir d xs) → (y ≡ d) ⊎ Memᴰ y xs)
        → Memᴰ y (x ∷ insert_dir d xs)
        → (y ≡ d) ⊎ Memᴰ y (x ∷ xs)
    behind to (Memᴰ.head e) = inr (Memᴰ.head e)
    behind to (Memᴰ.tail m) = elim (to m) [ inl e ↦ inl e | inr n ↦ inr (Memᴰ.tail n) ]

    before :
        ((y ≡ d) ⊎ Memᴰ y xs → Memᴰ y (insert_dir d xs))
        → (y ≡ d) ⊎ Memᴰ y (x ∷ xs)
        → Memᴰ y (x ∷ insert_dir d xs)
    before back (inl e) = Memᴰ.tail (back (inl e))
    before back (inr (Memᴰ.head e)) = Memᴰ.head e
    before back (inr (Memᴰ.tail m)) = Memᴰ.tail (back (inr m))

    split : Memᴰ y (d ∷ x ∷ xs) → (y ≡ d) ⊎ Memᴰ y (x ∷ xs)
    split (Memᴰ.head e) = inl e
    split (Memᴰ.tail m) = inr m

    join : (y ≡ d) ⊎ Memᴰ y (x ∷ xs) → Memᴰ y (d ∷ x ∷ xs)
    join (inl e) = Memᴰ.head e
    join (inr m) = Memᴰ.tail m

pub sort_dirs-Mem : (y : Bytes) (ds : List Bytes) → Memᴰ y (sort_dirs ds) ↔ Memᴰ y ds
unfolding sort_dirs Inserted
sort_dirs-Mem y [] = (λ m. m, λ m. m)
sort_dirs-Mem y (d ∷ ds) =
    let (to, back) = insert_dir-Inserted y d (sort_dirs ds) in
    let (there_to, there_back) = sort_dirs-Mem y ds in
    (
      λ m. elim (to m) [ inl e ↦ Memᴰ.head e | inr n ↦ Memᴰ.tail (there_to n) ],
      λ m. back (listed there_back m),
    )
  where
    listed : (Memᴰ y ds → Memᴰ y (sort_dirs ds)) → Memᴰ y (d ∷ ds) → (y ≡ d) ⊎ Memᴰ y (sort_dirs ds)
    listed back (Memᴰ.head e) = inl e
    listed back (Memᴰ.tail m) = inr (back m)
