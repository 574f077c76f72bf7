-- ===== src/Transfer/Diff/Means.antt =====
-- What a status of the classification says of the destination and of the staged copy, in terms of what
-- the calls on them return.
use mathlib.Core.Path.{subst}
use go_claude_teleport.Base.{
  Bool, true, false, ◌&&◌, not, Option, none, some, Bytes, codes, bytes_eq, bytes_eq_iff,
  has_suffix, ◌≡◌, ◌≢◌, refl, ap, ◌⊎◌, inl, inr, arith, Bool-cases, if-both,
}
use go_claude_teleport.Transfer.Manifest.{
  Entry, Category, session, repo, worktree, capture, pack, other_category, is_dir, is_symlink,
}
use go_claude_teleport.Transfer.Diff.{
  Status, absent, present_same, staged_same, present_different, ff_candidate, staged_mismatch,
  no_status, Seen, gone, unreadable, there, FileKind, directory, link_to, regular, special, Dest,
  staged_status, deferrable_category, ff_prefix_check, regular_status, dir_status, link_status,
  file_status, present_status, own_status,
}

-- The entry is for a pass that another step makes: a deferred capture, repository or worktree.
abbrev pub IsDeferred : Entry → Type 0
IsDeferred e =
    (e.deferred ≡ true) × ((e.category ≡ capture) ⊎ ((e.category ≡ repo) ⊎ (e.category ≡ worktree)))

-- What lies at the destination is what the entry says.
abbrev pub IsSame : Entry → FileKind → Type 0
IsSame e kind =
    ((is_dir e ≡ true) × (kind ≡ directory))
    ⊎ (((is_dir e ≡ false) × (is_symlink e ≡ true) × (kind ≡ link_to (some e.symlink)))
        ⊎ ((is_dir e ≡ false) × (is_symlink e ≡ false) × (kind ≡ regular (some e.sha256))))

-- A regular entry over a regular file.
abbrev pub IsFileOver : Entry → FileKind → Type 0
IsFileOver e kind =
    (is_dir e ≡ false) × (is_symlink e ≡ false) × ((sum : Bytes) × (kind ≡ regular (some sum)))

module _ (d : Dest) (e : Entry) where
  -- The comparison of the destination's file with the staged copy answers `b`: by records for a
  -- transcript, by bytes for any other file.
  abbrev pub Compares : Bool → Type 0
  Compares b =
      ((has_suffix e.dst (codes ".jsonl") ≡ true) × (d.records e.dst (d.staged_path e.id) ≡ some b))
      ⊎ ((has_suffix e.dst (codes ".jsonl") ≡ false)
          × (d.bytes e.dst (d.staged_path e.id) ≡ some b))

  -- The destination is not looked at, or nothing is there.
  abbrev pub IsAway : Type 0
  IsAway = IsDeferred e ⊎ (d.look e.dst ≡ gone)

  abbrev pub Finds : FileKind → Type 0
  Finds kind = (¬ (IsDeferred e)) × (d.look e.dst ≡ there kind)

  -- What a status says, for an entry whose staged copy is there or not, and was removed for a mismatch
  -- or not.
  abbrev pub Means : Bool → Bool → Status → Type 0
  Means staged mismatch absent = IsAway × (staged ≡ false) × (mismatch ≡ false)
  Means staged mismatch staged_mismatch = IsAway × (staged ≡ false) × (mismatch ≡ true)
  Means staged mismatch staged_same = IsAway × (staged ≡ true)
  Means staged mismatch present_same = (kind : FileKind) × Finds kind × IsSame e kind
  Means staged mismatch present_different =
      (kind : FileKind) × Finds kind
      × (¬ (IsSame e kind))
      × (IsFileOver e kind → (e.ff_allowed ≡ false) ⊎ ((staged ≡ true) × Compares false))
  Means staged mismatch ff_candidate =
      (kind : FileKind) × Finds kind
      × (¬ (IsSame e kind))
      × IsFileOver e kind
      × (e.ff_allowed ≡ true)
      × ((staged ≡ false) ⊎ Compares true)
  Means staged mismatch no_status = ⊥

  abbrev Says : Bool → Bool → Option Status → Type 0
  Says staged mismatch none = Unit
  Says staged mismatch (some s) = Means staged mismatch s

  deferral :
      (b : Bool) (c : Category)
      → b && deferrable_category c ≡ true
      → (b ≡ true) × ((c ≡ capture) ⊎ ((c ≡ repo) ⊎ (c ≡ worktree)))
  deferral true capture h = (refl, inl refl)
  deferral true repo h = (refl, inr (inl refl))
  deferral true worktree h = (refl, inr (inr refl))
  deferral true session h = cc
  deferral true pack h = cc
  deferral true (other_category t) h = cc
  deferral false c h = cc

  no_deferral :
      (b : Bool) (c : Category)
      → b && deferrable_category c ≡ false
      → ¬ ((b ≡ true) × ((c ≡ capture) ⊎ ((c ≡ repo) ⊎ (c ≡ worktree))))
  no_deferral false c h (x, y) = cc
  no_deferral true capture h y = cc
  no_deferral true repo h y = cc
  no_deferral true worktree h y = cc
  no_deferral true session h (x, y) = elim y [
    | inl q ↦ cc
    | inr z ↦ elim z [ inl q ↦ cc | inr q ↦ cc ]
  ]
  no_deferral true pack h (x, y) = elim y [
    | inl q ↦ cc
    | inr z ↦ elim z [ inl q ↦ cc | inr q ↦ cc ]
  ]
  no_deferral true (other_category t) h (x, y) = elim y [
    | inl q ↦ cc
    | inr z ↦ elim z [ inl q ↦ cc | inr q ↦ cc ]
  ]

  staged_status-Means :
      (staged mismatch : Bool) → IsAway → Means staged mismatch (staged_status staged mismatch)
  staged_status-Means true mismatch away = (away, refl)
  staged_status-Means false true away = (away, refl, refl)
  staged_status-Means false false away = (away, refl, refl)

  compares :
      (b : Bool)
      → ff_prefix_check d.records d.bytes e.dst (d.staged_path e.id) ≡ some b
      → Compares b
  unfolding ff_prefix_check
  compares b h = elim (Bool-cases (has_suffix e.dst (codes ".jsonl"))) [
    | inl q ↦ inl (q, rw q at h)
    | inr q ↦ inr (q, rw q at h)
  ]

  clash : {A : Type 0} (b : Bool) → b ≡ true → b ≡ false → A
  clash b p q = cc

  -- A directory's entry.
  module _ (staged mismatch : Bool) (is_directory : is_dir e ≡ true) where
    other_than_dir :
        (kind : FileKind) → kind ≢ directory → Finds kind → Means staged mismatch present_different
    other_than_dir kind ne here = (
      kind,
      here,
      (λ same. elim same [
        | inl (x, q) ↦ ne q
        | inr z ↦ elim z [
          | inl (x, y, q) ↦ clash (is_dir e) is_directory x
          | inr (x, y, q) ↦ clash (is_dir e) is_directory x
        ]
      ]),
      λ (x, y, z). clash (is_dir e) is_directory x,
    )

    dir_status-Says : (kind : FileKind) → Finds kind → Says staged mismatch (dir_status kind)
    dir_status-Says directory here = (directory, here, inl (is_directory, refl))
    dir_status-Says (link_to t) here = other_than_dir (link_to t) (λ q. cc) here
    dir_status-Says (regular s) here = other_than_dir (regular s) (λ q. cc) here
    dir_status-Says special here = other_than_dir special (λ q. cc) here

  -- A symbolic link's entry.
  module _ (staged mismatch : Bool) (no_directory : is_dir e ≡ false)
      (is_link : is_symlink e ≡ true) where
    other_than_link :
        (kind : FileKind)
        → kind ≢ link_to (some e.symlink)
        → Finds kind
        → Means staged mismatch present_different
    other_than_link kind ne here = (
      kind,
      here,
      (λ same. elim same [
        | inl (x, q) ↦ clash (is_dir e) x no_directory
        | inr z ↦ elim z [ inl (x, y, q) ↦ ne q | inr (x, y, q) ↦ clash (is_symlink e) is_link y ]
      ]),
      λ (x, y, z). clash (is_symlink e) is_link y,
    )

    link_status-Says : (kind : FileKind) → Finds kind → Says staged mismatch (link_status e kind)
    link_status-Says (link_to none) here = tt
    link_status-Says (link_to (some t)) here = elim (Bool-cases (bytes_eq t e.symlink)) [
      | inl q ↦ rw q (
        link_to (some t),
        here,
        inr (
            inl
              (no_directory, is_link, ap (λ x. link_to (some x)) ((bytes_eq_iff t e.symlink).0 q))),
      )
      | inr q ↦ rw q (other_than_link (link_to (some t)) (λ z. not_equal t q (target t z)) here)
    ]
      where
        target : (t : Bytes) → link_to (some t) ≡ link_to (some e.symlink) → t ≡ e.symlink
        target t z = cc

        not_equal : (t : Bytes) → bytes_eq t e.symlink ≡ false → t ≡ e.symlink → ⊥
        not_equal t q z = clash (bytes_eq t e.symlink) ((bytes_eq_iff t e.symlink).1 z) q
    link_status-Says directory here = other_than_link directory (λ q. cc) here
    link_status-Says (regular s) here = other_than_link (regular s) (λ q. cc) here
    link_status-Says special here = other_than_link special (λ q. cc) here

  -- A regular file's entry.
  module _ (staged mismatch : Bool) (no_directory : is_dir e ≡ false)
      (no_link : is_symlink e ≡ false) where
    not-IsSame : (kind : FileKind) → kind ≢ regular (some e.sha256) → ¬ (IsSame e kind)
    not-IsSame kind ne same = elim same [
      | inl (x, q) ↦ clash (is_dir e) x no_directory
      | inr z ↦ elim z [ inl (x, y, q) ↦ clash (is_symlink e) y no_link | inr (x, y, q) ↦ ne q ]
    ]

    other_than_file :
        (kind : FileKind)
        → ((s : Option Bytes) → kind ≢ regular s)
        → Finds kind
        → Means staged mismatch present_different
    other_than_file kind ne here = (
      kind,
      here,
      not-IsSame kind (ne (some e.sha256)),
      λ (x, y, (sum, q)). absurd (ne (some sum) q),
    )

    by_prefix :
        (sum : Bytes) (o : Option Bool)
        → ff_prefix_check d.records d.bytes e.dst (d.staged_path e.id) ≡ o
        → Finds (regular (some sum))
        → ¬ (IsSame e (regular (some sum)))
        → e.ff_allowed ≡ true
        → staged ≡ true
        → Says staged mismatch (elim o [
          | none ↦ none
          | some true ↦ some ff_candidate
          | some false ↦ some present_different
        ])
    by_prefix sum none q here differs ff st = tt
    by_prefix sum (some true) q here differs ff st = (
      regular (some sum),
      here,
      differs,
      (no_directory, no_link, (sum, refl)),
      ff,
      inr (compares true q),
    )
    by_prefix sum (some false) q here differs ff st =
        (regular (some sum), here, differs, λ _. inr (st, compares false q))

    regular_status-Says :
        (sum : Bytes)
        → Finds (regular (some sum))
        → Says staged mismatch (
            regular_status e staged
              (ff_prefix_check d.records d.bytes e.dst (d.staged_path e.id))
              sum)
    regular_status-Says sum here =
        if-both (Says staged mismatch) (bytes_eq sum e.sha256) _ _
          (λ q. (
            regular (some sum),
            here,
            inr (
                inr (
                  no_directory,
                  no_link,
                  ap (λ x. regular (some x)) ((bytes_eq_iff sum e.sha256).0 q),
                )),
          ))
          (λ q.
            let differs : ¬ (IsSame e (regular (some sum))) =
              not-IsSame (regular (some sum))
                (λ z. clash (bytes_eq sum e.sha256) ((bytes_eq_iff sum e.sha256).1 (hash z)) q) in
            if-both (Says staged mismatch) (not e.ff_allowed) _ _
              (λ k. (regular (some sum), here, differs, λ _. inl (ground arith)))
              (λ k.
                if-both (Says staged mismatch) (not staged) _ _
                  (λ m. (
                    regular (some sum),
                    here,
                    differs,
                    (no_directory, no_link, (sum, refl)),
                    ground arith,
                    inl (ground arith),
                  ))
                  (λ m.
                    by_prefix sum (ff_prefix_check d.records d.bytes e.dst (d.staged_path e.id))
                      refl here differs (ground arith) (ground arith))))
      where
        hash : regular (some sum) ≡ regular (some e.sha256) → sum ≡ e.sha256
        hash z = cc

    file_status-Says :
        (kind : FileKind)
        → Finds kind
        → Says staged mismatch (
            file_status e staged
              (ff_prefix_check d.records d.bytes e.dst (d.staged_path e.id))
              kind)
    file_status-Says (regular none) here = tt
    file_status-Says (regular (some sum)) here = regular_status-Says sum here
    file_status-Says directory here = other_than_file directory (λ s q. cc) here
    file_status-Says (link_to t) here = other_than_file (link_to t) (λ s q. cc) here
    file_status-Says special here = other_than_file special (λ s q. cc) here

  present_status-Says :
      (staged mismatch : Bool) (kind : FileKind)
      → Finds kind
      → Says staged mismatch (
          present_status e staged
            (ff_prefix_check d.records d.bytes e.dst (d.staged_path e.id))
            kind)
  unfolding present_status
  present_status-Says staged mismatch kind here =
      if-both (Says staged mismatch) (is_dir e) _ _
        (λ dir. dir_status-Says staged mismatch dir kind here)
        (λ no_dir.
          if-both (Says staged mismatch) (is_symlink e) _ _
            (λ link. link_status-Says staged mismatch no_dir link kind here)
            (λ no_link. file_status-Says staged mismatch no_dir no_link kind here))

  seen-Says :
      (staged mismatch : Bool) (seen : Seen FileKind)
      → d.look e.dst ≡ seen
      → ¬ (IsDeferred e)
      → Says staged mismatch (elim seen [
        | gone ↦ some (staged_status staged mismatch)
        | unreadable ↦ none
        | there kind ↦
            present_status e staged
              (ff_prefix_check d.records d.bytes e.dst (d.staged_path e.id))
              kind
      ])
  seen-Says staged mismatch gone q here = staged_status-Means staged mismatch (inr q)
  seen-Says staged mismatch unreadable q here = tt
  seen-Says staged mismatch (there kind) q here = present_status-Says staged mismatch kind (here, q)

  own_status-Says :
      (staged mismatch : Bool)
      → Says staged mismatch (
          own_status e
            (staged, mismatch)
            (ff_prefix_check d.records d.bytes e.dst (d.staged_path e.id))
            (d.look e.dst))
  unfolding own_status
  own_status-Says staged mismatch =
      if-both (Says staged mismatch) (e.deferred && deferrable_category e.category) _ _
        (λ q. staged_status-Means staged mismatch (inl (deferral e.deferred e.category q)))
        (λ q. seen-Says staged mismatch (d.look e.dst) refl (no_deferral e.deferred e.category q))

  -- A status that is given to the entry means what it says.
  pub own_status-Means :
      (staged mismatch : Bool) (s : Status)
      → own_status e
          (staged, mismatch)
          (ff_prefix_check d.records d.bytes e.dst (d.staged_path e.id))
          (d.look e.dst)
        ≡ some s
      → Means staged mismatch s
  own_status-Means staged mismatch s h =
      subst (Says staged mismatch) h (own_status-Says staged mismatch)
