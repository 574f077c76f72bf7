-- ===== src/Transfer/Uninstall/Licensed.antt =====
-- What is removed: only what the job's record names, as long as it is still what was placed.
use mathlib.Core.List.{Memᴰ}
use go_claude_teleport.Base.{
  Bool, true, false, ◌||◌, not, Option, none, some, List, [], ◌∷◌, Bytes, bytes_eq, bytes_eq_iff,
  ◌≡◌, ◌≢◌, refl, ap, arith, All, if-both,
}
use go_claude_teleport.FilePath.{clean}
use go_claude_teleport.Transfer.Manifest.{Entry, is_dir, is_symlink}
use go_claude_teleport.Transfer.Diff.{Seen, gone, unreadable, there}
use go_claude_teleport.Transfer.Validate.{look_up}
use go_claude_teleport.Transfer.Installed.{
  Kind, kind_file, kind_dir, kind_symlink, other_kind, InstalledRecord, Installed,
}
use go_claude_teleport.Transfer.Uninstall.{
  Disk, is_kind_file, is_kind_symlink, State, removing, take_out, compared, remove_entry, if_placed,
  remove_entries, if_empty, remove_dirs,
}
use go_claude_teleport.Transfer.Uninstall.Order.{IsCreated}

module _ (disk : Disk) (installed : Installed) (es : List Entry) (protected : List Bytes) where
  open disk use {World, readlink, hash, dir_empty, remove}

  -- Why a path may be removed in a world.
  pub data IsLicensed (path : Bytes) (w : World) : Type 0 where
    same_file :
        (e : Entry) (r : InstalledRecord)
        → Memᴰ e es
        → path ≡ clean e.dst
        → look_up path installed ≡ some r
        → r.kind ≡ kind_file
        → r.sha256 ≢ []
        → hash path w ≡ there r.sha256
        → IsLicensed path w
    same_link :
        (e : Entry) (r : InstalledRecord)
        → Memᴰ e es
        → path ≡ clean e.dst
        → look_up path installed ≡ some r
        → r.kind ≡ kind_symlink
        → readlink path w ≡ there r.symlink
        → IsLicensed path w
    empty_dir :
        IsCreated es installed protected path → dir_empty path w ≡ there true → IsLicensed path w

  unfoldable pub AllLicensed : List (Bytes × World) → Type 0
  AllLicensed = All (λ c. IsLicensed c.0 c.1)

  unfoldable pub Licensed : State disk → Type 0
  Licensed s = AllLicensed s.calls

  take_out-Licensed :
      (path name : Bytes) (s : State disk)
      → IsLicensed path s.world
      → Licensed s
      → Licensed (take_out disk path name s)
  unfolding Licensed AllLicensed
  take_out-Licensed path name s l h = done (remove path s.world)
    where
      done :
          (out : Bool × World)
          → Licensed (removing disk name (record s { calls = (path, s.world) ∷ s.calls }) out)
      done (true, w) = (l, h)
      done (false, w) = (l, h)

  compared-Licensed :
      (path name want : Bytes) (s : State disk) (o : Seen Bytes)
      → (o ≡ there want → IsLicensed path s.world)
      → Licensed s
      → Licensed (compared disk path name want s o)
  unfolding Licensed
  compared-Licensed path name want s gone l h = h
  compared-Licensed path name want s unreadable l h = h
  compared-Licensed path name want s (there found) l h =
      if-both Licensed (bytes_eq found want) (take_out disk path name s) s
        (λ e. take_out-Licensed path name s (l (ap there ((bytes_eq_iff found want).0 e))) h)
        (λ _. h)

  kind_file_lem : (k : Kind) → is_kind_file k ≡ true → k ≡ kind_file
  kind_file_lem kind_file h = refl
  kind_file_lem kind_dir h = cc
  kind_file_lem kind_symlink h = cc
  kind_file_lem (other_kind t) h = cc

  kind_symlink_lem : (k : Kind) → is_kind_symlink k ≡ true → k ≡ kind_symlink
  kind_symlink_lem kind_symlink h = refl
  kind_symlink_lem kind_dir h = cc
  kind_symlink_lem kind_file h = cc
  kind_symlink_lem (other_kind t) h = cc

  remove_entry-Licensed :
      (e : Entry) (r : InstalledRecord) (s : State disk)
      → Memᴰ e es
      → look_up (clean e.dst) installed ≡ some r
      → Licensed s
      → Licensed (remove_entry disk e r s)
  unfolding remove_entry
  remove_entry-Licensed e r s m f h =
      if-both Licensed (is_dir e) s _ (λ _. h)
        (λ _.
          if-both Licensed (is_symlink e) _ _
            (λ _.
              if-both Licensed (not (is_kind_symlink r.kind)) s _ (λ _. h)
                (λ k.
                  compared-Licensed (clean e.dst) e.dst r.symlink s (readlink (clean e.dst) s.world)
                    (same_link e r m refl f (kind_symlink_lem r.kind (ground arith))) h))
            (λ _.
              if-both Licensed (not (is_kind_file r.kind) || bytes_eq r.sha256 []) s _ (λ _. h)
                (λ k.
                  compared-Licensed (clean e.dst) e.dst r.sha256 s (hash (clean e.dst) s.world)
                    (same_file e r m refl f (kind_file_lem r.kind (ground arith))
                      (ground (arith, bytes_eq_iff r.sha256 [])))
                    h)))

  pub remove_entries-Licensed :
      (rest : List Entry) (s : State disk)
      → ((e : Entry) → Memᴰ e rest → Memᴰ e es)
      → Licensed s
      → Licensed (remove_entries disk installed rest s)
  unfolding remove_entries
  remove_entries-Licensed [] s sub h = h
  remove_entries-Licensed (e ∷ rest) s sub h =
      remove_entries-Licensed rest (if_placed disk e s (look_up (clean e.dst) installed))
        (λ x m. sub x (Memᴰ.tail m)) (placed (look_up (clean e.dst) installed) refl)
    where
      placed :
          (o : Option InstalledRecord)
          → look_up (clean e.dst) installed ≡ o
          → Licensed (if_placed disk e s o)
      placed none f = h
      placed (some r) f = remove_entry-Licensed e r s (sub e (Memᴰ.head refl)) f h

  pub remove_dirs-Licensed :
      (ds : List Bytes) (s : State disk)
      → All (IsCreated es installed protected) ds
      → Licensed s
      → Licensed (remove_dirs disk ds s)
  unfolding remove_dirs Licensed
  remove_dirs-Licensed [] s c h = h
  remove_dirs-Licensed (d ∷ ds) s (c, cs) h =
      remove_dirs-Licensed ds (if_empty disk d s (dir_empty d s.world)) cs
        (looked (dir_empty d s.world) refl)
    where
      looked : (o : Seen Bool) → dir_empty d s.world ≡ o → Licensed (if_empty disk d s o)
      looked gone f = h
      looked unreadable f = h
      looked (there false) f = h
      looked (there true) f = take_out-Licensed d d s (empty_dir c f) h
