-- ===== src/Transfer/Validate/Permitted.antt =====
-- What the validator permits: each accepted entry is one of the writes that the rules list.
use go_claude_teleport.Base.{true, false, some, List, Bytes, has_text, ◌≡◌, ◌⊎◌}
use go_claude_teleport.FilePath.{is_abs, clean}
use go_claude_teleport.FilePath.Rel.{rel}
use go_claude_teleport.Session.Paths.{munge}
use go_claude_teleport.Transfer.Manifest.{Entry, session, capture, is_dir, is_regular}
use go_claude_teleport.Transfer.Diff.{gone, there}
use go_claude_teleport.Transfer.Build.{forbidden}
use go_claude_teleport.Transfer.Under.{under_dir}
use go_claude_teleport.Transfer.Roots.{Files, Root, is_git_root, resolve_existing}
use go_claude_teleport.Transfer.Roots.Chosen.{IsPicked, IsLongest}
use go_claude_teleport.Transfer.Roots.Landing.{IsFit}
use go_claude_teleport.Transfer.Validate.{Validator, check_symlink, accepted}
use go_claude_teleport.Transfer.Validate.Sound.{IsClaim}

-- The path really lies in a directory.
unfoldable pub Lands : Files → Bytes → Bytes → Type 0
Lands fs dst b = (d : Bytes) × (resolve_existing fs dst ≡ some d) × (under_dir d b ≡ true)

-- Every entry names a clean absolute path under home.
pub record IsNamed (v : Validator) (e : Entry) : Type 0 where
  pub absolute : is_abs e.dst ≡ true
  pub cleaned : e.dst ≡ clean e.dst
  pub in_home : under_dir e.dst (clean v.paths.home) ≡ true

-- Why an entry may be written under a root: the job recorded the root, an installation is about to
-- claim it, it was not there, it is a directory in which a session of the manifest ran, or the entry
-- is a directory, which carries no content.
pub data IsOwned (fs : Files) (v : Validator) (recorded : List Bytes) (e : Entry) (r : Root)
    (res : Bytes) : Type 0 where
  was_recorded : has_text res recorded ≡ true → IsOwned fs v recorded e r res
  to_claim : IsClaim fs v res → IsOwned fs v recorded e r res
  was_absent : fs.lstat r.path ≡ gone → IsOwned fs v recorded e r res
  ran_there :
      r.may_pre_exist ≡ true
      → fs.lstat r.path ≡ there true
      → (has_text (munge (clean r.path)) v.claimed_cwds ≡ true)
        ⊎ (has_text (munge res) v.claimed_cwds ≡ true)
      → IsOwned fs v recorded e r res
  no_content : is_dir e ≡ true → IsOwned fs v recorded e r res

-- A repository's entry: it really lies in the real directory of the longest declared root that holds
-- it, a directory that may be a root, and so does what it links to.
pub record IsInRoot (fs : Files) (v : Validator) (recorded : List Bytes) (e : Entry) (r : Root)
    (res : Bytes) : Type 0 where
  pub picked : IsPicked e.dst v.roots r
  pub longest : IsLongest e.dst v.roots r
  pub resolved : resolve_existing fs r.path ≡ some res
  pub fit : IsFit v.real res
  pub landed : Lands fs e.dst res
  pub linked : check_symlink fs e e.dst (clean r.path) ≡ accepted
  pub owned : IsOwned fs v recorded e r res

-- The writes that the validator permits, by category.
pub data IsPermitted (fs : Files) (v : Validator) (recorded : List Bytes) (e : Entry) : Type 0 where
  of_session :
      e.category ≡ session
      → under_dir e.dst (clean v.paths.config_dir) ≡ true
      → (r : Bytes) × (rel (clean v.paths.config_dir) e.dst ≡ some r) × (forbidden r ≡ false)
      → check_symlink fs e e.dst (clean v.paths.config_dir) ≡ accepted
      → Lands fs e.dst v.real.config_dir
      → IsPermitted fs v recorded e
  of_capture :
      e.category ≡ capture
      → v.capture_dst ≡ some e.dst
      → is_regular e ≡ true
      → Lands fs e.dst v.real.data_dir
      → IsPermitted fs v recorded e
  of_deferred : is_git_root e.category ≡ true → e.deferred ≡ true → IsPermitted fs v recorded e
  of_repository :
      is_git_root e.category ≡ true
      → (r : Root) (res : Bytes) → IsInRoot fs v recorded e r res
      → IsPermitted fs v recorded e
