-- ===== src/Tests/Removal.antt =====
-- The removal of an installed file on a concrete host.
use go_claude_teleport.Base.{true, false, List, [], ◌∷◌, codes, if◌then◌else◌, Bool}
use go_claude_teleport.Transfer.Manifest.{repo}
use go_claude_teleport.Transfer.Diff.{gone, there}
use go_claude_teleport.Transfer.Installed.{InstalledRecord, kind_file, kind_dir}
use go_claude_teleport.Transfer.Uninstall.{Disk, State}

-- The world is whether the file is still there.
abbrev disk : Disk
disk = record {
  World = Bool;
  readlink = λ p w. gone;
  hash = λ p w. if w then there (codes "h1") else gone;
  dir_empty = λ p w. if w then there false else there true;
  remove = λ p w. (true, false);
}

-- The file and the directory that was made for it.
abbrev held : List InstalledRecord
held =
    record { dst = codes "/h/w"; sha256 = []; category = repo; kind = kind_dir; symlink = [] }
    ∷ record {
      dst = codes "/h/w/f";
      sha256 = codes "h1";
      category = repo;
      kind = kind_file;
      symlink = [];
    }
    ∷ []

abbrev cleared : State disk
cleared = record {
  world = false;
  removed = codes "/h/w/f" ∷ codes "/h/w" ∷ [];
  errors = [];
  calls = (codes "/h/w", false) ∷ (codes "/h/w/f", true) ∷ [];
}
