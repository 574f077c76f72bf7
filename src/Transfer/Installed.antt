-- ===== src/Transfer/Installed.antt =====
-- The record of what a job placed on the destination (internal/transfer/installed.go). Its JSON file
-- enters as the list of records that it holds, and its write as whether it works.
use go_claude_teleport.Base.{List, [], ◌∷◌, ◌++◌, Bytes, bytes_eq, if◌then◌else◌}
use go_claude_teleport.FilePath.{clean}
use go_claude_teleport.Transfer.Manifest.{Entry, Category, is_dir, is_symlink}

-- `Kind`: the three words, and any other text of the file.
pub data Kind : Type 0 where
  kind_file kind_dir kind_symlink : Kind
  other_kind : Bytes → Kind

-- `installedRecord`.
pub record InstalledRecord : Type 0 where
  pub dst : Bytes
  pub sha256 : Bytes
  pub category : Category
  pub kind : Kind
  pub symlink : Bytes

-- The map from cleaned paths, as a list of pairs with distinct keys.
abbrev pub Installed : Type 0
Installed = List (Bytes × InstalledRecord)

-- `out[key] = r`.
unfoldable pub set_record : Bytes → InstalledRecord → Installed → Installed
unfolding bytes_eq
set_record key r [] = (key, r) ∷ []
set_record key r ((k, x) ∷ rest) =
    let later = set_record key r rest in if bytes_eq k key then (key, r) ∷ rest else (k, x) ∷ later

-- The loop of `loadInstalled`, over the map so far.
unfoldable pub load_into : Installed → List InstalledRecord → Installed
unfolding set_record clean
load_into all [] = all
load_into all (r ∷ rs) = load_into (set_record (clean r.dst) r all) rs

-- `loadInstalled`, over what the file holds; a missing file holds nothing.
unfoldable pub load_installed : List InstalledRecord → Installed
unfolding load_into
load_installed rs = load_into [] rs

-- The loop of `saveInstalled`: the records are merged under their cleaned paths.
unfoldable pub merge_records : Installed → List InstalledRecord → Installed
unfolding set_record clean
merge_records all [] = all
merge_records all (r ∷ rs) =
    merge_records (set_record (clean r.dst) (record r { dst = clean r.dst }) all) rs

unfoldable pub values : Installed → List InstalledRecord
values [] = []
values ((k, r) ∷ rest) = r ∷ values rest

-- `saveInstalled`, but for the sorting by path: what the file holds afterwards.
unfoldable pub save_installed : List InstalledRecord → List InstalledRecord → List InstalledRecord
unfolding merge_records load_installed values
save_installed held [] = held
save_installed held (r ∷ rs) = values (merge_records (load_installed held) (r ∷ rs))

-- `recordOf`.
unfoldable pub record_of : Entry → InstalledRecord
unfolding clean is_dir is_symlink
record_of e =
    if is_dir e
    then record {
      dst = clean e.dst;
      sha256 = [];
      category = e.category;
      kind = kind_dir;
      symlink = [];
    }
    else if is_symlink e
    then record {
      dst = clean e.dst;
      sha256 = [];
      category = e.category;
      kind = kind_symlink;
      symlink = e.symlink;
    }
    else record {
      dst = clean e.dst;
      sha256 = e.sha256;
      category = e.category;
      kind = kind_file;
      symlink = [];
    }

abbrev dir_records : Category → List Bytes → List InstalledRecord
dir_records c [] = []
dir_records c (d ∷ ds) =
    record { dst = d; sha256 = []; category = c; kind = kind_dir; symlink = [] } ∷ dir_records c ds

-- `recordPlaced`, over the list `placed`.
unfoldable pub record_placed : Entry → List Bytes → List InstalledRecord → List InstalledRecord
unfolding record_of
record_placed e created placed = placed ++ dir_records e.category created ++ record_of e ∷ []
