-- ===== src/Transfer/Uninstall/Removed.antt =====
-- What `UninstallIDs` removes.
use go_claude_teleport.Base.{Option, some, List, Bytes, ◌≡◌}
use go_claude_teleport.Session.Paths.{Paths}
use go_claude_teleport.Transfer.Manifest.{Entry}
use go_claude_teleport.Transfer.Installed.{InstalledRecord, Installed, load_installed}
use go_claude_teleport.Transfer.Uninstall.{Disk, Uninstalled, not_begun, ended}
use go_claude_teleport.Transfer.Uninstall.Licensed.{AllLicensed, Licensed}

module _ (disk : Disk) (es : List Entry) (protected : List Bytes) where
  open disk use {World}

  -- A removal that was begun had the job's record, and made licensed calls only.
  IsLawful : Option (List InstalledRecord) → Uninstalled disk → Type 0
  IsLawful held not_begun = Unit
  IsLawful held (ended s) =
      (records : List InstalledRecord) × (held ≡ some records)
      × AllLicensed disk (load_installed records) es protected s.calls
