-- ===== src/Transfer.antt =====
-- Package transfer: the manifest and its classification on the destination.
pub mod Manifest
pub mod Diff
pub mod Build
pub mod Install
pub mod Trust
pub mod Under
pub mod Roots
pub mod Validate
pub mod Installed
pub mod Uninstall
