-- ===== src/Tests.antt =====
-- Tests, and an application of each theorem that has conditions to concrete values.
pub mod Machine
pub mod Jobs
pub mod Sessions
pub mod Transfers
pub mod Hosts
pub mod Roots
pub mod Removal
pub mod Steps
pub mod Index
