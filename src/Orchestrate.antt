-- ===== src/Orchestrate.antt =====
-- Package orchestrate: the detached runner and the exit codes.
pub mod Runner
pub mod Endpoint
pub mod Steps
