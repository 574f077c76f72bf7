-- ===== src/Job.antt =====
-- Package job: the journal of a teleport, its id, and the resumable step runner.
pub mod Id
pub mod Journal
pub mod Save
pub mod Run
