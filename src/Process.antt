-- ===== src/Process.antt =====
-- Processes (internal/procx).
pub mod Freezer
