-- ===== src/Git.antt =====
-- The git part of a teleport (internal/gitx).
pub mod Plan
