-- ===== src/Session.antt =====
-- Session data (internal/session): path maps, the places on disk, prefixes of files and the memory index.
pub mod PathMap
pub mod Prefix
pub mod Paths
pub mod MemoryIndex
