-- ===== src/Chunk.antt =====
-- internal/chunk: content-addressed chunks on disk, and the collection of those that no file has.
pub mod Store
pub mod Gc
pub mod Replication
mod Tests
