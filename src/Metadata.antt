-- ===== src/Metadata.antt =====
-- internal/metadata: chunk versions, write leases, the places of chunks, and liveness.
pub mod Store
pub mod Namespace
pub mod Version
pub mod Lease
pub mod ChunkMap
pub mod Monitor
mod Tests
