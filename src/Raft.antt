-- ===== src/Raft.antt =====
-- internal/raft: one node of the consensus group, its log and its RPC handlers.
pub mod Types
pub mod Log
pub mod Node
pub mod Election
pub mod Replication
pub mod Snapshots
pub mod Invariant
pub mod Network
pub mod Hazards
mod Tests
