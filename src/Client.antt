-- ===== src/Client.antt =====
-- pkg/client: how a file becomes chunks, and how calls are retried.
pub mod File
pub mod Retry
pub mod Operations
mod Tests
