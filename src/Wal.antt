-- ===== src/Wal.antt =====
-- internal/wal: the on-disk format, its replay, and the log of rolling segment files.
pub mod Bytes
pub mod Crc
pub mod Entry
pub mod Recovery
pub mod Segments
mod Tests
