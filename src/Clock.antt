-- ===== src/Clock.antt =====
-- internal/clock: the scalar clock and the vector clock.
pub mod Lamport
pub mod Vector
mod Tests
