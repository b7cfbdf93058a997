-- ===== src/Distillation.antt =====
-- The distillation consumer: transport records, the HTTP client's proposals and the replay.
pub mod Transport
pub mod Hashing
pub mod Intervals
pub mod Client
pub mod Replay
pub mod Storage
pub mod Handover
pub mod Job
mod Tests
