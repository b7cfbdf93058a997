-- ===== src/Distillation/Handover.antt =====
-- What the client proposes, the replay admits: the two walk the same sequence numbers.
pub mod Tiling
pub mod Proposing
pub mod Fetched
pub mod Succession
pub mod Accepted
pub mod Admitted
pub mod Tests
