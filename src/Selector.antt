-- ===== src/Selector.antt =====
-- internal/selector: choosing a channel, the candidate keys of a time band, and a key.
pub mod Batch
pub mod Partition
pub mod Bands
pub mod Ahead
pub mod Tiers
pub mod Pick
pub mod Order
pub mod Candidates
pub mod Liveness
pub mod Request
pub mod Select
pub mod Served
