-- ===== src/Reward.antt =====
-- The reward functions: coleman/reward.
pub mod Ranks
pub mod Counts
pub mod Scheduled
pub mod Documented
mod Tests
