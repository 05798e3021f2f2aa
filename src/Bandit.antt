-- ===== src/Bandit.antt =====
-- The bandits: coleman/bandit.
pub mod Arms
pub mod Priority
mod Tests
