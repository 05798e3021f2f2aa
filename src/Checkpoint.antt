-- ===== src/Checkpoint.antt =====
-- The checkpoints of a run: coleman/checkpoint.
pub mod Store
pub mod Crash
mod Tests
