-- ===== src/Evaluation.antt =====
-- The evaluation of a prioritized suite: coleman/evaluation.
pub mod Metric
pub mod Masks
pub mod Counting
mod Tests
