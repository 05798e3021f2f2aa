-- ===== src/Sweep.antt =====
-- Sweeps of run specifications: coleman/spec/sweep.py.
pub mod Data
pub mod Expansion
pub mod Setting
pub mod Counts
mod Tests
