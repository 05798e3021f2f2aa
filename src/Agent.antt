-- ===== src/Agent.antt =====
-- The learning agents: coleman/agent.
pub mod Frames
pub mod State
mod Sets
pub mod Actions
pub mod Observing
pub mod Window
mod Tests
