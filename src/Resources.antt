-- ===== src/Resources.antt =====
-- Resource accounting: coleman/resources.
pub mod Contracts
pub mod State
pub mod Replay
pub mod Attempts
pub mod Balance
pub mod Containment
pub mod Overruns
pub mod Ledger
pub mod Selecting
mod Tests
