-- ===== src/Workflow.antt =====
-- The durable jobs of a workspace: coleman/application and coleman/workflows.
pub mod Records
pub mod Rows
pub mod Service
pub mod Scheduler
pub mod Worker
pub mod Evolution
pub mod Pairs
pub mod Rowwise
pub mod Claiming
pub mod Steps
pub mod Validity
pub mod Moving
pub mod Transactions
pub mod Admission
pub mod Requests
pub mod Effects
pub mod Safety
pub mod History
pub mod Cancelling
pub mod Progress
pub mod Returning
pub mod Queue
mod Tests
