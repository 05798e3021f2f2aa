-- ===== src/Search.antt =====
-- Finite weighted coverage: coleman/selection.
pub mod Contracts
pub mod Mathematics
pub mod Limits
pub mod Monad
pub mod Solver
pub mod Run
pub mod Solve
pub mod Triple
pub mod Selections
pub mod Invariant
pub mod GreedyFeasible
pub mod BranchFeasible
pub mod Feasible
mod Tests
