-- ===== src/Allocation.antt =====
-- Allocations over finite scenarios: coleman/allocation.
pub mod Contracts
pub mod Validating
pub mod Forecasts
pub mod Variance
pub mod Forecastable
pub mod Choosing
pub mod Ties
pub mod Best
pub mod Solver
pub mod Enumerating
pub mod Verifying
pub mod Counting
mod Tests
