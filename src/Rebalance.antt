-- ===== src/Rebalance.antt =====
-- app/strategy/runtime: from the stocks that a strategy wants to the orders of a rebalance.
pub mod History
pub mod Diff
pub mod Budget
pub mod Partition
pub mod Generator
pub mod Recalculation
pub mod Fills
pub mod Executor
pub mod Submission
pub mod Waiting
pub mod Requests
