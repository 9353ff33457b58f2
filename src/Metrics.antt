-- ===== src/Metrics.antt =====
-- app/strategy/metrics: the equity of a portfolio out of its snapshots, and of the figures of its performance those
-- that only compare values and count days.
pub mod Drawdown
pub mod Longest
pub mod Duration
pub mod Equity
pub mod Series
