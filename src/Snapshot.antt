-- ===== src/Snapshot.antt =====
-- The snapshots of the portfolio after a rebalance: app/services/kis/account_service.py,
-- app/services/rebalance/portfolio_snapshot_service.py with its task app/worker/tasks_snapshot.py, the tables of
-- app/db/models/snapshot.py and app/repository/portfolio_snapshot_repository.py, and their reading in
-- app/services/rebalance/rebalance_query_service.py. How Python reads a text as an integer or as a decimal is
-- given, and so is the order in which the database sorts.
pub mod Account
pub mod Capture
