-- ===== src/Screener.antt =====
-- app/strategy/screener: which stocks a strategy may choose from.
pub mod Fscore
