-- ===== src/Api.antt =====
-- The routes of the API that insert orders and that turn the kill switch.
pub mod Http
pub mod Orders
