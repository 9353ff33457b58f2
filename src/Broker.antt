-- ===== src/Broker.antt =====
-- The part of the program that talks to the broker: app/services/kis/trade_service.py, for which the
-- HTTP client is a function from calls to replies, and that client, app/broker/kis/kis_order.py, over
-- the attempts that it makes.
pub mod TradeService
pub mod Available
pub mod Balance
pub mod Client
