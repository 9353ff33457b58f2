-- ===== src/Worker/Recovery.antt =====
-- app/worker/recovery.py: after a restart, the open orders are handed to the workers again.
pub mod Reach
use autotrading.Prelude.{ℕ, none, Bool, true, false, List, [], ◌∷◌}
use autotrading.Orders.Row.{Order}
use autotrading.Orders.Repository.{get_recoverable_submit_orders, get_recoverable_tracking_orders}
use autotrading.Worker.Effects.{
  Message, process_order, process_order_status, Action, ◌>>=◌, ◌>>◌, pure, query, send, when,
}

abbrev pub submit_message : Order → Message
submit_message order = process_order order.id 0

abbrev pub tracking_message : Order → Message
tracking_message order = process_order_status order.id 0 none 0

unfoldable pub send_all : (Order → Message) → List Order → Action (Unit {0})
send_all message [] = pure tt
send_all message (order ∷ orders) = send (message order) >> send_all message orders

unfoldable pub recover_submit_orders : Action (Unit {0})
recover_submit_orders = do
  orders ← query get_recoverable_submit_orders
  send_all submit_message orders

unfoldable pub recover_tracking_orders : Action (Unit {0})
recover_tracking_orders = do
  orders ← query get_recoverable_tracking_orders
  send_all tracking_message orders

-- `recover_all_orders`; the flag tells whether the lock was taken
unfoldable pub recover_all_orders : Bool → Action (Unit {0})
recover_all_orders acquired = when acquired (recover_submit_orders >> recover_tracking_orders)
