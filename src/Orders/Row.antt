-- ===== src/Orders/Row.antt =====
-- app/db/models/order.py: `Order`, a row of the table `orders`.
use autotrading.Prelude.{ℕ, String, Option}
use autotrading.Domain.{OrderStatus, OrderAction, OrderKind, OrderType}

pub record Order : Type 0 where
  pub id : ℕ
  pub stock_code : String
  pub order_pos : OrderAction
  pub order_kind : OrderKind
  pub order_type : OrderType
  pub order_price : Option String
  pub order_qty : ℕ
  pub status : OrderStatus
  pub submitted_at : Option ℕ
  pub original_order_id : Option ℕ
  pub original_broker_order_no : Option String
  pub original_broker_org_no : Option String
  pub broker_order_no : Option String
  pub broker_org_no : Option String
  pub rt_cd : Option String
  pub msg_cd : Option String
  pub msg1 : Option String
  pub filled_qty : ℕ
  pub remaining_qty : ℕ
  pub avg_fill_price : Option ℕ
  pub error_message : Option String
  pub rebalance_id : Option ℕ
