-- ===== src/Scenarios.antt =====
-- Concrete orders, tables and answers, and each theorem that has conditions at one of them.
pub mod Backtesting
pub mod Capturing
pub mod Valuing
pub mod Sending
pub mod Paging
pub mod Submitting
pub mod Tracking
pub mod Rebalancing
pub mod Scheduling
pub mod Routes
pub mod Store
pub mod Locking
pub mod Tokens
pub mod Executing
pub mod Screening
pub mod Measuring
use autotrading.Prelude.{
  ℕ, ◌≡◌, ◌↔◌, refl, String, Option, none, some, Bool, true, false, List, [], ◌∷◌,
}
use autotrading.Domain.{
  OrderAction, buy, OrderKind, OrderType, market, limit, OrderStatus, pending, processing, accepted,
  failed, filled, partial_filled, can_transition,
}
use autotrading.Domain.Transitions.{◌⟶◌, can_transition_iff}
use autotrading.Domain.Traces.{is_local, follow, handed_over_for_good}
use autotrading.Orders.Row.{Order}
use autotrading.Orders.Repository.{Table, update_order_status}
use autotrading.Orders.Statements.{update_order_status_once}
use autotrading.Worker.Effects.{World}

-- a market order for ten shares
abbrev pub bid : Order
bid = record {
  id = 7;
  stock_code = "005930";
  order_pos = buy;
  order_kind = OrderKind.new;
  order_type = market;
  order_price = some "0";
  order_qty = 10;
  status = pending;
  submitted_at = none;
  original_order_id = none;
  original_broker_order_no = none;
  original_broker_org_no = none;
  broker_order_no = none;
  broker_org_no = none;
  rt_cd = none;
  msg_cd = none;
  msg1 = none;
  filled_qty = 0;
  remaining_qty = 0;
  avg_fill_price = none;
  error_message = none;
  rebalance_id = none;
}

-- the same order at the broker, and a modify order for four of its shares, at the broker too
abbrev pub open_bid : Order
open_bid = record bid {
  status = accepted;
  remaining_qty = 10;
  broker_order_no = some "0001";
  broker_org_no = some "06010";
}

abbrev pub change : Order
change = record bid {
  id = 8;
  order_kind = OrderKind.modify;
  order_qty = 4;
  order_type = limit;
  order_price = some "70000";
  status = accepted;
  remaining_qty = 4;
  original_order_id = some 7;
  original_broker_order_no = some "0001";
  original_broker_org_no = some "06010";
  broker_order_no = some "0002";
  broker_org_no = some "06010";
}

abbrev pub world : Table → World
world t = record { table = t; saved = t; queue = []; published = []; alerts = []; calls = [] }

-- what the ORM does to an object whose row it has updated
abbrev pub synchronize : Order → Option Order → Order
synchronize held none = held
synchronize held (some row) = row

can_transition_iff_example : (can_transition pending processing ≡ true) ↔ (pending ⟶ processing)
can_transition_iff_example = can_transition_iff pending processing
