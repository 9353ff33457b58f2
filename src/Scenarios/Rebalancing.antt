-- ===== src/Scenarios/Rebalancing.antt =====
-- A rebalance: three stocks are wanted, one of them is held, and another stock is held.
use autotrading.Prelude.{
  ℕ, ◌≡◌, ◌≤◌, ◌+◌, String, Option, none, some, false, List, [], ◌∷◌, map, arith,
}
use autotrading.Domain.{OrderAction, OrderKind, market, timeout, filled}
use autotrading.Orders.Row.{Order}
use autotrading.Rebalance.Diff.{
  DiffAction, PositionDiffResult, CurrentHolding, calculate, cash_buffer,
}
use autotrading.Rebalance.Budget.{calculate-buffer}
use autotrading.Rebalance.Generator.{OrderRequest, recalculate_buy_orders}
use autotrading.Rebalance.Recalculation.{planned, ordered, recalculate-calculate}
use autotrading.Rebalance.Fills.{FillResult, Poll}
use autotrading.Scenarios.{open_bid}

abbrev wanted_codes : List String
wanted_codes = "005930" ∷ "000660" ∷ "035420" ∷ []

abbrev holdings : List CurrentHolding
holdings =
    record {
      stock_code = "005930";
      stock_name = "Samsung";
      quantity = 10;
      current_price = 70000;
      eval_amount = 700000;
    }
    ∷ record {
      stock_code = "051910";
      stock_name = "LG Chem";
      quantity = 2;
      current_price = 400000;
      eval_amount = 800000;
    }
    ∷ []

abbrev price_map : String → Option ℕ
price_map code = some 180000

abbrev name_map : String → Option String
name_map code = none

calculate-buffer_example :
    let r = calculate 200 wanted_codes holdings 1000000 price_map name_map in
    let investable = 1000000 + r.total_sell_value in
    (r.total_buy_value + cash_buffer 200 investable ≤ investable)
    × (r.estimated_cash_after + r.total_buy_value ≡ investable)
    × (cash_buffer 200 investable ≤ r.estimated_cash_after)
calculate-buffer_example =
    calculate-buffer 200 wanted_codes holdings 1000000 price_map name_map (omega arith)

recalculate-calculate_example :
    let r = calculate 200 wanted_codes holdings 1000000 price_map name_map in
    map ordered (
      recalculate_buy_orders
        (λ n. n)
        market
        (1000000 + r.total_sell_value)
        wanted_codes
        r.hold_list
        price_map
        name_map
        1)
    ≡ map planned (calculate 0 wanted_codes holdings 1000000 price_map name_map).buy_list
recalculate-calculate_example =
    recalculate-calculate (λ n. n) market price_map name_map 1 200 wanted_codes holdings 1000000

abbrev plan : PositionDiffResult
plan = calculate 200 wanted_codes holdings 1000000 price_map name_map

abbrev sale : OrderRequest
sale = record {
  order_id = 9;
  stock_code = "051910";
  stock_name = "LG Chem";
  action = OrderAction.sell;
  quantity = 2;
  price = 0;
  order_type = market;
  order_kind = OrderKind.new;
  rebalance_id = 1;
  diff_action = DiffAction.sell;
}

abbrev waiting : FillResult
waiting = record {
  total_orders = 1;
  filled_orders = 0;
  canceled_orders = 0;
  failed_orders = 0;
  total_filled_amount = 0;
  timed_out = false;
  canceled_by_timeout = 0;
}

abbrev given_up : Order
given_up = record open_bid { status = timeout }

-- two looks at an order that worker 2 has given up, with a limit of three seconds
abbrev looks : List Poll
looks =
    record { elapsed = 0; rows = given_up ∷ [] }
    ∷ record { elapsed = 3000000; rows = given_up ∷ [] }
    ∷ []

abbrev filled_look : List Poll
filled_look = record { elapsed = 0; rows = record open_bid { status = filled } ∷ [] } ∷ []
