-- ===== src/Rebalance/Generator.antt =====
-- app/strategy/runtime/order_generator.py: the orders of a rebalance. The settings of the generator
-- and what its surroundings give are parameters: `new_id n` is the answer of `uuid.uuid4()` for the
-- n-th item, and `decimal` is the text of a price in the database.
use autotrading.Prelude.{
  ℕ, suc, ◌++◌, ◌+◌, String, Option, none, some, Bool, true, not, List, [], ◌∷◌, filter, any,
  length, sum_by, ◌==◌, ◌||◌, if◌then◌else◌, or_zero,
}
use autotrading.Domain.{OrderAction, OrderKind, OrderType, market, pending}
use autotrading.Orders.Row.{Order}
use autotrading.Orders.Repository.{create_order}
use autotrading.Worker.Effects.{
  Action, ◌>>=◌, ◌>>◌, pure, execute, commit, send, process_order, when,
}
use autotrading.Rebalance.Diff.{
  DiffAction, PositionDiffItem, PositionDiffResult, Quotient, same_code, alloc_per_stock, shares,
  is_affordable, name_of,
}

pub record OrderRequest : Type 0 where
  pub order_id : ℕ
  pub stock_code : String
  pub stock_name : String
  pub action : OrderAction
  pub quantity : ℕ
  pub price : ℕ
  pub order_type : OrderType
  pub order_kind : OrderKind
  pub rebalance_id : ℕ
  pub diff_action : DiffAction

pub record OrderGenerationResult : Type 0 where
  pub rebalance_id : ℕ
  pub sell_orders : List OrderRequest
  pub buy_orders : List OrderRequest
  pub skipped : List String

abbrev pub price_for : OrderType → ℕ → ℕ
price_for market price = 0
price_for _ price = price

abbrev pub in_items : List PositionDiffItem → String → Bool
in_items items code = any (λ item. same_code code item.stock_code) items

-- an item is ordered or passed over
abbrev pub add_request :
    Option OrderRequest → String → List OrderRequest × List String → List OrderRequest × List String
add_request none stock_code rest = (rest.0, stock_code ∷ rest.1)
add_request (some order_req) stock_code rest = (order_req ∷ rest.0, rest.1)

module _ (new_id : ℕ → ℕ) (order_type : OrderType) where
  -- `_create_order_request`
  abbrev pub create_order_request : ℕ → PositionDiffItem → OrderAction → ℕ → Option OrderRequest
  create_order_request n item action rebalance_id =
      if item.order_qty == 0
      then none
      else some (record {
        order_id = new_id n;
        stock_code = item.stock_code;
        stock_name = item.stock_name;
        action = action;
        quantity = item.order_qty;
        price = price_for order_type item.current_price;
        order_type = order_type;
        order_kind = OrderKind.new;
        rebalance_id = rebalance_id;
        diff_action = item.action;
      })

  -- one of the two loops: the requests, and the stocks that are passed over
  abbrev pub requests :
      OrderAction → ℕ → ℕ → List PositionDiffItem → List OrderRequest × List String
  requests action rebalance_id n [] = ([], [])
  requests action rebalance_id n (item ∷ items) =
      add_request (create_order_request n item action rebalance_id) item.stock_code
        (requests action rebalance_id (suc n) items)

  unfoldable pub generate_orders : PositionDiffResult → ℕ → OrderGenerationResult
  generate_orders diff_result rebalance_id =
      let sells = requests OrderAction.sell rebalance_id 0 diff_result.sell_list in
      let buys =
        requests OrderAction.buy rebalance_id (length diff_result.sell_list) diff_result.buy_list in
      record {
        rebalance_id = rebalance_id;
        sell_orders = sells.0;
        buy_orders = buys.0;
        skipped = sells.1 ++ buys.1;
      }

  abbrev pub buy_request :
      (String → Option ℕ) → (String → Option String) → ℕ → Quotient → ℕ → String → OrderRequest
  buy_request price_map name_map rebalance_id alloc n code =
      let price = or_zero (price_map code) in
      record {
        order_id = new_id n;
        stock_code = code;
        stock_name = name_of name_map code;
        action = OrderAction.buy;
        quantity = shares alloc price;
        price = price_for order_type price;
        order_type = order_type;
        order_kind = OrderKind.new;
        rebalance_id = rebalance_id;
        diff_action = DiffAction.buy;
      }

  abbrev pub buy_requests :
      (String → Option ℕ)
      → (String → Option String)
      → ℕ
      → Quotient
      → ℕ
      → List String
      → List OrderRequest
  buy_requests price_map name_map rebalance_id alloc n [] = []
  buy_requests price_map name_map rebalance_id alloc n (code ∷ stock_codes) =
      let rest = buy_requests price_map name_map rebalance_id alloc (suc n) stock_codes in
      if is_affordable price_map alloc code
      then buy_request price_map name_map rebalance_id alloc n code ∷ rest
      else rest

  -- `_recalculate_buy_orders`, with the cash that the account has after the sales
  unfoldable pub recalculate_buy_orders :
      ℕ
      → List String
      → List PositionDiffItem
      → (String → Option ℕ)
      → (String → Option String)
      → ℕ
      → List OrderRequest
  recalculate_buy_orders available_cash buy_codes hold_list price_map name_map rebalance_id =
      let hold_value = sum_by (λ item. item.current_value) hold_list in
      let new_buy_codes = filter (λ code. not (in_items hold_list code)) buy_codes in
      let alloc =
        alloc_per_stock (available_cash + hold_value) (length buy_codes) (length new_buy_codes)
          available_cash in
      if available_cash == 0 || length buy_codes == 0 || length new_buy_codes == 0
      then []
      else buy_requests price_map name_map rebalance_id alloc 0 new_buy_codes

-- the row of a new order
abbrev pub order_of : (ℕ → String) → OrderRequest → Order
order_of decimal order_req = record {
  id = order_req.order_id;
  stock_code = order_req.stock_code;
  order_pos = order_req.action;
  order_kind = order_req.order_kind;
  order_type = order_req.order_type;
  order_price = some (decimal order_req.price);
  order_qty = order_req.quantity;
  status = pending;
  submitted_at = none;
  original_order_id = none;
  original_broker_order_no = none;
  original_broker_org_no = none;
  broker_order_no = none;
  broker_org_no = none;
  rt_cd = none;
  msg_cd = none;
  msg1 = none;
  filled_qty = 0;
  remaining_qty = 0;
  avg_fill_price = none;
  error_message = none;
  rebalance_id = some order_req.rebalance_id;
}

-- `_insert_and_queue`
unfoldable pub insert_and_queue : (ℕ → String) → Bool → OrderRequest → Action (Unit {0})
insert_and_queue decimal dry_run order_req = do
  created ← execute (λ t. (create_order (order_of decimal order_req) t, true))
  commit
  when (not dry_run) (send (process_order order_req.order_id 0))

-- the loop over the orders of one side
unfoldable pub insert_all : (ℕ → String) → Bool → List OrderRequest → Action (Unit {0})
insert_all decimal dry_run [] = pure tt
insert_all decimal dry_run (order_req ∷ order_reqs) =
    insert_and_queue decimal dry_run order_req >> insert_all decimal dry_run order_reqs
