-- ===== src/Api/Orders.antt =====
-- app/api/router_order.py: the four routes that check a request, insert an order and hand it to
-- worker 1.
pub mod Requests
pub mod Lookup
pub mod Rows
use autotrading.Prelude.{
  ℕ, suc, String, Option, none, some, Bool, true, false, not, ◌&&◌, ◌||◌, List, [], ◌∷◌, all,
  length, truthy, codes, strip, ltb, ◌==◌, if◌then◌else◌,
}
use autotrading.Domain.{
  OrderStatus, OrderAction, buy, sell, OrderKind, OrderType, market, limit, conditional, pending,
  accepted, partial_filled, status_in,
}
use autotrading.Orders.Row.{Order}
use autotrading.Orders.Repository.{get_order_by_id}
use autotrading.Worker.Effects.{Reply, process_order}
use autotrading.Api.Http.{
  Response, answer, http_exception, Handler, ◌>>=◌, ◌>>◌, check, pure, query, await, require,
  insert, commit, publish_order_update, delay, when,
}

-- a quantity as the query gives it, which may be negative
pub data ℤ : Type 0 where
  pos negsuc : ℕ → ℤ

abbrev pub is_positive : ℤ → Bool
is_positive (pos n) = ltb 0 n
is_positive (negsuc n) = false

-- `int(quantity)` of a quantity that has passed its check
abbrev pub int : ℤ → ℕ
int (pos n) = n
int (negsuc n) = 0

-- A `Decimal`: how it stands to 0, and the text that the price of a row has for it.
pub data Sign : Type 0 where
  below_zero at_zero above_zero : Sign

pub record Decimal : Type 0 where
  pub sign : Sign
  pub text : String

abbrev pub is_zero : Sign → Bool
is_zero at_zero = true
is_zero _ = false

abbrev pub is_above : Sign → Bool
is_above above_zero = true
is_above _ = false

-- What the routes take from outside: the key of the row that is inserted, Python's `isdigit` on a
-- character, the reading of a key that is given as text, and the text of the price 0.
pub record RouteEnv : Type 0 where
  pub new_id : ℕ
  pub isdigit : ℕ → Bool
  pub read_id : String → Reply ℕ
  pub zero_price : String

-- the checks of a price by the type of the order; the answer is the status of the exception
unfoldable pub validate_price : OrderType → Decimal → Option ℕ
validate_price market price = if is_zero price.sign then none else some 400
validate_price limit price = if is_above price.sign then none else some 400
validate_price conditional price = some 400

-- The empty text is of no six characters, so `isdigit` needs no test for it.
unfoldable pub validate_order_request : (ℕ → Bool) → String → ℤ → OrderType → Decimal → Option ℕ
unfolding validate_price
validate_order_request isdigit stock_code quantity order_type price =
    if not (all isdigit (codes stock_code) && length (codes stock_code) == 6)
    then some 400
    else if not (is_positive quantity)
    then some 400
    else validate_price order_type price

unfoldable pub validate_cancel_request : String → ℤ → Option ℕ
validate_cancel_request order_id quantity =
    if not (ltb 0 (length (strip order_id)))
    then some 400
    else if not (is_positive quantity)
    then some 400
    else none

unfoldable pub validate_revise_request : String → ℤ → OrderType → Decimal → Option ℕ
unfolding validate_price
validate_revise_request order_id quantity order_type price =
    if not (ltb 0 (length (strip order_id)))
    then some 400
    else if not (is_positive quantity)
    then some 400
    else validate_price order_type price

abbrev pub is_amendable_kind : OrderKind → Bool
is_amendable_kind OrderKind.new = true
is_amendable_kind OrderKind.modify = true
is_amendable_kind _ = false

-- the original order, or the status of the exception
unfoldable pub validate_original_order_for_modify_cancel : Option Order → Response Order
validate_original_order_for_modify_cancel none = http_exception 404
validate_original_order_for_modify_cancel (some original_order) =
    if not (is_amendable_kind original_order.order_kind)
    then http_exception 400
    else if not (status_in original_order.status (accepted ∷ partial_filled ∷ []))
    then http_exception 400
    else if not (truthy original_order.broker_order_no) || not (truthy original_order.broker_org_no)
    then http_exception 400
    else if not (ltb 0 original_order.remaining_qty)
    then http_exception 400
    else answer original_order

pub record OrderAnswer : Type 0 where
  pub order_id : ℕ
  pub status : OrderStatus

-- what the four routes do with the row, once it is made
unfoldable pub submit_row : Order → Bool → Handler OrderAnswer
submit_row row dry_run = do
  insert row
  commit
  publish_order_update row.id
  when (not dry_run) (delay (process_order row.id 0))
  pure (record { order_id = row.id; status = row.status })

-- the columns that the routes leave to their defaults
abbrev pub new_row :
    RouteEnv → String → OrderAction → OrderKind → OrderType → Option String → ℕ → Order
new_row env stock_code order_pos order_kind order_type order_price quantity = record {
  id = env.new_id;
  stock_code = stock_code;
  order_pos = order_pos;
  order_kind = order_kind;
  order_type = order_type;
  order_price = order_price;
  order_qty = quantity;
  status = pending;
  submitted_at = none;
  original_order_id = none;
  original_broker_order_no = none;
  original_broker_org_no = none;
  broker_order_no = none;
  broker_org_no = none;
  rt_cd = none;
  msg_cd = none;
  msg1 = none;
  filled_qty = 0;
  remaining_qty = quantity;
  avg_fill_price = none;
  error_message = none;
  rebalance_id = none;
}

-- `buy_domestic_stock` and `sell_domestic_stock` differ in `order_pos`.
unfoldable pub trade :
    RouteEnv → OrderAction → String → ℤ → OrderType → Decimal → Bool → Handler OrderAnswer
unfolding validate_order_request submit_row
trade env order_pos stock_code quantity order_type price dry_run = do
  require (validate_order_request env.isdigit stock_code quantity order_type price)
  submit_row
      (new_row env stock_code order_pos OrderKind.new order_type (some price.text) (int quantity))
      dry_run

unfoldable pub buy_domestic_stock :
    RouteEnv → String → ℤ → OrderType → Decimal → Bool → Handler OrderAnswer
unfolding trade
buy_domestic_stock env = trade env buy

unfoldable pub sell_domestic_stock :
    RouteEnv → String → ℤ → OrderType → Decimal → Bool → Handler OrderAnswer
unfolding trade
sell_domestic_stock env = trade env sell

-- `original.remaining_qty if original.remaining_qty == quantity else int(quantity)`
abbrev pub amend_qty : Order → ℕ → ℕ
amend_qty original quantity =
    if original.remaining_qty == quantity then original.remaining_qty else quantity

-- `0 if order_type == ORDER_TYPE.MARKET else Decimal(price)`
abbrev pub revise_price : RouteEnv → OrderType → Decimal → String
revise_price env market price = env.zero_price
revise_price env _ price = price.text

-- the row of a cancel or modify order
abbrev pub amend_row : RouteEnv → OrderKind → OrderType → Option String → ℕ → Order → Order
amend_row env order_kind order_type order_price quantity original =
    record (new_row env original.stock_code original.order_pos order_kind order_type order_price
      (amend_qty original quantity)) {
        original_order_id = some original.id;
        original_broker_order_no = original.broker_order_no;
        original_broker_org_no = original.broker_org_no;
      }

-- the original of a request, looked up and checked
unfoldable pub find_original : RouteEnv → String → Handler Order
unfolding validate_original_order_for_modify_cancel
find_original env order_id = do
  key ← await (env.read_id order_id)
  original ← query (get_order_by_id key)
  check (validate_original_order_for_modify_cancel original)

unfoldable pub cancel_domestic_stock_order : RouteEnv → String → ℤ → Bool → Handler OrderAnswer
unfolding validate_cancel_request find_original submit_row
cancel_domestic_stock_order env order_id quantity dry_run = do
  require (validate_cancel_request order_id quantity)
  original ← find_original env order_id
  submit_row (amend_row env OrderKind.cancel original.order_type none (int quantity) original)
      dry_run

unfoldable pub revise_domestic_stock_order :
    RouteEnv → String → ℤ → OrderType → Decimal → Bool → Handler OrderAnswer
unfolding validate_revise_request find_original submit_row
revise_domestic_stock_order env order_no quantity order_type price dry_run = do
  require (validate_revise_request order_no quantity order_type price)
  original ← find_original env order_no
  submit_row
      (amend_row env OrderKind.modify order_type (some (revise_price env order_type price))
        (int quantity) original)
      dry_run
