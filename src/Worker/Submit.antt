-- ===== src/Worker/Submit.antt =====
-- app/worker/tasks_order.py: worker 1, which hands a pending order to the broker.
pub mod Task
pub mod Calls
pub mod Results
pub mod Guards
use autotrading.Prelude.{
  ℕ, ◌+◌, ◌*◌, String, Option, none, some, Bool, true, false, not, ◌&&◌, ◌||◌, List, [], ◌∷◌, leb,
  ltb, ◌==◌, if◌then◌else◌, truthy, codes, codes_eq, is_some, is_infix, str, or_empty, or_else,
  two_digits,
}
use autotrading.Domain.{
  OrderAction, buy, sell, OrderKind, OrderType, market, limit, OrderStatus, pending, processing,
  requested, accepted, failed, status_in, can_transition,
}
use autotrading.Orders.Row.{Order}
use autotrading.Orders.Repository.{
  SubmitResult, FailureResult, get_order_by_id, update_order_status, update_order_submit_result,
}
use autotrading.Broker.TradeService.{
  OrderOutput, OrderResponse, value_error, is_below, trade_domestic_stock, revise_domestic_stock,
  cancel_domestic_stock,
}
use autotrading.Worker.Effects.{
  Payload, KisError, Exn, kis_order_error, exception, Reply, BrokerCall, process_order_status,
  World, process_order, Action, ◌>>=◌, ◌>>◌, pure, return, raise, query, await, try_except, execute,
  commit, rollback, send, publish_order_update, alert, unless_return, raise_if, when,
  call_update_order_failure_result, make_kis_order_error,
}

-- What the task is given from outside: the day, the answers of the token service, of the kill switch
-- and of the broker, and what the ORM leaves in a loaded object after an UPDATE of its row.
pub record SubmitEnv : Type 0 where
  pub today : ℕ
  pub access_token : Reply String
  pub kill_switch : Reply Bool
  pub broker : BrokerCall → Reply OrderResponse
  pub synchronize : Order → Option Order → Order

abbrev pub clock_seconds : Option ℕ → Option ℕ → Option ℕ → Option ℕ
clock_seconds (some h) (some m) (some s) =
    if ltb h 24 && ltb m 60 && ltb s 60 then some (h * 3600 + m * 60 + s) else none
clock_seconds _ _ _ = none

abbrev pub on_day : ℕ → Option ℕ → Option ℕ
on_day today none = none
on_day today (some seconds) = some (today * 86400 + seconds)

abbrev pub parse_clock : List ℕ → Option ℕ
parse_clock (a ∷ b ∷ c ∷ d ∷ e ∷ f ∷ []) =
    clock_seconds (two_digits a b) (two_digits c d) (two_digits e f)
parse_clock _ = none

-- `_parse_submitted_at`, on the format HHMMSS of six digits
unfoldable pub parse_submitted_at : ℕ → Option String → Option ℕ
parse_submitted_at today ord_tmd =
    if truthy ord_tmd then on_day today (parse_clock (codes (or_empty ord_tmd))) else none

abbrev pub output_of : Option OrderOutput → OrderOutput
output_of none = record { org_no = none; order_no = none; ord_tmd = none }
output_of (some output) = output

-- `next_status` of `_extract_order_snapshot`
abbrev pub submit_status : Option String → Option String → OrderStatus
submit_status rt_cd broker_order_no =
    if codes_eq (codes (str rt_cd)) (codes "0")
    then if truthy broker_order_no then accepted else requested
    else failed

-- `_extract_order_snapshot`
unfoldable pub extract_order_snapshot : ℕ → OrderResponse → ℕ → SubmitResult
unfolding parse_submitted_at
extract_order_snapshot today response order_qty =
    let output = output_of response.output in
    let next_status = submit_status response.rt_cd output.order_no in
    record {
      rt_cd = response.rt_cd;
      msg_cd = response.msg_cd;
      msg1 = response.msg1;
      broker_org_no = output.org_no;
      broker_order_no = output.order_no;
      submitted_at = parse_submitted_at today output.ord_tmd;
      next_status = next_status;
      remaining_qty =
          some (if status_in next_status (requested ∷ accepted ∷ []) then order_qty else 0);
    }

abbrev pub response_msg_cd : Option Payload → Option String
response_msg_cd none = none
response_msg_cd (some p) = p.msg_cd

abbrev pub response_msg1 : Option Payload → Option String
response_msg1 none = none
response_msg1 (some p) = p.msg1

-- `is_rate_limit_error`
unfoldable pub is_rate_limit_error : KisError → Bool
is_rate_limit_error e =
    codes_eq (codes (str (response_msg_cd e.response))) (codes "EGW00201")
    || is_infix (codes "초당 거래건수") (codes (or_empty (or_else (response_msg1 e.response) e.msg1)))

abbrev pub kill_switch_error : Exn
kill_switch_error =
    make_kis_order_error none (some "KILL_SWITCH_ON") (some "TRADING_BLOCKED")
      (some "매매 차단(Kill Switch)이 활성화되어 주문이 접수되지 않았습니다.") none

-- `_check_kill_switch`: the error is made without its `message`
abbrev pub check_kill_switch : Reply Bool → Action (Unit {0})
check_kill_switch kill_switch = do is_on ← await kill_switch; raise_if is_on kill_switch_error

-- The checks of an amendment against its original order, `None` if it is not found.
abbrev pub original_ok : Order → Option Order → Bool
original_ok order none = false
original_ok order (some original) =
    ltb 0 original.remaining_qty && leb order.order_qty original.remaining_qty

abbrev pub is_full : Order → Option Order → Bool
is_full order none = false
is_full order (some original) = leb original.remaining_qty order.order_qty

abbrev pub original_id : Order → ℕ
original_id order = elim order.original_order_id [ none ↦ 0 | some i ↦ i ]

abbrev pub amendment_ok : Order → Bool
amendment_ok order =
    is_some order.original_order_id
    && truthy order.original_broker_order_no
    && truthy order.original_broker_org_no
    && ltb 0 order.order_qty

-- the price that `str(order.order_price)` gives, and the type that a revision is sent with
abbrev pub revise_type : OrderType → OrderType
revise_type market = market
revise_type _ = limit

-- step 4 of `_process_order`, by the kind of the order
module _ (broker : BrokerCall → Reply OrderResponse) where
  place_new : OrderAction → Order → Action OrderResponse
  place_new buy order =
      trade_domestic_stock broker buy order.stock_code order.order_qty order.order_type
        (str order.order_price)
  place_new sell order =
      trade_domestic_stock broker sell order.stock_code order.order_qty order.order_type
        (str order.order_price)
  place_new _ order = raise value_error

  place_modify : Order → Action OrderResponse
  place_modify order = do
    raise_if (not (amendment_ok order)) value_error
    original ← query (get_order_by_id (original_id order))
    raise_if (not (original_ok order original)) value_error
    revise_domestic_stock broker (or_empty order.original_broker_order_no)
        order.original_broker_org_no order.order_qty (revise_type order.order_type)
        (str order.order_price) (is_full order original)

  place_cancel : Order → Action OrderResponse
  place_cancel order = do
    raise_if (not (amendment_ok order)) value_error
    original ← query (get_order_by_id (original_id order))
    raise_if (not (original_ok order original)) value_error
    cancel_domestic_stock broker (or_empty order.original_broker_order_no)
        order.original_broker_org_no order.order_qty (is_full order original)

  unfoldable pub place : OrderKind → Order → Action OrderResponse
  unfolding place_new place_modify place_cancel
  place OrderKind.new order = place_new order.order_pos order
  place OrderKind.modify order = place_modify order
  place OrderKind.cancel order = place_cancel order
  place OrderKind.other order = raise value_error
