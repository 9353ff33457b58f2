-- ===== src/Worker/Track.antt =====
-- app/worker/tasks_order_status.py: worker 2, which tracks an order that the broker holds. This file
-- has the decisions; `Track.Parent` and `Track.Task` have the effects. Times are in microseconds,
-- the resolution of `datetime`; a quantity of the answer is the number that `int(to_decimal(…) or 0)`
-- reads, and a negative one does not occur.
pub mod Parent
pub mod Task
pub mod Requeue
pub mod Delay
pub mod Snapshot
pub mod Originals
pub mod Unaided
pub mod Records
use autotrading.Prelude.{
  ℕ, ◌+◌, ◌-◌, ◌*◌, min, String, Option, none, some, Bool, true, false, ◌&&◌, ◌||◌, List, [], ◌∷◌,
  find, leb, ltb, ◌==◌, if◌then◌else◌, strip, codes, codes_eq, is_infix, lower, str, or_empty,
  or_else, or_zero,
}
use autotrading.Domain.{
  OrderKind, OrderStatus, requested, failed, accepted, partial_filled, filled, canceled, timeout,
}
use autotrading.Orders.Row.{Order}
use autotrading.Orders.Repository.{TrackingResult}
use autotrading.Worker.Effects.{KisError, Exn, kis_order_error, exception}

-- TRACKING_TARGET_STATUSES
abbrev pub tracking_targets : List OrderStatus
tracking_targets = requested ∷ accepted ∷ partial_filled ∷ []

-- TERMINAL_STATUSES
abbrev pub terminal_statuses : List OrderStatus
terminal_statuses = failed ∷ filled ∷ canceled ∷ timeout ∷ []

-- app/core/constants.py, in seconds
abbrev pub retracking_interval : ℕ
retracking_interval = 1

abbrev pub tracking_fast_window : ℕ
tracking_fast_window = 90

abbrev pub tracking_max_window : ℕ
tracking_max_window = 1800

abbrev pub tracking_slow_interval : ℕ
tracking_slow_interval = 60

abbrev pub microseconds : ℕ → ℕ
microseconds seconds = seconds * 1000000

-- `_resolve_retracking_delay`
unfoldable pub resolve_retracking_delay : ℕ → ℕ → Option ℕ
resolve_retracking_delay attempt elapsed =
    if ltb elapsed (microseconds tracking_fast_window)
    then some (min (retracking_interval * (attempt + 1)) 15)
    else if leb (microseconds tracking_max_window) elapsed
    then none
    else some tracking_slow_interval

-- a row of `output1`
pub record ExecutionRow : Type 0 where
  pub odno : String
  pub ord_gno_brno : Option String
  pub ord_qty : Option ℕ
  pub rmn_qty : Option ℕ
  pub cncl_cfrm_qty : Option ℕ
  pub rjct_qty : Option ℕ
  pub avg_prvs : Option ℕ

pub record Executions : Type 0 where
  pub rt_cd : Option String
  pub msg_cd : Option String
  pub msg1 : Option String
  pub output1 : List ExecutionRow

-- The keys of the snapshot that only a matched row fills.
pub record RowQuantities : Type 0 where
  pub order_qty : ℕ
  pub cancel_confirm_qty : ℕ
  pub rejected_qty : ℕ

pub record TrackingSnapshot : Type 0 where
  pub values : TrackingResult
  pub quantities : Option RowQuantities

-- `_resolve_parent_after_child`: its `next_status`; the two quantities are handed through.
unfoldable pub resolve_parent_after_child : ℕ → ℕ → ℕ → OrderStatus
resolve_parent_after_child parent_order_qty parent_filled_qty parent_remaining_qty =
    if leb parent_order_qty parent_filled_qty && ltb 0 parent_order_qty
    then filled
    else if ltb 0 parent_remaining_qty
    then if ltb 0 parent_filled_qty then partial_filled else accepted
    else canceled

-- the status of an order by itself, from its row
unfoldable pub resolve_status : ℕ → ℕ → ℕ → ℕ → ℕ → OrderStatus
resolve_status order_qty filled_qty remaining_qty cancel_confirm_qty rejected_qty =
    if ltb 0 order_qty && leb order_qty filled_qty && remaining_qty == 0
    then filled
    else if ltb 0 order_qty
        && filled_qty == 0
        && leb order_qty cancel_confirm_qty
        && remaining_qty == 0
    then canceled
    else if ltb 0 remaining_qty
    then if ltb 0 filled_qty then partial_filled else accepted
    else if leb order_qty filled_qty && ltb 0 order_qty
    then filled
    else if ltb 0 cancel_confirm_qty
    then canceled
    else if ltb 0 rejected_qty
    then failed
    else if ltb 0 filled_qty
    then canceled
    else accepted

-- The row of the order: the first whose number is that of the order, spaces apart.
abbrev pub is_row_of : Order → ExecutionRow → Bool
is_row_of order row = codes_eq (strip row.odno) (strip (str order.broker_order_no))

abbrev pub is_new : OrderKind → Bool
is_new OrderKind.new = true
is_new _ = false

-- `max(order_qty - remaining - canceled - rejected, 0)`: subtraction stops at 0.
abbrev pub row_filled_qty : ℕ → ℕ → ℕ → ℕ → ℕ
row_filled_qty order_qty remaining_qty cancel_confirm_qty rejected_qty =
    order_qty - remaining_qty - cancel_confirm_qty - rejected_qty

abbrev pub unmatched_snapshot : Order → Executions → TrackingSnapshot
unmatched_snapshot order payload = record {
  values = record {
    rt_cd = payload.rt_cd;
    msg_cd = payload.msg_cd;
    msg1 = payload.msg1;
    broker_org_no = order.broker_org_no;
    broker_order_no = order.broker_order_no;
    filled_qty = order.filled_qty;
    filled_avg_price = order.avg_fill_price;
    remaining_qty = order.remaining_qty;
    next_status = order.status;
  };
  quantities = none;
}

abbrev pub matched_snapshot : Order → Executions → Bool → ExecutionRow → TrackingSnapshot
matched_snapshot order payload has_child_orders row =
    let order_qty = or_zero row.ord_qty in
    let remaining_qty = or_zero row.rmn_qty in
    let cancel_confirm_qty = or_zero row.cncl_cfrm_qty in
    let rejected_qty = or_zero row.rjct_qty in
    let filled_qty = row_filled_qty order_qty remaining_qty cancel_confirm_qty rejected_qty in
    let is_parent = is_new order.order_kind && has_child_orders in
    record {
      values = record {
        rt_cd = payload.rt_cd;
        msg_cd = payload.msg_cd;
        msg1 = payload.msg1;
        broker_org_no = row.ord_gno_brno;
        broker_order_no = some row.odno;
        filled_qty = filled_qty;
        filled_avg_price = if is_parent then order.avg_fill_price else row.avg_prvs;
        remaining_qty = remaining_qty;
        next_status =
            if is_parent
            then resolve_parent_after_child order_qty filled_qty remaining_qty
            else resolve_status order_qty filled_qty remaining_qty cancel_confirm_qty rejected_qty;
      };
      quantities = some (record {
        order_qty = order_qty;
        cancel_confirm_qty = cancel_confirm_qty;
        rejected_qty = rejected_qty;
      });
    }

abbrev pub snapshot_of : Order → Executions → Bool → Option ExecutionRow → TrackingSnapshot
snapshot_of order payload has_child_orders none = unmatched_snapshot order payload
snapshot_of order payload has_child_orders (some row) =
    matched_snapshot order payload has_child_orders row

-- `_extract_order_tracking_snapshot`
unfoldable pub extract_order_tracking_snapshot : Order → Executions → Bool → TrackingSnapshot
extract_order_tracking_snapshot order payload has_child_orders =
    snapshot_of order payload has_child_orders (find (is_row_of order) payload.output1)

abbrev pub mentions : String → String → Bool
mentions needle text = is_infix (codes needle) (codes text)

abbrev pub mentions_lower : String → String → Bool
mentions_lower needle text = is_infix (codes needle) (lower (codes text))

abbrev pub is_retryable_text : String → Bool
is_retryable_text text =
    mentions_lower "server error: 500" text
    || mentions_lower "timeout" text
    || mentions_lower "connection" text
    || mentions_lower "temporarily unavailable" text

-- `_is_retryable_tracking_error`
unfoldable pub is_retryable_tracking_error : Exn → Bool
is_retryable_tracking_error (kis_order_error e) =
    let msg1 = or_empty (or_else e.msg1 (some e.message)) in
    codes_eq (codes (str e.msg_cd)) (codes "EGW00201")
    || mentions "초당 거래건수" msg1
    || mentions "Server error: 500" msg1
    || mentions_lower "timeout" msg1
    || mentions_lower "temporarily unavailable" msg1
    || is_retryable_text e.message
is_retryable_tracking_error (exception text) = is_retryable_text text
