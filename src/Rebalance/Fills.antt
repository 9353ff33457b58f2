-- ===== src/Rebalance/Fills.antt =====
-- app/strategy/runtime/order_generator.py: `_wait_for_fills` and `_cancel_unfilled_orders`. What the
-- session reads at each look of the loop is given, as a list of polls: the time since the start, in
-- microseconds, and the rows of the orders that are waited for.
use autotrading.Prelude.{
  ℕ, suc, ◌*◌, ◌/◌, Option, none, some, Bool, true, false, not, ◌&&◌, List, [], ◌∷◌, all, any,
  filter, count, sum_by, leb, ltb, ◌==◌, if◌then◌else◌, or_zero,
}
use autotrading.Domain.{OrderStatus, filled, canceled, failed, status_eq, status_in}
use autotrading.Orders.Row.{Order}
use autotrading.Orders.Repository.{Table, create_order}
use autotrading.Worker.Effects.{
  Action, ◌>>=◌, ◌>>◌, pure, execute, query, commit, send, process_order,
}
use autotrading.Worker.Track.{microseconds}
use autotrading.Worker.Track.Task.{timeout_cancel_order}

-- TERMINAL_STATUSES, in which TIMEOUT is not
abbrev pub final_statuses : List OrderStatus
final_statuses = filled ∷ failed ∷ canceled ∷ []

pub record FillResult : Type 0 where
  pub total_orders : ℕ
  pub filled_orders : ℕ
  pub canceled_orders : ℕ
  pub failed_orders : ℕ
  pub total_filled_amount : ℕ
  pub timed_out : Bool
  pub canceled_by_timeout : ℕ

abbrev pub has : OrderStatus → Order → Bool
has s o = status_eq o.status s

-- `int((order.avg_fill_price or 0) * (order.filled_qty or 0))`
abbrev pub filled_amount : Order → ℕ
filled_amount o = or_zero o.avg_fill_price * o.filled_qty / 10000

abbrev pub counted_amount : Order → ℕ
counted_amount o = if status_in o.status (filled ∷ canceled ∷ []) then filled_amount o else 0

-- the count of one look, written into the result
unfoldable pub tally : List Order → FillResult → FillResult
tally rows result = record result {
  filled_orders = count (has filled) rows;
  canceled_orders = count (has canceled) rows;
  failed_orders = count (has failed) rows;
  total_filled_amount = sum_by counted_amount rows;
}

abbrev pub is_over : Order → Bool
is_over o = status_in o.status final_statuses

-- `SELECT … WHERE id IN order_ids`
abbrev pub rows_of : List ℕ → Table → List Order
rows_of order_ids table = filter (λ o. any (λ i. o.id == i) order_ids) table

pub record Poll : Type 0 where
  pub elapsed : ℕ
  pub rows : List Order

-- The loop, on the polls that it would make: `none` if there were too few of them.
unfoldable pub poll_fills : ℕ → List Poll → FillResult → Option FillResult
unfolding tally
poll_fills fill_timeout_seconds [] result = none
poll_fills fill_timeout_seconds (p ∷ polls) result =
    let rest = poll_fills fill_timeout_seconds polls (tally p.rows result) in
    if leb (microseconds fill_timeout_seconds) p.elapsed
    then some (record result { timed_out = true })
    else if all is_over p.rows
    then some (tally p.rows result)
    else rest

-- the pause after a look, in seconds
abbrev pub poll_interval : ℕ → ℕ
poll_interval elapsed = if ltb elapsed (microseconds 90) then 3 else 15

-- `order.remaining_qty or order.order_qty`
abbrev pub remaining_of : Order → ℕ
remaining_of o = if o.remaining_qty == 0 then o.order_qty else o.remaining_qty

abbrev pub is_unfilled : Order → Bool
is_unfilled o = not (is_over o) && ltb 0 (remaining_of o)

-- the same row as the one of a time-out in worker 2
abbrev pub fill_cancel_order : ℕ → Order → Order
fill_cancel_order i o = timeout_cancel_order i o (remaining_of o)

module _ (new_id : ℕ → ℕ) where
  -- the loop over the rows; a row is in the session by `flush`, and is committed at the end
  unfoldable pub cancel_rows : ℕ → List Order → Action ℕ
  cancel_rows n [] = pure n
  cancel_rows n (o ∷ rows) =
      if is_unfilled o
      then execute (λ t. (create_order (fill_cancel_order (new_id n) o) t, true))
        >>= (λ created. send (process_order (new_id n) 0) >> cancel_rows (suc n) rows)
      else cancel_rows n rows

  -- `_cancel_unfilled_orders`
  unfoldable pub cancel_unfilled_orders : List ℕ → Action ℕ
  cancel_unfilled_orders order_ids = do
    rows ← query (rows_of order_ids)
    cancel_count ← cancel_rows 0 rows
    commit
    pure cancel_count

  -- what follows the loop
  unfoldable pub after_wait : List ℕ → FillResult → Action FillResult
  after_wait order_ids result = do
    rows ← query (rows_of order_ids)
    let final = record result { filled_orders = count (has filled) rows }
    if not result.timed_out
        then pure result
        else if all is_over rows
        then pure (record final { timed_out = false })
        else cancel_unfilled_orders order_ids
          >>= (λ cancel_count. pure (record final { canceled_by_timeout = cancel_count }))
