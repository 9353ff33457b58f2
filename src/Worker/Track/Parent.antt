-- ===== src/Worker/Track/Parent.antt =====
-- app/worker/tasks_order_status.py: step 8 of `_process_order_status`, what a cancel or a modify order
-- does to the order that it names.
use autotrading.Prelude.{ℕ, ◌+◌, ◌-◌, min, Option, none, some, Bool, List, [], ◌∷◌, ltb}
use autotrading.Domain.{
  OrderKind, OrderStatus, accepted, partial_filled, filled, canceled, status_in,
}
use autotrading.Orders.Row.{Order}
use autotrading.Orders.Repository.{get_order_by_id, update_parent_order_after_child}
use autotrading.Broker.TradeService.{value_error}
use autotrading.Worker.Effects.{
  Exn, exception, Action, ◌>>=◌, pure, raise, query, execute, rollback, unless_return, when,
}
use autotrading.Worker.Track.{TrackingSnapshot, RowQuantities, resolve_parent_after_child}

-- `snapshot["order_qty"]` where no row was matched
abbrev pub key_error : Exn
key_error = exception "'order_qty'"

abbrev pub unexpected_argument : Exn
unexpected_argument =
    exception
      "update_parent_order_after_child() got an unexpected keyword argument 'expected_current_statuses'"

-- A call of `update_parent_order_after_child`, which has no parameter `expected_current_statuses`:
-- a call that passes one raises before it reads the database.
abbrev pub call_update_parent_order_after_child :
    ℕ → Option (List OrderStatus) → ℕ → ℕ → OrderStatus → Action Bool
call_update_parent_order_after_child i (some expected) new_filled new_remaining next_status =
    raise unexpected_argument
call_update_parent_order_after_child i none new_filled new_remaining next_status =
    execute (update_parent_order_after_child i new_filled new_remaining next_status)

abbrev pub require_parent : Option Order → Action Order
require_parent none = raise value_error
require_parent (some parent) = pure parent

abbrev pub require_quantities : Option RowQuantities → Action RowQuantities
require_quantities none = raise key_error
require_quantities (some q) = pure q

-- 8-1: the part of a cancel order that was confirmed since the last look. `order` is the object that
-- the session holds at this point.
unfoldable pub apply_cancel : Order → ℕ → TrackingSnapshot → Action (Unit {0})
apply_cancel order parent_id snapshot = do
  found ← query (get_order_by_id parent_id)
  parent ← require_parent found
  q ← require_quantities snapshot.quantities
  let applied = q.order_qty - snapshot.values.remaining_qty - q.rejected_qty
  let delta = applied - order.filled_qty
  let new_remaining = parent.remaining_qty - delta
  when (ltb 0 delta) do
    updated_parent ←
        call_update_parent_order_after_child parent.id (some (accepted ∷ partial_filled ∷ []))
          parent.filled_qty new_remaining
          (resolve_parent_after_child parent.order_qty parent.filled_qty new_remaining)
    pure tt

-- 8-2: the part of a modify order that was filled since the last look
unfoldable pub apply_modify : Order → ℕ → TrackingSnapshot → Action (Unit {0})
apply_modify order parent_id snapshot = do
  found ← query (get_order_by_id parent_id)
  parent ← require_parent found
  let delta = snapshot.values.filled_qty - order.filled_qty
  let new_filled = min (parent.filled_qty + delta) parent.order_qty
  let new_remaining = parent.remaining_qty - delta
  when (ltb 0 delta) do
    updated_parent ←
        call_update_parent_order_after_child parent.id none new_filled new_remaining
          (resolve_parent_after_child parent.order_qty new_filled new_remaining)
    unless_return updated_parent rollback

-- which of the two it is, by the kind of the child and its new status
abbrev pub apply_to_parent : OrderKind → Order → ℕ → TrackingSnapshot → Action (Unit {0})
apply_to_parent OrderKind.cancel order parent_id snapshot =
    when (status_in snapshot.values.next_status (canceled ∷ filled ∷ partial_filled ∷ []))
      (apply_cancel order parent_id snapshot)
apply_to_parent OrderKind.modify order parent_id snapshot =
    when (status_in snapshot.values.next_status (partial_filled ∷ filled ∷ []))
      (apply_modify order parent_id snapshot)
apply_to_parent _ order parent_id snapshot = pure tt

abbrev pub apply_to_original : Option ℕ → Order → TrackingSnapshot → Action (Unit {0})
apply_to_original none order snapshot = pure tt
apply_to_original (some parent_id) order snapshot =
    apply_to_parent order.order_kind order parent_id snapshot
