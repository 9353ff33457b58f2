-- ===== src/Orders/Repository.antt =====
-- app/repository/order_repository.py. `UPDATE … WHERE` is one atomic statement: it changes the rows
-- that meet the condition and answers `rowcount > 0`. A function whose call does not fit its
-- parameters raises a TypeError in Python; the two functions that some callers call so take the
-- argument in question as an `Option`, and the callers model what follows.
use autotrading.Prelude.{
  ℕ, String, Option, none, some, Bool, false, ◌&&◌, List, [], ◌∷◌, ◌++◌, map, any, filter, find,
  is_some, if◌then◌else◌, ◌==◌,
}
use autotrading.Domain.{
  OrderStatus, pending, processing, requested, accepted, partial_filled, failed, status_eq,
  status_in,
}
use autotrading.Orders.Row.{Order}

abbrev pub Table : Type 0
Table = List Order

-- `==` on an optional id: `NULL` is equal to nothing.
abbrev pub is_id : ℕ → Option ℕ → Bool
is_id i none = false
is_id i (some j) = j == i

-- `update(Order).where(p).values(f)`: the rows that meet `p` are changed by `f`, and the answer
-- says whether there was one.
unfoldable pub update_where : (Order → Bool) → (Order → Order) → Table → Table × Bool
update_where p f table = (map (λ o. if p o then f o else o) table, any p table)

unfoldable pub create_order : Order → Table → Table
create_order new_order table = table ++ new_order ∷ []

-- `id` is the primary key, so the first row is the only one.
unfoldable pub get_order_by_id : ℕ → Table → Option Order
get_order_by_id order_id table = find (λ o. o.id == order_id) table

-- The condition that the guarded updates share.
abbrev pub has_status : ℕ → List OrderStatus → Order → Bool
has_status order_id expected o = o.id == order_id && status_in o.status expected

unfoldable pub update_order_status : ℕ → List OrderStatus → OrderStatus → Table → Table × Bool
unfolding update_where
update_order_status order_id expected_current_statuses new_status =
    update_where (has_status order_id expected_current_statuses)
      (λ o. record o { status = new_status })

pub record SubmitResult : Type 0 where
  pub rt_cd : Option String
  pub msg_cd : Option String
  pub msg1 : Option String
  pub broker_org_no : Option String
  pub broker_order_no : Option String
  pub submitted_at : Option ℕ
  pub next_status : OrderStatus
  pub remaining_qty : Option ℕ

abbrev pub get_or_keep : Option ℕ → ℕ → ℕ
get_or_keep none old = old
get_or_keep (some new_value) old = new_value

unfoldable pub update_order_submit_result : ℕ → SubmitResult → Table → Table × Bool
unfolding update_where
update_order_submit_result order_id r = update_where (has_status order_id (processing ∷ [])) (λ o.
    record o {
      rt_cd = r.rt_cd;
      msg_cd = r.msg_cd;
      msg1 = r.msg1;
      broker_org_no = r.broker_org_no;
      broker_order_no = r.broker_order_no;
      submitted_at = r.submitted_at;
      status = r.next_status;
      remaining_qty = get_or_keep r.remaining_qty o.remaining_qty;
    })

pub record TrackingResult : Type 0 where
  pub rt_cd : Option String
  pub msg_cd : Option String
  pub msg1 : Option String
  pub broker_org_no : Option String
  pub broker_order_no : Option String
  pub filled_qty : ℕ
  pub filled_avg_price : Option ℕ
  pub remaining_qty : ℕ
  pub next_status : OrderStatus

unfoldable pub update_order_tracking_result :
    ℕ → List OrderStatus → TrackingResult → Table → Table × Bool
unfolding update_where
update_order_tracking_result order_id expected_current_statuses r =
    update_where (has_status order_id expected_current_statuses) (λ o. record o {
      rt_cd = r.rt_cd;
      msg_cd = r.msg_cd;
      msg1 = r.msg1;
      broker_org_no = r.broker_org_no;
      broker_order_no = r.broker_order_no;
      filled_qty = r.filled_qty;
      remaining_qty = r.remaining_qty;
      avg_fill_price = r.filled_avg_price;
      error_message = if status_eq r.next_status failed then r.msg1 else none;
      status = r.next_status;
    })

pub record FailureResult : Type 0 where
  pub rt_cd : Option String
  pub msg_cd : Option String
  pub msg1 : Option String
  pub next_status : OrderStatus

-- The callers pass no `broker_org_no`, `broker_order_no` or `request_payload`, so these stay.
unfoldable pub update_order_failure_result :
    ℕ → List OrderStatus → FailureResult → Table → Table × Bool
unfolding update_where
update_order_failure_result order_id expected_current_statuses r =
    update_where (has_status order_id expected_current_statuses) (λ o. record o {
      rt_cd = r.rt_cd;
      msg_cd = r.msg_cd;
      msg1 = r.msg1;
      error_message = r.msg1;
      status = r.next_status;
    })

-- It is guarded by the id alone.
unfoldable pub update_parent_order_after_child : ℕ → ℕ → ℕ → OrderStatus → Table → Table × Bool
unfolding update_where
update_parent_order_after_child order_id new_filled_qty new_remaining_qty next_status =
    update_where (λ o. o.id == order_id)
      (λ o. record o {
        filled_qty = new_filled_qty;
        remaining_qty = new_remaining_qty;
        status = next_status;
      })

unfoldable pub exists_child_orders : ℕ → Table → Bool
exists_child_orders parent_order_id table =
    any (λ o. is_id parent_order_id o.original_order_id) table

unfoldable pub get_recoverable_tracking_orders : Table → List Order
get_recoverable_tracking_orders table =
    filter
      (λ o.
        status_in o.status (requested ∷ accepted ∷ partial_filled ∷ [])
        && is_some o.broker_order_no)
      table

unfoldable pub get_recoverable_submit_orders : Table → List Order
get_recoverable_submit_orders table = filter (λ o. status_eq o.status pending) table

-- The rows of a rebalance; its one caller here only counts them, so their order is that of the
-- table.
unfoldable pub get_orders_by_rebalance_id : ℕ → Table → List Order
get_orders_by_rebalance_id rebalance_id table =
    filter (λ o. is_id rebalance_id o.rebalance_id) table
