-- ===== src/Worker/Track/Task.antt =====
-- app/worker/tasks_order_status.py: `_process_order_status`, with its two exception handlers.
use autotrading.Prelude.{
  ℕ, ◌+◌, ◌-◌, String, Option, none, some, Bool, true, false, ◌&&◌, List, [], ◌∷◌, filter, all, ltb,
  truthy, if◌then◌else◌, or_else,
}
use autotrading.Domain.{OrderKind, OrderType, pending, failed, timeout, status_in, can_transition}
use autotrading.Orders.Row.{Order}
use autotrading.Orders.Repository.{
  FailureResult, TrackingResult, get_order_by_id, exists_child_orders, create_order,
  get_orders_by_rebalance_id, update_order_tracking_result,
}
use autotrading.Worker.Effects.{
  KisError, Exn, kis_order_error, exception, Reply, process_order_status, process_order,
  capture_rebalance_snapshot, Action, ◌>>=◌, ◌>>◌, pure, return, query, await, try_except, execute,
  commit, rollback, send, publish_order_update, alert, unless_return, when,
  call_update_order_failure_result,
}
use autotrading.Worker.Submit.Task.{alert_action}
use autotrading.Worker.Track.{
  Executions, TrackingSnapshot, tracking_targets, terminal_statuses, is_new,
  extract_order_tracking_snapshot, resolve_retracking_delay, is_retryable_tracking_error,
}
use autotrading.Worker.Track.Parent.{apply_to_original}

-- What the task is given from outside. `new_uuid` is `uuid.uuid4()`, on the `uuid` that the file imports
-- from celery; `synchronize` is what the ORM leaves in a loaded object after an UPDATE of its row.
pub record TrackEnv : Type 0 where
  pub now : ℕ
  pub access_token : Reply String
  pub executions : Order → Reply Executions
  pub new_uuid : Reply ℕ
  pub synchronize : Order → Option Order → Order

abbrev pub is_ended : Order → Bool
is_ended o = status_in o.status terminal_statuses

abbrev pub not_empty : List Order → Bool
not_empty [] = false
not_empty (o ∷ os) = true

-- `_trigger_rebalance_snapshot_if_completed`
unfoldable pub trigger_rebalance_snapshot : Option ℕ → Action (Unit {0})
trigger_rebalance_snapshot none = pure tt
trigger_rebalance_snapshot (some rebalance_id) = do
  orders ← query (get_orders_by_rebalance_id rebalance_id)
  when (not_empty orders && all is_ended orders) (send (capture_rebalance_snapshot rebalance_id))

-- the cancel order for what a timed-out order leaves open
abbrev pub timeout_cancel_order : ℕ → Order → ℕ → Order
timeout_cancel_order i order remaining = record {
  id = i;
  stock_code = order.stock_code;
  order_pos = order.order_pos;
  order_kind = OrderKind.cancel;
  order_type = OrderType.market;
  order_price = some "0";
  order_qty = remaining;
  status = pending;
  submitted_at = none;
  original_order_id = some order.id;
  original_broker_order_no = order.broker_order_no;
  original_broker_org_no = order.broker_org_no;
  broker_order_no = none;
  broker_org_no = none;
  rt_cd = none;
  msg_cd = none;
  msg1 = none;
  filled_qty = 0;
  remaining_qty = 0;
  avg_fill_price = none;
  error_message = none;
  rebalance_id = order.rebalance_id;
}

abbrev pub insert_cancel_order : Order → ℕ → Action (Unit {0})
insert_cancel_order order i = do
  created ← execute (λ t. (create_order (timeout_cancel_order i order order.remaining_qty) t, true))
  commit
  send (process_order i 0)

-- A failure to make the cancel order is logged and passed over.
unfoldable pub cancel_rest : TrackEnv → Order → Action (Unit {0})
cancel_rest env order =
    when (ltb 0 order.remaining_qty && truthy order.broker_order_no)
      (try_except (await env.new_uuid >>= insert_cancel_order order) (λ e. pure tt))

-- What is written on a time-out; the text of the message, which names the seconds, is shortened.
abbrev pub timed_out : TrackingSnapshot → TrackingResult
timed_out snapshot = record (snapshot.values) {
  msg_cd = some "ORDER_TIMEOUT";
  msg1 = some "timeout";
  next_status = timeout;
}

-- the branch of step 9 for an order that was tracked for too long
unfoldable pub time_out : TrackEnv → Order → TrackingSnapshot → Action (Unit {0})
time_out env order snapshot = do
  updated ← execute (update_order_tracking_result order.id tracking_targets (timed_out snapshot))
  commit
  publish_order_update order.id
  cancel_rest env order
  alert order.id
  trigger_rebalance_snapshot order.rebalance_id
  return

abbrev pub reschedule : TrackEnv → Order → TrackingSnapshot → ℕ → ℕ → Option ℕ → Action (Unit {0})
reschedule env order snapshot attempt first_tracked_at none = time_out env order snapshot
reschedule env order snapshot attempt first_tracked_at (some delay) =
    send (process_order_status order.id (attempt + 1) (some first_tracked_at) delay)

-- steps 5 to 7: the look at the broker, and the guarded update
unfoldable pub record_snapshot : Order → TrackingSnapshot → Action (Unit {0})
record_snapshot order snapshot = do
  unless_return (can_transition order.status snapshot.values.next_status) rollback
  updated ← execute (
      update_order_tracking_result order.id (filter (can_transition order.status) tracking_targets)
        snapshot.values)
  unless_return updated rollback
  commit

-- steps 8 and 9, on the object that the session holds after the update
unfoldable pub follow_up : TrackEnv → Order → TrackingSnapshot → ℕ → ℕ → Action (Unit {0})
follow_up env order snapshot attempt first_tracked_at = do
  apply_to_original order.original_order_id order snapshot
  commit
  publish_order_update order.id
  if status_in snapshot.values.next_status terminal_statuses
      then trigger_rebalance_snapshot order.rebalance_id
      else reschedule env order snapshot attempt first_tracked_at
          (resolve_retracking_delay attempt (env.now - first_tracked_at))

unfoldable pub look : TrackEnv → Order → Action TrackingSnapshot
look env order = do
  access_token ← await env.access_token
  service_result ← await (env.executions order)
  has_children ← query (exists_child_orders order.id)
  pure (
      extract_order_tracking_snapshot order service_result
        (is_new order.order_kind && has_children))

unfoldable pub track : TrackEnv → Order → ℕ → ℕ → Action (Unit {0})
track env order attempt first_tracked_at = do
  unless_return (status_in order.status tracking_targets) (pure tt)
  unless_return (truthy order.broker_order_no) (pure tt)
  snapshot ← look env order
  record_snapshot order snapshot
  row ← query (get_order_by_id order.id)
  follow_up env (env.synchronize order row) snapshot attempt first_tracked_at

-- `_requeue_order_tracking`
unfoldable pub requeue_order_tracking : ℕ → ℕ → ℕ → Option ℕ → Action (Unit {0})
requeue_order_tracking order_pk attempt first_tracked_at none = return
requeue_order_tracking order_pk attempt first_tracked_at (some delay) =
    send (process_order_status order_pk (attempt + 1) (some first_tracked_at) delay) >> return

abbrev pub tracking_failure : KisError → FailureResult
tracking_failure e = record {
  rt_cd = or_else e.rt_cd (some "1");
  msg_cd = or_else e.msg_cd (some "KIS_TRACKING_ERROR");
  msg1 = or_else e.msg1 (some e.message);
  next_status = failed;
}

-- The broker's refusal gives the statuses that it expects; the other handler leaves them out.
abbrev pub fail_order : Order → Exn → Action (Unit {0})
fail_order order (kis_order_error e) = do
  updated ← call_update_order_failure_result order.id (some tracking_targets) (tracking_failure e)
  commit
  publish_order_update order.id
  alert_action order.order_pos order.id
  return
fail_order order (exception text) = do
  updated ← call_update_order_failure_result order.id none (record {
    rt_cd = some "1";
    msg_cd = some "ORDER_TRACKING_ERROR";
    msg1 = some text;
    next_status = failed;
  })
  commit
  publish_order_update order.id
  alert_action order.order_pos order.id
  return

unfoldable pub handle_tracking : TrackEnv → Order → ℕ → ℕ → Exn → Action (Unit {0})
handle_tracking env order attempt first_tracked_at e = do
  rollback
  if is_retryable_tracking_error e
      then requeue_order_tracking order.id attempt first_tracked_at
          (resolve_retracking_delay attempt (env.now - first_tracked_at))
      else fail_order order e

-- a first delivery starts the clock
abbrev pub start_of : ℕ → Option ℕ → ℕ
start_of now none = now
start_of now (some first_tracked_at) = first_tracked_at

unfoldable pub run_tracking : TrackEnv → Option Order → ℕ → ℕ → Action (Unit {0})
run_tracking env none attempt first_tracked_at = return
run_tracking env (some order) attempt first_tracked_at =
    try_except (track env order attempt first_tracked_at)
      (handle_tracking env order attempt first_tracked_at)

-- `_process_order_status`
unfoldable pub process_status : TrackEnv → ℕ → ℕ → Option ℕ → Action (Unit {0})
process_status env order_id attempt first_tracked_at = do
  order ← query (get_order_by_id order_id)
  run_tracking env order attempt (start_of env.now first_tracked_at)
