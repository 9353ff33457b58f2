-- ===== src/Worker/Submit/Task.antt =====
-- app/worker/tasks_order.py: `_process_order`, with its two exception handlers.
use autotrading.Prelude.{ℕ, Option, none, some, [], ◌∷◌, if◌then◌else◌, or_else}
use autotrading.Domain.{
  OrderAction, pending, processing, requested, accepted, failed, status_in, can_transition,
}
use autotrading.Orders.Row.{Order}
use autotrading.Orders.Repository.{
  SubmitResult, FailureResult, get_order_by_id, update_order_status, update_order_submit_result,
}
use autotrading.Broker.TradeService.{OrderResponse, value_error}
use autotrading.Worker.Effects.{
  KisError, Exn, kis_order_error, exception, process_order_status, process_order, Action, ◌>>=◌,
  ◌>>◌, pure, return, raise, query, await, try_except, execute, commit, rollback, send,
  publish_order_update, alert, unless_return, when, call_update_order_failure_result,
}
use autotrading.Worker.Submit.{
  SubmitEnv, extract_order_snapshot, is_rate_limit_error, check_kill_switch, place,
}

-- step 2: PENDING becomes PROCESSING, or another worker has the order
unfoldable pub claim : ℕ → Action (Unit {0})
claim order_pk = do
  updated ← execute (update_order_status order_pk (pending ∷ []) processing)
  unless_return updated (pure tt)
  commit

-- steps 5 to 7: the status check, the guarded update and the message for worker 2
unfoldable pub record_result : Order → SubmitResult → Action (Unit {0})
record_result order snapshot = do
  unless_return (can_transition order.status snapshot.next_status) rollback
  updated ← execute (update_order_submit_result order.id snapshot)
  unless_return updated rollback
  commit
  publish_order_update order.id
  when (status_in snapshot.next_status (accepted ∷ requested ∷ []))
      (send (process_order_status order.id 0 none 0))

-- steps 3 and 4
unfoldable pub ask_broker : SubmitEnv → Order → Action OrderResponse
ask_broker env order = do
  access_token ← await env.access_token
  check_kill_switch env.kill_switch
  place env.broker order.order_kind order

unfoldable pub submit : SubmitEnv → Order → Action (Unit {0})
submit env order = do
  service_result ← ask_broker env order
  record_result order (extract_order_snapshot env.today service_result order.order_qty)

-- The body of the `try`, after the order was found. The object `order` of the ORM is the one loaded
-- before the claim.
unfoldable pub attempt : SubmitEnv → Order → Action (Unit {0})
attempt env loaded = do
  claim loaded.id
  row ← query (get_order_by_id loaded.id)
  submit env (env.synchronize loaded row)

-- `ORDER_ACTION(order.order_pos)` raises on a text that is no member.
abbrev pub alert_action : OrderAction → ℕ → Action (Unit {0})
alert_action OrderAction.other order_pk = raise value_error
alert_action _ order_pk = alert order_pk

-- What the two handlers have in common: the call leaves out `expected_current_statuses`.
abbrev pub mark_failed : Order → FailureResult → Action (Unit {0})
mark_failed order r = do
  updated ← call_update_order_failure_result order.id none r
  commit
  publish_order_update order.id
  alert_action order.order_pos order.id
  return

-- a rate limit: back to PENDING, and again in 60 seconds
abbrev pub requeue : ℕ → Action (Unit {0})
requeue order_pk = do
  updated ← execute (update_order_status order_pk (processing ∷ []) pending)
  commit
  send (process_order order_pk 60)
  return

abbrev pub broker_failure : KisError → FailureResult
broker_failure e = record {
  rt_cd = or_else e.rt_cd (some "1");
  msg_cd = or_else e.msg_cd (some "KIS_ORDER_ERROR");
  msg1 = or_else e.msg1 (some e.message);
  next_status = failed;
}

unfoldable pub handle : Order → Exn → Action (Unit {0})
handle order (kis_order_error e) = do
  rollback
  if is_rate_limit_error e then requeue order.id else mark_failed order (broker_failure e)
handle order (exception text) = do
  rollback
  mark_failed order (record {
    rt_cd = some "ERROR";
    msg_cd = some "WORKER_EXCEPTION";
    msg1 = some text;
    next_status = failed;
  })

unfoldable pub run_order : SubmitEnv → Option Order → Action (Unit {0})
run_order env none = return
run_order env (some order) = try_except (attempt env order) (handle order)

-- `_process_order`. A read of the order that fails is not modelled, so the handlers have `order_pk`.
unfoldable pub process : SubmitEnv → ℕ → Action (Unit {0})
unfolding run_order
process env order_id = do order ← query (get_order_by_id order_id); run_order env order
