-- ===== src/Scenarios/Submitting.antt =====
-- Runs of worker 1 (app/worker/tasks_order.py).
use autotrading.Prelude.{
  ◌≡◌, ◌≤◌, ◌+◌, refl, none, some, Bool, true, false, [], ◌∷◌, length, arith, if◌then◌else◌,
}
use autotrading.Domain.{processing, accepted, requested, status_in}
use autotrading.Orders.Row.{Order}
use autotrading.Orders.Repository.{get_order_by_id}
use autotrading.Orders.Statements.{recorded}
use autotrading.Orders.Updates.{UniqueIds}
use autotrading.Broker.TradeService.{OrderResponse, revise_domestic_stock, trade_domestic_stock}
use autotrading.Worker.Effects.{
  KisError, kis_order_error, Reply, reply, error, World, next, stop, raised, process_order,
  process_order_status,
}
use autotrading.Worker.Submit.{SubmitEnv, extract_order_snapshot, is_rate_limit_error, place}
use autotrading.Worker.Submit.Task.{ask_broker, process}
use autotrading.Worker.Submit.Calls.{process_one_call, process_only_pending}
use autotrading.Worker.Submit.Results.{
  missing_argument, process_strands, process_requeues, process_records,
}
use autotrading.Worker.Submit.Guards.{kill_switch_blocks, Covered, place-Covered, kind_of}
use autotrading.Scenarios.{bid, open_bid, change, world, synchronize}

-- the broker takes every order
abbrev answer : OrderResponse
answer = record {
  rt_cd = some "0";
  msg_cd = none;
  msg1 = none;
  output = some (record { org_no = some "06010"; order_no = some "0001"; ord_tmd = some "093000" });
}

abbrev env : Reply Bool → Reply OrderResponse → SubmitEnv
env kill_switch response = record {
  today = 20000;
  access_token = reply "token";
  kill_switch = kill_switch;
  broker = λ c. response;
  synchronize = synchronize;
}

abbrev before : World
before = world (bid ∷ [])

bid_unique : UniqueIds (bid ∷ [])
bid_unique = unfold get_order_by_id in (refl, tt)

bid_found : get_order_by_id 7 (bid ∷ []) ≡ some bid
bid_found = unfold get_order_by_id in refl

process_one_call_example :
    length (process (env (reply false) (reply answer)) 7 before).1.calls ≤ length before.calls + 1
process_one_call_example = process_one_call (env (reply false) (reply answer)) 7 before

process_only_pending_example :
    process (env (reply false) (reply answer)) 7 (world (open_bid ∷ []))
    ≡ (stop, world (open_bid ∷ []))
process_only_pending_example =
    process_only_pending (env (reply false) (reply answer)) 7 (world (open_bid ∷ []))
      (unfold get_order_by_id in (refl, tt)) (unfold get_order_by_id in refl)

kill_switch_blocks_example : (process (env (reply true) (reply answer)) 7 before).1.calls ≡ []
kill_switch_blocks_example = kill_switch_blocks (env (reply true) (reply answer)) 7 before refl

-- a refusal that is no rate limit, and one that is
abbrev refusal : KisError
refusal = record {
  message = "refused";
  rt_cd = some "1";
  msg_cd = some "APBK0952";
  msg1 = none;
  response = none;
}

abbrev limited : KisError
limited = record refusal { response = some (record { msg_cd = some "EGW00201"; msg1 = none }) }

abbrev claimed_bid : Order
claimed_bid = record bid { status = processing }

process_strands_example :
    ((process (env (reply false) (error (kis_order_error refusal))) 7 before).0
      ≡ raised missing_argument)
    × (get_order_by_id 7
          (process (env (reply false) (error (kis_order_error refusal))) 7 before).1.saved
        ≡ some claimed_bid)
    × ((process (env (reply false) (error (kis_order_error refusal))) 7 before).1.queue ≡ [])
    × ((process (env (reply false) (error (kis_order_error refusal))) 7 before).1.published ≡ [])
    × ((process (env (reply false) (error (kis_order_error refusal))) 7 before).1.alerts ≡ [])
process_strands_example =
    process_strands (env (reply false) (error (kis_order_error refusal))) 7 before bid bid_unique
      bid_found refl (λ held row. refl) (kis_order_error refusal)
      (unfold ask_broker place trade_domestic_stock in refl) (unfold is_rate_limit_error in refl)

process_requeues_example :
    ((process (env (reply false) (error (kis_order_error limited))) 7 before).0 ≡ stop)
    × (get_order_by_id 7
          (process (env (reply false) (error (kis_order_error limited))) 7 before).1.saved
        ≡ some bid)
    × ((process (env (reply false) (error (kis_order_error limited))) 7 before).1.queue
        ≡ process_order 7 60 ∷ [])
process_requeues_example =
    process_requeues (env (reply false) (error (kis_order_error limited))) 7 before bid bid_unique
      bid_found refl (λ held row. refl) limited
      (unfold ask_broker place trade_domestic_stock in refl) (unfold is_rate_limit_error in refl)

process_records_example :
    let r = extract_order_snapshot 20000 answer 10 in
    ((process (env (reply false) (reply answer)) 7 before).0 ≡ next tt)
    × (get_order_by_id 7 (process (env (reply false) (reply answer)) 7 before).1.saved
        ≡ some (recorded bid r))
    × ((process (env (reply false) (reply answer)) 7 before).1.queue ≡ (
        if status_in r.next_status (accepted ∷ requested ∷ [])
        then process_order_status 7 0 none 0 ∷ []
        else []))
process_records_example =
    process_records (env (reply false) (reply answer)) 7 before bid bid_unique bid_found refl
      (λ held row. refl) answer (unfold ask_broker place trade_domestic_stock in refl)

abbrev both : World
both = world (open_bid ∷ change ∷ [])

place-Covered_example :
    Covered true change both (place (λ c. reply answer) (kind_of true) change both).1
place-Covered_example =
    place-Covered (λ c. reply answer) true change both
      (unfold place revise_domestic_stock get_order_by_id in λ e. ground arith)
