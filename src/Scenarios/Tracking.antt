-- ===== src/Scenarios/Tracking.antt =====
-- Runs of worker 2 (app/worker/tasks_order_status.py).
use autotrading.Prelude.{ℕ, false, ◌≡◌, ◌≤◌, refl, ap, filter, none, some, [], ◌∷◌, arith}
use autotrading.Orders.Repository.{get_order_by_id, update_order_tracking_result}
use autotrading.Worker.Effects.{reply, error, exception}
use autotrading.Worker.Track.{resolve_retracking_delay, resolve_status}
use autotrading.Worker.Track.Task.{
  TrackEnv, process_status, run_tracking, track, look, record_snapshot, follow_up,
}
use autotrading.Worker.Track.Requeue.{is_tracking}
use autotrading.Worker.Track.Delay.{first, again, Delivery-bound}
use autotrading.Worker.Track.Unaided.{tracking_spares_others}
use autotrading.Worker.Track.Records.{tracking_goes_on, tracking_ends}
use autotrading.Domain.{can_transition}
use autotrading.Orders.Statements.{tracked}
use autotrading.Orders.Repository.{exists_child_orders}
use autotrading.Worker.Track.{Executions, extract_order_tracking_snapshot}
use autotrading.Worker.Effects.{World, process_order_status}
use autotrading.Scenarios.{open_bid, change, world, synchronize}

-- the broker has filled the modify order
abbrev env : TrackEnv
env = record {
  now = 0;
  access_token = reply "token";
  executions = λ o. reply (record {
    rt_cd = some "0";
    msg_cd = none;
    msg1 = none;
    output1 =
        record {
          odno = "0002";
          ord_gno_brno = some "06010";
          ord_qty = some 4;
          rmn_qty = some 0;
          cncl_cfrm_qty = some 0;
          rjct_qty = some 0;
          avg_prvs = some 700000000;
        }
        ∷ [];
  });
  new_uuid = error (exception "'function' object has no attribute 'uuid4'");
  synchronize = synchronize;
}

tracking_spares_others_example :
    (get_order_by_id 7 (process_status env 8 0 none (world (open_bid ∷ change ∷ []))).1.table
      ≡ some open_bid)
    × (get_order_by_id 7 (process_status env 8 0 none (world (open_bid ∷ change ∷ []))).1.saved
        ≡ some open_bid)
tracking_spares_others_example =
    tracking_spares_others env 8 0 none 7 open_bid change (world (open_bid ∷ change ∷ []))
      (λ e. omega arith) (unfold get_order_by_id in (refl, (refl, tt))) (λ held row. refl)
      (unfold get_order_by_id in refl) (unfold get_order_by_id in refl)
      (unfold get_order_by_id in refl)

-- the broker has filled the first order in part, or whole
abbrev rows : ℕ → Executions
rows remaining = record {
  rt_cd = some "0";
  msg_cd = none;
  msg1 = none;
  output1 =
      record {
        odno = "0001";
        ord_gno_brno = some "06010";
        ord_qty = some 10;
        rmn_qty = some remaining;
        cncl_cfrm_qty = some 0;
        rjct_qty = some 0;
        avg_prvs = some 700000000;
      }
      ∷ [];
}

abbrev look_env : ℕ → TrackEnv
look_env remaining = record env { executions = λ o. reply (rows remaining) }

abbrev before : World
before = world (open_bid ∷ [])

tracking_goes_on_example :
    let after = (process_status (look_env 6) 7 0 none before).1 in
    (get_order_by_id 7 after.saved
      ≡ some (tracked open_bid (extract_order_tracking_snapshot open_bid (rows 6) false).values))
    × (after.published ≡ 7 ∷ [])
    × (after.queue ≡ process_order_status 7 1 (some 0) 1 ∷ [])
unfolding exists_child_orders
tracking_goes_on_example =
    tracking_goes_on (look_env 6) 0 none open_bid before "token" (rows 6)
      (unfold get_order_by_id in (refl, tt)) (unfold get_order_by_id in refl) refl refl refl refl
      refl (λ held row. refl) 1
      (unfold can_transition extract_order_tracking_snapshot resolve_status in refl)
      (unfold extract_order_tracking_snapshot resolve_status in refl)
      (unfold resolve_retracking_delay in refl)

tracking_ends_example :
    let after = (process_status (look_env 0) 7 0 none before).1 in
    (get_order_by_id 7 after.saved
      ≡ some (tracked open_bid (extract_order_tracking_snapshot open_bid (rows 0) false).values))
    × (after.published ≡ 7 ∷ [])
    × (after.queue ≡ [])
unfolding exists_child_orders
tracking_ends_example =
    tracking_ends (look_env 0) 0 none open_bid before "token" (rows 0)
      (unfold get_order_by_id in (refl, tt)) (unfold get_order_by_id in refl) refl refl refl refl
      refl (λ held row. refl)
      (unfold can_transition extract_order_tracking_snapshot resolve_status in refl)
      (unfold extract_order_tracking_snapshot resolve_status in refl) refl

run_sends :
    (process_status (look_env 6) 7 0 none before).1.queue ≡ process_order_status 7 1 (some 0) 1 ∷ []
unfolding process_status run_tracking get_order_by_id track look record_snapshot can_transition
    extract_order_tracking_snapshot exists_child_orders resolve_status update_order_tracking_result
    follow_up resolve_retracking_delay
run_sends = refl

-- the second delivery of a chain, of the message that the first one sent
Delivery-bound_example : 1 ≤ 42
Delivery-bound_example = Delivery-bound 1 0 1500000 (
    again (look_env 6) 7 none before 7 1 1500000 first refl (ap (filter is_tracking) run_sends)
      (omega arith))
