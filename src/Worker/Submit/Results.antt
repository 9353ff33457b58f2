-- ===== src/Worker/Submit/Results.antt =====
-- How a delivery to worker 1 (app/worker/tasks_order.py) ends for a pending order, on each answer.
use autotrading.Prelude.{
  String, ℕ, ◌≡◌, refl, Option, none, some, Bool, true, false, [], ◌∷◌, arith, if◌then◌else◌,
}
use autotrading.Domain.{pending, processing, accepted, requested, status_in, can_transition}
use autotrading.Orders.Row.{Order}
use autotrading.Orders.Repository.{
  SubmitResult, update_order_submit_result, get_order_by_id, update_order_status,
}
use autotrading.Orders.Updates.{UniqueIds, get_order_by_id-id}
use autotrading.Orders.Statements.{
  get_order_by_id-update_order_status, recorded, update_order_submit_result-count,
  get_order_by_id-update_order_submit_result, update_order_status-UniqueIds,
}
use autotrading.Broker.TradeService.{OrderResponse}
use autotrading.Worker.Effects.{
  KisError, Exn, kis_order_error, exception, World, Outcome, next, stop, raised, process_order,
  process_order_status,
}
use autotrading.Worker.Submit.{
  SubmitEnv, extract_order_snapshot, is_rate_limit_error, submit_status, output_of,
}
use autotrading.Worker.Submit.Task.{
  ask_broker, attempt, submit, run_order, process, record_result, handle,
}
use autotrading.Worker.Submit.Calls.{claimed, claim_ok, ask_broker-Asks}

-- The TypeError of the call that leaves out an argument.
abbrev pub missing_argument : Exn
missing_argument = exception "missing 1 required positional argument: 'expected_current_statuses'"

-- an exception that is no rate limit
abbrev pub is_final_error : Exn → Bool
is_final_error (kis_order_error e) = if is_rate_limit_error e then false else true
is_final_error (exception text) = true

handle-final :
    (o : Order) (e : Exn) (w : World)
    → is_final_error e ≡ true
    → handle o e w ≡ (raised missing_argument, record w { table = w.saved })
unfolding handle
handle-final o (kis_order_error e) w h = ground arith
handle-final o (exception text) w h = refl

-- Every status that an answer leads to may follow PROCESSING.
submit_status-allowed :
    (rt_cd broker_order_no : Option String)
    → can_transition processing (submit_status rt_cd broker_order_no) ≡ true
unfolding can_transition
submit_status-allowed rt_cd broker_order_no = ground arith

record_result_lem :
    (i : ℕ) (o : Order) (r : SubmitResult) (w : World)
    → o.id ≡ i
    → UniqueIds w.table
    → get_order_by_id i w.table ≡ some o
    → o.status ≡ processing
    → can_transition processing r.next_status ≡ true
    → let t = (update_order_submit_result i r w.table).0 in
      record_result o r w ≡ (
        next tt,
        record w {
          table = t;
          saved = t;
          published = i ∷ w.published;
          queue =
              if status_in r.next_status (accepted ∷ requested ∷ [])
              then process_order_status i 0 none 0 ∷ w.queue
              else w.queue;
        },
      )
unfolding record_result
record_result_lem i o r w own u found working allowed =
    ground (arith, update_order_submit_result-count i r w.table u)

-- The state of affairs in which a message for a pending order is delivered.
module _ (env : SubmitEnv) (i : ℕ) (w : World) (o : Order) (unique : UniqueIds w.table)
    (found : get_order_by_id i w.table ≡ some o) (is_pending : o.status ≡ pending)
    (synchronized : (held row : Order) → env.synchronize held (some row) ≡ row) where
  -- the order as the worker holds it after the claim
  abbrev held : Order
  held = record o { status = processing }

  claimed_row : get_order_by_id i (claimed i w).table ≡ some held
  claimed_row =
      rw (get_order_by_id-update_order_status i (pending ∷ []) processing w.table, found)
        (ground (arith, get_order_by_id-id i w.table o found))

  attempt_lem : attempt env o w ≡ submit env held (claimed i w)
  unfolding attempt
  attempt_lem = ground (
    arith,
    claim_ok i w unique (rw (found, is_pending) refl),
    claimed_row,
    synchronized o held,
    get_order_by_id-id i w.table o found,
  )

  process_lem : process env i w ≡ run_order env (some o) w
  unfolding process
  process_lem = ground (arith, found)

  -- what the task is told by the services and the broker, and the world then
  abbrev asked : Outcome OrderResponse × World
  asked = ask_broker env held (claimed i w)

  asked_world : asked.1 ≡ record (claimed i w) { calls = asked.1.calls }
  asked_world = (ask_broker-Asks env held (claimed i w)).0

  -- For a pending order in a table without equal ids, and an ORM that carries an UPDATE over into
  -- the loaded object: if the token service, the kill switch or the broker refuses, and it is no
  -- rate limit, the delivery ends in a TypeError: the order is committed as PROCESSING with the
  -- rest of its row as it was, and no message, publication or alert is sent.
  pub process_strands :
      (e : Exn)
      → asked.0 ≡ raised e
      → is_final_error e ≡ true
      → ((process env i w).0 ≡ raised missing_argument)
        × (get_order_by_id i (process env i w).1.saved ≡ some held)
        × ((process env i w).1.queue ≡ w.queue)
        × ((process env i w).1.published ≡ w.published)
        × ((process env i w).1.alerts ≡ w.alerts)
  process_strands e refused final = rw ending (refl, claimed_row, refl, refl, refl)
    where
      tried : attempt env o w ≡ (raised e, record (claimed i w) { calls = asked.1.calls })
      tried = unfold submit in ground (arith, attempt_lem, asked_world)

      ending :
          process env i w
          ≡ (raised missing_argument, record (claimed i w) { calls = asked.1.calls })
      ending =
          unfold run_order in
          ground (
            arith,
            process_lem,
            tried,
            handle-final o e (record (claimed i w) { calls = asked.1.calls }),
          )

  -- For a pending order in a table without equal ids, and an ORM that carries an UPDATE over into
  -- the loaded object: if the refusal is a rate limit, the row is committed as it was before the
  -- delivery, and one more message, for another delivery in 60 seconds, is queued.
  pub process_requeues :
      (e : KisError)
      → asked.0 ≡ raised (kis_order_error e)
      → is_rate_limit_error e ≡ true
      → ((process env i w).0 ≡ stop)
        × (get_order_by_id i (process env i w).1.saved ≡ some o)
        × ((process env i w).1.queue ≡ process_order i 60 ∷ w.queue)
  process_requeues e refused limited = rw ending (refl, restored, refl)
    where
      after : World
      after = record (claimed i w) { calls = asked.1.calls }

      restored :
          get_order_by_id i (update_order_status i (processing ∷ []) pending (claimed i w).table).0
          ≡ some o
      restored =
          rw
            (
              get_order_by_id-update_order_status i (processing ∷ []) pending (claimed i w).table,
              claimed_row,
            )
            (ground (arith, get_order_by_id-id i w.table o found))

      tried : attempt env o w ≡ (raised (kis_order_error e), after)
      tried = unfold submit in ground (arith, attempt_lem, asked_world)

      ending : process env i w ≡ (
        stop,
        record after {
          table = (update_order_status i (processing ∷ []) pending after.table).0;
          saved = (update_order_status i (processing ∷ []) pending after.table).0;
          queue = process_order i 60 ∷ w.queue;
        },
      )
      ending =
          unfold run_order handle in
          ground (arith, process_lem, tried, limited, get_order_by_id-id i w.table o found)

  -- For a pending order in a table without equal ids, and an ORM that carries an UPDATE over into
  -- the loaded object: if the broker answers, the row that is committed is the order with what was
  -- read from the answer, and a message to track the order is queued exactly if the status read is
  -- ACCEPTED or REQUESTED.
  pub process_records :
      (a : OrderResponse)
      → asked.0 ≡ next a
      → let r = extract_order_snapshot env.today a o.order_qty in
        ((process env i w).0 ≡ next tt)
        × (get_order_by_id i (process env i w).1.saved ≡ some (recorded o r))
        × ((process env i w).1.queue ≡ (
            if status_in r.next_status (accepted ∷ requested ∷ [])
            then process_order_status i 0 none 0 ∷ w.queue
            else w.queue))
  process_records a answered = rw ending (refl, written, refl)
    where
      own : o.id ≡ i
      own = get_order_by_id-id i w.table o found

      r : SubmitResult
      r = extract_order_snapshot env.today a o.order_qty

      allowed : can_transition processing r.next_status ≡ true
      allowed =
          unfold extract_order_snapshot in
          submit_status-allowed a.rt_cd (output_of a.output).order_no

      after : World
      after = record (claimed i w) { calls = asked.1.calls }

      ending : process env i w ≡ (
        next tt,
        record after {
          table = (update_order_submit_result i r after.table).0;
          saved = (update_order_submit_result i r after.table).0;
          published = i ∷ w.published;
          queue =
              if status_in r.next_status (accepted ∷ requested ∷ [])
              then process_order_status i 0 none 0 ∷ w.queue
              else w.queue;
        },
      )
      ending =
          unfold run_order submit in
          ground (
            arith,
            process_lem,
            attempt_lem,
            asked_world,
            answered,
            record_result_lem i held r after own
                (update_order_status-UniqueIds i (pending ∷ []) processing w.table unique)
                claimed_row refl allowed,
          )

      written :
          get_order_by_id i (update_order_submit_result i r (claimed i w).table).0
          ≡ some (recorded o r)
      written =
          rw (get_order_by_id-update_order_submit_result i r (claimed i w).table, claimed_row)
            (ground (arith, own))
