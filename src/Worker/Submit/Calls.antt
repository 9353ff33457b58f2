-- ===== src/Worker/Submit/Calls.antt =====
-- How often worker 1 (app/worker/tasks_order.py) asks the broker.
use mathlib.Core.Path.{subst}
use autotrading.Prelude.{
  ℕ, ◌+◌, ◌≤◌, ◌≡◌, refl, Option, none, some, Bool, true, false, [], ◌∷◌, length, arith, sym, ap,
}
use autotrading.Domain.{OrderKind, pending, processing, status_in, OrderAction, buy, sell}
use autotrading.Orders.Row.{Order}
use autotrading.Orders.Repository.{SubmitResult, get_order_by_id, update_order_status}
use autotrading.Orders.Updates.{UniqueIds, test_row, get_order_by_id-id}
use autotrading.Orders.Statements.{update_order_status-count, update_order_status-none}
use autotrading.Broker.TradeService.{
  OrderResponse, trade_domestic_stock, cancel_domestic_stock, revise_domestic_stock,
}
use autotrading.Worker.Effects.{
  BrokerCall, Reply, World, next, stop, Exn, kis_order_error, exception,
}
use autotrading.Worker.Rules.{>>=-world, try_except-world}
use autotrading.Worker.Submit.{extract_order_snapshot, SubmitEnv, place, place_new}
use autotrading.Worker.Submit.Task.{
  ask_broker, claim, attempt, submit, run_order, process, record_result, handle,
}

-- one broker call at most, and nothing else
abbrev pub Asks : World → World → Type 0
Asks w w' = (w' ≡ record w { calls = w'.calls }) × (length w'.calls ≤ length w.calls + 1)

trade-Asks :
    (broker : BrokerCall → Reply OrderResponse) (a : OrderAction) (o : Order) (w : World)
    → Asks w (place_new broker a o w).1
unfolding place_new trade_domestic_stock
trade-Asks broker buy o w = ground arith
trade-Asks broker sell o w = ground arith
trade-Asks broker _ o w = ground arith

place-Asks :
    (broker : BrokerCall → Reply OrderResponse) (k : OrderKind) (o : Order) (w : World)
    → Asks w (place broker k o w).1
unfolding place trade_domestic_stock cancel_domestic_stock revise_domestic_stock
place-Asks broker OrderKind.new o w = trade-Asks broker o.order_pos o w
place-Asks broker OrderKind.modify o w = ground arith
place-Asks broker OrderKind.cancel o w = ground arith
place-Asks broker OrderKind.other o w = ground arith

pub ask_broker-Asks : (env : SubmitEnv) (o : Order) (w : World) → Asks w (ask_broker env o w).1
unfolding ask_broker
ask_broker-Asks env o w = ground (arith, place-Asks env.broker o.order_kind o w)

-- What the statements after the broker's answer leave alone.
pub record_result-calls :
    (o : Order) (r : SubmitResult) (w : World) → (record_result o r w).1.calls ≡ w.calls
unfolding record_result
record_result-calls o r w = ground arith

pub handle-calls : (o : Order) (e : Exn) (w : World) → (handle o e w).1.calls ≡ w.calls
unfolding handle
handle-calls o (kis_order_error e) w = ground arith
handle-calls o (exception text) w = ground arith

-- A claim that fails changes nothing; one that succeeds only the rows, in both tables.
abbrev pub claimed : ℕ → World → World
claimed i w = record w {
  table = (update_order_status i (pending ∷ []) processing w.table).0;
  saved = (update_order_status i (pending ∷ []) processing w.table).0;
}

abbrev pub is_pending_row : Option Order → Bool
is_pending_row o = test_row (λ r. status_in r.status (pending ∷ [])) o

module _ (i : ℕ) (w : World) (u : UniqueIds w.table) where
  pub claim_ok :
      is_pending_row (get_order_by_id i w.table) ≡ true → claim i w ≡ (next tt, claimed i w)
  unfolding claim
  claim_ok h = ground (arith, update_order_status-count i (pending ∷ []) processing w.table u)

  pub claim_refused : is_pending_row (get_order_by_id i w.table) ≡ false → claim i w ≡ (stop, w)
  unfolding claim
  claim_refused h = ground (
    arith,
    update_order_status-count i (pending ∷ []) processing w.table u,
    update_order_status-none i (pending ∷ []) processing w.table,
  )

pub claim-calls : (i : ℕ) (w : World) → (claim i w).1.calls ≡ w.calls
unfolding claim
claim-calls i w = ground arith

-- at most `n` calls have been made
abbrev Within : ℕ → World → Type 0
Within n w = length w.calls ≤ n

submit-Within :
    (env : SubmitEnv) (o : Order) (w : World) → Within (length w.calls + 1) (submit env o w).1
unfolding submit
submit-Within env o w =
    let (same, few) = ask_broker-Asks env o w in
    >>=-world (Within (length w.calls + 1)) (ask_broker env o)
      (λ a. record_result o (extract_order_snapshot env.today a o.order_qty)) w few
      λ a e. rw (record_result-calls o) few

attempt-Within :
    (env : SubmitEnv) (o : Order) (w : World) → Within (length w.calls + 1) (attempt env o w).1
unfolding attempt
attempt-Within env o w =
    >>=-world (Within (length w.calls + 1)) (claim o.id)
      (λ a v. submit env (env.synchronize o (get_order_by_id o.id v.table)) v) w
      (rw (claim-calls o.id w) (omega arith))
      λ a e.
        let held = env.synchronize o (get_order_by_id o.id (claim o.id w).1.table) in
        omega (arith, submit-Within env held (claim o.id w).1, ap length (claim-calls o.id w))

run_order-Within :
    (env : SubmitEnv) (o : Option Order) (w : World)
    → Within (length w.calls + 1) (run_order env o w).1
unfolding run_order
run_order-Within env none w = omega arith
run_order-Within env (some o) w =
    try_except-world (Within (length w.calls + 1)) (attempt env o) (handle o) w
      (attempt-Within env o w) λ e h. rw (handle-calls o e _) (attempt-Within env o w)

-- A delivery of a message to worker 1 adds one request to those given to the broker's client at most,
-- whatever its order, the table and the answers are.
pub process_one_call :
    (env : SubmitEnv) (i : ℕ) (w : World) → length (process env i w).1.calls ≤ length w.calls + 1
unfolding process
process_one_call env i w = run_order-Within env (get_order_by_id i w.table) w

run_order-not_pending :
    (env : SubmitEnv) (i : ℕ) (o : Option Order) (w : World)
    → UniqueIds w.table
    → get_order_by_id i w.table ≡ o
    → is_pending_row o ≡ false
    → run_order env o w ≡ (stop, w)
unfolding run_order attempt
run_order-not_pending env i none w u found h = refl
run_order-not_pending env i (some o) w u found h =
    let own : o.id ≡ i = get_order_by_id-id i w.table o found in
    let row = subst (λ k. get_order_by_id k w.table ≡ some o) (sym own) found in
    ground (arith, claim_refused o.id w u (rw row h))

-- In a table without equal ids, a delivery for an order that is not pending, because another
-- worker has it or it has ended, or for one that is not there, changes nothing at all.
pub process_only_pending :
    (env : SubmitEnv) (i : ℕ) (w : World)
    → UniqueIds w.table
    → is_pending_row (get_order_by_id i w.table) ≡ false
    → process env i w ≡ (stop, w)
unfolding process
process_only_pending env i w u h =
    run_order-not_pending env i (get_order_by_id i w.table) w u refl h
