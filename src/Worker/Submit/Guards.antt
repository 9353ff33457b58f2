-- ===== src/Worker/Submit/Guards.antt =====
-- What must hold before worker 1 (app/worker/tasks_order.py) asks the broker.
use autotrading.Prelude.{
  ℕ, Bool, ◌==◌, ◌≡◌, ◌≢◌, ◌≤◌, ◌<◌, refl, ◌∙◌, inl, inr, Option, none, some, true, false, ◌∷◌,
  arith, Option-cases, or_empty, str,
}
use autotrading.Domain.{OrderKind, market}
use autotrading.Orders.Row.{Order}
use autotrading.Orders.Repository.{get_order_by_id}
use autotrading.Broker.TradeService.{
  OrderResponse, order_mode, normalized_price, cancel_domestic_stock, revise_domestic_stock,
}
use autotrading.Worker.Effects.{BrokerCall, amend_order, Reply, reply, World}
use autotrading.Worker.Rules.{>>=-world, try_except-world}
use autotrading.Worker.Submit.{SubmitEnv, extract_order_snapshot, place, original_id, revise_type}
use autotrading.Worker.Submit.Task.{
  ask_broker, claim, attempt, submit, run_order, process, handle, record_result,
}
use autotrading.Worker.Submit.Calls.{record_result-calls, handle-calls, claim-calls}

ask_broker-blocked :
    (env : SubmitEnv) (o : Order) (w : World)
    → env.kill_switch ≡ reply true
    → (ask_broker env o w).1.calls ≡ w.calls
unfolding ask_broker
ask_broker-blocked env o w on = ground arith

-- If the kill switch answers that it is on, a delivery of any message to worker 1 sends nothing to
-- the broker.
pub kill_switch_blocks :
    (env : SubmitEnv) (i : ℕ) (w : World)
    → env.kill_switch ≡ reply true
    → (process env i w).1.calls ≡ w.calls
unfolding process
kill_switch_blocks env i w on = go (get_order_by_id i w.table)
  where
    submitted : (o : Order) (v : World) → v.calls ≡ w.calls → (submit env o v).1.calls ≡ w.calls
    submitted o v same =
        unfold submit in
        >>=-world (λ x. x.calls ≡ w.calls) (ask_broker env o)
          (λ a. record_result o (extract_order_snapshot env.today a o.order_qty)) v
          (ask_broker-blocked env o v on ∙ same)
          λ a e. rw (record_result-calls o) (ask_broker-blocked env o v on ∙ same)

    attempted : (o : Order) → (attempt env o w).1.calls ≡ w.calls
    attempted o =
        unfold attempt in
        >>=-world (λ x. x.calls ≡ w.calls) (claim o.id)
          (λ a v. submit env (env.synchronize o (get_order_by_id o.id v.table)) v) w
          (claim-calls o.id w) λ a e. submitted _ _ (claim-calls o.id w)

    go : (o : Option Order) → (run_order env o w).1.calls ≡ w.calls
    go none = unfold run_order in refl
    go (some o) =
        unfold run_order in
        try_except-world (λ x. x.calls ≡ w.calls) (attempt env o) (handle o) w (attempted o)
          λ e h. handle-calls o e _ ∙ attempted o

-- The request that amends or cancels under the broker numbers that `o` holds, for the quantity of `o`.
abbrev pub amendment : Bool → Order → Bool → BrokerCall
amendment true o all_of_it =
    amend_order (or_empty o.original_broker_order_no) o.original_broker_org_no
      (order_mode (revise_type o.order_type)) true o.order_qty
      (normalized_price (revise_type o.order_type) (str o.order_price)) all_of_it
amendment false o all_of_it =
    amend_order (or_empty o.original_broker_order_no) o.original_broker_org_no market false
      o.order_qty (some "0") all_of_it

abbrev pub kind_of : Bool → OrderKind
kind_of true = OrderKind.modify
kind_of false = OrderKind.cancel

-- The original order is in the table, what is asked for is still open, and `all_of_it` tells whether it
-- is all that is open.
abbrev pub Covered : Bool → Order → World → World → Type 0
Covered revise o w w' =
    (original : Order) × (get_order_by_id (original_id o) w.table ≡ some original)
    × (0 < o.order_qty)
    × (o.order_qty ≤ original.remaining_qty)
    × (w'.calls ≡ amendment revise o (o.order_qty == original.remaining_qty) ∷ w.calls)

-- If worker 1 sends a request for a modify or cancel order, then the original order is in the
-- table, the quantity is positive and within what the original has open, and the request carries the broker
-- numbers that the order itself holds, its copies of the original's, and is marked as one for the
-- whole of the original exactly if the quantity is all that the original has open.
pub place-Covered :
    (broker : BrokerCall → Reply OrderResponse) (revise : Bool) (o : Order) (w : World)
    → (place broker (kind_of revise) o w).1.calls ≢ w.calls
    → Covered revise o w (place broker (kind_of revise) o w).1
unfolding place revise_domestic_stock cancel_domestic_stock
place-Covered broker true o w sent = elim (Option-cases (get_order_by_id (original_id o) w.table)) [
  | inl missing ↦ absurd (sent (ground (arith, missing)))
  | inr (original, e) ↦ (original, e, ground (arith, e), ground (arith, e), ground (arith, e))
]
place-Covered broker false o w sent =
    elim (Option-cases (get_order_by_id (original_id o) w.table)) [
      | inl missing ↦ absurd (sent (ground (arith, missing)))
      | inr (original, e) ↦ (original, e, ground (arith, e), ground (arith, e), ground (arith, e))
    ]
