-- ===== src/Worker/Recovery/Reach.antt =====
-- app/worker/recovery.py: which orders the recovery reaches.
use autotrading.Prelude.{
  ℕ, ◌+◌, ◌≡◌, refl, none, Bool, true, false, ◌&&◌, [], ◌∷◌, filter, count, is_some, ◌==◌,
  if◌then◌else◌, arith, Bool-cases, inl, inr,
}
use autotrading.Domain.{pending, requested, accepted, partial_filled, status_eq, status_in}
use autotrading.Orders.Row.{Order}
use autotrading.Orders.Repository.{
  Table, get_order_by_id, get_recoverable_submit_orders, get_recoverable_tracking_orders,
}
use autotrading.Orders.Updates.{UniqueIds, test_row}
use autotrading.Worker.Effects.{
  Message, process_order, process_order_status, capture_rebalance_snapshot, World, next,
}
use autotrading.Worker.Recovery.{
  submit_message, tracking_message, send_all, recover_submit_orders, recover_tracking_orders,
  recover_all_orders,
}

-- a message about the order
abbrev pub is_about : ℕ → Message → Bool
is_about i (process_order j countdown) = j == i
is_about i (process_order_status j attempt first_tracked_at countdown) = j == i
is_about i (capture_rebalance_snapshot j) = false

-- it is due at the broker, or the broker has it and it has a number there
abbrev pub is_recoverable : Order → Bool
is_recoverable o =
    if status_eq o.status pending
    then true
    else status_in o.status (requested ∷ accepted ∷ partial_filled ∷ [])
      && is_some o.broker_order_no

abbrev one_if : Bool → ℕ
one_if b = if b then 1 else 0

count-none :
    (i : ℕ) (q : Order → Bool) (t : Table)
    → get_order_by_id i t ≡ none
    → count (λ o. o.id == i && q o) t ≡ 0
unfolding get_order_by_id
count-none i q [] h = refl
count-none i q (o ∷ t) h = ground (arith, count-none i q t)

count-row :
    (i : ℕ) (q : Order → Bool) (t : Table)
    → UniqueIds t
    → count (λ o. o.id == i && q o) t ≡ one_if (test_row q (get_order_by_id i t))
unfolding get_order_by_id
count-row i q [] u = refl
count-row i q (o ∷ t) u = ground (arith, count-row i q t u.1, count-none i q t)

count-send_all :
    (i : ℕ) (message : Order → Message) (q : Order → Bool) (t : Table) (w : World)
    → ((o : Order) → is_about i (message o) ≡ (o.id == i))
    → ((send_all message (filter q t) w).0 ≡ next tt)
      × ((send_all message (filter q t) w).1.table ≡ w.table)
      × (count (is_about i) (send_all message (filter q t) w).1.queue
          ≡ count (is_about i) w.queue + count (λ o. o.id == i && q o) t)
unfolding send_all
count-send_all i message q [] w own = (refl, refl, omega arith)
count-send_all i message q (o ∷ t) w own = elim (Bool-cases (q o)) [
  | inl e ↦
      let rest = count-send_all i message q t (record w { queue = message o ∷ w.queue }) own in
      rw e (rest.0, rest.1, ground (arith, rest.2, own o))
  | inr e ↦
      let rest = count-send_all i message q t w own in rw e (rest.0, rest.1, ground (arith, rest.2))
]

-- In a table without equal ids, a recovery that has the lock sends about an order exactly one
-- message if it is pending, or if the broker has it and has given it a number, and none otherwise,
-- so none about an order left PROCESSING.
pub recover_all_orders-count :
    (i : ℕ) (w : World)
    → UniqueIds w.table
    → count (is_about i) (recover_all_orders true w).1.queue
      ≡ count (is_about i) w.queue + one_if (test_row is_recoverable (get_order_by_id i w.table))
unfolding recover_all_orders recover_submit_orders recover_tracking_orders
    get_recoverable_submit_orders get_recoverable_tracking_orders
recover_all_orders-count i w u =
    let submits = λ (o : Order). status_eq o.status pending in
    let tracks = λ (o : Order).
      status_in o.status (requested ∷ accepted ∷ partial_filled ∷ [])
      && is_some o.broker_order_no in
    let (sent, same, first) = count-send_all i submit_message submits w.table w (λ o. refl) in
    let mid = (send_all submit_message (filter submits w.table) w).1 in
    let (sent', same', second) =
      count-send_all i tracking_message tracks mid.table mid (λ o. refl) in
    let by_submit = count-row i submits w.table u in
    let by_track = count-row i tracks w.table u in
    ground (arith, sent, same, first, second, by_submit, by_track)
