-- ===== src/Worker/Track/Originals.antt =====
-- app/worker/tasks_order_status.py: what a delivery to worker 2 does to the rows of other orders, the
-- original of a cancel or modify order among them.
use autotrading.Prelude.{◌⊎◌, inl, inr, ℕ, ◌≡◌, ◌≢◌, refl, Option, some, List, ◌∷◌, filter, arith}
use autotrading.Domain.{OrderKind, OrderStatus, can_transition}
use autotrading.Orders.Row.{Order}
use autotrading.Orders.Repository.{
  Table, TrackingResult, get_order_by_id, update_order_tracking_result,
}
use autotrading.Orders.Updates.{get_order_by_id-id}
use autotrading.Orders.Statements.{
  get_order_by_id-update_order_tracking_result, get_order_by_id-update_order_failure_result_ne,
  get_order_by_id-create_order,
}
use autotrading.Worker.Effects.{Reply, reply, error, Exn, kis_order_error, exception, World}
use autotrading.Worker.Track.{TrackingSnapshot, tracking_targets}
use autotrading.Worker.Track.Parent.{apply_cancel, apply_modify, apply_to_parent}
use autotrading.Worker.Track.Task.{
  TrackEnv, timed_out, cancel_rest, timeout_cancel_order, tracking_failure, time_out,
  record_snapshot, trigger_rebalance_snapshot, insert_cancel_order, handle_tracking, fail_order,
  requeue_order_tracking,
}

-- On an object that holds the quantity of the snapshot already, the part of a modify order that is new
-- is nothing, and the part of a cancel order that is new ends in the call that raises.
apply_modify-world :
    (o : Order) (p : ℕ) (s : TrackingSnapshot) (w : World)
    → o.filled_qty ≡ s.values.filled_qty
    → (apply_modify o p s w).1 ≡ w
unfolding apply_modify
apply_modify-world o p s w same = ground arith

apply_cancel-world :
    (o : Order) (p : ℕ) (s : TrackingSnapshot) (w : World) → (apply_cancel o p s w).1 ≡ w
unfolding apply_cancel
apply_cancel-world o p s w = ground arith

pub apply_to_original-world :
    (k : OrderKind) (o : Order) (p : ℕ) (s : TrackingSnapshot) (w : World)
    → o.filled_qty ≡ s.values.filled_qty
    → (apply_to_parent k o p s w).1 ≡ w
apply_to_original-world OrderKind.new o p s w same = refl
apply_to_original-world OrderKind.modify o p s w same = ground (arith, apply_modify-world o p s w)
apply_to_original-world OrderKind.cancel o p s w same = ground (arith, apply_cancel-world o p s w)
apply_to_original-world OrderKind.other o p s w same = refl

tracking_result_ne :
    (i p : ℕ) (es : List OrderStatus) (x : TrackingResult) (t : Table) (r : Order)
    → p ≢ i
    → get_order_by_id p t ≡ some r
    → get_order_by_id p (update_order_tracking_result i es x t).0 ≡ some r
tracking_result_ne i p es x t r ne found =
    rw (get_order_by_id-update_order_tracking_result i es x t p, found)
      (ground (arith, get_order_by_id-id p t r found))

pub Reply-cases :
    {A : Type 0} (x : Reply A) → ((a : A) × (x ≡ reply a)) ⊎ ((e : Exn) × (x ≡ error e))
Reply-cases (reply a) = inl (a, refl)
Reply-cases (error e) = inr (e, refl)

-- The row of another order, in both tables.
abbrev pub Holds : ℕ → Order → World → Type 0
Holds p r v = (get_order_by_id p v.table ≡ some r) × (get_order_by_id p v.saved ≡ some r)

module _ (env : TrackEnv) (o : Order) (p : ℕ) (r : Order) (ne : p ≢ o.id) where
  pub record_snapshot-Holds :
      (s : TrackingSnapshot) (v : World) → Holds p r v → Holds p r (record_snapshot o s v).1
  unfolding record_snapshot
  record_snapshot-Holds s v h = ground (
    arith,
    tracking_result_ne o.id p (filter (can_transition o.status) tracking_targets) s.values v.table r
        ne h.0,
  )

  pub trigger-Holds :
      (b : Option ℕ) (v : World) → Holds p r v → Holds p r (trigger_rebalance_snapshot b v).1
  unfolding trigger_rebalance_snapshot
  trigger-Holds b v h = ground arith

  insert-Holds : (j : ℕ) (v : World) → Holds p r v → Holds p r (insert_cancel_order o j v).1
  insert-Holds j v h =
      ground
        (arith, get_order_by_id-create_order p (timeout_cancel_order j o o.remaining_qty) v.table r)

  cancel_rest-Holds : (v : World) → Holds p r v → Holds p r (cancel_rest env o v).1
  unfolding cancel_rest
  cancel_rest-Holds v h = elim (Reply-cases env.new_uuid) [
    | inl (j, e) ↦ ground (arith, e, insert-Holds j v h)
    | inr (e, given) ↦ ground (arith, given)
  ]

  pub time_out-Holds :
      (s : TrackingSnapshot) (v : World) → Holds p r v → Holds p r (time_out env o s v).1
  unfolding time_out
  time_out-Holds s v h =
      let t = (update_order_tracking_result o.id tracking_targets (timed_out s) v.table).0 in
      let kept = tracking_result_ne o.id p tracking_targets (timed_out s) v.table r ne h.0 in
      let w = record v { table = t; saved = t; published = o.id ∷ v.published } in
      let rest = cancel_rest-Holds w (kept, kept) in
      let x = (cancel_rest env o w).1 in
      ground
        (arith, rest, trigger-Holds o.rebalance_id (record x { alerts = o.id ∷ x.alerts }) rest)

  fail_order-Holds : (e : Exn) (v : World) → Holds p r v → Holds p r (fail_order o e v).1
  fail_order-Holds (kis_order_error e) v h = ground (
    arith,
    get_order_by_id-update_order_failure_result_ne o.id p tracking_targets (tracking_failure e)
        v.table r ne h.0,
  )
  fail_order-Holds (exception text) v h = ground arith

  pub handle-Holds :
      (a f : ℕ) (e : Exn) (v : World) → Holds p r v → Holds p r (handle_tracking env o a f e v).1
  unfolding handle_tracking requeue_order_tracking
  handle-Holds a f e v h =
      ground (arith, fail_order-Holds e (record v { table = v.saved }) (h.1, h.1))
