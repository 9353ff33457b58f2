-- ===== src/Worker/Track/Requeue.antt =====
-- app/worker/tasks_order_status.py: what a delivery to worker 2 sends for a further look at the order.
use autotrading.Prelude.{
  ℕ, ◌+◌, ◌-◌, ◌≡◌, ◌⊎◌, refl, ◌∙◌, Option, none, some, Bool, true, false, List, ◌∷◌, filter, inl,
  inr, arith, ap, Bool-cases, Option-cases, if◌then◌else◌, truthy,
}
use autotrading.Orders.Row.{Order}
use autotrading.Orders.Repository.{get_order_by_id}
use autotrading.Domain.{OrderKind, status_in}
use autotrading.Worker.Effects.{
  Exn, kis_order_error, exception, Reply, reply, error, Message, process_order_status, Outcome,
  next, stop, raised, World, Action, ◌>>=◌, ◌>>◌, commit, publish_order_update, query, await,
  try_except,
}
use autotrading.Worker.Track.{
  TrackingSnapshot, tracking_targets, terminal_statuses, resolve_retracking_delay,
  is_retryable_tracking_error,
}
use autotrading.Worker.Track.Parent.{apply_cancel, apply_modify, apply_to_original, apply_to_parent}
use autotrading.Worker.Track.Task.{
  TrackEnv, trigger_rebalance_snapshot, cancel_rest, time_out, reschedule, record_snapshot,
  follow_up, look, track, requeue_order_tracking, fail_order, handle_tracking, start_of,
  run_tracking, process_status,
}

abbrev pub is_tracking : Message → Bool
is_tracking (process_order_status i attempt first_tracked_at delay) = true
is_tracking _ = false

-- the messages that ask for a look at an order
abbrev pub looks : World → List Message
looks w = filter is_tracking w.queue

-- an action that sends no such message
abbrev Quiet : {A : Type 0} → Action A → Type 0
Quiet m = (w : World) → looks (m w).1 ≡ looks w

>>=-Quiet :
    {A B : Type 0} (m : Action A) (f : A → Action B)
    → Quiet m
    → ((a : A) → Quiet (f a))
    → Quiet (m >>= f)
>>=-Quiet {A} {B} m f h k w = go (m w) (h w)
  where
    go :
        (p : Outcome A × World)
        → looks p.1 ≡ looks w
        → looks (((λ (v : World). p) >>= f) w).1 ≡ looks w
    go (next a, v) e = k a v ∙ e
    go (stop, v) e = e
    go (raised x, v) e = e

await-Quiet : {A : Type 0} (r : Reply A) → Quiet (await r)
await-Quiet (reply a) w = refl
await-Quiet (error e) w = refl

apply_cancel-Quiet : (o : Order) (i : ℕ) (s : TrackingSnapshot) → Quiet (apply_cancel o i s)
unfolding apply_cancel
apply_cancel-Quiet o i s w = ground arith

apply_modify-Quiet : (o : Order) (i : ℕ) (s : TrackingSnapshot) → Quiet (apply_modify o i s)
unfolding apply_modify
apply_modify-Quiet o i s w = ground arith

apply_to_parent-Quiet :
    (k : OrderKind) (o : Order) (i : ℕ) (s : TrackingSnapshot) → Quiet (apply_to_parent k o i s)
apply_to_parent-Quiet OrderKind.new o i s w = refl
apply_to_parent-Quiet OrderKind.other o i s w = refl
apply_to_parent-Quiet OrderKind.modify o i s w = ground (arith, apply_modify-Quiet o i s w)
apply_to_parent-Quiet OrderKind.cancel o i s w = ground (arith, apply_cancel-Quiet o i s w)

apply_to_original-Quiet :
    (i : Option ℕ) (o : Order) (s : TrackingSnapshot) → Quiet (apply_to_original i o s)
apply_to_original-Quiet none o s w = refl
apply_to_original-Quiet (some i) o s w = apply_to_parent-Quiet o.order_kind o i s w

trigger_rebalance_snapshot-Quiet : (i : Option ℕ) → Quiet (trigger_rebalance_snapshot i)
unfolding trigger_rebalance_snapshot
trigger_rebalance_snapshot-Quiet none w = refl
trigger_rebalance_snapshot-Quiet (some i) w = ground arith

cancel_rest-Quiet : (env : TrackEnv) (o : Order) → Quiet (cancel_rest env o)
unfolding cancel_rest
cancel_rest-Quiet env o w = ground arith

time_out-Quiet : (env : TrackEnv) (o : Order) (s : TrackingSnapshot) → Quiet (time_out env o s)
unfolding time_out cancel_rest trigger_rebalance_snapshot
time_out-Quiet env o s w = ground arith

record_snapshot-Quiet : (o : Order) (s : TrackingSnapshot) → Quiet (record_snapshot o s)
unfolding record_snapshot
record_snapshot-Quiet o s w = ground arith

look-Quiet : (env : TrackEnv) (o : Order) → Quiet (look env o)
unfolding look
look-Quiet env o w = ground arith

fail_order-Quiet : (o : Order) (e : Exn) → Quiet (fail_order o e)
fail_order-Quiet o (kis_order_error e) w = ground arith
fail_order-Quiet o (exception text) w = ground arith

abbrev is_raised : Outcome (Unit {0}) → Bool
is_raised (raised e) = true
is_raised _ = false

-- `attempt` and `started` are those of the delivery, `q` the messages before it.
module _ (env : TrackEnv) (attempt started : ℕ) (q : List Message) where
  -- One message more, with the next number, the same start and the delay that is computed for the look.
  abbrev pub OneMore : World → Type 0
  OneMore v =
      (order_id : ℕ) × (delay : ℕ) × (resolve_retracking_delay attempt (env.now - started)
        ≡ some delay)
      × (looks v ≡ process_order_status order_id (attempt + 1) (some started) delay ∷ q)

  -- Nothing is sent, or one message at the end of a run that does not raise.
  abbrev Sends : Outcome (Unit {0}) × World → Type 0
  Sends p = (looks p.1 ≡ q) ⊎ ((is_raised p.0 ≡ false) × OneMore p.1)

  >>=-Sends :
      {A : Type 0} (m : Action A) (f : A → Action (Unit {0})) (w : World)
      → looks (m w).1 ≡ q
      → ((a : A) (v : World) → looks v ≡ q → Sends (f a v))
      → Sends ((m >>= f) w)
  >>=-Sends {A} m f w h k = go (m w) h
    where
      go : (p : Outcome A × World) → looks p.1 ≡ q → Sends (((λ (v : World). p) >>= f) w)
      go (next a, v) e = k a v e
      go (stop, v) e = inl e
      go (raised x, v) e = inl e

  reschedule-Sends :
      (o : Order) (s : TrackingSnapshot) (v : World) (delay : Option ℕ)
      → resolve_retracking_delay attempt (env.now - started) ≡ delay
      → looks v ≡ q
      → Sends (reschedule env o s attempt started delay v)
  reschedule-Sends o s v none e h = inl (time_out-Quiet env o s v ∙ h)
  reschedule-Sends o s v (some d) e h =
      inr (
        refl,
        (o.id, d, e, ap (λ t. process_order_status o.id (attempt + 1) (some started) d ∷ t) h),
      )

  after_update-Sends :
      (o : Order) (s : TrackingSnapshot) (b : Bool) (v : World)
      → looks v ≡ q
      → Sends (
          (if b
              then trigger_rebalance_snapshot o.rebalance_id
              else reschedule env o s attempt started
                  (resolve_retracking_delay attempt (env.now - started)))
            v)
  after_update-Sends o s true v h = inl (trigger_rebalance_snapshot-Quiet o.rebalance_id v ∙ h)
  after_update-Sends o s false v h = reschedule-Sends o s v _ refl h

  follow_up-Sends :
      (o : Order) (s : TrackingSnapshot) (w : World)
      → looks w ≡ q
      → Sends (follow_up env o s attempt started w)
  unfolding follow_up
  follow_up-Sends o s w h =
      >>=-Sends (apply_to_original o.original_order_id o s)
        (λ u.
          commit
          >> (publish_order_update o.id
              >> (if status_in s.values.next_status terminal_statuses
                  then trigger_rebalance_snapshot o.rebalance_id
                  else reschedule env o s attempt started
                      (resolve_retracking_delay attempt (env.now - started)))))
        w (apply_to_original-Quiet o.original_order_id o s w ∙ h)
        (λ u v e.
          after_update-Sends o s (status_in s.values.next_status terminal_statuses)
            (record v { saved = v.table; published = o.id ∷ v.published }) e)

  track-Sends : (o : Order) (w : World) → looks w ≡ q → Sends (track env o attempt started w)
  unfolding track
  track-Sends o w h = elim (Bool-cases (status_in o.status tracking_targets)) [
    | inr other ↦ rw other (inl h)
    | inl targeted ↦ elim (Bool-cases (truthy o.broker_order_no)) [
      | inr unnumbered ↦ rw (targeted, unnumbered) (inl h)
      | inl numbered ↦
          rw (targeted, numbered)
            (>>=-Sends (look env o) (λ s. record_snapshot o s >>= λ u. followed s) w
              (look-Quiet env o w ∙ h)
              (λ s v e.
                >>=-Sends (record_snapshot o s) (λ u. followed s) v
                  (record_snapshot-Quiet o s v ∙ e)
                  (λ u v' e'.
                    follow_up-Sends (env.synchronize o (get_order_by_id o.id v'.table)) s v' e')))
    ]
  ]
    where
      followed : TrackingSnapshot → Action (Unit {0})
      followed s = query (get_order_by_id o.id) >>= λ row.
          follow_up env (env.synchronize o row) s attempt started

  handle_tracking-Sends :
      (o : Order) (x : Exn) (w : World)
      → looks w ≡ q
      → Sends (handle_tracking env o attempt started x w)
  unfolding handle_tracking requeue_order_tracking
  handle_tracking-Sends o x w h = elim (Bool-cases (is_retryable_tracking_error x)) [
    | inr fatal ↦ rw fatal (inl (fail_order-Quiet o x (record w { table = w.saved }) ∙ h))
    | inl passing ↦ elim (Option-cases (resolve_retracking_delay attempt (env.now - started))) [
      | inl over ↦ rw (passing, over) (inl h)
      | inr (d, goes_on) ↦
          rw (passing, goes_on)
            (inr (
              refl,
              (
                o.id,
                d,
                refl,
                ap (λ t. process_order_status o.id (attempt + 1) (some started) d ∷ t) h,
              ),
            ))
    ]
  ]

  run_tracking-Sends :
      (o : Option Order) (w : World) → looks w ≡ q → Sends (run_tracking env o attempt started w)
  unfolding run_tracking
  run_tracking-Sends none w h = inl h
  run_tracking-Sends (some o) w h = go (track env o attempt started w) (track-Sends o w h)
    where
      go :
          (p : Outcome (Unit {0}) × World)
          → Sends p
          → Sends (try_except (λ v. p) (handle_tracking env o attempt started) w)
      go (next a, v) e = e
      go (stop, v) e = e
      go (raised x, v) (inl e) = handle_tracking-Sends o x v e
      go (raised x, v) (inr (quiet, more)) = absurd (ground (arith, quiet))

-- A delivery asks for no further look, or for one, with the next number and the delay of its own.
pub process_status-OneMore :
    (env : TrackEnv) (i attempt : ℕ) (first_tracked_at : Option ℕ) (w : World)
    → let v = (process_status env i attempt first_tracked_at w).1 in
      (looks v ≡ looks w) ⊎ OneMore env attempt (start_of env.now first_tracked_at) (looks w) v
unfolding process_status
process_status-OneMore env i attempt first_tracked_at w =
    elim (run_tracking-Sends env attempt (start_of env.now first_tracked_at) (looks w)
      (get_order_by_id i w.table) w refl) [ inl e ↦ inl e | inr (calm, more) ↦ inr more ]
