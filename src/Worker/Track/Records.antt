-- ===== src/Worker/Track/Records.antt =====
-- app/worker/tasks_order_status.py: what a delivery to worker 2 records of an order by itself.
use autotrading.Prelude.{
  ℕ, ◌+◌, ◌-◌, ◌≡◌, refl, ◌∙◌, ap, String, Option, none, some, true, false, ◌&&◌, ◌∷◌, filter,
  arith, truthy,
}
use autotrading.Domain.{OrderStatus, status_in, can_transition}
use autotrading.Orders.Row.{Order}
use autotrading.Orders.Repository.{
  Table, TrackingResult, get_order_by_id, update_order_tracking_result, exists_child_orders,
}
use autotrading.Orders.Updates.{UniqueIds}
use autotrading.Orders.Statements.{
  tracked, update_order_tracking_result-count, get_order_by_id-update_order_tracking_result,
}
use autotrading.Worker.Effects.{
  reply, World, Outcome, next, process_order_status, Action, query, try_except, ◌>>=◌,
}
use autotrading.Worker.Rules.{>>=-next}
use autotrading.Worker.Track.{
  Executions, TrackingSnapshot, tracking_targets, terminal_statuses, is_new,
  extract_order_tracking_snapshot, resolve_retracking_delay,
}
use autotrading.Worker.Track.Task.{
  TrackEnv, record_snapshot, follow_up, look, track, run_tracking, process_status, start_of,
  trigger_rebalance_snapshot, handle_tracking,
}

-- A status that is tracked may stay what it is, so it is among those that the update expects.
expects_itself :
    (s : OrderStatus)
    → status_in s tracking_targets ≡ true
    → status_in s (filter (can_transition s) tracking_targets) ≡ true
unfolding can_transition
expects_itself s h = ground (arith, h)

abbrev updated : Order → TrackingResult → World → Table
updated o x w =
    (update_order_tracking_result o.id (filter (can_transition o.status) tracking_targets) x
      w.table).0

module _ (o : Order) (x : TrackingResult) (w : World) (unique : UniqueIds w.table)
    (found : get_order_by_id o.id w.table ≡ some o)
    (targeted : status_in o.status tracking_targets ≡ true) where
  update-counted :
      (update_order_tracking_result o.id
        (filter (can_transition o.status) tracking_targets)
        x
        w.table).1
      ≡ true
  update-counted = ground (
    arith,
    update_order_tracking_result-count o.id (filter (can_transition o.status) tracking_targets) x
        w.table unique,
    found,
    expects_itself o.status targeted,
  )

  updated_row : get_order_by_id o.id (updated o x w) ≡ some (tracked o x)
  updated_row = ground (
    arith,
    get_order_by_id-update_order_tracking_result o.id
        (filter (can_transition o.status) tracking_targets) x w.table o.id,
    found,
    expects_itself o.status targeted,
  )

record_snapshot_lem :
    (o : Order) (s : TrackingSnapshot) (w : World)
    → UniqueIds w.table
    → get_order_by_id o.id w.table ≡ some o
    → status_in o.status tracking_targets ≡ true
    → can_transition o.status s.values.next_status ≡ true
    → record_snapshot o s w
      ≡ (next tt, record w { table = updated o s.values w; saved = updated o s.values w })
unfolding record_snapshot
record_snapshot_lem o s w unique found targeted allowed =
    rw (allowed, update-counted o s.values w unique found targeted) refl

-- What follows the update, for an order that names no other.
module _ (env : TrackEnv) (q : Order) (s : TrackingSnapshot) (attempt started : ℕ) (v : World)
    (original : q.original_order_id ≡ none) where
  follow_up-goes_on :
      (d : ℕ)
      → status_in s.values.next_status terminal_statuses ≡ false
      → resolve_retracking_delay attempt (env.now - started) ≡ some d
      → follow_up env q s attempt started v ≡ (
        next tt,
        record v {
          saved = v.table;
          published = q.id ∷ v.published;
          queue = process_order_status q.id (attempt + 1) (some started) d ∷ v.queue;
        },
      )
  unfolding follow_up
  follow_up-goes_on d ongoing delay = ground (arith, original, ongoing, delay)

  follow_up-ends :
      status_in s.values.next_status terminal_statuses ≡ true
      → q.rebalance_id ≡ none
      → follow_up env q s attempt started v
        ≡ (next tt, record v { saved = v.table; published = q.id ∷ v.published })
  unfolding follow_up trigger_rebalance_snapshot
  follow_up-ends ended alone = ground (arith, original, ended, alone)

-- A new order that the broker has is looked at, and the broker answers.
module _ (env : TrackEnv) (attempt : ℕ) (first_tracked_at : Option ℕ) (o : Order) (w : World)
    (token : String) (answer : Executions) (unique : UniqueIds w.table)
    (found : get_order_by_id o.id w.table ≡ some o)
    (targeted : status_in o.status tracking_targets ≡ true)
    (numbered : truthy o.broker_order_no ≡ true) (original : o.original_order_id ≡ none)
    (given : env.access_token ≡ reply token) (told : env.executions o ≡ reply answer)
    (synchronized : (held row : Order) → env.synchronize held (some row) ≡ row) where
  abbrev seen : TrackingSnapshot
  seen =
      extract_order_tracking_snapshot o answer
        (is_new o.order_kind && exists_child_orders o.id w.table)

  look_lem : look env o w ≡ (next seen, w)
  unfolding look
  look_lem = rw (given, told) refl

  abbrev recorded_world : World
  recorded_world = record w { table = updated o seen.values w; saved = updated o seen.values w }

  abbrev finish : TrackingSnapshot → Action (Unit {0})
  finish s = query (get_order_by_id o.id) >>= λ row.
      follow_up env (env.synchronize o row) s attempt (start_of env.now first_tracked_at)

  abbrev onward : TrackingSnapshot → Action (Unit {0})
  onward s = record_snapshot o s >>= λ _. finish s

  -- the delivery, once the snapshot was recorded
  track_lem :
      can_transition o.status seen.values.next_status ≡ true
      → track env o attempt (start_of env.now first_tracked_at) w
        ≡ follow_up env
            (tracked o seen.values)
            seen
            attempt
            (start_of env.now first_tracked_at)
            recorded_world
  unfolding track
  track_lem allowed =
      rw (targeted, numbered)
        (>>=-next (look env o) onward w w seen look_lem
          ∙ >>=-next (record_snapshot o seen) (λ _. finish seen) w recorded_world tt
              (record_snapshot_lem o seen w unique found targeted allowed)
          ∙ rw
              (
                updated_row o seen.values w unique found targeted,
                synchronized o (tracked o seen.values),
              )
              refl)

  process_lem :
      (v : World)
      → track env o attempt (start_of env.now first_tracked_at) w ≡ (next tt, v)
      → process_status env o.id attempt first_tracked_at w ≡ (next tt, v)
  unfolding process_status run_tracking
  process_lem v h = rw found (
      ap
        (λ (p : Outcome (Unit {0}) × World).
          try_except (λ (x : World). p)
            (handle_tracking env o attempt (start_of env.now first_tracked_at)) w)
        h)

  -- For a tracked order with a number at the broker and no original, in a table without equal ids,
  -- with an ORM that carries an UPDATE over into the loaded object: if the broker answers, and the
  -- status read from the answer may follow and ends nothing, a delivery before the time limit
  -- commits what was read, publishes the order, and queues one more message for the next look,
  -- with the next number, the same start and the computed delay.
  pub tracking_goes_on :
      (d : ℕ)
      → can_transition o.status seen.values.next_status ≡ true
      → status_in seen.values.next_status terminal_statuses ≡ false
      → resolve_retracking_delay attempt (env.now - start_of env.now first_tracked_at) ≡ some d
      → let after = (process_status env o.id attempt first_tracked_at w).1 in
        (get_order_by_id o.id after.saved ≡ some (tracked o seen.values))
        × (after.published ≡ o.id ∷ w.published)
        × (after.queue
            ≡ process_order_status o.id (attempt + 1) (some (start_of env.now first_tracked_at)) d
              ∷ w.queue)
  tracking_goes_on d allowed ongoing delay =
      rw
        (process_lem _ (
          track_lem allowed
          ∙ follow_up-goes_on env (tracked o seen.values) seen attempt
              (start_of env.now first_tracked_at) recorded_world original d ongoing delay))
        (updated_row o seen.values w unique found targeted, refl, refl)

  -- For a tracked order with a number at the broker and no original, in a table without equal ids,
  -- with an ORM that carries an UPDATE over into the loaded object: if the broker answers, and the
  -- status read from the answer may follow and ends an order that belongs to no rebalance, a
  -- delivery commits what was read, publishes the order, and queues no more messages.
  pub tracking_ends :
      can_transition o.status seen.values.next_status ≡ true
      → status_in seen.values.next_status terminal_statuses ≡ true
      → o.rebalance_id ≡ none
      → let after = (process_status env o.id attempt first_tracked_at w).1 in
        (get_order_by_id o.id after.saved ≡ some (tracked o seen.values))
        × (after.published ≡ o.id ∷ w.published)
        × (after.queue ≡ w.queue)
  tracking_ends allowed ended alone =
      rw
        (process_lem _ (
          track_lem allowed
          ∙ follow_up-ends env (tracked o seen.values) seen attempt
              (start_of env.now first_tracked_at) recorded_world original ended alone))
        (updated_row o seen.values w unique found targeted, refl, refl)
