-- ===== src/Worker/Track/Unaided.antt =====
-- app/worker/tasks_order_status.py: a delivery to worker 2 leaves the rows of the other orders as they
-- are, the original of a cancel or modify order among them.
use autotrading.Prelude.{
  subst, ℕ, ◌-◌, ◌≡◌, ◌≢◌, inl, inr, refl, sym, ◌∙◌, Option, none, some, Bool, true, false, ◌∷◌,
  filter, arith, Bool-cases, truthy, if◌then◌else◌,
}
use autotrading.Domain.{status_in, can_transition}
use autotrading.Orders.Row.{Order}
use autotrading.Orders.Repository.{get_order_by_id}
use autotrading.Orders.Updates.{UniqueIds, get_order_by_id-id}
use autotrading.Orders.Statements.{
  tracked, update_order_tracking_result-count, get_order_by_id-update_order_tracking_result,
}
use autotrading.Worker.Effects.{
  World, next, Action, ◌>>=◌, ◌>>◌, pure, query, unless_return, commit, publish_order_update,
}
use autotrading.Worker.Rules.{>>=-world, try_except-world}
use autotrading.Worker.Track.{
  TrackingSnapshot, tracking_targets, terminal_statuses, resolve_retracking_delay,
}
use autotrading.Worker.Track.Parent.{apply_to_original}
use autotrading.Worker.Track.Task.{
  TrackEnv, reschedule, record_snapshot, follow_up, look, track, trigger_rebalance_snapshot,
  handle_tracking, run_tracking, process_status, start_of,
}
use autotrading.Worker.Track.Originals.{
  Holds, apply_to_original-world, record_snapshot-Holds, trigger-Holds, time_out-Holds,
  handle-Holds, Reply-cases,
}

-- If the update was made, the row is that of the snapshot.
record_snapshot-row :
    (o : Order) (s : TrackingSnapshot) (w : World)
    → UniqueIds w.table
    → get_order_by_id o.id w.table ≡ some o
    → (record_snapshot o s w).0 ≡ next tt
    → get_order_by_id o.id (record_snapshot o s w).1.table ≡ some (tracked o s.values)
unfolding record_snapshot
record_snapshot-row o s w u found ok =
    let es = filter (can_transition o.status) tracking_targets in
    ground (
      arith,
      update_order_tracking_result-count o.id es s.values w.table u,
      get_order_by_id-update_order_tracking_result o.id es s.values w.table o.id,
      found,
    )

-- what follows step 8
abbrev follow_tail : TrackEnv → Order → TrackingSnapshot → ℕ → ℕ → Action (Unit {0})
follow_tail env o s a f = do
  commit
  publish_order_update o.id
  if status_in s.values.next_status terminal_statuses
      then trigger_rebalance_snapshot o.rebalance_id
      else reschedule env o s a f (resolve_retracking_delay a (env.now - f))

module _ (env : TrackEnv) (p : ℕ) (r : Order) where
  reschedule-Holds :
      (o : Order) (s : TrackingSnapshot) (a f : ℕ) (d : Option ℕ) (v : World)
      → p ≢ o.id
      → Holds p r v
      → Holds p r (reschedule env o s a f d v).1
  reschedule-Holds o s a f none v ne h = time_out-Holds env o p r ne s v h
  reschedule-Holds o s a f (some d) v ne h = h

  applied :
      (k : Option ℕ) (o : Order) (s : TrackingSnapshot) (v : World)
      → o.filled_qty ≡ s.values.filled_qty
      → (apply_to_original k o s v).1 ≡ v
  applied none o s v same = refl
  applied (some k) o s v same = apply_to_original-world o.order_kind o k s v same

  tail-Holds :
      (o : Order) (s : TrackingSnapshot) (a f : ℕ) (v : World)
      → p ≢ o.id
      → Holds p r v
      → Holds p r (follow_tail env o s a f v).1
  tail-Holds o s a f v ne h =
      let x = record v { saved = v.table; published = o.id ∷ v.published } in
      elim (Bool-cases (status_in s.values.next_status terminal_statuses)) [
        | inl e ↦ rw e (trigger-Holds env o p r ne o.rebalance_id x (h.0, h.0))
        | inr e ↦
            rw e
              (reschedule-Holds o s a f (resolve_retracking_delay a (env.now - f)) x ne (h.0, h.0))
      ]

  follow_up-Holds :
      (o : Order) (s : TrackingSnapshot) (a f : ℕ) (v : World)
      → p ≢ o.id
      → o.filled_qty ≡ s.values.filled_qty
      → Holds p r v
      → Holds p r (follow_up env o s a f v).1
  unfolding follow_up
  follow_up-Holds o s a f v ne same h =
      >>=-world (Holds p r) (apply_to_original o.original_order_id o s)
        (λ _. follow_tail env o s a f) v
        (subst (Holds p r) (sym (applied o.original_order_id o s v same)) h)
        λ _ _.
          tail-Holds o s a f (apply_to_original o.original_order_id o s v).1 ne
            (subst (Holds p r) (sym (applied o.original_order_id o s v same)) h)

look-world : (env : TrackEnv) (o : Order) (w : World) → (look env o w).1 ≡ w
unfolding look
look-world env o w = elim (Reply-cases env.access_token) [
  | inr (e, refused) ↦ rw refused refl
  | inl (token, given) ↦ elim (Reply-cases (env.executions o)) [
    | inr (e, refused) ↦ rw (given, refused) refl
    | inl (rows, told) ↦ rw (given, told) refl
  ]
]

unless_return-world :
    (P : World → Type 0) (b : Bool) (k : Action (Unit {0})) (w : World)
    → P w
    → P (k w).1
    → P ((unless_return b (pure tt) >> k) w).1
unless_return-world P true k w h rest = rest
unless_return-world P false k w h rest = h

-- The state of affairs in which a message is delivered while the row of another order is `r`.
module _ (env : TrackEnv) (o : Order) (p : ℕ) (r : Order) (w : World) (ne : p ≢ o.id)
    (unique : UniqueIds w.table) (found : get_order_by_id o.id w.table ≡ some o)
    (synchronized : (held row : Order) → env.synchronize held (some row) ≡ row)
    (holds : Holds p r w) where
  recorded-Holds :
      (s : TrackingSnapshot) (a f : ℕ)
      → Holds p r (record_snapshot o s w).1
      → (record_snapshot o s w).0 ≡ next tt
      → let v = (record_snapshot o s w).1 in
        Holds p r (follow_up env (env.synchronize o (get_order_by_id o.id v.table)) s a f v).1
  recorded-Holds s a f kept ok =
      let v = (record_snapshot o s w).1 in
      rw (record_snapshot-row o s w unique found ok, synchronized o (tracked o s.values))
        (follow_up-Holds env p r (tracked o s.values) s a f v ne refl kept)

  seen-Holds :
      (s : TrackingSnapshot) (a f : ℕ)
      → Holds p r
          ((record_snapshot o s >>= λ _.
              (query (get_order_by_id o.id) >>= λ row. follow_up env (env.synchronize o row) s a f))
            w).1
  seen-Holds s a f =
      let kept = record_snapshot-Holds env o p r ne s w holds in
      >>=-world (Holds p r) (record_snapshot o s)
        (λ _. (query (get_order_by_id o.id) >>= λ row. follow_up env (env.synchronize o row) s a f))
        w kept λ _ ok. recorded-Holds s a f kept ok

  abbrev onwards : ℕ → ℕ → TrackingSnapshot → Action (Unit {0})
  onwards a f s = record_snapshot o s >>= λ _.
      (query (get_order_by_id o.id) >>= λ row. follow_up env (env.synchronize o row) s a f)

  abbrev seen : ℕ → ℕ → Action (Unit {0})
  seen a f = look env o >>= onwards a f

  abbrev if_sent : ℕ → ℕ → Action (Unit {0})
  if_sent a f = unless_return (truthy o.broker_order_no) (pure tt) >> seen a f

  same : (look env o w).1 ≡ w
  same = look-world env o w

  track-Holds : (a f : ℕ) → Holds p r (track env o a f w).1
  unfolding track
  track-Holds a f =
      unless_return-world (Holds p r) (status_in o.status tracking_targets) (if_sent a f) w holds (
        unless_return-world (Holds p r) (truthy o.broker_order_no) (seen a f) w holds (
          >>=-world (Holds p r) (look env o) (onwards a f) w (subst (Holds p r) (sym same) holds)
            λ s _. subst (λ v. Holds p r (onwards a f s v).1) (sym same) (seen-Holds s a f)))

  run_tracking-Holds : (a f : ℕ) → Holds p r (run_tracking env (some o) a f w).1
  unfolding run_tracking
  run_tracking-Holds a f =
      try_except-world (Holds p r) (track env o a f) (handle_tracking env o a f) w (track-Holds a f)
        λ e _. handle-Holds env o p r ne a f e (track env o a f w).1 (track-Holds a f)

-- In a table without equal ids, and with an ORM that carries an UPDATE over into the loaded
-- object, a delivery to worker 2 for one order keeps the row of every other order, its original
-- among them, as it is in the session and in the database.
pub tracking_spares_others :
    (env : TrackEnv) (i a : ℕ) (first : Option ℕ) (p : ℕ) (r o : Order) (w : World)
    → p ≢ i
    → UniqueIds w.table
    → ((held row : Order) → env.synchronize held (some row) ≡ row)
    → get_order_by_id i w.table ≡ some o
    → get_order_by_id p w.table ≡ some r
    → get_order_by_id p w.saved ≡ some r
    → (get_order_by_id p (process_status env i a first w).1.table ≡ some r)
      × (get_order_by_id p (process_status env i a first w).1.saved ≡ some r)
unfolding process_status
tracking_spares_others env i a first p r o w ne unique synchronized found here there =
    let own : o.id ≡ i = get_order_by_id-id i w.table o found in
    let row = subst (λ k. get_order_by_id k w.table ≡ some o) (sym own) found in
    rw found (
      run_tracking-Holds env o p r w (λ e. ne (e ∙ own)) unique row synchronized (here, there) a
        (start_of env.now first))
