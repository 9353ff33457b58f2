-- ===== src/Snapshot/Capture/Overlaps.antt =====
-- Captures one after another, and captures that overlap
-- (app/services/rebalance/portfolio_snapshot_service.py, app/worker/tasks_snapshot.py).
use autotrading.Prelude.{
  ℕ, ◌≤◌, ◌≡◌, ◌⊎◌, inl, inr, refl, sym, ap, ◌∙◌, Option, none, some, Bool, List, [], ◌∷◌, ◌++◌,
  map, filter, count, ◌==◌, ==_iff, arith, count-append, length-filter, filter-append, filter-none,
  Bool-cases,
}
use autotrading.Worker.Effects.{Exn, Reply, reply, error}
use autotrading.Snapshot.Capture.{
  PortfolioSnapshot, PortfolioSnapshotHolding, Tables, Readings, CaptureEnv, multiple_results_found,
  one_or_none, of_rebalance, get_snapshot_by_rebalance, get_snapshot_id_by_rebalance,
  insert_snapshot, snapshot_of, compose, stored, unless_found, capture, capture_rebalance_snapshot,
  get_rebalance_snapshot,
}
use autotrading.Snapshot.Capture.Stored.{snapshots_of, compose-parts, capture-inserts}

first_found : {A : Type 0} (a : A) (rest : List A) → one_or_none (a ∷ rest) ≡ reply none → ⊥
first_found a [] h = cc
first_found a (b ∷ rest) h = cc

module _ {Z D : Type 0} (readings : Readings Z D) where
  -- whole captures, one after another
  abbrev pub captured : List (CaptureEnv × ℕ) → Tables Z D → Tables Z D
  captured [] db = db
  captured ((env, rebalance_id) ∷ tasks) db =
      captured tasks (capture_rebalance_snapshot readings env (λ t. t) rebalance_id db)

  Reply-cases : {A : Type 0} (r : Reply A) → ((a : A) × (r ≡ reply a)) ⊎ ((e : Exn) × (r ≡ error e))
  Reply-cases (reply a) = inl (a, refl)
  Reply-cases (error e) = inr (e, refl)

  filter-count :
      (p : PortfolioSnapshot Z → Bool) (xs : List (PortfolioSnapshot Z))
      → one_or_none (map (λ s. s.id) (filter p xs)) ≡ reply none
      → count p xs ≡ 0
  filter-count p [] h = refl
  filter-count p (x ∷ xs) h = elim (Bool-cases (p x)) [
    | inl found ↦ absurd (first_found x.id (map (λ s. s.id) (filter p xs)) (rw found at h))
    | inr other ↦ rw other (omega (arith, filter-count p xs (rw other at h)))
  ]

  -- the tables after a task: as they were, or with one snapshot of a rebalance that had none
  task-cases :
      (env : CaptureEnv) (rebalance_id : ℕ) (db : Tables Z D)
      → (capture_rebalance_snapshot readings env (λ t. t) rebalance_id db ≡ db)
        ⊎ ((snapshots_of readings rebalance_id db ≡ 0)
            × ((cash : Z) × (rows : List (PortfolioSnapshotHolding Z D))
                × (capture_rebalance_snapshot readings env (λ t. t) rebalance_id db
                    ≡ insert_snapshot readings
                        (snapshot_of readings env rebalance_id cash)
                        rows
                        db)))
  unfolding capture_rebalance_snapshot capture get_snapshot_id_by_rebalance
  task-cases env rebalance_id db =
      let after =
        λ (look : Reply (Option ℕ))
            (made : Reply (PortfolioSnapshot Z × List (PortfolioSnapshotHolding Z D))).
          (unless_found readings look db (stored readings env made db)).1 in
      let made = compose readings env rebalance_id in
      elim (Reply-cases (get_snapshot_id_by_rebalance readings rebalance_id db)) [
        | inr (e, fails) ↦ inl (ap (λ look. after look made) fails)
        | inl (some j, found) ↦ inl (ap (λ look. after look made) found)
        | inl (none, absent) ↦ elim (Reply-cases (compose readings env rebalance_id)) [
          | inr (e, fails) ↦
              inl (ap (λ look. after look made) absent ∙ ap (after (reply none)) fails)
          | inl ((s, rows), composed) ↦
              let ((cash, same), _) = compose-parts readings env rebalance_id s rows composed in
              let none_yet =
                filter-count (of_rebalance readings rebalance_id) db.snapshots absent in
              inr (
                none_yet,
                (
                  cash,
                  rows,
                  ap (λ r. r.1)
                        (capture-inserts readings rebalance_id env (λ t. t) db s rows none_yet
                          composed)
                      ∙ rw same refl,
                ),
              )
        ]
      ]

  insert-count :
      (env : CaptureEnv) (rebalance_id : ℕ) (db : Tables Z D) (cash : Z)
      (rows : List (PortfolioSnapshotHolding Z D))
      → snapshots_of readings rebalance_id db ≡ 0
      → (i : ℕ) → snapshots_of readings i db ≤ 1
      → snapshots_of readings i
          (insert_snapshot readings (snapshot_of readings env rebalance_id cash) rows db)
        ≤ 1
  unfolding insert_snapshot
  insert-count env rebalance_id db cash rows absent i once =
      let s = snapshot_of readings env rebalance_id cash in
      let both = count-append (of_rebalance readings i) db.snapshots (s ∷ []) in
      elim (Bool-cases (rebalance_id == i)) [
        | inr other ↦ rw both (rw other (omega (arith, once)))
        | inl same ↦
            rw both (rw same (omega (arith, rw ((==_iff rebalance_id i).0 same) at absent)))
      ]

  capture-once :
      (env : CaptureEnv) (rebalance_id : ℕ) (db : Tables Z D)
      → ((i : ℕ) → snapshots_of readings i db ≤ 1)
      → (i : ℕ)
      → snapshots_of readings i (capture_rebalance_snapshot readings env (λ t. t) rebalance_id db)
        ≤ 1
  capture-once env rebalance_id db once i = elim (task-cases env rebalance_id db) [
    | inl same ↦ rw same (once i)
    | inr (absent, (cash, rows, inserts)) ↦
        rw inserts (insert-count env rebalance_id db cash rows absent i (once i))
  ]

-- two snapshots of the rebalance, stored one after the other in tables that had none
module _ {Z D : Type 0} (readings : Readings Z D) (rebalance_id : ℕ) (env env' : CaptureEnv)
    (cash cash' : Z) (rows rows' : List (PortfolioSnapshotHolding Z D)) (db : Tables Z D)
    (absent : snapshots_of readings rebalance_id db ≡ 0) where
  abbrev s : PortfolioSnapshot Z
  s = snapshot_of readings env rebalance_id cash

  abbrev s' : PortfolioSnapshot Z
  s' = snapshot_of readings env' rebalance_id cash'

  abbrev pub two_stored : Tables Z D
  two_stored = insert_snapshot readings s rows (insert_snapshot readings s' rows' db)

  filter-two_stored : filter (of_rebalance readings rebalance_id) two_stored.snapshots ≡ s' ∷ s ∷ []
  unfolding insert_snapshot
  filter-two_stored =
      filter-append (of_rebalance readings rebalance_id) (db.snapshots ++ s' ∷ []) (s ∷ [])
      ∙ rw (filter-append (of_rebalance readings rebalance_id) db.snapshots (s' ∷ []))
          (rw (filter-none (of_rebalance readings rebalance_id) db.snapshots absent) (ground arith))

  count-two_stored : snapshots_of readings rebalance_id two_stored ≡ 2
  count-two_stored =
      sym (length-filter (of_rebalance readings rebalance_id) two_stored.snapshots)
      ∙ rw filter-two_stored refl

  read_two : get_rebalance_snapshot readings rebalance_id two_stored ≡ error multiple_results_found
  unfolding get_rebalance_snapshot get_snapshot_by_rebalance
  read_two = rw filter-two_stored refl

  capture_again :
      (env'' : CaptureEnv) (others : Tables Z D → Tables Z D)
      → capture readings env'' others rebalance_id two_stored
        ≡ (error multiple_results_found, two_stored)
  unfolding capture get_snapshot_id_by_rebalance
  capture_again env'' others = rw filter-two_stored refl

-- Captures one after another, for any rebalances and of any account, that begin with at most one snapshot of each
-- rebalance leave at most one snapshot of each rebalance.
pub captured-once :
    {Z D : Type 0} (readings : Readings Z D) (tasks : List (CaptureEnv × ℕ)) (db : Tables Z D)
    → ((i : ℕ) → snapshots_of readings i db ≤ 1)
    → (i : ℕ) → snapshots_of readings i (captured readings tasks db) ≤ 1
captured-once readings [] db once i = once i
captured-once readings ((env, rebalance_id) ∷ tasks) db once i =
    captured-once readings tasks (capture_rebalance_snapshot readings env (λ t. t) rebalance_id db)
      (capture-once readings env rebalance_id db once) i

-- the tables after a capture `env` in the middle of which another, `env'`, runs from its look to its commit
abbrev pub overlapped :
    {Z D : Type 0} → Readings Z D → CaptureEnv → CaptureEnv → ℕ → Tables Z D → Reply ℕ × Tables Z D
overlapped readings env env' rebalance_id db =
    capture readings env (λ t. (capture readings env' (λ u. u) rebalance_id t).1) rebalance_id db

-- Two captures of a rebalance without a snapshot, of which the second runs between the look and the commit of the
-- first, both of an account whose answers can be read: each stores a snapshot under its own key. In the
-- tables that they leave, a reading of the rebalance's snapshot and any further capture of it fail with
-- MultipleResultsFound, and such a capture changes nothing.
pub overlapping_captures :
    {Z D : Type 0} (readings : Readings Z D) (rebalance_id : ℕ) (env env' : CaptureEnv)
    (db : Tables Z D) (s s' : PortfolioSnapshot Z)
    (rows rows' : List (PortfolioSnapshotHolding Z D))
    → snapshots_of readings rebalance_id db ≡ 0
    → compose readings env rebalance_id ≡ reply (s, rows)
    → compose readings env' rebalance_id ≡ reply (s', rows')
    → let done = overlapped readings env env' rebalance_id db in
      (done.0 ≡ reply env.snapshot_id)
      × ((capture readings env' (λ u. u) rebalance_id db).0 ≡ reply env'.snapshot_id)
      × (snapshots_of readings rebalance_id done.1 ≡ 2)
      × (get_rebalance_snapshot readings rebalance_id done.1 ≡ error multiple_results_found)
      × ((env'' : CaptureEnv) (others : Tables Z D → Tables Z D)
          → capture readings env'' others rebalance_id done.1
            ≡ (error multiple_results_found, done.1))
overlapping_captures readings rebalance_id env env' db s s' rows rows' absent composed composed' =
    let outer =
      capture-inserts readings rebalance_id env
        (λ t. (capture readings env' (λ u. u) rebalance_id t).1) db s rows absent composed in
    let inner = capture-inserts readings rebalance_id env' (λ u. u) db s' rows' absent composed' in
    let ((cash, same), _) = compose-parts readings env rebalance_id s rows composed in
    let ((cash', same'), _) = compose-parts readings env' rebalance_id s' rows' composed' in
    rw outer (
      rw inner (
        rw same (
          rw same' (
            refl,
            refl,
            count-two_stored readings rebalance_id env env' cash cash' rows rows' db absent,
            read_two readings rebalance_id env env' cash cash' rows rows' db absent,
            capture_again readings rebalance_id env env' cash cash' rows rows' db absent,
          ))))
