-- ===== src/Snapshot/Capture/Stored.antt =====
-- A snapshot is stored once, and read as it was stored
-- (app/services/rebalance/portfolio_snapshot_service.py).
use autotrading.Prelude.{
  ℕ, ◌+◌, ◌≡◌, refl, sym, ap, ◌∙◌, none, some, Bool, true, List, [], ◌∷◌, map, filter, all, count,
  ◌==◌, arith, count-map, filter-append, filter-none, filter-all,
}
use autotrading.Worker.Effects.{reply}
use autotrading.Snapshot.Account.{
  >>=-eq-reply, reply_injective, HoldingRead, get_holding_list, get_account_summary,
}
use autotrading.Snapshot.Capture.{
  PortfolioSnapshot, PortfolioSnapshotHolding, Tables, Readings, CaptureEnv,
  RebalanceSnapshotResponse, SnapshotHoldingResponse, of_rebalance, get_snapshot_by_rebalance,
  get_snapshot_id_by_rebalance, get_snapshot_holdings, insert_snapshot, read_int, entities,
  snapshot_of, compose, capture, shown, get_rebalance_snapshot,
}

module _ {Z D : Type 0} (readings : Readings Z D) (env : CaptureEnv) where
  abbrev pub is_new : PortfolioSnapshotHolding Z D → Bool
  is_new h = h.snapshot_id == env.snapshot_id

  entities-new :
      (n : ℕ) (raw : List HoldingRead) (rows : List (PortfolioSnapshotHolding Z D))
      → entities readings env n raw ≡ reply rows
      → all is_new rows ≡ true
  unfolding entities
  entities-new n [] rows done = ground (arith, done)
  entities-new n (h ∷ raw) rows done =
      let (qty, read, then_rest) = >>=-eq-reply (read_int readings h.holding_qty) _ done in
      let (rest, read_rest, composed) =
        >>=-eq-reply (entities readings env (n + 1) raw) _ then_rest in
      ground (arith, composed, entities-new (n + 1) raw rest read_rest)

  pub compose-parts :
      (rebalance_id : ℕ) (s : PortfolioSnapshot Z) (rows : List (PortfolioSnapshotHolding Z D))
      → compose readings env rebalance_id ≡ reply (s, rows)
      → ((cash : Z) × (s ≡ snapshot_of readings env rebalance_id cash)) × (all is_new rows ≡ true)
  unfolding compose
  compose-parts rebalance_id s rows done =
      let (raw, read, done') = >>=-eq-reply (get_holding_list env.holdings_call) _ done in
      let (summary, read', done'') = >>=-eq-reply (get_account_summary env.summary_call) _ done' in
      let (cash, read'', done''') =
        >>=-eq-reply (read_int readings summary.settlement_cash_amount) _ done'' in
      let (rows', composed, same_rows) = >>=-eq-reply (entities readings env 0 raw) _ done''' in
      let same = reply_injective same_rows in
      (
        (cash, sym (ap (λ p. p.0) same)),
        rw (sym (ap (λ p. p.1) same)) (entities-new 0 raw rows' composed),
      )

-- the snapshots of one rebalance in the tables
abbrev pub snapshots_of : {Z D : Type 0} → Readings Z D → ℕ → Tables Z D → ℕ
snapshots_of readings rebalance_id db = count (of_rebalance readings rebalance_id) db.snapshots

-- the answer to a reading of what a capture stored, with its rows
abbrev pub answer :
    {Z D : Type 0}
    → ℕ
    → CaptureEnv
    → Z
    → List (SnapshotHoldingResponse Z D)
    → RebalanceSnapshotResponse Z D
answer rebalance_id env cash holdings = record {
  snapshot_id = env.snapshot_id;
  snapshot_at = env.now;
  snapshot_type = "REBALANCE";
  rebalance_id = some rebalance_id;
  cash_amount = some cash;
  holdings = holdings;
}

module _ {Z D : Type 0} (readings : Readings Z D) (rebalance_id : ℕ) where
  -- a look at tables that have none of the rebalance's snapshots
  get_snapshot_id_by_rebalance-none :
      (db : Tables Z D)
      → snapshots_of readings rebalance_id db ≡ 0
      → get_snapshot_id_by_rebalance readings rebalance_id db ≡ reply none
  unfolding get_snapshot_id_by_rebalance
  get_snapshot_id_by_rebalance-none db absent =
      rw (filter-none (of_rebalance readings rebalance_id) db.snapshots absent) refl

  -- what a capture has inserted
  module _ (env : CaptureEnv) (cash : Z) (rows : List (PortfolioSnapshotHolding Z D))
      (db : Tables Z D) (absent : snapshots_of readings rebalance_id db ≡ 0) where
    abbrev s : PortfolioSnapshot Z
    s = snapshot_of readings env rebalance_id cash

    abbrev db' : Tables Z D
    db' = insert_snapshot readings s rows db

    filter-insert : filter (of_rebalance readings rebalance_id) db'.snapshots ≡ s ∷ []
    unfolding insert_snapshot
    filter-insert =
        filter-append (of_rebalance readings rebalance_id) db.snapshots (s ∷ [])
        ∙ rw (filter-none (of_rebalance readings rebalance_id) db.snapshots absent) (ground arith)

    id-inserted :
        get_snapshot_id_by_rebalance readings rebalance_id db' ≡ reply (some env.snapshot_id)
    unfolding get_snapshot_id_by_rebalance
    id-inserted = rw filter-insert refl

    holdings-inserted :
        count (is_new readings env) db.holdings ≡ 0
        → all (is_new readings env) rows ≡ true
        → filter (is_new readings env) db'.holdings ≡ rows
    unfolding insert_snapshot
    holdings-inserted fresh new =
        filter-append (is_new readings env) db.holdings rows
        ∙ rw (filter-none (is_new readings env) db.holdings fresh)
            (filter-all (is_new readings env) rows new)

    response-inserted :
        count (is_new readings env) db.holdings ≡ 0
        → all (is_new readings env) rows ≡ true
        → (holdings : List (SnapshotHoldingResponse Z D)) × (get_rebalance_snapshot readings
              rebalance_id db'
            ≡ reply (some (answer rebalance_id env cash holdings)))
          × ((test : SnapshotHoldingResponse Z D → Bool)
              → count test holdings ≡ count test (map (shown readings) rows))
    unfolding get_rebalance_snapshot get_snapshot_by_rebalance get_snapshot_holdings
    response-inserted fresh new = (
      map (shown readings) (readings.order_by_code rows),
      rw filter-insert refl
          ∙ ap
              (λ found. reply (
                some (
                  answer rebalance_id env cash
                    (map (shown readings) (readings.order_by_code found)))))
              (holdings-inserted fresh new),
      λ test.
          count-map test (shown readings) (readings.order_by_code rows)
          ∙ readings.count-order_by_code rows (λ h. test (shown readings h))
          ∙ sym (count-map test (shown readings) rows),
    )

  -- a capture while others work: its look finds none, and what it composes is inserted into the tables that it
  -- meets
  pub capture-inserts :
      (env : CaptureEnv) (others : Tables Z D → Tables Z D) (db : Tables Z D)
      (s : PortfolioSnapshot Z) (rows : List (PortfolioSnapshotHolding Z D))
      → snapshots_of readings rebalance_id db ≡ 0
      → compose readings env rebalance_id ≡ reply (s, rows)
      → capture readings env others rebalance_id db
        ≡ (reply env.snapshot_id, insert_snapshot readings s rows (others db))
  unfolding capture
  capture-inserts env others db s rows absent composed =
      rw (get_snapshot_id_by_rebalance-none db absent) (rw composed refl)

  -- a capture that finds a snapshot answers its key
  capture-found :
      (env : CaptureEnv) (others : Tables Z D → Tables Z D) (db : Tables Z D) (i : ℕ)
      → get_snapshot_id_by_rebalance readings rebalance_id db ≡ reply (some i)
      → capture readings env others rebalance_id db ≡ (reply i, db)
  unfolding capture
  capture-found env others db i found = rw found refl

-- A capture for a rebalance of which the tables hold no snapshot, neither when it looks nor when it commits, with a
-- new key and an account whose answers can be read, stores one. A reading of the rebalance then gives the
-- capture's key, time and cash, and each row that was composed from the account's holdings as often as it was
-- composed; and another capture of the rebalance, whatever others do and the account answers, gives the same
-- key and changes nothing.
pub capture-get_rebalance_snapshot :
    {Z D : Type 0} (readings : Readings Z D) (rebalance_id : ℕ) (env : CaptureEnv)
    (others : Tables Z D → Tables Z D) (db : Tables Z D) (cash : Z)
    (rows : List (PortfolioSnapshotHolding Z D))
    → snapshots_of readings rebalance_id db ≡ 0
    → snapshots_of readings rebalance_id (others db) ≡ 0
    → count (is_new readings env) (others db).holdings ≡ 0
    → compose readings env rebalance_id ≡ reply (snapshot_of readings env rebalance_id cash, rows)
    → let done = capture readings env others rebalance_id db in
      (done.0 ≡ reply env.snapshot_id)
      × ((holdings : List (SnapshotHoldingResponse Z D)) × (get_rebalance_snapshot readings
              rebalance_id done.1
            ≡ reply (some (answer rebalance_id env cash holdings)))
          × ((test : SnapshotHoldingResponse Z D → Bool)
              → count test holdings ≡ count test (map (shown readings) rows)))
      × ((env' : CaptureEnv) (others' : Tables Z D → Tables Z D)
          → capture readings env' others' rebalance_id done.1 ≡ (reply env.snapshot_id, done.1))
capture-get_rebalance_snapshot readings rebalance_id env others db cash rows absent absent' fresh
      composed =
    let s = snapshot_of readings env rebalance_id cash in
    let inserts = capture-inserts readings rebalance_id env others db s rows absent composed in
    let new = (compose-parts readings env rebalance_id s rows composed).1 in
    rw inserts (
      refl,
      response-inserted readings rebalance_id env cash rows (others db) absent' fresh new,
      λ env' others'.
          capture-found readings rebalance_id env' others'
            (insert_snapshot readings s rows (others db)) env.snapshot_id
            (id-inserted readings rebalance_id env cash rows (others db) absent'),
    )
