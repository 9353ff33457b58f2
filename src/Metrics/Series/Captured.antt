-- ===== src/Metrics/Series/Captured.antt =====
-- Two rebalances on one day, captured, leave no equity series
-- (app/strategy/metrics/adapters.py, app/services/rebalance/portfolio_snapshot_service.py).
use autotrading.Prelude.{
  ℕ, ◌≤◌, ◌≡◌, refl, sym, ◌∙◌, String, Bool, true, false, ◌&&◌, List, [], ◌∷◌, ◌++◌, count, leb,
  ◌==◌, ==_iff, codes, codes_eq, codes_eq_refl, arith, count-append,
}
use autotrading.Worker.Effects.{Exn, reply, error}
use autotrading.Snapshot.Capture.{
  PortfolioSnapshot, PortfolioSnapshotHolding, Tables, Readings, CaptureEnv, kst_date, snapshot_of,
  compose, capture, insert_snapshot, of_rebalance,
}
use autotrading.Snapshot.Capture.Stored.{snapshots_of, compose-parts, capture-inserts}
use autotrading.Metrics.Equity.{Frames, IsDocumented}
use autotrading.Metrics.Series.{
  RowOrders, Market, resolve_trading_date, in_period, build_equity_series,
}
use autotrading.Metrics.Series.Twice.{build_equity_series-twice}

two_counted :
    {A : Type 0} (test : A → Bool) (xs : List A) (a b : A)
    → test a ≡ true
    → test b ≡ true
    → 2 ≤ count test ((xs ++ a ∷ []) ++ b ∷ [])
two_counted test xs a b at_a at_b =
    let outer = count-append test (xs ++ a ∷ []) (b ∷ []) in
    let inner = count-append test xs (a ∷ []) in
    rw outer (rw inner (rw at_a (rw at_b (omega arith))))

and_true : {a b : Bool} → a ≡ true → b ≡ true → (a && b) ≡ true
and_true left right = rw left right

codes_eq_of : (a b : String) → a ≡ b → codes_eq (codes a) (codes b) ≡ true
codes_eq_of a b same = rw same (codes_eq_refl (codes b))

within_period :
    (start_date as_of day d : ℕ)
    → d ≡ day
    → start_date ≤ day
    → day ≤ as_of
    → (leb start_date d && leb d as_of) ≡ true
within_period start_date as_of day d on_day from upto = ground (arith, on_day, from, upto)

-- a snapshot that is captured counts in a period around its day
captured-counts :
    {Z D : Type 0} (readings : Readings Z D) (env : CaptureEnv) (rebalance_id : ℕ) (cash : Z)
    (account_no account_product_code : String) (start_date as_of day : ℕ)
    → env.account_no ≡ account_no
    → env.account_product_code ≡ account_product_code
    → kst_date env.now ≡ day
    → start_date ≤ day
    → day ≤ as_of
    → (in_period account_no account_product_code start_date as_of
          (snapshot_of readings env rebalance_id cash)
        && (day == resolve_trading_date (snapshot_of readings env rebalance_id cash)))
      ≡ true
captured-counts readings env rebalance_id cash account_no account_product_code start_date as_of day
      same_account same_product on_day from upto =
    and_true
      (and_true
        (and_true
          (and_true (codes_eq_of env.account_no account_no same_account)
            (codes_eq_of env.account_product_code account_product_code same_product))
          (codes_eq_of "REBALANCE" "REBALANCE" refl))
        (within_period start_date as_of day (kst_date env.now) on_day from upto))
      ((==_iff day (kst_date env.now)).1 (sym on_day))

-- another rebalance still has no snapshot
absent-insert_snapshot :
    {Z D : Type 0} (readings : Readings Z D) (env : CaptureEnv) (rebalance_id rebalance_id' : ℕ)
    (cash : Z) (rows : List (PortfolioSnapshotHolding Z D)) (db : Tables Z D)
    → (rebalance_id == rebalance_id') ≡ false
    → snapshots_of readings rebalance_id' db ≡ 0
    → snapshots_of readings rebalance_id'
        (insert_snapshot readings (snapshot_of readings env rebalance_id cash) rows db)
      ≡ 0
unfolding insert_snapshot
absent-insert_snapshot readings env rebalance_id rebalance_id' cash rows db apart absent =
    count-append (of_rebalance readings rebalance_id') db.snapshots
      (snapshot_of readings env rebalance_id cash ∷ [])
    ∙ rw absent (rw apart (omega arith))

-- Two rebalances of which no snapshot is stored, captured one after the other on one day of Seoul, for the account of
-- a period around that day, with answers that can be read: out of the tables that this leaves, no equity
-- series of the account is built for that period, but an exception is raised, since two snapshots have one day.
pub captures-build_equity_series :
    {N Z D : Type 0} (readings : Readings Z D) (frames : Frames N Z)
    (documented : IsDocumented frames) (orders : RowOrders Z D) (market : Market N)
    (account_no account_product_code : String) (start_date as_of day : ℕ) (env env' : CaptureEnv)
    (rebalance_id rebalance_id' : ℕ) (db : Tables Z D) (s s' : PortfolioSnapshot Z)
    (rows rows' : List (PortfolioSnapshotHolding Z D))
    → (rebalance_id == rebalance_id') ≡ false
    → snapshots_of readings rebalance_id db ≡ 0
    → snapshots_of readings rebalance_id' db ≡ 0
    → compose readings env rebalance_id ≡ reply (s, rows)
    → compose readings env' rebalance_id' ≡ reply (s', rows')
    → (env.account_no ≡ account_no) × (env'.account_no ≡ account_no)
    → (env.account_product_code ≡ account_product_code)
      × (env'.account_product_code ≡ account_product_code)
    → (kst_date env.now ≡ day) × (kst_date env'.now ≡ day)
    → start_date ≤ day
    → day ≤ as_of
    → let first = (capture readings env (λ t. t) rebalance_id db).1 in
      let second = (capture readings env' (λ t. t) rebalance_id' first).1 in
      (e : Exn) × (build_equity_series frames orders market account_no account_product_code
          start_date as_of second
        ≡ error e)
unfolding insert_snapshot
captures-build_equity_series readings frames documented orders market account_no
      account_product_code start_date as_of day env env' rebalance_id rebalance_id' db s s' rows
      rows' apart absent absent' composed composed' accounts products days from upto =
    let ((cash, same), _) = compose-parts readings env rebalance_id s rows composed in
    let ((cash', same'), _) = compose-parts readings env' rebalance_id' s' rows' composed' in
    let first = insert_snapshot readings (snapshot_of readings env rebalance_id cash) rows db in
    let stored = capture-inserts readings rebalance_id env (λ t. t) db s rows absent composed in
    let stored' =
      capture-inserts readings rebalance_id' env' (λ t. t) first s' rows'
        (absent-insert_snapshot readings env rebalance_id rebalance_id' cash rows db apart absent')
        composed' in
    rw stored (
      rw same (
        rw stored' (
          rw same' (
            build_equity_series-twice frames documented orders market account_no
              account_product_code start_date as_of day
              (insert_snapshot readings (snapshot_of readings env' rebalance_id' cash') rows' first)
              (two_counted
                (λ x.
                  in_period account_no account_product_code start_date as_of x
                  && (day == resolve_trading_date x))
                db.snapshots (snapshot_of readings env rebalance_id cash)
                (snapshot_of readings env' rebalance_id' cash')
                (captured-counts readings env rebalance_id cash account_no account_product_code
                  start_date as_of day accounts.0 products.0 days.0 from upto)
                (captured-counts readings env' rebalance_id' cash' account_no account_product_code
                  start_date as_of day accounts.1 products.1 days.1 from upto))))))
