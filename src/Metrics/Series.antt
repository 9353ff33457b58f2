-- ===== src/Metrics/Series.antt =====
-- `build_equity_series` of app/strategy/metrics/adapters.py, with the statements of
-- app/repository/portfolio_snapshot_repository.py that it reads the snapshots by. What the provider of market data
-- answers is given, and what pandas makes of the series of several stocks.
pub mod Twice
pub mod Captured
use autotrading.Prelude.{
  ℕ, ◌≡◌, String, Option, none, some, Bool, true, false, ◌&&◌, ◌||◌, List, [], ◌∷◌, map, filter,
  count, any, ltb, leb, ◌==◌, codes, codes_eq, strip_left, if◌then◌else◌,
}
use mathlib.Core.List.{reverse}
use autotrading.Worker.Effects.{Exn, Reply, reply, error}
use autotrading.Snapshot.Account.{◌>>=◌}
use autotrading.Snapshot.Capture.{
  PortfolioSnapshot, PortfolioSnapshotHolding, Tables, zfill, kst_date,
}
use autotrading.Metrics.Equity.{
  Ascending, Frames, SnapshotView, CloseFrame, equity_error, assemble_equity,
}

-- the orders of the database, which keep the rows
pub record RowOrders (Z D : Type 0) : Type 0 where
  pub order_by_date : List (PortfolioSnapshot Z) → List (PortfolioSnapshot Z)
  pub count-order_by_date :
      (rows : List (PortfolioSnapshot Z)) (test : PortfolioSnapshot Z → Bool)
      → count test (order_by_date rows) ≡ count test rows
  pub order_by_snapshot : List (PortfolioSnapshotHolding Z D) → List (PortfolioSnapshotHolding Z D)

-- What the provider answers for a code and two days: no frame, or days with closing prices; `sort_index`; and the
-- rows of the frame of several series, filled forward, whose index is in order.
pub record Market (N : Type 0) : Type 0 where
  pub get_ohlcv : List ℕ → ℕ → ℕ → Option (List (ℕ × N))
  pub sort_index : List (ℕ × N) → List (ℕ × N)
  pub close_rows : List (List ℕ × List (ℕ × N)) → List (ℕ × List (Option N))
  pub close_rows-Ascending :
      (series_map : List (List ℕ × List (ℕ × N)))
      → Ascending (map (λ r. r.0) (close_rows series_map))

-- `str(code).strip().zfill(6)`
abbrev pub normalize_stock_code : List ℕ → List ℕ
normalize_stock_code code = zfill (reverse (strip_left (reverse (strip_left code))))

abbrev pub resolve_trading_date : {Z : Type 0} → PortfolioSnapshot Z → ℕ
resolve_trading_date s = elim s.trading_date [ some day ↦ day | none ↦ kst_date s.snapshot_at ]

-- the comparison with NULL is not true
abbrev pub is_within : ℕ → ℕ → Option ℕ → Bool
is_within start_date end_date none = false
is_within start_date end_date (some day) = leb start_date day && leb day end_date

abbrev pub in_period : {Z : Type 0} → String → String → ℕ → ℕ → PortfolioSnapshot Z → Bool
in_period account_no account_product_code start_date end_date s =
    codes_eq (codes s.account_no) (codes account_no)
    && codes_eq (codes s.account_product_code) (codes account_product_code)
    && codes_eq (codes s.snapshot_type) (codes "REBALANCE")
    && is_within start_date end_date s.trading_date

-- a dictionary by codes
abbrev pub put_code : {Z : Type 0} → List ℕ → Z → List (List ℕ × Z) → List (List ℕ × Z)
put_code code qty [] = (code, qty) ∷ []
put_code code qty ((c, q) ∷ holdings) =
    let rest = put_code code qty holdings in
    if codes_eq code c then (c, qty) ∷ holdings else (c, q) ∷ rest

abbrev pub grouped_put :
    {Z : Type 0} → ℕ → List ℕ → Z → List (ℕ × List (List ℕ × Z)) → List (ℕ × List (List ℕ × Z))
grouped_put id code qty [] = []
grouped_put id code qty ((i, held) ∷ groups) =
    let rest = grouped_put id code qty groups in
    if id == i then (i, put_code code qty held) ∷ groups else (i, held) ∷ rest

abbrev pub grouped_get : {Z : Type 0} → ℕ → List (ℕ × List (List ℕ × Z)) → List (List ℕ × Z)
grouped_get id [] = []
grouped_get id ((i, held) ∷ groups) =
    let rest = grouped_get id groups in if id == i then held else rest

-- `sorted` of a set of codes
abbrev pub code_before : List ℕ → List ℕ → Bool
code_before [] [] = false
code_before [] (d ∷ t) = true
code_before (c ∷ s) [] = false
code_before (c ∷ s) (d ∷ t) = ltb c d || (c == d && code_before s t)

abbrev pub add_code : List ℕ → List (List ℕ) → List (List ℕ)
add_code c [] = c ∷ []
add_code c (d ∷ codes) =
    let rest = add_code c codes in
    if codes_eq c d then d ∷ codes else if code_before c d then c ∷ d ∷ codes else d ∷ rest

abbrev pub add_held : {Z : Type 0} → List (List ℕ × Z) → List (List ℕ) → List (List ℕ)
add_held [] codes = codes
add_held ((c, qty) ∷ held) codes = add_code c (add_held held codes)

abbrev pub codes_of : {N Z : Type 0} → List (SnapshotView N Z) → List (List ℕ)
codes_of [] = []
codes_of (v ∷ views) = add_held v.holdings (codes_of views)

-- `min`
abbrev pub min_date : {N Z : Type 0} → ℕ → List (SnapshotView N Z) → ℕ
min_date first [] = first
min_date first (v ∷ views) =
    let rest = min_date first views in if leb v.trading_date rest then v.trading_date else rest

module _ {N Z D : Type 0} (frames : Frames N Z) (orders : RowOrders Z D) (market : Market N) where
  unfoldable pub get_snapshots_by_period :
      String → String → ℕ → ℕ → Tables Z D → List (PortfolioSnapshot Z)
  get_snapshots_by_period account_no account_product_code start_date end_date db =
      orders.order_by_date
        (filter (in_period account_no account_product_code start_date end_date) db.snapshots)

  unfoldable pub get_holdings_by_snapshot_ids :
      List ℕ → Tables Z D → List (PortfolioSnapshotHolding Z D)
  get_holdings_by_snapshot_ids snapshot_ids db =
      orders.order_by_snapshot
        (filter (λ h. any (λ i. h.snapshot_id == i) snapshot_ids) db.holdings)

  -- the loop over the holdings
  unfoldable pub group :
      List (PortfolioSnapshotHolding Z D)
      → List (ℕ × List (List ℕ × Z))
      → List (ℕ × List (List ℕ × Z))
  group [] groups = groups
  group (row ∷ rows) groups =
      group rows
        (grouped_put row.snapshot_id (normalize_stock_code row.stock_code) row.holding_qty groups)

  abbrev pub float_or_zero : Option Z → N
  float_or_zero none = frames.zero
  float_or_zero (some z) = frames.to_float z

  abbrev pub view_of : List (ℕ × List (List ℕ × Z)) → PortfolioSnapshot Z → SnapshotView N Z
  view_of groups s = record {
    trading_date = resolve_trading_date s;
    cash_amount = float_or_zero s.cash_amount;
    holdings = grouped_get s.id groups;
  }

  abbrev pub fetch_close_series : List ℕ → ℕ → ℕ → List (ℕ × N)
  fetch_close_series code start_date end_date = elim (market.get_ohlcv code start_date end_date) [
    | none ↦ []
    | some [] ↦ []
    | some (r ∷ rows) ↦ market.sort_index (r ∷ rows)
  ]

  abbrev unless_no_data : List (ℕ × N) → Reply (List (ℕ × N))
  unless_no_data [] = error equity_error
  unless_no_data (r ∷ rows) = reply (r ∷ rows)

  -- the loop over the codes
  unfoldable pub series_map : ℕ → ℕ → List (List ℕ) → Reply (List (List ℕ × List (ℕ × N)))
  series_map start_date end_date [] = reply []
  series_map start_date end_date (code ∷ codes) = do
    series ← unless_no_data (fetch_close_series code start_date end_date)
    rest ← series_map start_date end_date codes
    reply ((code, series) ∷ rest)

  unfoldable pub build_close_frame : List (List ℕ) → ℕ → ℕ → Reply (CloseFrame N)
  unfolding series_map
  build_close_frame codes start_date end_date = do
    found ← series_map start_date end_date codes
    reply (record { codes = codes; rows = market.close_rows found })

  -- the second half, from the views on
  abbrev pub with_prices : ℕ → List (SnapshotView N Z) → ℕ → List (List ℕ) → Reply (List (ℕ × N))
  with_prices first views as_of [] = error equity_error
  with_prices first views as_of (c ∷ codes) = do
    close_frame ← build_close_frame (c ∷ codes) (min_date first views) as_of
    assemble_equity frames views close_frame as_of

  abbrev pub from_views : List (SnapshotView N Z) → ℕ → Reply (List (ℕ × N))
  from_views [] as_of = error equity_error
  from_views (v ∷ views) as_of = with_prices v.trading_date (v ∷ views) as_of (codes_of (v ∷ views))

  unfoldable pub build_equity_series : String → String → ℕ → ℕ → Tables Z D → Reply (List (ℕ × N))
  unfolding get_snapshots_by_period get_holdings_by_snapshot_ids group build_close_frame
  build_equity_series account_no account_product_code start_date as_of db =
      let snapshots = get_snapshots_by_period account_no account_product_code start_date as_of db in
      let snapshot_ids = map (λ s. s.id) snapshots in
      let groups =
        group (get_holdings_by_snapshot_ids snapshot_ids db) (map (λ i. (i, [])) snapshot_ids) in
      from_views (map (view_of groups) snapshots) as_of
