-- ===== src/Metrics/Series/Twice.antt =====
-- Two snapshots of one day in a period (app/strategy/metrics/adapters.py).
use autotrading.Prelude.{
  ℕ, ◌≤◌, ◌≡◌, refl, subst, String, Bool, true, false, ◌&&◌, ◌||◌, List, [], ◌∷◌, map, filter,
  count, ◌==◌, ==_iff, codes, arith, inl, inr, ◌⊎◌, Bool-cases, count-map,
}
use autotrading.Worker.Effects.{Exn, Reply, reply, error}
use autotrading.Snapshot.Capture.{PortfolioSnapshot, Tables}
use autotrading.Metrics.Equity.{
  Frames, IsDocumented, SnapshotView, CloseFrame, has_day, has_twice, equity_error,
}
use autotrading.Metrics.Equity.Latest.{dates}
use autotrading.Metrics.Equity.Twice.{assemble_equity-twice}
use autotrading.Metrics.Series.{
  RowOrders, Market, resolve_trading_date, in_period, codes_of, min_date, get_snapshots_by_period,
  get_holdings_by_snapshot_ids, group, view_of, series_map, build_close_frame, with_prices,
  from_views, build_equity_series,
}

or_true : (b : Bool) → (b || true) ≡ true
or_true true = refl
or_true false = refl

has_day-count : (d : ℕ) (days : List ℕ) → 1 ≤ count (λ e. d == e) days → has_day d days ≡ true
has_day-count d [] some_day = absurd (omega (arith, some_day))
has_day-count d (e ∷ days) some_day = elim (Bool-cases (d == e)) [
  | inl same ↦ rw same refl
  | inr other ↦ rw other (has_day-count d days (omega (arith, rw other at some_day)))
]

has_twice-count : (d : ℕ) (days : List ℕ) → 2 ≤ count (λ e. d == e) days → has_twice days ≡ true
has_twice-count d [] two = absurd (omega (arith, two))
has_twice-count d (e ∷ days) two = elim (Bool-cases (d == e)) [
  | inl same ↦
      rw
        (subst (λ x. has_day x days ≡ true) ((==_iff d e).0 same)
          (has_day-count d days (omega (arith, rw same at two))))
        refl
  | inr other ↦
      rw (has_twice-count d days (omega (arith, rw other at two))) (or_true (has_day e days))
]

count-filter :
    {A : Type 0} (test p : A → Bool) (xs : List A)
    → count test (filter p xs) ≡ count (λ x. p x && test x) xs
count-filter test p [] = refl
count-filter test p (x ∷ xs) = elim (Bool-cases (p x)) [
  | inl inside ↦ rw inside (omega (arith, count-filter test p xs))
  | inr outside ↦ rw outside (omega (arith, count-filter test p xs))
]

module _ {N Z D : Type 0} (frames : Frames N Z) (documented : IsDocumented frames)
    (orders : RowOrders Z D) (market : Market N) where
  Reply-cases : {A : Type 0} (r : Reply A) → ((a : A) × (r ≡ reply a)) ⊎ ((e : Exn) × (r ≡ error e))
  Reply-cases (reply a) = inl (a, refl)
  Reply-cases (error e) = inr (e, refl)

  with_prices-twice :
      (first as_of : ℕ) (views : List (SnapshotView N Z)) (codes : List (List ℕ))
      → has_twice (dates views) ≡ true
      → (e : Exn) × (with_prices frames orders market first views as_of codes ≡ error e)
  unfolding build_close_frame
  with_prices-twice first as_of views [] twice = (equity_error, refl)
  with_prices-twice first as_of views (c ∷ codes) twice =
      elim (Reply-cases
        (series_map frames orders market (min_date first views) as_of (c ∷ codes))) [
          | inr (e, fails) ↦ (e, rw fails refl)
          | inl (found, is_found) ↦
              let frame : CloseFrame N = record {
                codes = c ∷ codes;
                rows = market.close_rows found;
              } in
              let (e, fails) =
                assemble_equity-twice frames documented views frame as_of twice
                  (market.close_rows-Ascending found) in
              (e, rw is_found fails)
        ]

  from_views-twice :
      (as_of : ℕ) (views : List (SnapshotView N Z))
      → has_twice (dates views) ≡ true
      → (e : Exn) × (from_views frames orders market views as_of ≡ error e)
  from_views-twice as_of [] twice = (equity_error, refl)
  from_views-twice as_of (v ∷ views) twice =
      with_prices-twice v.trading_date as_of (v ∷ views) (codes_of (v ∷ views)) twice

  -- the snapshots of the period on a day
  abbrev pub is_on_day : ℕ → PortfolioSnapshot Z → Bool
  is_on_day day s = day == resolve_trading_date s

  module _ (account_no account_product_code : String) (start_date as_of : ℕ) where
    abbrev pub in_this_period : PortfolioSnapshot Z → Bool
    in_this_period = in_period account_no account_product_code start_date as_of

    views-twice :
        (day : ℕ) (db : Tables Z D) (groups : List (ℕ × List (List ℕ × Z)))
        → 2 ≤ count (λ s. in_this_period s && is_on_day day s) db.snapshots
        → has_twice (
            dates (
              map (view_of frames orders market groups) (
                get_snapshots_by_period frames orders market account_no account_product_code
                  start_date as_of db)))
          ≡ true
    unfolding get_snapshots_by_period
    views-twice day db groups two =
        let found = filter in_this_period db.snapshots in
        has_twice-count day
          (dates (map (view_of frames orders market groups) (orders.order_by_date found)))
          (omega (
            arith,
            two,
            count-map (λ e. day == e) (λ v. v.trading_date)
                (map (view_of frames orders market groups) (orders.order_by_date found)),
            count-map (λ v. day == v.trading_date) (view_of frames orders market groups)
                (orders.order_by_date found),
            orders.count-order_by_date found (is_on_day day),
            count-filter (is_on_day day) in_this_period db.snapshots,
          ))

    pub build_equity_series-twice :
        (day : ℕ) (db : Tables Z D)
        → 2 ≤ count (λ s. in_this_period s && is_on_day day s) db.snapshots
        → (e : Exn) × (build_equity_series frames orders market account_no account_product_code
              start_date as_of db
            ≡ error e)
    unfolding build_equity_series
    build_equity_series-twice day db two =
        let snapshots =
          get_snapshots_by_period frames orders market account_no account_product_code start_date
            as_of db in
        let snapshot_ids = map (λ (s : PortfolioSnapshot Z). s.id) snapshots in
        let groups =
          group frames orders market
            (get_holdings_by_snapshot_ids frames orders market snapshot_ids db)
            (map (λ i. (i, [])) snapshot_ids) in
        from_views-twice as_of (map (view_of frames orders market groups) snapshots)
          (views-twice day db groups two)
