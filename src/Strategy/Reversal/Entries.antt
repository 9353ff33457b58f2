-- ===== src/Strategy/Reversal/Entries.antt =====
-- What the decisions of app/strategy/strategies/reversal_volume_strategy.py keep to: the orders of a live run,
-- and the candidates for the backtest.
use autotrading.Prelude.{
  ℕ, ◌-◌, ◌≤◌, ◌≡◌, refl, String, Option, none, some, Bool, true, not, ◌&&◌, ◌||◌, ◌⊎◌, inl, inr,
  List, map, filter, all, count, length, arith, Bool-cases, all-filter, all-filter_self, all-and,
  All, all-take, count-filter-le, length-take-le,
}
use autotrading.Strategy.{
  Arithmetic, same, is_held, is_recent_exit, SwingPosition, SwingTradeRecord, UniverseRow,
  Candidate, Frame, Stocks, frame_of, WaitsAfterExit,
}
use autotrading.Strategy.Reversal.{
  Pandas, ReversalParams, Listing, isin, slice_until, filter_liquidity, scan_from_data, rows_of,
}
use autotrading.Strategy.Reversal.Methods.{
  scan, intent, admitted, execute, is_bear_market, generate_entry_signals, reversal_strategy,
}
use autotrading.Strategy.Reversal.Scan.{
  qualifies, final, final-qualifies, count-final-le, Scanned, scan_from_data-Scanned,
}
use autotrading.Strategy.Reversal.Measured.{Measured}
use autotrading.Strategy.Reversal.Traced.{All-filter, All-take, final-Measured}
use autotrading.Strategy.Reversal.Agreement.{scan-Scanned}

-- A live run either raises, which it does exactly if its scan ends with a frame that has no columns, or it
-- orders as many stocks as there are places left, at most. Each order's reason gives the two figures of the
-- frame of its stock: the change from the close `reversal_days` bars before the last to the last close, and
-- the last volume over the mean of those of the `volume_avg_days` bars before. None of the stocks is held,
-- each has fallen, but by no more than the limit, and each has the volume that is asked for.
pub execute-scan :
    {N : Type 0} (number : Arithmetic N) (pandas : Pandas N) (params : ReversalParams N)
    (special : List String) (source : String → Option (Frame N)) (listings : List (Listing N))
    (current_positions : List String)
    → let found = scan number pandas params special source listings in
      ((found ≡ none) × (execute number pandas params current_positions found ≡ none))
      ⊎ ((picks : List (Candidate N)) × (execute number pandas params current_positions found
            ≡ some (record {
              orders = map (intent number pandas params) picks;
              candidates_count = length picks;
            }))
          × (length picks ≤ params.max_positions - length current_positions)
          × All (Measured number pandas params source) picks
          × (all
                (λ c. qualifies number pandas params c && not (isin current_positions c.code))
                picks
              ≡ true))
unfolding execute
execute-scan number pandas params special source listings current_positions =
    let universe = filter_liquidity number pandas params special source listings in
    let rows = final number pandas params source universe in
    let free : Candidate _ → Bool = λ c. not (isin current_positions c.code) in
    elim (scan-Scanned number pandas params special source listings) [
      | inl missing ↦ inl (missing, rw missing refl)
      | inr found ↦ inr (
        admitted number pandas params current_positions rows,
        rw found refl,
        length-take-le (params.max_positions - length current_positions) (filter free rows),
        All-take (Measured number pandas params source)
            (params.max_positions - length current_positions) (filter free rows)
            (All-filter (Measured number pandas params source) free rows
              (final-Measured number pandas params source universe)),
        all-take (λ c. qualifies number pandas params c && free c)
            (params.max_positions - length current_positions) (filter free rows)
            (all-and (qualifies number pandas params) free (filter free rows)
              (all-filter (qualifies number pandas params) free rows
                (final-qualifies number pandas params source universe))
              (all-filter_self free rows)),
      )
    ]

module _ {N : Type 0} (number : Arithmetic N) (pandas : Pandas N) (params : ReversalParams N) where
  count-rows_of-le :
      (test : String → Bool) (source : String → Option (Frame N)) (universe : List UniverseRow)
      (answer : Option (List (Candidate N)))
      → Scanned number pandas params source universe answer
      → count (λ c. test c.code) (rows_of number pandas params answer)
        ≤ count (λ u. test u.code) universe
  count-rows_of-le test source universe answer (inl e) = rw e (omega arith)
  count-rows_of-le test source universe answer (inr e) =
      rw e (count-final-le number pandas params test source universe)

  generate-fresh :
      (date : ℕ) (universe : List UniverseRow) (stocks : Stocks N)
      (positions : List (SwingPosition N)) (trades : List (SwingTradeRecord N))
      (benchmark : Option (Frame N))
      → all
          (λ c.
            not
              (is_held positions c.code || is_recent_exit params.cooldown_days date trades c.code))
          (generate_entry_signals number pandas params date universe stocks positions trades
            benchmark)
        ≡ true
  unfolding generate_entry_signals
  generate-fresh date universe stocks positions trades benchmark =
      elim (Bool-cases (
        params.market_filter_enabled && not (is_bear_market number pandas params date benchmark))) [
          | inl rising ↦ rw rising refl
          | inr falling ↦ rw falling (
              all-filter_self
                (λ c. not (
                  is_held positions c.code
                  || is_recent_exit params.cooldown_days date trades c.code))
                (rows_of number pandas params
                  (scan_from_data number pandas params date universe stocks)))
        ]

  generate-once :
      (date : ℕ) (universe : List UniverseRow) (stocks : Stocks N)
      (positions : List (SwingPosition N)) (trades : List (SwingTradeRecord N))
      (benchmark : Option (Frame N)) (code : String)
      → count
          (λ c. same code c.code)
          (generate_entry_signals number pandas params date universe stocks positions trades
            benchmark)
        ≤ count (λ u. same code u.code) universe
  unfolding generate_entry_signals
  generate-once date universe stocks positions trades benchmark code =
      let rows =
        rows_of number pandas params (scan_from_data number pandas params date universe stocks) in
      let free : Candidate N → Bool = λ c.
        not (is_held positions c.code || is_recent_exit params.cooldown_days date trades c.code) in
      let source : String → Option (Frame N) =
        λ code. slice_until number pandas params date (frame_of code stocks) in
      elim (Bool-cases (
        params.market_filter_enabled && not (is_bear_market number pandas params date benchmark))) [
          | inl rising ↦ rw rising (omega arith)
          | inr falling ↦ rw falling (
              omega (
                arith,
                count-filter-le (λ c. same code c.code) free rows,
                count-rows_of-le (same code) source universe
                    (scan_from_data number pandas params date universe stocks)
                    (scan_from_data-Scanned number pandas params date universe stocks),
              ))
        ]

  -- the candidates that the strategy gives the backtest keep to what the executor relies on
  pub reversal_strategy-WaitsAfterExit :
      WaitsAfterExit params.cooldown_days (reversal_strategy number pandas params)
  reversal_strategy-WaitsAfterExit = record { fresh = generate-fresh; once = generate-once }
