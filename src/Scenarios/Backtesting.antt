-- ===== src/Scenarios/Backtesting.antt =====
-- A backtest and a live run of the reversal strategy, in thousandths
-- (app/strategy/backtest/backtest_executor.py, app/strategy/strategies/reversal_volume_strategy.py).
use autotrading.Prelude.{
  Bool-cases, inl, inr, ℕ, zero, suc, ◌+◌, ◌-◌, ◌*◌, ◌/◌, ◌≤◌, ◌≡◌, refl, arith, String, Option,
  none, some, Bool, true, false, not, ◌&&◌, List, [], ◌∷◌, count, leb, ltb, length, all, All, map,
  ◌⊎◌, if◌then◌else◌,
}
use autotrading.Strategy.{Arithmetic, Bar, UniverseRow, Candidate, Frame, Stocks, frame_of}
use autotrading.Strategy.Reversal.{
  Pandas, ReversalParams, Listing, slice_until, filter_liquidity, scan_from_data, isin,
  with_returns, with_ratios, return_of, volume_ratio_of, screen_reversal, check_volume_spike,
  with_amounts,
}
use autotrading.Strategy.Reversal.Methods.{
  reversal_strategy, scan, execute, intent, should_exit, generate_entry_signals, size_position,
}
use autotrading.Strategy.Reversal.Scan.{qualifies}
use autotrading.Strategy.Reversal.Measured.{Measured}
use autotrading.Strategy.Reversal.Agreement.{scan-scan_from_data}
use autotrading.Strategy.Reversal.Entries.{execute-scan}
use autotrading.Backtest.{
  ExecutorSettings, BacktestData, Book, finished, stock_data, started, simulate, run_direct_trade,
  trading_day, close_positions, open_positions, enter, holdings_value, worth_from,
}
use autotrading.Backtest.Ledger.{Waited}
use autotrading.Backtest.Slots.{Within, run_direct_trade-Within}
use autotrading.Backtest.Reversal.{simulate-reversal_strategy}

-- a number with its sign
record Signed : Type 0 where
  negative : Bool
  size : ℕ

abbrev minus : ℕ → ℕ → Signed
minus a b =
    if leb b a
    then record { negative = false; size = a - b }
    else record { negative = true; size = b - a }

abbrev plus_part : Signed → ℕ
plus_part x = if x.negative then 0 else x.size

abbrev minus_part : Signed → ℕ
minus_part x = if x.negative then x.size else 0

abbrev signed : Bool → Bool → ℕ → Signed
signed true true n = minus n 0
signed false false n = minus n 0
signed _ _ n = minus 0 n

abbrev quotient : ℕ → ℕ → ℕ
quotient a zero = 0
quotient a (suc b) = a / suc b

abbrev number : Arithmetic Signed
number = record {
  zero = minus 0 0;
  add = λ x y. minus (plus_part x + plus_part y) (minus_part x + minus_part y);
  sub = λ x y. minus (plus_part x + minus_part y) (minus_part x + plus_part y);
  mul = λ x y. signed x.negative y.negative (x.size * y.size / 1000);
  div = λ x y. signed x.negative y.negative (quotient (x.size * 1000) y.size);
  of_nat = λ n. minus (n * 1000) 0;
  lt = λ x y. ltb (plus_part x + minus_part y) (minus_part x + plus_part y);
  le = λ x y. leb (plus_part x + minus_part y) (minus_part x + plus_part y);
}

abbrev insert_by :
    (Candidate Signed → Signed)
    → Candidate Signed
    → List (Candidate Signed)
    → List (Candidate Signed)
insert_by key c [] = c ∷ []
insert_by key c (d ∷ rows) =
    let rest = insert_by key c rows in if number.le (key c) (key d) then c ∷ d ∷ rows else d ∷ rest

abbrev sorted_by : (Candidate Signed → Signed) → List (Candidate Signed) → List (Candidate Signed)
sorted_by key [] = []
sorted_by key (c ∷ rows) = insert_by key c (sorted_by key rows)

count-insert_by :
    (key : Candidate Signed → Signed) (c : Candidate Signed) (rows : List (Candidate Signed))
    (test : Candidate Signed → Bool)
    → count test (insert_by key c rows) ≡ count test (c ∷ rows)
count-insert_by key c [] test = refl
count-insert_by key c (d ∷ rows) test = elim (Bool-cases (number.le (key c) (key d))) [
  | inl first ↦ rw first refl
  | inr later ↦ rw later (omega (arith, count-insert_by key c rows test))
]

count-sorted_by :
    (key : Candidate Signed → Signed) (rows : List (Candidate Signed))
    (test : Candidate Signed → Bool)
    → count test (sorted_by key rows) ≡ count test rows
count-sorted_by key [] test = refl
count-sorted_by key (c ∷ rows) test =
    omega (arith, count-insert_by key c (sorted_by key rows) test, count-sorted_by key rows test)

All-insert_by :
    (key : Candidate Signed → Signed) (c : Candidate Signed) (rows : List (Candidate Signed))
    (P : Candidate Signed → Type 0)
    → P c
    → All P rows
    → All P (insert_by key c rows)
All-insert_by key c [] P one rest = (one, tt)
All-insert_by key c (d ∷ rows) P one rest = elim (Bool-cases (number.le (key c) (key d))) [
  | inl first ↦ rw first (one, rest)
  | inr later ↦ rw later (rest.0, All-insert_by key c rows P one rest.1)
]

All-sorted_by :
    (key : Candidate Signed → Signed) (rows : List (Candidate Signed))
    (P : Candidate Signed → Type 0)
    → All P rows
    → All P (sorted_by key rows)
All-sorted_by key [] P pass = tt
All-sorted_by key (c ∷ rows) P pass =
    All-insert_by key c (sorted_by key rows) P pass.0 (All-sorted_by key rows P pass.1)

abbrev total : List Signed → Signed
total [] = minus 0 0
total (x ∷ xs) = number.add x (total xs)

abbrev pandas : Pandas Signed
pandas = record {
  mean = λ xs. number.div (total xs) (number.of_nat (length xs));
  share = λ n x. n * x.size / 1000;
  sort_values = sorted_by;
  sort_values_descending = λ key rows. rows;
  count-sort_values = count-sorted_by;
  All-sort_values = All-sorted_by;
}

-- the volume twice that of the day before, a fall of less than a quarter, a position for two days
abbrev params : ReversalParams Signed
params = record {
  max_marcap = number.of_nat 1000;
  min_marcap = number.of_nat 1;
  avg_amount_days = 1;
  top_n_liquid = 10;
  reversal_days = 1;
  reversal_pct = minus 500 0;
  volume_avg_days = 1;
  volume_spike_ratio = number.of_nat 2;
  max_drawdown_pct = minus 0 250;
  take_profit_pct = minus 100 0;
  stop_loss_pct = minus 0 100;
  max_holding_days = 2;
  max_positions = 1;
  market_filter_enabled = false;
  market_ma_days = 20;
  cooldown_days = 3;
}

abbrev settings : ExecutorSettings
settings = record { rv_max_positions = 1; rv_cooldown_days = 3 }

abbrev bar : ℕ → ℕ → ℕ → Bar Signed
bar day close volume = record {
  day = day;
  close = number.of_nat close;
  volume = number.of_nat volume;
}

-- The stock falls on day 2 and is entered; it falls again on day 3 and is left; the signal of day 4 is too
-- early, that of day 8 is taken.
abbrev prices : Frame Signed
prices =
    bar 1 100 10
    ∷ bar 2 90 20
    ∷ bar 3 80 40
    ∷ bar 4 70 80
    ∷ bar 5 75 80
    ∷ bar 6 80 80
    ∷ bar 7 90 10
    ∷ bar 8 80 30
    ∷ []

abbrev samsung : UniverseRow
samsung = record { code = "005930"; name = some "Samsung" }

abbrev input : BacktestData Signed
input = record { entries = ("005930", prices) ∷ []; universe = samsung ∷ []; benchmark = none }

abbrev cash : Signed
cash = number.of_nat 900

abbrev days : List ℕ
days = 1 ∷ 2 ∷ 3 ∷ 4 ∷ 5 ∷ 6 ∷ 7 ∷ 8 ∷ []

abbrev at_end : Book Signed
at_end =
    simulate number (reversal_strategy number pandas params) settings input
      (stock_data number (reversal_strategy number pandas params) settings input) days
      (started number (reversal_strategy number pandas params) settings cash)

backtest_run :
    (map (λ t. t.entry_date) at_end.trade_records ≡ 2 ∷ [])
    × (map (λ t. t.exit_date) at_end.trade_records ≡ 3 ∷ [])
    × (map (λ p. p.entry_date) at_end.positions ≡ 8 ∷ [])
unfolding simulate trading_day close_positions open_positions enter holdings_value worth_from
    should_exit generate_entry_signals scan_from_data size_position with_returns with_ratios
    return_of volume_ratio_of
backtest_run = (refl, refl, refl)

run_direct_trade-Within_example :
    (book : Book Signed) × (run_direct_trade number
        (reversal_strategy number pandas params)
        settings
        input
        cash
      ≡ finished book)
    × (length book.records ≡ 8)
    × Within 1 book
run_direct_trade-Within_example =
    run_direct_trade-Within number (reversal_strategy number pandas params) settings input cash 1
      (2 ∷ 3 ∷ 4 ∷ 5 ∷ 6 ∷ 7 ∷ 8 ∷ []) refl

simulate-reversal_strategy_example : Waited 3 at_end.positions at_end.trade_records
simulate-reversal_strategy_example =
    simulate-reversal_strategy number pandas params settings input cash days (omega arith)
      (λ code. ground arith)

abbrev listings : List (Listing Signed)
listings =
    record { code = "005930"; name = some "Samsung"; marcap = number.of_nat 500; market = "KOSPI" }
    ∷ []

abbrev loaded : Stocks Signed
loaded = ("005930", prices) ∷ []

abbrev until_8 : String → Option (Frame Signed)
until_8 code = slice_until number pandas params 8 (frame_of code loaded)

execute-scan_run :
    execute number pandas params [] (scan number pandas params [] until_8 listings)
    ≡ some (record {
      orders =
          record {
            stock_code = "005930";
            stock_name = some "Samsung";
            reason = (minus 0 112, minus 3000 0);
          }
          ∷ [];
      candidates_count = 1;
    })
unfolding execute scan screen_reversal check_volume_spike filter_liquidity with_amounts with_returns
    with_ratios return_of volume_ratio_of
execute-scan_run = refl

-- without a signal, the live run raises
execute_raises :
    execute number pandas params [] (
      scan number pandas params []
        (λ code. slice_until number pandas params 1 (frame_of code loaded))
        listings)
    ≡ none
unfolding execute scan screen_reversal check_volume_spike filter_liquidity with_amounts with_returns
    with_ratios return_of volume_ratio_of
execute_raises = refl

scan-scan_from_data_example :
    scan number pandas params [] until_8 listings
    ≡ scan_from_data number pandas params 8
        (filter_liquidity number pandas params [] until_8 listings)
        loaded
scan-scan_from_data_example = scan-scan_from_data number pandas params [] listings 8 loaded

execute-scan_example :
    let found = scan number pandas params [] until_8 listings in
    ((found ≡ none) × (execute number pandas params [] found ≡ none))
    ⊎ ((picks : List (Candidate Signed)) × (execute number pandas params [] found
          ≡ some (record {
            orders = map (intent number pandas params) picks;
            candidates_count = length picks;
          }))
        × (length picks ≤ 1)
        × All (Measured number pandas params until_8) picks
        × (all (λ c. qualifies number pandas params c && not (isin [] c.code)) picks ≡ true))
execute-scan_example = execute-scan number pandas params [] until_8 listings []
