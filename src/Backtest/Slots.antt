-- ===== src/Backtest/Slots.antt =====
-- How many positions a backtest holds (app/strategy/backtest/backtest_executor.py).
use autotrading.Prelude.{
  ℕ, suc, ◌+◌, ◌-◌, ◌≤◌, ◌≡◌, refl, Option, none, some, ◌&&◌, List, [], ◌∷◌, length, length-append,
  length-take-le, All, arith, Bool-cases, inl, inr,
}
use autotrading.Strategy.{
  Arithmetic, SwingPosition, SwingTradeRecord, ExitDecision, Candidate, Stocks, close_on,
  DirectTradeStrategy,
}
use autotrading.Backtest.{
  ExecutorSettings, DailyRecord, Book, BacktestData, finished, count_of, or_before, settle, aged,
  quantity_for, position_of, recent_trade_history, holdings_value, close_positions, enter_at, enter,
  chosen, open_positions, trading_day, simulate, stock_data, all_dates, started, run_direct_trade,
  ended,
}

-- within the limit: the positions, the length of `candidates`, and what the daily records say of both
abbrev pub Within : {N : Type 0} → ℕ → Book N → Type 0
Within limit book =
    (length book.positions ≤ limit)
    × (count_of book.candidates ≤ limit)
    × All (λ r. (r.num_holdings ≤ limit) × (r.num_signals ≤ limit)) book.records

module _ {N : Type 0} (number : Arithmetic N) (strategy : DirectTradeStrategy N)
    (settings : ExecutorSettings) where
  length-settle :
      (date : ℕ) (pos : SwingPosition N) (d : ExitDecision) (price : Option N)
      (ledger : N × List (SwingTradeRecord N))
      → length (settle number strategy settings date pos d price ledger).0 ≤ 1
  length-settle date pos d none ledger = ground arith
  length-settle date pos d (some p) ledger = ground arith

  length-close_positions :
      (stocks : Stocks N) (date : ℕ) (ps : List (SwingPosition N))
      (ledger : N × List (SwingTradeRecord N))
      → length (close_positions number strategy settings stocks date ps ledger).0 ≤ length ps
  unfolding close_positions
  length-close_positions stocks date [] ledger = omega arith
  length-close_positions stocks date (p ∷ ps) ledger =
      let old = aged number strategy settings p in
      let d = strategy.should_exit old date stocks in
      let price = close_on stocks p.stock_code date in
      let done = settle number strategy settings date old d price ledger in
      omega (
        arith,
        length-append done.0 (close_positions number strategy settings stocks date ps done.1).0,
        length-settle date old d price ledger,
        length-close_positions stocks date ps done.1,
      )

  length-enter_at :
      (date num_new : ℕ) (total : N) (c : Candidate N) (price : Option N) (cash : N)
      (ps : List (SwingPosition N))
      → length (enter_at number strategy settings date num_new total c price cash ps).1
        ≤ length ps + 1
  length-enter_at date num_new total c none cash ps = omega arith
  length-enter_at date num_new total c (some price) cash ps =
      let alloc = strategy.size_position c cash total num_new in
      let qty = quantity_for number strategy settings price alloc in
      let new = position_of number strategy settings date c price qty in
      elim (Bool-cases (number.lt number.zero qty && number.le alloc cash)) [
        | inl yes_buy ↦ rw yes_buy (omega (arith, length-append ps (new ∷ [])))
        | inr no_buy ↦ rw no_buy (omega arith)
      ]

  length-enter :
      (stocks : Stocks N) (date num_new : ℕ) (total : N) (cs : List (Candidate N)) (cash : N)
      (ps : List (SwingPosition N))
      → length (enter number strategy settings stocks date num_new total cs cash ps).1
        ≤ length ps + length cs
  unfolding enter
  length-enter stocks date num_new total [] cash ps = omega arith
  length-enter stocks date num_new total (c ∷ cs) cash ps =
      let price = close_on stocks c.code date in
      let after = enter_at number strategy settings date num_new total c price cash ps in
      omega (
        arith,
        length-enter_at date num_new total c price cash ps,
        length-enter stocks date num_new total cs after.0 after.1,
      )

  module _ (input : BacktestData N) (stocks : Stocks N) where
    open_positions-within :
        (date : ℕ) (cash : N) (ps : List (SwingPosition N)) (trades : List (SwingTradeRecord N))
        → length ps ≤ settings.rv_max_positions
        → (length (open_positions number strategy settings input stocks date cash ps trades).1.1
            ≤ settings.rv_max_positions)
          × (count_of (open_positions number strategy settings input stocks date cash ps trades).0
              ≤ settings.rv_max_positions)
    unfolding open_positions
    open_positions-within date cash ps trades room =
        let cs = chosen number strategy settings input stocks date ps trades in
        ground (
          arith,
          length-take-le (settings.rv_max_positions - length ps) (
              strategy.generate_entry_signals date input.universe stocks ps
                (recent_trade_history number strategy settings date trades) input.benchmark),
          length-enter stocks date (length cs)
              (number.add cash (holdings_value number stocks date ps)) cs cash ps,
        )

    count_of-or_before :
        (limit : ℕ) (a b : Option ℕ)
        → count_of a ≤ limit
        → count_of b ≤ limit
        → count_of (or_before number strategy settings a b) ≤ limit
    count_of-or_before limit none b ha hb = hb
    count_of-or_before limit (some n) b ha hb = ha

    trading_day-Within :
        (book : Book N) (date : ℕ)
        → Within settings.rv_max_positions book
        → Within settings.rv_max_positions
            (trading_day number strategy settings input stocks book date)
    unfolding trading_day
    trading_day-Within book date (room, signals, records) =
        let closed =
          close_positions number strategy settings stocks date book.positions
            (book.cash, book.trade_records) in
        let opened =
          open_positions number strategy settings input stocks date closed.1.0 closed.0
            closed.1.1 in
        let still =
          length-close_positions stocks date book.positions (book.cash, book.trade_records) in
        let (fits, few) =
          open_positions-within date closed.1.0 closed.0 closed.1.1 (omega (arith, still)) in
        let known =
          count_of-or_before settings.rv_max_positions opened.0 book.candidates few signals in
        (fits, known, ((fits, known), records))

    simulate-Within :
        (dates : List ℕ) (book : Book N)
        → Within settings.rv_max_positions book
        → Within settings.rv_max_positions
            (simulate number strategy settings input stocks dates book)
    unfolding simulate
    simulate-Within [] book within = within
    simulate-Within (date ∷ dates) book within =
        simulate-Within dates (trading_day number strategy settings input stocks book date)
          (trading_day-Within book date within)

    length-simulate :
        (dates : List ℕ) (book : Book N)
        → length (simulate number strategy settings input stocks dates book).records
          ≡ length dates + length book.records
    unfolding simulate trading_day
    length-simulate [] book = omega arith
    length-simulate (date ∷ dates) book =
        omega (
          arith,
          length-simulate dates (trading_day number strategy settings input stocks book date),
        )

  ended-finished :
      (book : Book N) (rs : List (DailyRecord N)) (n : ℕ)
      → length rs ≡ suc n
      → ended number strategy settings book rs ≡ finished book
  ended-finished book [] n some_day = absurd (omega arith)
  ended-finished book (r ∷ rs) n some_day = refl

-- A backtest that has at least one day to run over, be it a day of the benchmark or of a stock, ends with one
-- record for each of the days; on none of them are there more positions, or more candidates, than the
-- settings allow positions, whatever the strategy and the prices are.
pub run_direct_trade-Within :
    {N : Type 0} (number : Arithmetic N) (strategy : DirectTradeStrategy N)
    (settings : ExecutorSettings) (input : BacktestData N) (cash : N) (day : ℕ) (days : List ℕ)
    → all_dates number strategy settings input.benchmark (stock_data number strategy settings input)
      ≡ some (day ∷ days)
    → (book : Book N) × (run_direct_trade number strategy settings input cash ≡ finished book)
      × (length book.records ≡ length (day ∷ days))
      × Within settings.rv_max_positions book
unfolding run_direct_trade
run_direct_trade-Within number strategy settings input cash day days dates =
    let stocks = stock_data number strategy settings input in
    let start = started number strategy settings cash in
    let book = simulate number strategy settings input stocks (day ∷ days) start in
    let each_day = length-simulate number strategy settings input stocks (day ∷ days) start in
    let some_day : length book.records ≡ suc (length days) = omega (arith, each_day) in
    (
      book,
      rw dates (ended-finished number strategy settings book book.records (length days) some_day),
      some_day,
      simulate-Within number strategy settings input stocks (day ∷ days) start
          (omega arith, omega arith, tt),
    )
