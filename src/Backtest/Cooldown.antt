-- ===== src/Backtest/Cooldown.antt =====
-- No stock is held twice, or entered again too soon (app/strategy/backtest/backtest_executor.py).
use autotrading.Prelude.{
  ℕ, ◌-◌, ◌≤◌, ◌≡◌, refl, String, Option, none, some, true, false, not, ◌&&◌, ◌||◌, ◌⊎◌, inl, inr,
  List, [], ◌∷◌, ◌++◌, all, count, length, ltb, arith, codes, codes_eq_refl, Bool-cases,
  count-take-le, all-take,
}
use autotrading.Strategy.{
  Arithmetic, same, is_held, is_recent_exit, SwingPosition, SwingTradeRecord, ExitDecision,
  Candidate, Stocks, close_on, DirectTradeStrategy, WaitsAfterExit,
}
use autotrading.Backtest.{
  is_empty, ExecutorSettings, Book, BacktestData, settle, aged, trade_of, close_positions,
  quantity_for, position_of, enter_at, enter, history_lookback_days, recent_trade_history, chosen,
  open_positions, trading_day, simulate, stock_data, started, holdings_value,
}
use autotrading.Backtest.Ledger.{
  apart, Waited, all_apart-cons, is_held-append, distinct-append, all_apart-append,
}

module _ {N : Type 0} (number : Arithmetic N) (strategy : DirectTradeStrategy N)
    (settings : ExecutorSettings) (cooldown_days : ℕ) where
  abbrev Ledger : Type 0
  Ledger = N × List (SwingTradeRecord N)

  -- a position stays as it was entered, or becomes a trade
  settle-cases :
      (date : ℕ) (pos : SwingPosition N) (d : ExitDecision) (price : Option N) (ledger : Ledger)
      → ((days : ℕ) × (settle number strategy settings date pos d price ledger
            ≡ (record pos { holding_days = days } ∷ [], ledger)))
        ⊎ ((cash p : N) × (settle number strategy settings date pos d price ledger
              ≡ ([], (cash, trade_of number pos date p d ∷ ledger.1))))
  settle-cases date pos d none ledger = elim (Bool-cases d.should_exit) [
    | inl exit ↦ inl (pos.holding_days - 1, rw exit refl)
    | inr stay ↦ inl (pos.holding_days, rw stay refl)
  ]
  settle-cases date pos d (some price) ledger = elim (Bool-cases d.should_exit) [
    | inl exit ↦ inr (number.add ledger.0 (number.mul pos.quantity price), price, rw exit refl)
    | inr stay ↦ inl (pos.holding_days, rw stay refl)
  ]

  -- what the exits of a day leave of the positions and of the trades
  abbrev Exits :
      List (SwingPosition N) → List (SwingTradeRecord N) → List (SwingPosition N) × Ledger → Type 0
  Exits ps trades after =
      Waited cooldown_days after.0 after.1.1
      × ((code : String) → is_held ps code ≡ false → is_held after.0 code ≡ false)
      × ((code : String) (entry : ℕ)
          → is_held ps code ≡ false
          → apart cooldown_days code entry trades ≡ true
          → apart cooldown_days code entry after.1.1 ≡ true)

  -- one position more, which stays
  Exits-stays :
      (p : SwingPosition N) (days : ℕ) (ps : List (SwingPosition N))
      (trades : List (SwingTradeRecord N)) (after : List (SwingPosition N) × Ledger)
      → Waited cooldown_days (p ∷ ps) trades
      → Exits ps trades after
      → Exits (p ∷ ps) trades (record p { holding_days = days } ∷ after.0, after.1)
  Exits-stays p days ps trades after (gaps, away, differ) ((gaps', away', differ'), free, kept) = (
    (gaps', ground (arith, kept p.stock_code p.entry_date), ground (arith, free p.stock_code)),
    λ code out. ground (arith, free code),
    λ code entry out old. ground (arith, kept code entry),
  )

  -- one position more, which becomes a trade
  Exits-leaves :
      (p : SwingPosition N) (date : ℕ) (price : N) (d : ExitDecision) (ps : List (SwingPosition N))
      (trades : List (SwingTradeRecord N)) (after : List (SwingPosition N) × Ledger)
      → Exits ps (trade_of number p date price d ∷ trades) after
      → Exits (p ∷ ps) trades after
  Exits-leaves p date price d ps trades after (waited, free, kept) = (
    waited,
    λ code out. ground (arith, free code),
    λ code entry out old. ground (arith, kept code entry),
  )

  close_positions-Exits :
      (stocks : Stocks N) (date : ℕ) (ps : List (SwingPosition N)) (ledger : Ledger)
      → Waited cooldown_days ps ledger.1
      → Exits ps ledger.1 (close_positions number strategy settings stocks date ps ledger)
  unfolding close_positions
  close_positions-Exits stocks date [] ledger waited =
      (waited, λ code free. free, λ code entry free old. old)
  close_positions-Exits stocks date (p ∷ ps) ledger (gaps, away, differ) =
      let old = aged number strategy settings p in
      let d = strategy.should_exit old date stocks in
      elim (settle-cases date old d (close_on stocks p.stock_code date) ledger) [
        | inl (days, stays) ↦ rw stays (
            Exits-stays p days ps ledger.1
              (close_positions number strategy settings stocks date ps ledger) (gaps, away, differ)
              (close_positions-Exits stocks date ps ledger
                (gaps, ground (arith, away), ground (arith, differ))))
        | inr (cash, price, leaves) ↦
            let t = trade_of number old date price d in
            let ledger' : Ledger = (cash, t ∷ ledger.1) in
            rw leaves (
              Exits-leaves old date price d ps ledger.1
                (close_positions number strategy settings stocks date ps ledger')
                (close_positions-Exits stocks date ps ledger' (
                  ground (arith, away, gaps),
                  all_apart-cons cooldown_days t ledger.1 ps (ground (arith, differ))
                      (ground (arith, away)),
                  ground (arith, differ),
                )))
      ]

  enter_at-cases :
      (date num_new : ℕ) (total : N) (c : Candidate N) (price : Option N) (cash : N)
      (ps : List (SwingPosition N))
      → ((enter_at number strategy settings date num_new total c price cash ps).1 ≡ ps)
        ⊎ ((p qty : N) × ((enter_at number strategy settings date num_new total c price cash ps).1
              ≡ ps ++ position_of number strategy settings date c p qty ∷ []))
  enter_at-cases date num_new total c none cash ps = inl refl
  enter_at-cases date num_new total c (some price) cash ps =
      let alloc = strategy.size_position c cash total num_new in
      let qty = quantity_for number strategy settings price alloc in
      elim (Bool-cases (number.lt number.zero qty && number.le alloc cash)) [
        | inl buys ↦ inr (price, qty, rw buys refl)
        | inr skips ↦ inl (rw skips refl)
      ]

  -- the candidates may all be entered: they are apart from the trades, not held, and different
  abbrev EachOnce : List (Candidate N) → Type 0
  EachOnce cs = (code : String) → count (λ c. same code c.code) cs ≤ 1

  free-append :
      (ps : List (SwingPosition N)) (q : SwingPosition N) (cs : List (Candidate N))
      → all (λ c. not (is_held ps c.code)) cs ≡ true
      → count (λ c. same q.stock_code c.code) cs ≡ 0
      → all (λ c. not (is_held (ps ++ q ∷ []) c.code)) cs ≡ true
  free-append ps q [] free none_same = refl
  free-append ps q (c ∷ cs) free none_same =
      ground (arith, is_held-append cooldown_days ps q c.code, free-append ps q cs)

  same_refl : (code : String) → same code code ≡ true
  same_refl code = codes_eq_refl (codes code)

  enter-Waited :
      (stocks : Stocks N) (date num_new : ℕ) (total : N) (trades : List (SwingTradeRecord N))
      (cs : List (Candidate N)) (cash : N) (ps : List (SwingPosition N))
      → all (λ c. apart cooldown_days c.code date trades) cs ≡ true
      → all (λ c. not (is_held ps c.code)) cs ≡ true
      → EachOnce cs
      → Waited cooldown_days ps trades
      → Waited cooldown_days
          (enter number strategy settings stocks date num_new total cs cash ps).1
          trades
  unfolding enter
  enter-Waited stocks date num_new total trades [] cash ps away free once waited = waited
  enter-Waited stocks date num_new total trades (c ∷ cs) cash ps away free once
        (gaps, apart_all, differ) =
      let price = close_on stocks c.code date in
      let after = enter_at number strategy settings date num_new total c price cash ps in
      let fewer : EachOnce cs = λ code. omega (arith, once code) in
      elim (enter_at-cases date num_new total c price cash ps) [
        | inl skipped ↦
            enter-Waited stocks date num_new total trades cs after.0 after.1 (ground (arith, away))
              (rw skipped (ground (arith, free))) fewer (rw skipped (gaps, apart_all, differ))
        | inr (p, qty, entered) ↦
            let q = position_of number strategy settings date c p qty in
            enter-Waited stocks date num_new total trades cs after.0 after.1 (ground (arith, away))
              (rw entered (
                free-append ps q cs (ground (arith, free))
                  (ground (arith, once c.code, same_refl c.code))))
              fewer
              (rw entered (
                gaps,
                all_apart-append cooldown_days trades ps q apart_all (ground (arith, away)),
                distinct-append cooldown_days ps q differ (ground (arith, free)),
              ))
      ]

  -- a candidate that the strategy lets through is apart from every trade, if the executor shows it the trades of
  -- the cooldown at least
  recent_trade_history-apart :
      (date : ℕ) (code : String) (trades : List (SwingTradeRecord N))
      → cooldown_days ≤ history_lookback_days number strategy settings
      → is_recent_exit cooldown_days date
          (recent_trade_history number strategy settings date trades)
          code
        ≡ false
      → apart cooldown_days code date trades ≡ true
  recent_trade_history-apart date code [] long calm = refl
  recent_trade_history-apart date code (t ∷ trades) long calm =
      ground (arith, long, recent_trade_history-apart date code trades long)

  fresh-apart :
      (date : ℕ) (ps : List (SwingPosition N)) (trades : List (SwingTradeRecord N))
      (cs : List (Candidate N))
      → cooldown_days ≤ history_lookback_days number strategy settings
      → all
          (λ c. not (
            is_held ps c.code
            || is_recent_exit cooldown_days date
                (recent_trade_history number strategy settings date trades)
                c.code))
          cs
        ≡ true
      → (all (λ c. apart cooldown_days c.code date trades) cs ≡ true)
        × (all (λ c. not (is_held ps c.code)) cs ≡ true)
  fresh-apart date ps trades [] long fresh = (refl, refl)
  fresh-apart date ps trades (c ∷ cs) long fresh =
      let (away, free) = fresh-apart date ps trades cs long (ground (arith, fresh)) in
      (
        ground (
          arith,
          recent_trade_history-apart date c.code trades long (ground (arith, fresh)),
          away,
        ),
        ground (arith, fresh, free),
      )

  module _ (input : BacktestData N) (stocks : Stocks N)
      (waits : WaitsAfterExit cooldown_days strategy)
      (long : cooldown_days ≤ history_lookback_days number strategy settings)
      (universe_once : (code : String) → count (λ u. same code u.code) input.universe ≤ 1) where
    open_positions-Waited :
        (date : ℕ) (cash : N) (ps : List (SwingPosition N)) (trades : List (SwingTradeRecord N))
        → Waited cooldown_days ps trades
        → Waited cooldown_days
            (open_positions number strategy settings input stocks date cash ps trades).1.1
            trades
    unfolding open_positions
    open_positions-Waited date cash ps trades waited =
        let history = recent_trade_history number strategy settings date trades in
        let slots = settings.rv_max_positions - length ps in
        let cs = chosen number strategy settings input stocks date ps trades in
        let raw =
          strategy.generate_entry_signals date input.universe stocks ps history input.benchmark in
        let total = number.add cash (holdings_value number stocks date ps) in
        let (away, free) = fresh-apart date ps trades cs long (
          all-take
            (λ c. not (is_held ps c.code || is_recent_exit cooldown_days date history c.code)) slots
            raw (waits.fresh date input.universe stocks ps history input.benchmark)) in
        let once : EachOnce cs = λ code. omega (
          arith,
          count-take-le (λ c. same code c.code) slots raw,
          waits.once date input.universe stocks ps history input.benchmark code,
          universe_once code,
        ) in
        elim (Bool-cases (
          ltb (length ps) settings.rv_max_positions
          && not (is_empty number strategy settings input.universe))) [
            | inl opens ↦
                rw opens (
                  enter-Waited stocks date (length cs) total trades cs cash ps away free once
                    waited)
            | inr full ↦ rw full waited
          ]

    trading_day-Waited :
        (book : Book N) (date : ℕ)
        → Waited cooldown_days book.positions book.trade_records
        → let book' = trading_day number strategy settings input stocks book date in
          Waited cooldown_days book'.positions book'.trade_records
    unfolding trading_day
    trading_day-Waited book date waited =
        let closed =
          close_positions number strategy settings stocks date book.positions
            (book.cash, book.trade_records) in
        open_positions-Waited date closed.1.0 closed.0 closed.1.1
          (close_positions-Exits stocks date book.positions (book.cash, book.trade_records)
            waited).0

    simulate-Waited :
        (dates : List ℕ) (book : Book N)
        → Waited cooldown_days book.positions book.trade_records
        → let book' = simulate number strategy settings input stocks dates book in
          Waited cooldown_days book'.positions book'.trade_records
    unfolding simulate
    simulate-Waited [] book waited = waited
    simulate-Waited (date ∷ dates) book waited =
        simulate-Waited dates (trading_day number strategy settings input stocks book date)
          (trading_day-Waited book date waited)

-- Let a strategy wait some days after an exit, no longer than the history that the executor shows it, and the
-- universe have each stock once. Then, at any point of a backtest, the open positions are of different stocks,
-- and between the exit from a stock and the next entry into it, be it a later trade or an open position,
-- there are more days than the strategy waits.
pub simulate-waits :
    {N : Type 0} (number : Arithmetic N) (strategy : DirectTradeStrategy N)
    (settings : ExecutorSettings) (cooldown_days : ℕ) (input : BacktestData N) (cash : N)
    (dates : List ℕ)
    → WaitsAfterExit cooldown_days strategy
    → cooldown_days ≤ history_lookback_days number strategy settings
    → ((code : String) → count (λ u. same code u.code) input.universe ≤ 1)
    → let book =
        simulate number strategy settings input
          (stock_data number strategy settings input)
          dates
          (started number strategy settings cash) in
      Waited cooldown_days book.positions book.trade_records
simulate-waits number strategy settings cooldown_days input cash dates waits long universe_once =
    simulate-Waited number strategy settings cooldown_days input
      (stock_data number strategy settings input) waits long universe_once dates
      (started number strategy settings cash) (refl, refl, refl)
