-- ===== src/Backtest.antt =====
-- app/strategy/backtest/backtest_executor.py: a backtest of a strategy that trades single stocks. The book
-- has the newest trade and the newest daily record first.
pub mod Slots
pub mod Ledger
pub mod Cooldown
pub mod Reversal
use autotrading.Prelude.{
  ℕ, zero, suc, ◌+◌, ◌-◌, ◌*◌, max, String, Option, none, some, Bool, true, false, not, ◌&&◌, List,
  [], ◌∷◌, ◌++◌, map, filter, take, length, ltb, leb, ◌==◌, if◌then◌else◌, codes, is_prefix,
}
use autotrading.Strategy.{
  Arithmetic, SwingPosition, SwingTradeRecord, ExitDecision, UniverseRow, Candidate, Bar, Frame,
  Stocks, close_on, DirectTradeStrategy,
}

abbrev pub trade_history_lookback_days : ℕ
trade_history_lookback_days = 30

-- of `strategy_settings`, what the executor reads
pub record ExecutorSettings : Type 0 where
  pub rv_max_positions : ℕ
  pub rv_cooldown_days : ℕ

pub record DailyRecord (N : Type 0) : Type 0 where
  pub date : ℕ
  pub equity : N
  pub cash : N
  pub holdings_value : N
  pub num_holdings : ℕ
  pub num_signals : ℕ
  pub rebalance : Bool

-- the state of the simulation; `candidates` is the length of the variable of that name, once it is bound
pub record Book (N : Type 0) : Type 0 where
  pub cash : N
  pub positions : List (SwingPosition N)
  pub trade_records : List (SwingTradeRecord N)
  pub candidates : Option ℕ
  pub records : List (DailyRecord N)

-- What `data` holds: the frames by their keys, and those under `__universe__` and `__benchmark__`.
pub record BacktestData (N : Type 0) : Type 0 where
  pub entries : Stocks N
  pub universe : List UniverseRow
  pub benchmark : Option (Frame N)

pub data BacktestResult (N : Type 0) : Type 0 where
  empty_frame index_error : BacktestResult N
  finished : Book N → BacktestResult N

abbrev pub or_code : Option String → String → String
or_code none code = code
or_code (some name) code = name

-- `sorted`, and `sorted` of a set
abbrev insert_day : ℕ → List ℕ → List ℕ
insert_day d [] = d ∷ []
insert_day d (e ∷ days) = let rest = insert_day d days in if leb d e then d ∷ e ∷ days else e ∷ rest

abbrev sorted : List ℕ → List ℕ
sorted [] = []
sorted (d ∷ days) = insert_day d (sorted days)

abbrev add_day : ℕ → List ℕ → List ℕ
add_day d [] = d ∷ []
add_day d (e ∷ days) =
    let rest = add_day d days in
    if d == e then e ∷ days else if ltb d e then d ∷ e ∷ days else e ∷ rest

abbrev add_days : List ℕ → List ℕ → List ℕ
add_days [] days = days
add_days (d ∷ ds) days = add_day d (add_days ds days)

abbrev union_days : {N : Type 0} → Stocks N → List ℕ
union_days [] = []
union_days ((code, frame) ∷ stocks) = add_days (map (λ b. b.day) frame) (union_days stocks)

abbrev pub count_of : Option ℕ → ℕ
count_of none = 0
count_of (some n) = n

module _ {N : Type 0} (number : Arithmetic N) where
  -- the worth of what is held and has a price on the day
  abbrev add_worth : N → SwingPosition N → Option N → N
  add_worth total pos none = total
  add_worth total pos (some price) = number.add total (number.mul pos.quantity price)

  unfoldable pub worth_from : N → Stocks N → ℕ → List (SwingPosition N) → N
  worth_from total stocks date [] = total
  worth_from total stocks date (pos ∷ positions) =
      worth_from (add_worth total pos (close_on stocks pos.stock_code date)) stocks date positions

  unfoldable pub holdings_value : Stocks N → ℕ → List (SwingPosition N) → N
  unfolding worth_from
  holdings_value = worth_from number.zero

  abbrev pub trade_of : SwingPosition N → ℕ → N → ExitDecision → SwingTradeRecord N
  trade_of pos date price decision = record {
    stock_code = pos.stock_code;
    stock_name = pos.stock_name;
    entry_date = pos.entry_date;
    exit_date = date;
    entry_price = pos.entry_price;
    exit_price = price;
    quantity = pos.quantity;
    return_pct = number.div (number.sub price pos.entry_price) pos.entry_price;
    holding_days = pos.holding_days;
    exit_reason = decision.reason;
  }

  module _ (strategy : DirectTradeStrategy N) (settings : ExecutorSettings) where
    abbrev pub Ledger : Type 0
    Ledger = N × List (SwingTradeRecord N)

    -- a position of which one day more has been counted: what stays of it, and the ledger
    abbrev pub settle :
        ℕ → SwingPosition N → ExitDecision → Option N → Ledger → List (SwingPosition N) × Ledger
    settle date pos decision price (cash, trades) =
        if not decision.should_exit then (pos ∷ [], (cash, trades)) else elim price [
          | none ↦ (record pos { holding_days = pos.holding_days - 1 } ∷ [], (cash, trades))
          | some p ↦ (
            [],
            (number.add cash (number.mul pos.quantity p), trade_of pos date p decision ∷ trades),
          )
        ]

    abbrev pub aged : SwingPosition N → SwingPosition N
    aged pos = record pos { holding_days = pos.holding_days + 1 }

    -- step 1
    unfoldable pub close_positions :
        Stocks N → ℕ → List (SwingPosition N) → Ledger → List (SwingPosition N) × Ledger
    close_positions stocks date [] ledger = ([], ledger)
    close_positions stocks date (pos ∷ positions) ledger =
        let (stays, ledger') =
          settle date (aged pos) (strategy.should_exit (aged pos) date stocks)
            (close_on stocks pos.stock_code date) ledger in
        let (rest, ledger'') = close_positions stocks date positions ledger' in
        (stays ++ rest, ledger'')

    abbrev pub position_of : ℕ → Candidate N → N → N → SwingPosition N
    position_of date c price qty = record {
      stock_code = c.code;
      stock_name = or_code c.name c.code;
      entry_price = price;
      quantity = qty;
      entry_date = date;
      holding_days = 0;
    }

    abbrev pub quantity_for : N → N → N
    quantity_for price alloc =
        if number.lt number.zero price then number.div alloc price else number.zero

    -- the body of the loop over the candidates, for one that has a price on the day
    abbrev pub bought :
        ℕ → Candidate N → N → N → N → N → List (SwingPosition N) → N × List (SwingPosition N)
    bought date c price alloc qty cash positions =
        if number.lt number.zero qty && number.le alloc cash
        then (
          number.sub cash (number.mul qty price),
          positions ++ position_of date c price qty ∷ [],
        )
        else (cash, positions)

    abbrev pub enter_at :
        ℕ → ℕ → N → Candidate N → Option N → N → List (SwingPosition N) → N × List (SwingPosition N)
    enter_at date num_new total_equity c none cash positions = (cash, positions)
    enter_at date num_new total_equity c (some price) cash positions =
        let alloc = strategy.size_position c cash total_equity num_new in
        bought date c price alloc (quantity_for price alloc) cash positions

    unfoldable pub enter :
        Stocks N
        → ℕ
        → ℕ
        → N
        → List (Candidate N)
        → N
        → List (SwingPosition N)
        → N × List (SwingPosition N)
    enter stocks date num_new total_equity [] cash positions = (cash, positions)
    enter stocks date num_new total_equity (c ∷ candidates) cash positions =
        let (cash', positions') =
          enter_at date num_new total_equity c (close_on stocks c.code date) cash positions in
        enter stocks date num_new total_equity candidates cash' positions'

    abbrev pub history_lookback_days : ℕ
    history_lookback_days = max (settings.rv_cooldown_days * 2) trade_history_lookback_days

    abbrev pub recent_trade_history : ℕ → List (SwingTradeRecord N) → List (SwingTradeRecord N)
    recent_trade_history date trades =
        filter (λ t. leb (date - t.exit_date) history_lookback_days) trades

    -- the candidates that the slots have room for
    abbrev pub chosen :
        BacktestData N
        → Stocks N
        → ℕ
        → List (SwingPosition N)
        → List (SwingTradeRecord N)
        → List (Candidate N)
    chosen input stocks date positions trades =
        take (settings.rv_max_positions - length positions) (
          strategy.generate_entry_signals date input.universe stocks positions
            (recent_trade_history date trades) input.benchmark)

    abbrev pub is_empty : List UniverseRow → Bool
    is_empty [] = true
    is_empty (u ∷ us) = false

    -- step 2; the answer has the length of `candidates` if the step binds it
    unfoldable pub open_positions :
        BacktestData N
        → Stocks N
        → ℕ
        → N
        → List (SwingPosition N)
        → List (SwingTradeRecord N)
        → Option ℕ × (N × List (SwingPosition N))
    open_positions input stocks date cash positions trades =
        let candidates = chosen input stocks date positions trades in
        if ltb (length positions) settings.rv_max_positions && not (is_empty input.universe)
        then (
          some (length candidates),
          enter stocks date (length candidates)
              (number.add cash (holdings_value stocks date positions)) candidates cash positions,
        )
        else (none, (cash, positions))

    abbrev pub or_before : Option ℕ → Option ℕ → Option ℕ
    or_before none before = before
    or_before (some n) before = some n

    -- one day: the exits, the entries, the evaluation
    unfoldable pub trading_day : BacktestData N → Stocks N → Book N → ℕ → Book N
    trading_day input stocks book date =
        let (kept, (cash, trades)) =
          close_positions stocks date book.positions (book.cash, book.trade_records) in
        let (signals, (cash', positions)) = open_positions input stocks date cash kept trades in
        let value = holdings_value stocks date positions in
        record {
          cash = cash';
          positions = positions;
          trade_records = trades;
          candidates = or_before signals book.candidates;
          records =
              record {
                date = date;
                equity = number.add cash' value;
                cash = cash';
                holdings_value = value;
                num_holdings = length positions;
                num_signals = count_of (or_before signals book.candidates);
                rebalance = false;
              }
              ∷ book.records;
        }

    unfoldable pub simulate : BacktestData N → Stocks N → List ℕ → Book N → Book N
    simulate input stocks [] book = book
    simulate input stocks (date ∷ dates) book =
        simulate input stocks dates (trading_day input stocks book date)

    -- the keys that do not start with two underscores
    abbrev pub stock_data : BacktestData N → Stocks N
    stock_data input = filter (λ e. not (is_prefix (codes "__") (codes e.0))) input.entries

    -- `none` if there is neither a benchmark nor a stock
    abbrev pub all_dates : Option (Frame N) → Stocks N → Option (List ℕ)
    all_dates (some frame) stocks = some (sorted (map (λ b. b.day) frame))
    all_dates none [] = none
    all_dates none (e ∷ stocks) = some (union_days (e ∷ stocks))

    abbrev pub started : N → Book N
    started cash = record {
      cash = cash;
      positions = [];
      trade_records = [];
      candidates = none;
      records = [];
    }

    -- the log reads the last record, which raises an IndexError if there is none
    abbrev pub ended : Book N → List (DailyRecord N) → BacktestResult N
    ended book [] = index_error
    ended book (r ∷ rs) = finished book

    abbrev run_on : BacktestData N → Stocks N → N → Option (List ℕ) → BacktestResult N
    run_on input stocks cash none = empty_frame
    run_on input stocks cash (some dates) =
        let book = simulate input stocks dates (started cash) in ended book book.records

    unfoldable pub run_direct_trade : BacktestData N → N → BacktestResult N
    run_direct_trade input cash =
        run_on input (stock_data input) cash (all_dates input.benchmark (stock_data input))
