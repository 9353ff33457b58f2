-- ===== src/Strategy.antt =====
-- What trades single stocks: app/schemas/strategy/simulation.py, the decisions to exit in
-- app/schemas/strategy/trading.py, and the interface app/strategy/strategies/direct_trade_strategy.py.
-- The numbers of pandas are a parameter, of whose arithmetic nothing is assumed. A frame of prices is the list
-- of its rows, in the order of its index, and a day is a natural number.
pub mod Reversal
use autotrading.Prelude.{
  ℕ, ◌+◌, ◌-◌, ◌≤◌, ◌≡◌, ◌==◌, leb, any, all, count, not, ◌&&◌, ◌||◌, String, Option, none, some,
  Bool, true, false, List, [], ◌∷◌, find, codes, codes_eq,
}

pub record Arithmetic (N : Type 0) : Type 0 where
  pub zero : N
  pub add : N → N → N
  pub sub : N → N → N
  pub mul : N → N → N
  pub div : N → N → N
  pub of_nat : ℕ → N
  pub lt : N → N → Bool
  pub le : N → N → Bool

abbrev pub same : String → String → Bool
same a b = codes_eq (codes a) (codes b)

pub record Bar (N : Type 0) : Type 0 where
  pub day : ℕ
  pub close : N
  pub volume : N

pub record SwingPosition (N : Type 0) : Type 0 where
  pub stock_code : String
  pub stock_name : String
  pub entry_price : N
  pub quantity : N
  pub entry_date : ℕ
  pub holding_days : ℕ

pub data ExitReason : Type 0 where
  take_profit stop_loss time_exit : ExitReason

-- the exit reason of a record is `None`'s text if the strategy gives no reason
pub record SwingTradeRecord (N : Type 0) : Type 0 where
  pub stock_code : String
  pub stock_name : String
  pub entry_date : ℕ
  pub exit_date : ℕ
  pub entry_price : N
  pub exit_price : N
  pub quantity : N
  pub return_pct : N
  pub holding_days : ℕ
  pub exit_reason : Option ExitReason

-- `ExitDecision`: its two other fields are read nowhere
pub record ExitDecision : Type 0 where
  pub should_exit : Bool
  pub reason : Option ExitReason

-- a row of the universe, and a row of the candidates to enter
pub record UniverseRow : Type 0 where
  pub code : String
  pub name : Option String

pub record Candidate (N : Type 0) : Type 0 where
  pub code : String
  pub name : Option String
  pub return_pct : N
  pub volume_ratio : N

module _ (N : Type 0) where
  abbrev pub Frame : Type 0
  Frame = List (Bar N)

  -- the frames by their stock's code
  abbrev pub Stocks : Type 0
  Stocks = List (String × Frame)

module _ {N : Type 0} where
  abbrev pub frame_of : String → Stocks N → Option (Frame N)
  frame_of code [] = none
  frame_of code ((key, frame) ∷ stocks) = elim (same key code) [
    | true ↦ some frame
    | false ↦ frame_of code stocks
  ]

  abbrev row_on : ℕ → Option (Frame N) → Option (Bar N)
  row_on day none = none
  row_on day (some frame) = find (λ b. b.day == day) frame

  abbrev close_of : Option (Bar N) → Option N
  close_of none = none
  close_of (some b) = some b.close

  -- `code in data and date in data[code].index`, with `data[code].loc[date, "Close"]`
  abbrev pub close_on : Stocks N → String → ℕ → Option N
  close_on stocks code day = close_of (row_on day (frame_of code stocks))

  -- the sets `held` and `recent_exits` of a strategy that waits some days after an exit
  abbrev pub is_held : List (SwingPosition N) → String → Bool
  is_held positions code = any (λ p. same p.stock_code code) positions

  abbrev pub is_recent_exit : ℕ → ℕ → List (SwingTradeRecord N) → String → Bool
  is_recent_exit cooldown_days date trades code =
      any (λ t. leb (date - t.exit_date) cooldown_days && same t.stock_code code) trades

-- The methods that the executor calls. The days, the prices and the ledger come from the executor, the
-- decisions from the strategy.
pub record DirectTradeStrategy (N : Type 0) : Type 0 where
  pub should_exit : SwingPosition N → ℕ → Stocks N → ExitDecision
  pub generate_entry_signals :
      ℕ
      → List UniverseRow
      → Stocks N
      → List (SwingPosition N)
      → List (SwingTradeRecord N)
      → Option (Frame N)
      → List (Candidate N)
  pub size_position : Candidate N → N → N → ℕ → N

-- What the executor may rely on, of a strategy that holds a stock once and waits some days after an exit: the
-- candidates are neither held nor fresh from an exit in the history that it is shown, and each of them
-- comes once, if the universe has each stock once.
pub record WaitsAfterExit {N : Type 0} (cooldown_days : ℕ) (strategy : DirectTradeStrategy N)
    : Type 0 where
  pub fresh :
      (date : ℕ) (universe : List UniverseRow) (stocks : Stocks N)
      (positions : List (SwingPosition N)) (trades : List (SwingTradeRecord N))
      (benchmark : Option (Frame N))
      → all
          (λ c. not (is_held positions c.code || is_recent_exit cooldown_days date trades c.code))
          (strategy.generate_entry_signals date universe stocks positions trades benchmark)
        ≡ true
  pub once :
      (date : ℕ) (universe : List UniverseRow) (stocks : Stocks N)
      (positions : List (SwingPosition N)) (trades : List (SwingTradeRecord N))
      (benchmark : Option (Frame N)) (code : String)
      → count
          (λ c. same code c.code)
          (strategy.generate_entry_signals date universe stocks positions trades benchmark)
        ≤ count (λ u. same code u.code) universe
