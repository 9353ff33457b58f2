-- ===== src/Strategy/Reversal/Methods.antt =====
-- The methods of app/strategy/strategies/reversal_volume_strategy.py: the live scan and its orders, and what
-- the backtest calls.
use autotrading.Prelude.{
  ℕ, zero, suc, ◌+◌, ◌-◌, String, Option, none, some, Bool, true, false, not, ◌&&◌, ◌||◌, List, [],
  ◌∷◌, map, filter, take, length, ltb, leb, if◌then◌else◌,
}
use mathlib.Core.List.{reverse}
use autotrading.Strategy.{
  Arithmetic, Bar, SwingPosition, SwingTradeRecord, ExitReason, take_profit, stop_loss, time_exit,
  ExitDecision, UniverseRow, Candidate, Frame, Stocks, close_on, is_held, is_recent_exit,
  DirectTradeStrategy,
}
use autotrading.Strategy.Reversal.{
  Pandas, ReversalParams, Listing, nth, isin, filter_liquidity, screen_reversal, check_volume_spike,
  apply_risk_cut, slice_until, scan_from_data, rows_of,
}

-- the parameters that `__init__` is given, each of which may be `None`
pub record Overrides (N : Type 0) : Type 0 where
  pub max_marcap : Option N
  pub min_marcap : Option N
  pub avg_amount_days : Option ℕ
  pub top_n_liquid : Option ℕ
  pub reversal_days : Option ℕ
  pub reversal_pct : Option N
  pub volume_avg_days : Option ℕ
  pub volume_spike_ratio : Option N
  pub max_drawdown_pct : Option N
  pub take_profit_pct : Option N
  pub stop_loss_pct : Option N
  pub max_holding_days : Option ℕ
  pub max_positions : Option ℕ
  pub market_filter_enabled : Option Bool
  pub market_ma_days : Option ℕ
  pub cooldown_days : Option ℕ

abbrev pub or_setting {ℓ} : {A : Type ℓ} → Option A → A → A
or_setting none setting = setting
or_setting (some a) setting = a

-- `__init__`; `s` is `strategy_settings`
unfoldable pub initialised : {N : Type 0} → ReversalParams N → Overrides N → ReversalParams N
initialised s o = record {
  max_marcap = or_setting o.max_marcap s.max_marcap;
  min_marcap = or_setting o.min_marcap s.min_marcap;
  avg_amount_days = or_setting o.avg_amount_days s.avg_amount_days;
  top_n_liquid = or_setting o.top_n_liquid s.top_n_liquid;
  reversal_days = or_setting o.reversal_days s.reversal_days;
  reversal_pct = or_setting o.reversal_pct s.reversal_pct;
  volume_avg_days = or_setting o.volume_avg_days s.volume_avg_days;
  volume_spike_ratio = or_setting o.volume_spike_ratio s.volume_spike_ratio;
  max_drawdown_pct = or_setting o.max_drawdown_pct s.max_drawdown_pct;
  take_profit_pct = or_setting o.take_profit_pct s.take_profit_pct;
  stop_loss_pct = or_setting o.stop_loss_pct s.stop_loss_pct;
  max_holding_days = or_setting o.max_holding_days s.max_holding_days;
  max_positions = or_setting o.max_positions s.max_positions;
  market_filter_enabled = or_setting o.market_filter_enabled s.market_filter_enabled;
  market_ma_days = or_setting o.market_ma_days s.market_ma_days;
  cooldown_days = or_setting o.cooldown_days s.cooldown_days;
}

-- an order of a live run; the side is always BUY, and the reason is the two figures before they are
-- formatted, the return first
pub record TradeIntent (N : Type 0) : Type 0 where
  pub stock_code : String
  pub stock_name : Option String
  pub reason : N × N

pub record StrategyResult (N : Type 0) : Type 0 where
  pub orders : List (TradeIntent N)
  pub candidates_count : ℕ

abbrev pub hold : ExitDecision
hold = record { should_exit = false; reason = none }

abbrev pub leave : ExitReason → ExitDecision
leave why = record { should_exit = true; reason = some why }

module _ {N : Type 0} (number : Arithmetic N) (pandas : Pandas N) (params : ReversalParams N) where
  infixl 5 ◌>>=◌
  abbrev pub ◌>>=◌ : {A B : Type 0} → Option A → (A → Option B) → Option B
  ◌>>=◌ none f = none
  ◌>>=◌ (some a) f = f a

  abbrev pub nonempty : {A : Type 0} → List A → Option (List A)
  nonempty [] = none
  nonempty (x ∷ xs) = some (x ∷ xs)

  -- `scan`: the frames that the provider answers for the window of days, and the exchange's list, are given
  unfoldable pub scan :
      List String → (String → Option (Frame N)) → List (Listing N) → Option (List (Candidate N))
  unfolding screen_reversal check_volume_spike
  scan special source listings = do
    universe ← nonempty (filter_liquidity number pandas params special source listings)
    screened ← screen_reversal number pandas params source universe
    reversal ← nonempty screened
    spiked ← check_volume_spike number pandas params source reversal
    volume ← nonempty spiked
    some (pandas.sort_values (λ c. c.return_pct) (apply_risk_cut number pandas params volume))

  abbrev pub intent : Candidate N → TradeIntent N
  intent c = record {
    stock_code = c.code;
    stock_name = c.name;
    reason = (c.return_pct, c.volume_ratio);
  }

  -- what is left of the candidates
  abbrev pub admitted : List String → List (Candidate N) → List (Candidate N)
  admitted current_positions rows =
      take (params.max_positions - length current_positions)
        (filter (λ c. not (isin current_positions c.code)) rows)

  -- `execute`; `none` is the KeyError of a frame that has no column `Code`
  unfoldable pub execute : List String → Option (List (Candidate N)) → Option (StrategyResult N)
  execute current_positions none = none
  execute current_positions (some rows) =
      let candidates = admitted current_positions rows in
      some (record { orders = map intent candidates; candidates_count = length candidates })

  abbrev is_below_mean : List (Bar N) → Option (Bar N) → Bool
  is_below_mean recent none = false
  is_below_mean recent (some last) = number.lt last.close (pandas.mean (map (λ b. b.close) recent))

  abbrev bear_at : ℕ → Frame N → Bool
  bear_at date frame =
      if ltb (length frame) (params.market_ma_days + 1)
      then true
      else is_below_mean (reverse (take params.market_ma_days (reverse frame)))
          (nth 0 (reverse frame))

  abbrev bear_until : ℕ → Option (Frame N) → Bool
  bear_until date none = true
  bear_until date (some frame) = bear_at date frame

  -- `_is_bear_market`; an empty frame has no more rows than the mean asks for
  unfoldable pub is_bear_market : ℕ → Option (Frame N) → Bool
  is_bear_market date benchmark = bear_until date (slice_until number pandas params date benchmark)

  abbrev pub decided : SwingPosition N → Option N → ExitDecision
  decided position none = hold
  decided position (some price) =
      let ret = number.div (number.sub price position.entry_price) position.entry_price in
      if number.le params.take_profit_pct ret
      then leave take_profit
      else if number.le ret params.stop_loss_pct
      then leave stop_loss
      else if leb params.max_holding_days position.holding_days
      then leave time_exit
      else hold

  unfoldable pub should_exit : SwingPosition N → ℕ → Stocks N → ExitDecision
  should_exit position date stocks = decided position (close_on stocks position.stock_code date)

  unfoldable pub generate_entry_signals :
      ℕ
      → List UniverseRow
      → Stocks N
      → List (SwingPosition N)
      → List (SwingTradeRecord N)
      → Option (Frame N)
      → List (Candidate N)
  generate_entry_signals date universe stocks positions trades benchmark =
      if params.market_filter_enabled && not (is_bear_market date benchmark)
      then []
      else filter
          (λ c.
            not
              (is_held positions c.code || is_recent_exit params.cooldown_days date trades c.code))
          (rows_of number pandas params (scan_from_data number pandas params date universe stocks))

  unfoldable pub size_position : Candidate N → N → N → ℕ → N
  size_position signal available_cash total_equity zero = number.zero
  size_position signal available_cash total_equity (suc n) =
      number.div available_cash (number.of_nat (suc n))

  abbrev pub reversal_strategy : DirectTradeStrategy N
  reversal_strategy = record {
    should_exit = should_exit;
    generate_entry_signals = generate_entry_signals;
    size_position = size_position;
  }
