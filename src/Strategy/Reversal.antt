-- ===== src/Strategy/Reversal.antt =====
-- app/strategy/strategies/reversal_volume_strategy.py: the scan, live and over loaded data, the decisions to
-- enter and to exit, and the orders of a live run. What pandas does beyond filters and slices is given.
pub mod Methods
pub mod Measured
pub mod Scan
pub mod Traced
pub mod Agreement
pub mod Entries
use autotrading.Prelude.{
  ℕ, zero, suc, ◌+◌, ◌-◌, max, String, Option, none, some, Bool, true, false, not, ◌&&◌, ◌||◌, List,
  [], ◌∷◌, ◌++◌, map, filter, take, any, all, count, length, ◌≡◌, ltb, leb, ◌==◌, if◌then◌else◌,
  codes, is_digit, All,
}
use mathlib.Core.List.{reverse}
use autotrading.Strategy.{
  Arithmetic, same, Bar, SwingPosition, SwingTradeRecord, take_profit, stop_loss, time_exit,
  ExitDecision, UniverseRow, Candidate, Frame, Stocks, frame_of, close_on, DirectTradeStrategy,
}

-- pandas: a mean, `int(n * p)`, and `sort_values` by a column, which keeps the rows
pub record Pandas (N : Type 0) : Type 1 where
  pub mean : List N → N
  pub share : ℕ → N → ℕ
  pub sort_values : (Candidate N → N) → List (Candidate N) → List (Candidate N)
  pub sort_values_descending :
      (UniverseRow × N → N) → List (UniverseRow × N) → List (UniverseRow × N)
  pub count-sort_values :
      (key : Candidate N → N) (rows : List (Candidate N)) (test : Candidate N → Bool)
      → count test (sort_values key rows) ≡ count test rows
  pub All-sort_values :
      (key : Candidate N → N) (rows : List (Candidate N)) (P : Candidate N → Type 0)
      → All P rows
      → All P (sort_values key rows)

-- the parameters of a strategy, which are also those settings whose names start with `RV_`
pub record ReversalParams (N : Type 0) : Type 0 where
  pub max_marcap : N
  pub min_marcap : N
  pub avg_amount_days : ℕ
  pub top_n_liquid : ℕ
  pub reversal_days : ℕ
  pub reversal_pct : N
  pub volume_avg_days : ℕ
  pub volume_spike_ratio : N
  pub max_drawdown_pct : N
  pub take_profit_pct : N
  pub stop_loss_pct : N
  pub max_holding_days : ℕ
  pub max_positions : ℕ
  pub market_filter_enabled : Bool
  pub market_ma_days : ℕ
  pub cooldown_days : ℕ

-- a row of the exchange's list
pub record Listing (N : Type 0) : Type 0 where
  pub code : String
  pub name : Option String
  pub marcap : N
  pub market : String

abbrev pub nth {ℓ} : {A : Type ℓ} → ℕ → List A → Option A
nth n [] = none
nth zero (x ∷ xs) = some x
nth (suc n) (x ∷ xs) = nth n xs

abbrev pub tail {ℓ} : {A : Type ℓ} → List A → List A
tail [] = []
tail (x ∷ xs) = xs

abbrev pub isin : List String → String → Bool
isin codes code = any (same code) codes

abbrev ends_in_zero : List ℕ → Bool
ends_in_zero [] = false
ends_in_zero (c ∷ cs) = c == b'0'

module _ {N : Type 0} (number : Arithmetic N) (pandas : Pandas N) (params : ReversalParams N) where
  abbrev pub gt : N → N → Bool
  gt a b = number.lt b a

  -- `df["Close"].iloc[-1] / df["Close"].iloc[-(days + 1)] - 1`
  abbrev pub ratio_less_one : Option (Bar N) → Option (Bar N) → Option N
  ratio_less_one (some a) (some b) =
      some (number.sub (number.div a.close b.close) (number.of_nat 1))
  ratio_less_one _ _ = none

  -- the change over the reversal, of a stock whose frame is long enough
  unfoldable pub return_of : Option (Frame N) → Option N
  return_of none = none
  return_of (some frame) =
      if ltb (length frame) (params.reversal_days + 1)
      then none
      else ratio_less_one (nth 0 (reverse frame)) (nth params.reversal_days (reverse frame))

  abbrev pub spike : N → Option (Bar N) → Option N
  spike avg none = none
  spike avg (some b) = if number.lt number.zero avg then some (number.div b.volume avg) else none

  abbrev before_last : Frame N → Frame N
  before_last frame = reverse (take params.volume_avg_days (tail (reverse frame)))

  -- the last volume over the mean of those before it
  unfoldable pub volume_ratio_of : Option (Frame N) → Option N
  volume_ratio_of none = none
  volume_ratio_of (some frame) =
      if ltb (length frame) (params.volume_avg_days + 1)
      then none
      else spike (pandas.mean (map (λ b. b.volume) (before_last frame))) (nth 0 (reverse frame))

  -- The rows of a universe that have a return, and those of a screen that have a ratio. `_screen_reversal`
  -- and `_check_volume_spike` have a copy each of the loops of `scan_from_data`.
  abbrev pub add_return : UniverseRow → Option N → List (Candidate N) → List (Candidate N)
  add_return row none rest = rest
  add_return row (some r) rest =
      record { code = row.code; name = row.name; return_pct = r; volume_ratio = number.zero } ∷ rest

  unfoldable pub with_returns : (String → Option (Frame N)) → List UniverseRow → List (Candidate N)
  with_returns source [] = []
  with_returns source (row ∷ rows) =
      add_return row (return_of (source row.code)) (with_returns source rows)

  abbrev pub add_ratio : Candidate N → Option N → List (Candidate N) → List (Candidate N)
  add_ratio c none rest = rest
  add_ratio c (some r) rest = record c { volume_ratio = r } ∷ rest

  unfoldable pub with_ratios : (String → Option (Frame N)) → List (Candidate N) → List (Candidate N)
  with_ratios source [] = []
  with_ratios source (c ∷ rows) =
      add_ratio c (volume_ratio_of (source c.code)) (with_ratios source rows)

  abbrev pub falling : List (Candidate N) → List (Candidate N)
  falling rows = filter (λ c. number.lt c.return_pct number.zero) rows

  -- the worst part of the rows, one at least
  abbrev pub worst : List (Candidate N) → List (Candidate N)
  worst rows =
      take (max 1 (pandas.share (length rows) params.reversal_pct))
        (pandas.sort_values (λ c. c.return_pct) rows)

  abbrev pub spiking : List (Candidate N) → List (Candidate N)
  spiking rows = filter (λ c. number.le params.volume_spike_ratio c.volume_ratio) rows

  -- `_apply_risk_cut`
  abbrev pub apply_risk_cut : List (Candidate N) → List (Candidate N)
  apply_risk_cut rows = filter (λ c. gt c.return_pct params.max_drawdown_pct) rows

  -- A frame without rows that comes from `pd.DataFrame()` has no columns: it is `none`.
  abbrev pub unless_empty :
      List (Candidate N) → Option (List (Candidate N)) → Option (List (Candidate N))
  unless_empty [] answer = none
  unless_empty (c ∷ rows) answer = answer

  abbrev pub rows_of : Option (List (Candidate N)) → List (Candidate N)
  rows_of none = []
  rows_of (some rows) = rows

  -- the slice of a loaded frame up to a day
  abbrev pub slice_until : ℕ → Option (Frame N) → Option (Frame N)
  slice_until date none = none
  slice_until date (some frame) = some (filter (λ b. leb b.day date) frame)

  -- `scan_from_data`
  unfoldable pub scan_from_data : ℕ → List UniverseRow → Stocks N → Option (List (Candidate N))
  scan_from_data scan_date universe preloaded_data =
      let source : String → Option (Frame N) =
        λ code. slice_until scan_date (frame_of code preloaded_data) in
      let returns = with_returns source universe in
      let screened = falling returns in
      let ratios = with_ratios source (worst screened) in
      unless_empty returns (
        unless_empty screened (
          unless_empty ratios (
            unless_empty (spiking ratios)
              (some (pandas.sort_values (λ c. c.return_pct) (apply_risk_cut (spiking ratios)))))))

  -- `_screen_reversal` and `_check_volume_spike`, over the provider's frames; one that raises has none
  unfoldable pub screen_reversal :
      (String → Option (Frame N)) → List UniverseRow → Option (List (Candidate N))
  screen_reversal source universe =
      let returns = with_returns source universe in
      unless_empty returns (some (worst (falling returns)))

  unfoldable pub check_volume_spike :
      (String → Option (Frame N)) → List (Candidate N) → Option (List (Candidate N))
  check_volume_spike source rows =
      let ratios = with_ratios source rows in unless_empty ratios (some (spiking ratios))

  -- `_filter_liquidity`
  abbrev is_common : Listing N → Bool
  is_common row =
      number.le params.min_marcap row.marcap
      && number.le row.marcap params.max_marcap
      && all is_digit (codes row.code)
      && length (codes row.code) == 6
      && ends_in_zero (reverse (codes row.code))
      && isin ("KOSPI" ∷ "KOSDAQ" ∷ "KOSDAQ GLOBAL" ∷ []) row.market

  abbrev amounts : Frame N → List N
  amounts frame =
      map (λ b. number.mul b.close b.volume) (reverse (take params.avg_amount_days (reverse frame)))

  abbrev avg_amount : Option (Frame N) → Option N
  avg_amount none = none
  avg_amount (some frame) =
      if leb params.avg_amount_days (length frame) then some (pandas.mean (amounts frame)) else none

  abbrev add_amount : Listing N → Option N → List (UniverseRow × N) → List (UniverseRow × N)
  add_amount row none rest = rest
  add_amount row (some amount) rest = (record { code = row.code; name = row.name }, amount) ∷ rest

  unfoldable pub with_amounts :
      (String → Option (Frame N)) → List (Listing N) → List (UniverseRow × N)
  with_amounts source [] = []
  with_amounts source (row ∷ rows) =
      add_amount row (avg_amount (source row.code)) (with_amounts source rows)

  unfoldable pub filter_liquidity :
      List String → (String → Option (Frame N)) → List (Listing N) → List UniverseRow
  unfolding with_amounts
  filter_liquidity special_entity_codes source listings =
      let common =
        filter (λ row. is_common row && not (isin special_entity_codes row.code)) listings in
      map (λ e. e.0)
        (take params.top_n_liquid
          (pandas.sort_values_descending (λ e. e.1) (with_amounts source common)))
