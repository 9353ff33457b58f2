-- ===== src/Screener/Fscore.antt =====
-- app/strategy/screener/fscore.py: the F-score of a company, from the rows of its financial statements. The
-- numbers of Python and pandas are a parameter, NaN among them, so that nothing is assumed of a comparison
-- that both fail. An exception is `none`: the one caller passes over the stock, whichever it was.
pub mod Screening
pub mod Bounds
use autotrading.Prelude.{
  ℕ, String, Option, none, some, Bool, true, false, not, ◌&&◌, List, [], ◌∷◌, any, filter, find,
  map, if◌then◌else◌, codes, codes_eq,
}

-- what the code does with numbers; a division may raise
pub record Number (N : Type 0) : Type 0 where
  pub zero : N
  pub one : N
  pub add : N → N → N
  pub mul : N → N → N
  pub div : N → N → Option N
  pub lt : N → N → Bool
  pub le : N → N → Bool
  pub nonzero : N → Bool

infixl 5 ◌>>=◌
abbrev pub ◌>>=◌ : {A B : Type 0} → Option A → (A → Option B) → Option B
◌>>=◌ none f = none
◌>>=◌ (some a) f = f a

-- the categories P, F and O
pub data Category : Type 0 where
  profitability financial operating : Category

pub data Metric : Type 0 where
  f_roa f_cfo f_delta_roa f_accrual f_delta_lever f_delta_liquid f_eq_offer f_delta_margin
        f_delta_turnover :
      Metric

-- DEFAULT_METRICS, in the order of the dictionary, and the category of each
abbrev pub metrics : List Metric
metrics =
    f_roa ∷ f_cfo ∷ f_delta_roa ∷ f_accrual ∷ f_delta_lever ∷ f_delta_liquid ∷ f_eq_offer
    ∷ f_delta_margin ∷ f_delta_turnover ∷ []

abbrev pub category : Metric → Category
category f_roa = profitability
category f_cfo = profitability
category f_delta_roa = profitability
category f_accrual = profitability
category f_delta_lever = financial
category f_delta_liquid = financial
category f_eq_offer = financial
category f_delta_margin = operating
category f_delta_turnover = operating

abbrev pub category_eq : Category → Category → Bool
category_eq profitability profitability = true
category_eq financial financial = true
category_eq operating operating = true
category_eq _ _ = false

-- `enabled_categories or {"P", "F", "O"}`
abbrev pub enabled_or_all : List Category → List Category
enabled_or_all [] = profitability ∷ financial ∷ operating ∷ []
enabled_or_all (c ∷ cs) = c ∷ cs

pub data Term : Type 0 where
  thstrm frmtrm bfefrmtrm : Term

-- a row of the statements: its section, its account, and its amounts of three years
pub record FsRow (N : Type 0) : Type 0 where
  pub sj_div : String
  pub account_id : String
  pub amount : Term → Option N

abbrev pub same : String → String → Bool
same a b = codes_eq (codes a) (codes b)

-- the settings of a screener
pub record Config (N : Type 0) : Type 0 where
  pub threshold : N
  pub enabled_categories : List Category
  pub metric_weights : Metric → Option N

-- what `_calculate_fscore` answers, its scores by their metric
pub record Score (N : Type 0) : Type 0 where
  pub code : String
  pub fscore : N
  pub equity : N
  pub raw_scores : Metric → Bool

module _ {N : Type 0} (number : Number N) where
  abbrev pub weight_of : Option N → N
  weight_of none = number.one
  weight_of (some w) = w

  -- `_get_metric_weight` and `_is_metric_enabled`
  abbrev pub get_metric_weight : Config N → Metric → N
  get_metric_weight config metric = weight_of (config.metric_weights metric)

  abbrev pub is_metric_enabled : Config N → Metric → Bool
  is_metric_enabled config metric =
      any (category_eq (category metric)) (enabled_or_all config.enabled_categories)

  abbrev pub is_account : String → String → FsRow N → Bool
  is_account sj_div account_id row = same row.sj_div sj_div && same row.account_id account_id

  abbrev pub amount_of : Term → Option (FsRow N) → Option N
  amount_of term none = none
  amount_of term (some row) = row.amount term

  -- the first row, or that of the comprehensive income statement
  abbrev pub or_cis : String → String → List (FsRow N) → Option (FsRow N) → Option (FsRow N)
  or_cis sj_div account_id rows (some row) = some row
  or_cis sj_div account_id rows none =
      if same sj_div "IS" then find (is_account "CIS" account_id) rows else none

  unfoldable pub get_amount : List (FsRow N) → String → String → Term → Option N
  get_amount rows sj_div account_id term =
      amount_of term (or_cis sj_div account_id rows (find (is_account sj_div account_id) rows))

  -- `a / b if b else 0`: no division for a missing or zero `b`, and a TypeError for a missing `a`
  abbrev pub ratio_if : Option N → Option N → Option N
  ratio_if a none = some number.zero
  ratio_if none (some b) = if number.nonzero b then none else some number.zero
  ratio_if (some a) (some b) = if number.nonzero b then number.div a b else some number.zero

  -- `a / b if (a is not None and b is not None and b != 0) else 0`
  abbrev pub ratio_of : Option N → Option N → Option N
  ratio_of (some a) (some b) = if number.nonzero b then number.div a b else some number.zero
  ratio_of _ _ = some number.zero

  -- `a <= b`, a TypeError if one is missing
  abbrev pub at_most : Option N → Option N → Option Bool
  at_most (some a) (some b) = some (number.le a b)
  at_most _ _ = none

  -- the nine tests, from the ratios
  abbrev pub raw_score :
      (roa_cur roa_prev cfo cfo_ratio leverage_cur leverage_prev current_cur current_prev margin_cur
        margin_prev turnover_cur turnover_prev : N)
      → Bool
      → Metric
      → Bool
  raw_score roa_cur roa_prev cfo cfo_ratio lev_cur lev_prev liq_cur liq_prev mar_cur mar_prev
        turn_cur turn_prev no_offer f_roa =
      number.lt number.zero roa_cur
  raw_score roa_cur roa_prev cfo cfo_ratio lev_cur lev_prev liq_cur liq_prev mar_cur mar_prev
        turn_cur turn_prev no_offer f_cfo =
      number.lt number.zero cfo
  raw_score roa_cur roa_prev cfo cfo_ratio lev_cur lev_prev liq_cur liq_prev mar_cur mar_prev
        turn_cur turn_prev no_offer f_delta_roa =
      number.lt roa_prev roa_cur
  raw_score roa_cur roa_prev cfo cfo_ratio lev_cur lev_prev liq_cur liq_prev mar_cur mar_prev
        turn_cur turn_prev no_offer f_accrual =
      number.lt roa_cur cfo_ratio
  raw_score roa_cur roa_prev cfo cfo_ratio lev_cur lev_prev liq_cur liq_prev mar_cur mar_prev
        turn_cur turn_prev no_offer f_delta_lever =
      number.lt lev_cur lev_prev
  raw_score roa_cur roa_prev cfo cfo_ratio lev_cur lev_prev liq_cur liq_prev mar_cur mar_prev
        turn_cur turn_prev no_offer f_delta_liquid =
      number.lt liq_prev liq_cur
  raw_score roa_cur roa_prev cfo cfo_ratio lev_cur lev_prev liq_cur liq_prev mar_cur mar_prev
        turn_cur turn_prev no_offer f_eq_offer =
      no_offer
  raw_score roa_cur roa_prev cfo cfo_ratio lev_cur lev_prev liq_cur liq_prev mar_cur mar_prev
        turn_cur turn_prev no_offer f_delta_margin =
      number.lt mar_prev mar_cur
  raw_score roa_cur roa_prev cfo cfo_ratio lev_cur lev_prev liq_cur liq_prev mar_cur mar_prev
        turn_cur turn_prev no_offer f_delta_turnover =
      number.lt turn_prev turn_cur

  -- `raw_value * weight` for an enabled metric, and 0.0 for another
  abbrev pub weighted_score : Config N → (Metric → Bool) → Metric → N
  weighted_score config raw metric =
      if is_metric_enabled config metric
      then number.mul (if raw metric then number.one else number.zero)
          (get_metric_weight config metric)
      else number.zero

  -- `sum`, from the left
  abbrev pub sum_from : N → (Metric → N) → List Metric → N
  sum_from acc f [] = acc
  sum_from acc f (metric ∷ rest) = sum_from (number.add acc (f metric)) f rest

  -- the first part of `_calculate_fscore`: the equity and the nine tests, which need no settings
  unfoldable pub raw_scores : List (FsRow N) → Option (N × (Metric → Bool))
  unfolding get_amount
  raw_scores rows = do
    assets_cur ← get_amount rows "BS" "ifrs-full_Assets" thstrm
    assets_prev ← get_amount rows "BS" "ifrs-full_Assets" frmtrm
    equity_cur ← get_amount rows "BS" "ifrs-full_Equity" thstrm
    equity_prev ← get_amount rows "BS" "ifrs-full_Equity" frmtrm
    income_cur ← get_amount rows "IS" "ifrs-full_ProfitLoss" thstrm
    income_prev ← get_amount rows "IS" "ifrs-full_ProfitLoss" frmtrm
    cfo ← get_amount rows "CF" "ifrs-full_CashFlowsFromUsedInOperatingActivities" thstrm
    roa_cur ← number.div income_cur assets_cur
    roa_prev ← number.div income_prev assets_prev
    cfo_ratio ← number.div cfo assets_cur
    lev_cur ← ratio_if (get_amount rows "BS" "ifrs-full_Liabilities" thstrm) (some equity_cur)
    lev_prev ← ratio_if (get_amount rows "BS" "ifrs-full_Liabilities" frmtrm) (some equity_prev)
    liq_cur ←
        ratio_if (get_amount rows "BS" "ifrs-full_CurrentAssets" thstrm)
          (get_amount rows "BS" "ifrs-full_CurrentLiabilities" thstrm)
    liq_prev ←
        ratio_if (get_amount rows "BS" "ifrs-full_CurrentAssets" frmtrm)
          (get_amount rows "BS" "ifrs-full_CurrentLiabilities" frmtrm)
    mar_cur ←
        ratio_of (get_amount rows "IS" "ifrs-full_GrossProfit" thstrm)
          (get_amount rows "IS" "ifrs-full_Revenue" thstrm)
    mar_prev ←
        ratio_of (get_amount rows "IS" "ifrs-full_GrossProfit" frmtrm)
          (get_amount rows "IS" "ifrs-full_Revenue" frmtrm)
    turn_cur ← ratio_of (get_amount rows "IS" "ifrs-full_Revenue" thstrm) (some assets_cur)
    turn_prev ← ratio_of (get_amount rows "IS" "ifrs-full_Revenue" frmtrm) (some assets_prev)
    no_offer ←
        at_most (get_amount rows "BS" "ifrs-full_IssuedCapital" thstrm)
          (get_amount rows "BS" "ifrs-full_IssuedCapital" frmtrm)
    some (
      equity_cur,
      raw_score roa_cur roa_prev cfo cfo_ratio lev_cur lev_prev liq_cur liq_prev mar_cur mar_prev
          turn_cur turn_prev no_offer,
    )

  abbrev pub scored : Config N → String → Option (N × (Metric → Bool)) → Option (Score N)
  scored config code none = none
  scored config code (some (equity_cur, raw)) = some (record {
    code = code;
    fscore = sum_from number.zero (weighted_score config raw) metrics;
    equity = equity_cur;
    raw_scores = raw;
  })

  -- `_calculate_fscore`
  unfoldable pub calculate_fscore : Config N → String → List (FsRow N) → Option (Score N)
  unfolding raw_scores
  calculate_fscore config code rows = scored config code (raw_scores rows)

  -- the greatest score that the enabled metrics allow
  unfoldable pub max_possible : Config N → N
  max_possible config =
      sum_from number.zero (get_metric_weight config) (filter (is_metric_enabled config) metrics)
