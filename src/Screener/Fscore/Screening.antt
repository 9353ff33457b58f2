-- ===== src/Screener/Fscore/Screening.antt =====
-- The screening by the F-score (app/strategy/screener/fscore.py), with the check of the date
-- (app/strategy/screener/base_screener.py) and the year that a rebalance asks for
-- (app/services/rebalance/rebalance_orchestrator.py).
pub mod Selected
use autotrading.Prelude.{
  ℕ, ◌+◌, String, Option, none, some, Bool, true, false, not, ◌&&◌, ◌||◌, List, [], ◌∷◌, filter,
  length, ltb, ◌==◌, if◌then◌else◌,
}
use autotrading.Screener.Fscore.{Number, Config, Score, FsRow, calculate_fscore}

pub record Date : Type 0 where
  pub year : ℕ
  pub month : ℕ
  pub day : ℕ

abbrev pub before : Date → Date → Bool
before a b =
    ltb a.year b.year
    || (a.year == b.year && (ltb a.month b.month || (a.month == b.month && ltb a.day b.day)))

-- DISCLOSURE_MONTH, and the day from which the report of a year may be used
abbrev pub disclosure_date : ℕ → Date
disclosure_date year = record { year = year + 1; month = 4; day = 1 }

-- `_validate_lookahead`: whether it passes
unfoldable pub validate_lookahead : ℕ → Date → Bool
validate_lookahead year ref_date = not (before ref_date (disclosure_date year))

module _ {N : Type 0} (number : Number N) (config : Config N) where
  abbrev pub add_score : Option (Score N) → List (Score N) → List (Score N)
  add_score none results = results
  add_score (some score) results = score ∷ results

  -- step 3: a stock whose calculation fails is passed over
  unfoldable pub scores : List (String × List (FsRow N)) → List (Score N)
  unfolding calculate_fscore
  scores [] = []
  scores ((code, rows) ∷ financial_data) =
      add_score (calculate_fscore number config code rows) (scores financial_data)

  -- Steps 3 and 4 of `screen`: the scores that reach the threshold. A frame without rows has no column
  -- `fscore`, so the filter raises a KeyError if there is no score at all; a year that is too early
  -- raises as well.
  unfoldable pub screen : ℕ → Date → List (String × List (FsRow N)) → Option (List (Score N))
  unfolding validate_lookahead scores
  screen year ref_date financial_data =
      let results = scores financial_data in
      if not (validate_lookahead year ref_date)
      then none
      else if length results == 0
      then none
      else some (filter (λ s. number.le config.threshold s.fscore) results)
