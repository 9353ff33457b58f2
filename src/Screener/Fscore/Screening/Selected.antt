-- ===== src/Screener/Fscore/Screening/Selected.antt =====
-- Which stocks the screening by the F-score lets through, and for which year.
use autotrading.Prelude.{
  ℕ, ◌+◌, ◌≡◌, ◌≤◌, refl, String, none, some, true, false, ◌&&◌, List, [], ◌∷◌, filter, length, ltb,
  leb, ◌==◌, if◌then◌else◌, arith, Bool-cases, Option-cases, inl, inr,
}
use autotrading.Screener.Fscore.{
  Number, Metric, Config, Score, FsRow, calculate_fscore, max_possible, get_metric_weight,
}
use autotrading.Screener.Fscore.Bounds.{Ordered, calculate_fscore-max_possible}
use autotrading.Screener.Fscore.Screening.{Date, validate_lookahead, scores, screen}
use autotrading.Rebalance.Executor.{infer_latest_available_fiscal_year}

-- The year that a rebalance infers from a day passes the screener's check against that day, so the check
-- never stops a rebalance; the year after it passes only in the fortnight from the first of April, which is
-- left as a margin.
pub infer-validate_lookahead :
    (today : Date)
    → 2 ≤ today.year
    → let year = infer_latest_available_fiscal_year today.year today.month today.day in
      (validate_lookahead year today ≡ true)
      × (validate_lookahead (year + 1) today
          ≡ (today.month == 4 && ltb today.day 15 && leb 1 today.day))
unfolding infer_latest_available_fiscal_year validate_lookahead
infer-validate_lookahead today late = (ground arith, ground arith)

module _ {N : Type 0} (number : Number N) (config : Config N) where
  module _ (ordered : Ordered number)
      (positive : (m : Metric) → number.le number.zero (get_metric_weight number config m) ≡ true)
      (high : number.le config.threshold (max_possible number config) ≡ false) where
    below_threshold :
        (code : String) (rows : List (FsRow N)) (s : Score N)
        → calculate_fscore number config code rows ≡ some s
        → number.le config.threshold s.fscore ≡ false
    below_threshold code rows s found = elim (Bool-cases (number.le config.threshold s.fscore)) [
      | inr off ↦ off
      | inl on ↦ absurd (
          ground (
            arith,
            high,
            ordered.le_trans config.threshold s.fscore (max_possible number config) on
                (calculate_fscore-max_possible number config ordered code rows s positive found),
          ))
    ]

    filter-scores :
        (financial_data : List (String × List (FsRow N)))
        → filter (λ s. number.le config.threshold s.fscore) (scores number config financial_data)
          ≡ []
    unfolding scores
    filter-scores [] = refl
    filter-scores ((code, rows) ∷ financial_data) =
        elim (Option-cases (calculate_fscore number config code rows)) [
          | inl failed ↦ rw failed (filter-scores financial_data)
          | inr (s, found) ↦
              rw (found, below_threshold code rows s found) (filter-scores financial_data)
        ]

  -- With no weight below 0, and a threshold that is not within the greatest possible score, a screening of a
  -- year whose reports are out lets no stock through, and raises if no stock could be scored.
  pub screen-max_possible :
      (year : ℕ) (ref_date : Date) (financial_data : List (String × List (FsRow N)))
      → Ordered number
      → ((m : Metric) → number.le number.zero (get_metric_weight number config m) ≡ true)
      → number.le config.threshold (max_possible number config) ≡ false
      → validate_lookahead year ref_date ≡ true
      → screen number config year ref_date financial_data
        ≡ (if length (scores number config financial_data) == 0 then none else some [])
  unfolding screen
  screen-max_possible year ref_date financial_data ordered positive high out =
      rw (out, filter-scores ordered positive high financial_data) refl
