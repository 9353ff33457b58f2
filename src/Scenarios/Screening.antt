-- ===== src/Scenarios/Screening.antt =====
-- A screening by the F-score (app/strategy/screener/fscore.py), with whole numbers.
use autotrading.Prelude.{
  ℕ, ◌+◌, ◌*◌, ◌/◌, ◌≡◌, refl, arith, Option, some, none, List, [], ◌∷◌, ltb, leb, ◌==◌, length,
  if◌then◌else◌,
}
use autotrading.Screener.Fscore.{Number, Config, FsRow, Term, max_possible}
use autotrading.Screener.Fscore.Bounds.{Ordered}
use autotrading.Screener.Fscore.Screening.{validate_lookahead, scores, screen}
use autotrading.Screener.Fscore.Screening.Selected.{screen-max_possible}

abbrev whole : Number ℕ
whole = record {
  zero = 0;
  one = 1;
  add = λ a b. a + b;
  mul = λ a b. a * b;
  div = λ a b. if b == 0 then none else some (a * 1000 / b);
  lt = ltb;
  le = leb;
  nonzero = λ a. ltb 0 a;
}

ordered : Ordered whole
ordered = record {
  le_refl = λ a. ground arith;
  le_trans = λ a b c p q. ground (arith, p, q);
  add_le = λ a b c d p q. ground (arith, p, q);
  add_zero = λ a. omega arith;
  one_mul = λ a. omega arith;
  zero_mul = λ a. omega arith;
}

-- all metrics with their default weights, and a threshold of ten
abbrev config : Config ℕ
config = record { threshold = 10; enabled_categories = []; metric_weights = λ m. none }

abbrev amounts : ℕ → ℕ → Term → Option ℕ
amounts cur prev Term.thstrm = some cur
amounts cur prev Term.frmtrm = some prev
amounts cur prev Term.bfefrmtrm = none

abbrev statements : List (FsRow ℕ)
statements =
    record { sj_div = "BS"; account_id = "ifrs-full_Assets"; amount = amounts 1000 900 }
    ∷ record { sj_div = "BS"; account_id = "ifrs-full_Equity"; amount = amounts 600 500 }
    ∷ record { sj_div = "BS"; account_id = "ifrs-full_Liabilities"; amount = amounts 400 400 }
    ∷ record { sj_div = "BS"; account_id = "ifrs-full_IssuedCapital"; amount = amounts 100 100 }
    ∷ record { sj_div = "CIS"; account_id = "ifrs-full_ProfitLoss"; amount = amounts 80 50 }
    ∷ record {
      sj_div = "CF";
      account_id = "ifrs-full_CashFlowsFromUsedInOperatingActivities";
      amount = amounts 90 0;
    }
    ∷ []

screen-max_possible_example :
    screen whole config 2024
      (record { year = 2026; month = 4; day = 10 })
      (("005930", statements) ∷ [])
    ≡ (if length (scores whole config (("005930", statements) ∷ [])) == 0 then none else some [])
screen-max_possible_example =
    screen-max_possible whole config 2024 (record { year = 2026; month = 4; day = 10 })
      (("005930", statements) ∷ []) ordered (λ m. refl) (unfold max_possible in refl)
      (unfold validate_lookahead in refl)
