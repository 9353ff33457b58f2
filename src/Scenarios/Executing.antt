-- ===== src/Scenarios/Executing.antt =====
-- A rebalance from the strategy's result to its record (app/strategy/runtime/rebalance_executor.py), and the
-- submission of its orders.
use autotrading.Prelude.{◌+◌, ◌≡◌, refl, some, none, true, false, List, [], ◌∷◌, inr, if◌then◌else◌}
use autotrading.Domain.{market, filled}
use autotrading.Worker.Effects.{reply, error, exception}
use autotrading.Rebalance.Generator.{OrderGenerationResult}
use autotrading.Rebalance.Executor.{
  TradeIntent, TradeSide, Session, ExecutorEnv, submit, run_and_report,
}
use autotrading.Rebalance.Executor.Records.{
  Keeps, Recorded, is_completed, submit-Recorded, run_and_report-alerts,
}
use autotrading.Rebalance.Submission.{Wait, SubmissionEnv, Purchases, submit_orders}
use autotrading.Scenarios.{bid, world}

abbrev intents : List TradeIntent
intents =
    record {
      stock_code = "005930";
      stock_name = "Samsung";
      side = TradeSide.buy;
      price_hint = some 70000;
    }
    ∷ []

-- the submission commits and then fails
abbrev env : ExecutorEnv (Unit {0})
env = record {
  rebalance_id = 5;
  holdings = reply [];
  available_cash = reply 1000000;
  flush = reply tt;
  last_commit = reply tt;
  mark_failed = reply tt;
  cash_buffer_ratio = 200;
  new_id = λ n. n + 100;
  order_type = market;
  submit_orders = λ orders s. (error (exception "TimeoutError"), record s { saved = s.row });
}

abbrev session : Session (Unit {0})
session = record { world = tt; row = none; saved = none; rebalance_alerts = 0; error_alerts = 0 }

keeps : Keeps env
keeps orders s = (refl, inr refl, refl)

submit-Recorded_example : Recorded env false 0 (submit env intents false session)
submit-Recorded_example = submit-Recorded env intents false session keeps refl

run_and_report-alerts_example :
    let s' = run_and_report env (reply intents) false session in
    s'.error_alerts ≡ 0 + (if is_completed s'.saved then 0 else 1)
run_and_report-alerts_example = run_and_report-alerts env (reply intents) session keeps refl

-- the workers fill the order between the two looks
abbrev wait : Wait
wait = record {
  others = λ w. w;
  polls =
      record { elapsed = 0; rows = bid ∷ [] }
      ∷ record { elapsed = 3000000; rows = record bid { status = filled } ∷ [] }
      ∷ [];
  new_id = λ n. n + 200;
}

abbrev submission : SubmissionEnv
submission = record {
  decimal = λ n. "0";
  dry_run = false;
  fill_timeout_seconds = 3;
  order_type = market;
  new_id = λ n. n + 100;
  available_buy = reply 1000000;
  sell_wait = wait;
  buy_wait = wait;
}

abbrev purchases : Purchases
purchases = record {
  buy_codes = "005930" ∷ [];
  hold_list = [];
  price_map = λ code. some 70000;
  name_map = λ code. none;
  has_prices = true;
}

abbrev generated : OrderGenerationResult
generated = record { rebalance_id = 5; sell_orders = []; buy_orders = []; skipped = [] }
