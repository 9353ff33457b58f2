-- ===== src/Scenarios/Scheduling.antt =====
-- An automatic rebalance, and a recovery. The calendar has every day open.
use autotrading.Prelude.{◌+◌, ◌/◌, List, [], ◌∷◌, ◌≡◌, ◌↔◌, refl, true, false, arith}
use autotrading.Schedule.{Calendar, RebalanceWindow, GateInputs, started, decide, execute_rebalance}
use autotrading.Rebalance.Executor.{running, completed, failed}
use autotrading.Rebalance.History.{
  PastRebalance, get_last_completed_rebalance_date, has_completed_rebalance_in_month,
}
use autotrading.Schedule.Window.{IsCalendar}
use autotrading.Schedule.Gates.{Passes, execute_rebalance_iff}

abbrev every_day : Calendar
every_day = record { is_business_day = λ d. true; add_business_days = λ d n. d + n }

every_day-IsCalendar : IsCalendar every_day
every_day-IsCalendar = record {
  is_later = λ d. omega arith;
  is_open = λ d. refl;
  is_first = λ d e later open_day. omega (arith, later);
}

-- a rebalance on day 100, and the hour from nine to ten
abbrev window : RebalanceWindow
window = record {
  last_rebalance_date = 100;
  rebalance_interval_days = 30;
  start_time = 32400000000;
  end_time = 36000000000;
  max_delay_business_days = 2;
}

-- completed on day 100, failed on day 130 and tried on day 131, in hours
abbrev past : List PastRebalance
past =
    record { status = completed; dry_run = false; executed_at = 2409 }
    ∷ record { status = failed; dry_run = false; executed_at = 3129 }
    ∷ record { status = running; dry_run = true; executed_at = 3150 }
    ∷ []

abbrev inputs : GateInputs
inputs = record {
  is_on = false;
  acquired = true;
  rebalances = past;
  dates = record {
    kst_date = λ t. t / 24;
    month_in_database = λ t. t / 720;
    month_of = λ d. d / 30;
  };
  today_kst = 131;
  today = 131;
  current_time = 33000000000;
  start_time = 32400000000;
  end_time = 36000000000;
}

execute_rebalance_iff_example :
    (execute_rebalance every_day inputs false ≡ started) ↔ Passes every_day inputs false
execute_rebalance_iff_example = execute_rebalance_iff every_day inputs false

execute_rebalance_run : execute_rebalance every_day inputs false ≡ started
unfolding execute_rebalance get_last_completed_rebalance_date decide
    has_completed_rebalance_in_month
execute_rebalance_run = refl
