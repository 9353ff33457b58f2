-- ===== src/Schedule.antt =====
-- When an automatic rebalance runs: app/utils/market_calendar.py and app/worker/tasks_rebalance.py.
-- Days are numbered, and a time of day is in microseconds. The calendar of the exchange, QuantLib's with
-- the holidays that the file adds, is a parameter.
pub mod Window
pub mod Gates
use autotrading.Prelude.{
  ℕ, ◌+◌, Option, none, some, Bool, true, false, not, ◌&&◌, leb, ltb, if◌then◌else◌, List,
}
use autotrading.Rebalance.History.{
  PastRebalance, Dates, get_last_completed_rebalance_date, has_completed_rebalance_in_month,
}

-- `isBusinessDay`, and `advance` by a number of business days
pub record Calendar : Type 0 where
  pub is_business_day : ℕ → Bool
  pub add_business_days : ℕ → ℕ → ℕ

pub data WindowDecision : Type 0 where
  run_rebalance skip_not_business_day skip_not_rebalance_day skip_out_of_time_window :
      WindowDecision

-- `RebalanceWindow`, with the date and the time that its clock gives
pub record RebalanceWindow : Type 0 where
  pub last_rebalance_date : ℕ
  pub rebalance_interval_days : ℕ
  pub start_time : ℕ
  pub end_time : ℕ
  pub max_delay_business_days : ℕ

module _ (calendar : Calendar) where
  abbrev pub next_business_day : ℕ → ℕ
  next_business_day d = calendar.add_business_days d 1

  abbrev pub adjust_to_next_business_day : ℕ → ℕ
  adjust_to_next_business_day d = if calendar.is_business_day d then d else next_business_day d

  unfoldable pub next_rebalance_date : RebalanceWindow → ℕ
  next_rebalance_date window =
      adjust_to_next_business_day (window.last_rebalance_date + window.rebalance_interval_days)

  unfoldable pub decide : RebalanceWindow → ℕ → ℕ → WindowDecision
  unfolding next_rebalance_date
  decide window today current_time =
      let d = next_rebalance_date window in
      let delay_end = calendar.add_business_days d window.max_delay_business_days in
      if not (calendar.is_business_day today)
      then skip_not_business_day
      else if calendar.is_business_day today && leb d today && leb today delay_end
      then if leb window.start_time current_time && ltb current_time window.end_time
        then run_rebalance
        else skip_out_of_time_window
      else skip_not_rebalance_day

-- what the gates of the task are told: the switch, the lock, the rows of the past rebalances and the clock,
-- which the gate of the month reads once more
pub record GateInputs : Type 0 where
  pub is_on : Bool
  pub acquired : Bool
  pub rebalances : List PastRebalance
  pub dates : Dates
  pub today_kst : ℕ
  pub today : ℕ
  pub current_time : ℕ
  pub start_time : ℕ
  pub end_time : ℕ

-- how `_execute_rebalance` leaves off, or that it calls the orchestrator
pub data GateResult : Type 0 where
  kill_switch_on lock_taken no_history already_completed started : GateResult
  outside_window : WindowDecision → GateResult

-- `RebalanceWindow(calendar=…, clock=…, last_rebalance_date=…)`, with its defaults
abbrev pub default_window : GateInputs → ℕ → RebalanceWindow
default_window inputs last_rebalance_date = record {
  last_rebalance_date = last_rebalance_date;
  rebalance_interval_days = 30;
  start_time = inputs.start_time;
  end_time = inputs.end_time;
  max_delay_business_days = 2;
}

abbrev pub idempotency_gate : GateInputs → Bool → GateResult
idempotency_gate inputs force =
    if not force && has_completed_rebalance_in_month inputs.dates inputs.rebalances inputs.today_kst
    then already_completed
    else started

abbrev pub window_gate : GateInputs → Bool → WindowDecision → GateResult
window_gate inputs force run_rebalance = idempotency_gate inputs force
window_gate inputs force decision = outside_window decision

module _ (calendar : Calendar) where
  abbrev pub execute_under_lock : GateInputs → Bool → Option ℕ → GateResult
  execute_under_lock inputs force none = no_history
  execute_under_lock inputs force (some last_rebalance_date) =
      window_gate inputs force (
        decide calendar (default_window inputs last_rebalance_date) inputs.today
          inputs.current_time)

  -- `_execute_rebalance`, as far as the call of the orchestrator
  unfoldable pub execute_rebalance : GateInputs → Bool → GateResult
  execute_rebalance inputs force =
      if inputs.is_on
      then kill_switch_on
      else if inputs.acquired
      then execute_under_lock inputs force
          (get_last_completed_rebalance_date inputs.dates inputs.rebalances)
      else lock_taken
