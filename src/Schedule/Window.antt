-- ===== src/Schedule/Window.antt =====
-- app/utils/market_calendar.py: the day of the next rebalance, and when the window is open.
use autotrading.Prelude.{ℕ, ◌+◌, ◌≤◌, ◌<◌, ◌≡◌, ◌↔◌, true, false, arith, Bool-cases, inl, inr}
use autotrading.Schedule.{
  Calendar, run_rebalance, RebalanceWindow, next_business_day, next_rebalance_date, decide,
}

-- What QuantLib documents of `advance` by one business day: the answer is the first business day after
-- the given day.
pub record IsCalendar (calendar : Calendar) : Type 0 where
  pub is_later : (d : ℕ) → d < next_business_day calendar d
  pub is_open : (d : ℕ) → calendar.is_business_day (next_business_day calendar d) ≡ true
  pub is_first :
      (d e : ℕ) → d < e → calendar.is_business_day e ≡ true → next_business_day calendar d ≤ e

-- The conditions under which a rebalance may run at a moment.
pub record IsOpen (calendar : Calendar) (window : RebalanceWindow) (today current_time : ℕ)
    : Type 0 where
  pub on_business_day : calendar.is_business_day today ≡ true
  pub not_before : next_rebalance_date calendar window ≤ today
  pub not_after :
      today
      ≤ calendar.add_business_days
          (next_rebalance_date calendar window)
          window.max_delay_business_days
  pub started : window.start_time ≤ current_time
  pub not_ended : current_time < window.end_time

pub next_rebalance_date-due :
    (calendar : Calendar) (window : RebalanceWindow)
    → IsCalendar calendar
    → window.last_rebalance_date + window.rebalance_interval_days
      ≤ next_rebalance_date calendar window
unfolding next_rebalance_date
next_rebalance_date-due calendar window c =
    let day = window.last_rebalance_date + window.rebalance_interval_days in
    elim (Bool-cases (calendar.is_business_day day)) [
      | inl h ↦ rw h (omega arith)
      | inr h ↦ rw h (omega (arith, c.is_later day))
    ]

-- If `advance` by one day gives the first business day after a day, the next rebalance is due on
-- the first business day that is no earlier than the interval after the last one.
pub next_rebalance_date-least :
    (calendar : Calendar) (window : RebalanceWindow) (e : ℕ)
    → IsCalendar calendar
    → window.last_rebalance_date + window.rebalance_interval_days ≤ e
    → calendar.is_business_day e ≡ true
    → let d = next_rebalance_date calendar window in
      (calendar.is_business_day d ≡ true)
      × (window.last_rebalance_date + window.rebalance_interval_days ≤ d)
      × (d ≤ e)
unfolding next_rebalance_date
next_rebalance_date-least calendar window e c due opened =
    let day = window.last_rebalance_date + window.rebalance_interval_days in
    elim (Bool-cases (calendar.is_business_day day)) [
      | inl h ↦ rw h (h, omega arith, due)
      | inr h ↦ rw h (c.is_open day, omega (arith, c.is_later day), later day h due)
    ]
  where
    later :
        (day : ℕ)
        → calendar.is_business_day day ≡ false
        → day ≤ e
        → next_business_day calendar day ≤ e
    later day h before = c.is_first day e (ground (arith, h, before, opened)) opened

-- The window is open exactly on the business days from the due day to the last day of grace, from the
-- start to before the end of the hour.
pub decide_iff :
    (calendar : Calendar) (window : RebalanceWindow) (today current_time : ℕ)
    → (decide calendar window today current_time ≡ run_rebalance)
      ↔ IsOpen calendar window today current_time
unfolding decide
decide_iff calendar window today current_time = (λ h. ground arith, λ h. ground arith)
