-- ===== src/Schedule/Gates.antt =====
-- app/worker/tasks_rebalance.py: when the task calls the orchestrator.
use autotrading.Prelude.{
  ℕ, ◌≡◌, ◌↔◌, refl, Option, none, some, Bool, true, false, not, ◌||◌, arith, if◌then◌else◌, List,
  [], ◌∷◌, all, ◌==◌, ◌⊎◌, inl, inr,
}
use autotrading.Rebalance.Executor.{RebalanceStatus, running, completed, failed}
use autotrading.Rebalance.History.{
  PastRebalance, Dates, as_date, last_executed_at, get_last_completed_rebalance_date,
  has_completed_rebalance_in_month, IsLast, last_executed_at-IsLast, IsLast-last_executed_at,
}
use autotrading.Schedule.{
  Calendar, WindowDecision, run_rebalance, skip_not_business_day, skip_not_rebalance_day,
  skip_out_of_time_window, decide, GateInputs, GateResult, started, kill_switch_on, default_window,
  window_gate, execute_under_lock, execute_rebalance,
}
use autotrading.Schedule.Window.{IsOpen, decide_iff}

abbrev is_failed : RebalanceStatus → Bool
is_failed failed = true
is_failed _ = false

Status-cases : (s : RebalanceStatus) → (s ≡ running) ⊎ ((s ≡ completed) ⊎ (s ≡ failed))
Status-cases running = inl refl
Status-cases completed = inr (inl refl)
Status-cases failed = inr (inr refl)

-- a rebalance that was a dry run, has failed, or is of another month than the day
abbrev pub is_no_obstacle : Dates → ℕ → PastRebalance → Bool
is_no_obstacle dates today row =
    row.dry_run
    || (is_failed row.status
        || not (dates.month_in_database row.executed_at == dates.month_of today))

no_obstacle :
    (dates : Dates) (today : ℕ) (rows : List PastRebalance)
    → not (has_completed_rebalance_in_month dates rows today)
      ≡ all (is_no_obstacle dates today) rows
unfolding has_completed_rebalance_in_month
no_obstacle dates today [] = refl
no_obstacle dates today (row ∷ rows) =
    let rest = no_obstacle dates today rows in
    elim (Status-cases row.status) [
      | inl on ↦ rw on (ground (arith, rest))
      | inr (inl done) ↦ rw done (ground (arith, rest))
      | inr (inr broken) ↦ rw broken (ground (arith, rest))
    ]

-- All the gates are open.
pub record Passes (calendar : Calendar) (inputs : GateInputs) (force : Bool) : Type 0 where
  pub not_blocked : inputs.is_on ≡ false
  pub locked : inputs.acquired ≡ true
  pub last_at : ℕ
  pub has_history : IsLast inputs.rebalances last_at
  pub in_window :
      IsOpen calendar
        (default_window inputs (inputs.dates.kst_date last_at))
        inputs.today
        inputs.current_time
  pub not_repeated :
      (force || all (is_no_obstacle inputs.dates inputs.today_kst) inputs.rebalances) ≡ true

window_gate-started :
    (inputs : GateInputs) (force : Bool) (d : WindowDecision)
    → window_gate inputs force d ≡ started
    → (d ≡ run_rebalance)
      × ((force || all (is_no_obstacle inputs.dates inputs.today_kst) inputs.rebalances) ≡ true)
window_gate-started inputs force run_rebalance h =
    (refl, ground (arith, h, no_obstacle inputs.dates inputs.today_kst inputs.rebalances))
window_gate-started inputs force skip_not_business_day h = ground (arith, h)
window_gate-started inputs force skip_not_rebalance_day h = ground (arith, h)
window_gate-started inputs force skip_out_of_time_window h = ground (arith, h)

-- The task calls the orchestrator exactly if the kill switch is off, the lock was taken, a rebalance
-- was completed before, the window that counts from the day of the last one is open, and, unless the run is
-- forced, every rebalance of this month has failed: one that is running stops it as one that was
-- completed does. Dry runs count neither as completed before nor as of this month.
pub execute_rebalance_iff :
    (calendar : Calendar) (inputs : GateInputs) (force : Bool)
    → (execute_rebalance calendar inputs force ≡ started) ↔ Passes calendar inputs force
unfolding execute_rebalance get_last_completed_rebalance_date
execute_rebalance_iff calendar inputs force = (there, back)
  where
    from_history :
        (last : Option ℕ)
        → last_executed_at inputs.rebalances ≡ last
        → inputs.is_on ≡ false
        → inputs.acquired ≡ true
        → execute_under_lock calendar inputs force (as_date inputs.dates last) ≡ started
        → Passes calendar inputs force
    from_history none e on taken h = ground (arith, h)
    from_history (some t) e on taken h =
        let window = default_window inputs (inputs.dates.kst_date t) in
        let (runs, fresh) =
          window_gate-started inputs force (decide calendar window inputs.today inputs.current_time)
            h in
        record {
          not_blocked = on;
          locked = taken;
          last_at = t;
          has_history = last_executed_at-IsLast inputs.rebalances t e;
          in_window = (decide_iff calendar window inputs.today inputs.current_time).0 runs;
          not_repeated = fresh;
        }

    outcome : GateResult
    outcome =
        if inputs.is_on
        then kill_switch_on
        else if inputs.acquired
        then execute_under_lock calendar inputs force
            (as_date inputs.dates (last_executed_at inputs.rebalances))
        else GateResult.lock_taken

    there : outcome ≡ started → Passes calendar inputs force
    there h =
        from_history (last_executed_at inputs.rebalances) refl (ground (arith, h))
          (ground (arith, h)) (ground (arith, h))

    back : Passes calendar inputs force → outcome ≡ started
    back p =
        let window = default_window inputs (inputs.dates.kst_date p.last_at) in
        rw
          (
            p.not_blocked,
            p.locked,
            IsLast-last_executed_at inputs.rebalances p.last_at p.has_history,
            (decide_iff calendar window inputs.today inputs.current_time).1 p.in_window,
          )
          (ground
            (arith, p.not_repeated, no_obstacle inputs.dates inputs.today_kst inputs.rebalances))
