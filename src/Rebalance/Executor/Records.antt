-- ===== src/Rebalance/Executor/Records.antt =====
-- What one rebalance leaves in its record (app/strategy/runtime/rebalance_executor.py), and when the
-- automatic task reports an error.
use autotrading.Prelude.{
  ℕ, ◌+◌, ◌≡◌, ◌⊎◌, inl, inr, refl, ap, ◌∙◌, Option, none, some, Bool, true, false, not, ◌&&◌, List,
  arith, if◌then◌else◌, Bool-cases,
}
use autotrading.Worker.Effects.{Exn, Reply, reply, error}
use autotrading.Rebalance.Diff.{CurrentHolding, PositionDiffResult}
use autotrading.Rebalance.Generator.{OrderGenerationResult, generate_orders}
use autotrading.Rebalance.Executor.{
  buy_intents, RebalanceStatus, running, completed, TradeIntent, RebalanceRow, RebalanceResult,
  Session, ExecutorEnv, mark, fail, finish, complete, place_orders, with_diff, with_cash,
  with_holdings, submit, run_and_report, running_row,
}

abbrev pub completed_eq : RebalanceStatus → Bool
completed_eq completed = true
completed_eq _ = false

abbrev pub running_eq : RebalanceStatus → Bool
running_eq running = true
running_eq _ = false

abbrev pub is_completed : Option RebalanceRow → Bool
is_completed none = false
is_completed (some row) = completed_eq row.status

abbrev pub is_running : Option RebalanceRow → Bool
is_running none = false
is_running (some row) = running_eq row.status

abbrev pub is_ok : Reply (Unit {0}) → Bool
is_ok (reply u) = true
is_ok (error e) = false

module _ {W : Type 0} where
  -- The submission leaves the row of the rebalance as it is, commits it or not, and reports no error
  -- of the rebalance.
  abbrev pub Keeps : ExecutorEnv W → Type 0
  Keeps env =
      (orders : OrderGenerationResult) (s : Session W)
      → let s' = (env.submit_orders orders s).1 in
        (s'.row ≡ s.row)
        × ((s'.saved ≡ s.saved) ⊎ (s'.saved ≡ s.row))
        × (s'.error_alerts ≡ s.error_alerts)

  -- The committed record is COMPLETED exactly for a run that succeeds and is no dry run, and it is not left
  -- RUNNING if the handler's UPDATE works; `n` is the number of error alerts.
  abbrev pub Recorded : ExecutorEnv W → Bool → ℕ → RebalanceResult × Session W → Type 0
  Recorded env dry_run n (r, s) =
      (is_completed s.saved ≡ r.success && not dry_run)
      × (is_running s.saved && is_ok env.mark_failed ≡ false)
      × (s.error_alerts ≡ n)

  module _ (env : ExecutorEnv W) (n : ℕ) where
    fail-Recorded :
        (e : Exn) (r : RebalanceResult) (s : Session W) (dry_run : Bool)
        → r.success ≡ false
        → is_completed s.saved ≡ false
        → s.error_alerts ≡ n
        → Recorded env dry_run n (fail env e r s)
    fail-Recorded e r s dry_run not_yet saved same = go env.mark_failed s.row
      where
        go :
            (marked : Reply (Unit {0})) (row : Option RebalanceRow)
            → let s' = mark env marked e (record s { row = row }) in
              (is_completed s'.saved ≡ r.success && not dry_run)
              × (is_running s'.saved && is_ok marked ≡ false)
              × (s'.error_alerts ≡ n)
        go (reply u) none = (ground (arith, not_yet), ground arith, same)
        go (reply u) (some row) = (ground (arith, not_yet), ground arith, same)
        go (error e') row = (ground (arith, not_yet, saved), ground arith, same)

    complete-Recorded :
        (r : RebalanceResult) (row : RebalanceRow) (answer : Reply (Unit {0})) (s : Session W)
        → r.success ≡ false
        → s.row ≡ some row
        → is_completed s.saved ≡ false
        → s.error_alerts ≡ n
        → Recorded env false n (complete env r (answer, s))
    complete-Recorded r row (error e) s not_yet has saved same =
        fail-Recorded e r s false not_yet saved same
    complete-Recorded r row (reply u) s not_yet has saved same =
        rw has (finish-Recorded env.last_commit)
      where
        done : RebalanceRow
        done = record row { status = completed }

        finish-Recorded :
            (last_commit : Reply (Unit {0}))
            → Recorded env false n (finish env last_commit r (record s { row = some done }))
        finish-Recorded (reply v) = (refl, refl, same)
        finish-Recorded (error e) =
            fail-Recorded e r (record s { row = some done }) false not_yet saved same

    module _ (keeps : Keeps env) where
      place_orders-Recorded :
          (flush : Reply (Unit {0})) (diff : PositionDiffResult) (row : RebalanceRow)
          (r : RebalanceResult) (s : Session W)
          → r.success ≡ false
          → row.status ≡ running
          → s.saved ≡ none
          → s.error_alerts ≡ n
          → Recorded env false n (place_orders env flush diff row r s)
      unfolding generate_orders
      place_orders-Recorded (error e) diff row r s not_yet runs fresh same =
          fail-Recorded e r s false not_yet (ap is_completed fresh) same
      place_orders-Recorded (reply u) diff row r s not_yet runs fresh same =
          let orders = generate_orders env.new_id env.order_type diff env.rebalance_id in
          let (kept, written, alerts) = keeps orders (record s { row = some row }) in
          complete-Recorded (record r { order_result = some orders }) row _ _ not_yet kept
            (elim written [
              | inl before ↦ ap is_completed (before ∙ fresh)
              | inr now ↦ ap is_completed now ∙ ap completed_eq runs
            ])
            (alerts ∙ same)

      with_diff-Recorded :
          (signals available_cash : ℕ) (diff : PositionDiffResult) (r : RebalanceResult)
          (s : Session W)
          → r.success ≡ false
          → s.saved ≡ none
          → s.error_alerts ≡ n
          → Recorded env r.dry_run n (with_diff env signals available_cash diff r s)
      with_diff-Recorded signals available_cash diff r s not_yet fresh same =
          elim (Bool-cases r.dry_run) [
            | inl dry ↦ rw dry (rw fresh (refl, refl, same))
            | inr wet ↦ rw wet (
                place_orders-Recorded env.flush diff
                  (running_row env.rebalance_id signals diff available_cash)
                  (record r { diff_result = some diff; dry_run = false }) s not_yet refl fresh same)
          ]

      with_cash-Recorded :
          (intents : List TradeIntent) (holdings : List CurrentHolding) (available_cash : Reply ℕ)
          (r : RebalanceResult) (s : Session W)
          → r.success ≡ false
          → s.saved ≡ none
          → s.error_alerts ≡ n
          → Recorded env r.dry_run n (with_cash env intents holdings available_cash r s)
      unfolding with_cash
      with_cash-Recorded intents holdings (error e) r s not_yet fresh same =
          fail-Recorded e r s r.dry_run not_yet (ap is_completed fresh) same
      with_cash-Recorded intents holdings (reply c) r s not_yet fresh same =
          with_diff-Recorded _ c _ r s not_yet fresh same

      with_holdings-Recorded :
          (intents : List TradeIntent) (holdings : Reply (List CurrentHolding))
          (r : RebalanceResult) (s : Session W)
          → r.success ≡ false
          → s.saved ≡ none
          → s.error_alerts ≡ n
          → Recorded env r.dry_run n (with_holdings env intents holdings r s)
      unfolding with_cash
      with_holdings-Recorded intents (error e) r s not_yet fresh same =
          fail-Recorded e r s r.dry_run not_yet (ap is_completed fresh) same
      with_holdings-Recorded intents (reply holdings) r s not_yet fresh same =
          with_cash-Recorded intents holdings env.available_cash r s not_yet fresh same

  -- A rebalance with a new key, whose submission leaves its row alone, ends with a committed record that
  -- is COMPLETED exactly if the run succeeds and is no dry run, and that is not left RUNNING if the
  -- handler's UPDATE works, whichever of the account's, the submission's and the database's answers is
  -- an error; it sends no error alert of its own.
  pub submit-Recorded :
      (env : ExecutorEnv W) (orders : List TradeIntent) (dry_run : Bool) (s : Session W)
      → Keeps env
      → s.saved ≡ none
      → Recorded env dry_run s.error_alerts (submit env orders dry_run s)
  unfolding submit with_cash
  submit-Recorded env orders dry_run s keeps fresh =
      with_holdings-Recorded env s.error_alerts keeps (buy_intents orders) env.holdings _ s refl
        fresh refl

  -- An automatic rebalance that is no dry run, with a new key and a submission that leaves its row alone,
  -- sends one error alert if its record does not end as COMPLETED, the strategy's own failure included, and
  -- none if it does.
  pub run_and_report-alerts :
      (env : ExecutorEnv W) (strategy : Reply (List TradeIntent)) (s : Session W)
      → Keeps env
      → s.saved ≡ none
      → let s' = run_and_report env strategy false s in
        s'.error_alerts ≡ s.error_alerts + (if is_completed s'.saved then 0 else 1)
  unfolding run_and_report
  run_and_report-alerts env (error e) s keeps fresh = rw fresh (omega arith)
  run_and_report-alerts env (reply orders) s keeps fresh =
      let (written, settled, same) = submit-Recorded env orders false s keeps fresh in
      elim (Bool-cases (submit env orders false s).0.success) [
        | inl e ↦ rw e (rw (written ∙ ap (λ b. b && true) e) (omega (arith, same)))
        | inr e ↦ rw e (rw (written ∙ ap (λ b. b && true) e) (omega (arith, same)))
      ]
