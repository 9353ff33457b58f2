-- ===== src/Backtest/Reversal.antt =====
-- The backtest of app/strategy/strategies/reversal_volume_strategy.py by
-- app/strategy/backtest/backtest_executor.py.
use autotrading.Prelude.{ℕ, ◌*◌, ◌≤◌, max, String, List, count}
use autotrading.Strategy.{Arithmetic, same}
use autotrading.Strategy.Reversal.{Pandas, ReversalParams}
use autotrading.Strategy.Reversal.Methods.{reversal_strategy}
use autotrading.Strategy.Reversal.Entries.{reversal_strategy-WaitsAfterExit}
use autotrading.Backtest.{ExecutorSettings, BacktestData, stock_data, started, simulate}
use autotrading.Backtest.Ledger.{Waited}
use autotrading.Backtest.Cooldown.{simulate-waits}

-- Let the strategy's cooldown be within 30 days or within twice the cooldown of the settings, and the universe
-- have each stock once. Then, at any point of a backtest of the strategy, the open positions are of different
-- stocks, and between the exit from a stock and the next entry into it, be it that of a later trade or of
-- an open position, there are more days than the cooldown.
pub simulate-reversal_strategy :
    {N : Type 0} (number : Arithmetic N) (pandas : Pandas N) (params : ReversalParams N)
    (settings : ExecutorSettings) (input : BacktestData N) (cash : N) (dates : List ℕ)
    → params.cooldown_days ≤ max (settings.rv_cooldown_days * 2) 30
    → ((code : String) → count (λ u. same code u.code) input.universe ≤ 1)
    → let strategy = reversal_strategy number pandas params in
      let book =
        simulate number strategy settings input
          (stock_data number strategy settings input)
          dates
          (started number strategy settings cash) in
      Waited params.cooldown_days book.positions book.trade_records
simulate-reversal_strategy number pandas params settings input cash dates long universe_once =
    simulate-waits number (reversal_strategy number pandas params) settings params.cooldown_days
      input cash dates (reversal_strategy-WaitsAfterExit number pandas params) long universe_once
