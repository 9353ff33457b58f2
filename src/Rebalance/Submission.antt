-- ===== src/Rebalance/Submission.antt =====
-- app/strategy/runtime/order_generator.py: `submit_orders`, from the sales over the wait for their fills to
-- the purchases. What the workers do to the tables during a wait, and what the wait reads of them, is given.
pub mod Cash
use autotrading.Prelude.{
  ℕ, ltb, String, Option, none, some, Bool, true, false, not, ◌&&◌, List, map, length,
  if◌then◌else◌,
}
use autotrading.Domain.{OrderType}
use autotrading.Worker.Effects.{World, Action, Reply, reply, error, next, ◌>>=◌, ◌>>◌, pure, return}
use autotrading.Rebalance.Diff.{PositionDiffItem}
use autotrading.Rebalance.Generator.{
  OrderRequest, OrderGenerationResult, recalculate_buy_orders, insert_all,
}
use autotrading.Rebalance.Fills.{FillResult, Poll, poll_fills, after_wait}

-- what happens while one side is waited for, the polls that the loop makes, and the keys of the orders
-- that a time-out inserts
pub record Wait : Type 0 where
  pub others : World → World
  pub polls : List Poll
  pub new_id : ℕ → ℕ

-- the settings of the generator, the account's answer after the sales, and the two waits
pub record SubmissionEnv : Type 0 where
  pub decimal : ℕ → String
  pub dry_run : Bool
  pub fill_timeout_seconds : ℕ
  pub order_type : OrderType
  pub new_id : ℕ → ℕ
  pub available_buy : Reply ℕ
  pub sell_wait : Wait
  pub buy_wait : Wait

-- what `submit_orders` is given for the purchases; the flag is whether `price_map` has an entry
pub record Purchases : Type 0 where
  pub buy_codes : List String
  pub hold_list : List PositionDiffItem
  pub price_map : String → Option ℕ
  pub name_map : String → Option String
  pub has_prices : Bool

abbrev pub no_fills : ℕ → FillResult
no_fills total = record {
  total_orders = total;
  filled_orders = 0;
  canceled_orders = 0;
  failed_orders = 0;
  total_filled_amount = 0;
  timed_out = false;
  canceled_by_timeout = 0;
}

-- `_get_actual_cash`: an error counts as no cash
abbrev pub get_actual_cash : Reply ℕ → ℕ
get_actual_cash (reply available_cash) = available_cash
get_actual_cash (error e) = 0

abbrev pub ids_of : List OrderRequest → List ℕ
ids_of order_reqs = map (λ o. o.order_id) order_reqs

abbrev pub meanwhile : (World → World) → Action (Unit {0})
meanwhile others w = (next tt, others w)

-- A loop that is given too few polls does not come to its end.
unfoldable pub after_loop : Wait → List ℕ → Option FillResult → Action FillResult
unfolding after_wait
after_loop wait order_ids none = return
after_loop wait order_ids (some result) = after_wait wait.new_id order_ids result

-- `_wait_for_fills`
unfoldable pub wait_for_fills : ℕ → Wait → List ℕ → Action FillResult
unfolding poll_fills after_loop
wait_for_fills fill_timeout_seconds wait order_ids = do
  meanwhile wait.others
  after_loop wait order_ids
      (poll_fills fill_timeout_seconds wait.polls (no_fills (length order_ids)))

module _ (env : SubmissionEnv) where
  -- a side is waited for if it has orders and this is no dry run
  unfoldable pub wait_for : Wait → List OrderRequest → Action (Option FillResult)
  unfolding wait_for_fills
  wait_for wait order_reqs =
      if ltb 0 (length order_reqs) && not env.dry_run
      then wait_for_fills env.fill_timeout_seconds wait (ids_of order_reqs)
        >>= (λ result. pure (some result))
      else pure none

  -- step 3: the purchases are computed anew, with the cash that the account has now
  unfoldable pub buy_orders_now : Purchases → OrderGenerationResult → List OrderRequest
  unfolding recalculate_buy_orders
  buy_orders_now purchases generated =
      if not env.dry_run && ltb 0 (length purchases.buy_codes) && purchases.has_prices
      then recalculate_buy_orders env.new_id env.order_type (get_actual_cash env.available_buy)
          purchases.buy_codes purchases.hold_list purchases.price_map purchases.name_map
          generated.rebalance_id
      else generated.buy_orders

  -- `submit_orders`; the answer is what it leaves in `generation_result`
  unfoldable pub submit_orders : Purchases → OrderGenerationResult → Action OrderGenerationResult
  unfolding insert_all wait_for buy_orders_now
  submit_orders purchases generated = do
    insert_all env.decimal env.dry_run generated.sell_orders
    sell_fill_result ← wait_for env.sell_wait generated.sell_orders
    insert_all env.decimal env.dry_run (buy_orders_now purchases generated)
    buy_fill_result ← wait_for env.buy_wait (buy_orders_now purchases generated)
    pure (record generated { buy_orders = buy_orders_now purchases generated })
