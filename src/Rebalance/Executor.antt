-- ===== src/Rebalance/Executor.antt =====
-- app/strategy/runtime/rebalance_executor.py, app/services/rebalance/rebalance_orchestrator.py and the end
-- of app/worker/tasks_rebalance.py: one rebalance from the result of the strategy to its record. The
-- submission of the orders is a parameter here, as are the answers of the account and of the database.
pub mod Records
use autotrading.Prelude.{
  ℕ, suc, ◌+◌, ◌-◌, String, Option, none, some, Bool, true, false, not, ◌&&◌, ◌||◌, List, [], ◌∷◌,
  map, filter, length, leb, ltb, ◌==◌, if◌then◌else◌,
}
use autotrading.Worker.Effects.{Exn, exception, kis_order_error, Reply, reply, error}
use autotrading.Rebalance.Diff.{CurrentHolding, PositionDiffResult, calculate, same_code}
use autotrading.Rebalance.Generator.{OrderGenerationResult, generate_orders}
use autotrading.Domain.{OrderType}

-- REBALANCE_STATUS
pub data RebalanceStatus : Type 0 where
  running completed failed : RebalanceStatus

-- TradeSide
pub data TradeSide : Type 0 where
  buy sell : TradeSide

pub record TradeIntent : Type 0 where
  pub stock_code : String
  pub stock_name : String
  pub side : TradeSide
  pub price_hint : Option ℕ

-- app/db/models/rebalance.py: `Rebalance`, without the texts of the strategy
pub record RebalanceRow : Type 0 where
  pub id : ℕ
  pub buy_signal_count : ℕ
  pub sell_count : ℕ
  pub buy_count : ℕ
  pub hold_count : ℕ
  pub total_sell_value : ℕ
  pub total_buy_value : ℕ
  pub available_cash_before : ℕ
  pub estimated_cash_after : ℕ
  pub status : RebalanceStatus
  pub error_message : Option String

pub record RebalanceResult : Type 0 where
  pub rebalance_id : ℕ
  pub signal_buy_count : ℕ
  pub diff_result : Option PositionDiffResult
  pub order_result : Option OrderGenerationResult
  pub dry_run : Bool
  pub success : Bool
  pub error_message : Option String

-- The session with its row of the rebalance, what is committed of that row, and the alerts that are sent;
-- `W` is everything else.
pub record Session (W : Type 0) : Type 0 where
  pub world : W
  pub row : Option RebalanceRow
  pub saved : Option RebalanceRow
  pub rebalance_alerts : ℕ
  pub error_alerts : ℕ

abbrev pub is_buy : TradeSide → Bool
is_buy TradeSide.buy = true
is_buy TradeSide.sell = false

abbrev pub buy_intents : List TradeIntent → List TradeIntent
buy_intents intents = filter (λ o. is_buy o.side) intents

-- The dictionaries by stock, in which a later intent takes the place of an earlier one; one without a
-- price is left out of the prices.
abbrev pub put_price : Option ℕ → Option ℕ → Option ℕ
put_price (some later) hint = some later
put_price none hint = hint

unfoldable pub price_map : List TradeIntent → String → Option ℕ
price_map [] code = none
price_map (o ∷ intents) code =
    put_price (price_map intents code) (if same_code o.stock_code code then o.price_hint else none)

abbrev pub put_name : Option String → Option String → Option String
put_name (some later) name = some later
put_name none name = name

unfoldable pub name_map : List TradeIntent → String → Option String
name_map [] code = none
name_map (o ∷ intents) code =
    put_name (name_map intents code)
      (if same_code o.stock_code code then some o.stock_name else none)

-- What the executor is given: the key of the rebalance, the answers of the account and of the database,
-- the settings of the two calculations, and the submission of the orders.
pub record ExecutorEnv (W : Type 0) : Type 0 where
  pub rebalance_id : ℕ
  pub holdings : Reply (List CurrentHolding)
  pub available_cash : Reply ℕ
  pub flush : Reply (Unit {0})
  pub last_commit : Reply (Unit {0})
  pub mark_failed : Reply (Unit {0})
  pub cash_buffer_ratio : ℕ
  pub new_id : ℕ → ℕ
  pub order_type : OrderType
  pub submit_orders : OrderGenerationResult → Session W → Reply (Unit {0}) × Session W

abbrev pub text_of : Exn → String
text_of (exception text) = text
text_of (kis_order_error e) = e.message

abbrev pub running_row : ℕ → ℕ → PositionDiffResult → ℕ → RebalanceRow
running_row rebalance_id signals diff available_cash = record {
  id = rebalance_id;
  buy_signal_count = signals;
  sell_count = length diff.sell_list;
  buy_count = length diff.buy_list;
  hold_count = length diff.hold_list;
  total_sell_value = diff.total_sell_value;
  total_buy_value = diff.total_buy_value;
  available_cash_before = available_cash;
  estimated_cash_after = diff.estimated_cash_after;
  status = running;
  error_message = none;
}

abbrev pub with_status : RebalanceStatus → Option String → Option RebalanceRow → Option RebalanceRow
with_status status message none = none
with_status status message (some row) =
    some (record row { status = status; error_message = message })

module _ {W : Type 0} (env : ExecutorEnv W) where
  abbrev pub alert : RebalanceResult × Session W → RebalanceResult × Session W
  alert (r, s) = (r, record s { rebalance_alerts = suc s.rebalance_alerts })

  -- the handler: the row is marked by an UPDATE, which finds it if it was flushed, and committed; an error
  -- there is swallowed
  abbrev pub mark : Reply (Unit {0}) → Exn → Session W → Session W
  mark (reply u) e s =
      let row = with_status failed (some (text_of e)) s.row in record s { row = row; saved = row }
  mark (error e') e s = s

  abbrev pub fail : Exn → RebalanceResult → Session W → RebalanceResult × Session W
  fail e r s = alert (record r { error_message = some (text_of e) }, mark env.mark_failed e s)

  abbrev pub finish : Reply (Unit {0}) → RebalanceResult → Session W → RebalanceResult × Session W
  finish (reply u) r s = alert (record r { success = true }, record s { saved = s.row })
  finish (error e) r s = fail e r s

  abbrev pub complete : RebalanceResult → Reply (Unit {0}) × Session W → RebalanceResult × Session W
  complete r (reply u, s) = finish env.last_commit r (record s { row = with_completed s.row })
    where
      with_completed : Option RebalanceRow → Option RebalanceRow
      with_completed none = none
      with_completed (some row) = some (record row { status = completed })
  complete r (error e, s) = fail e r s

  abbrev pub place_orders :
      Reply (Unit {0})
      → PositionDiffResult
      → RebalanceRow
      → RebalanceResult
      → Session W
      → RebalanceResult × Session W
  unfolding generate_orders
  place_orders (error e) diff row r s = fail e r s
  place_orders (reply u) diff row r s =
      let orders = generate_orders env.new_id env.order_type diff env.rebalance_id in
      complete (record r { order_result = some orders })
        (env.submit_orders orders (record s { row = some row }))

  -- what follows the two questions to the account
  abbrev pub with_diff :
      ℕ → ℕ → PositionDiffResult → RebalanceResult → Session W → RebalanceResult × Session W
  with_diff signals available_cash diff r s =
      let r' = record r { diff_result = some diff } in
      if r.dry_run
      then (record r' { success = true }, s)
      else place_orders env.flush diff (running_row env.rebalance_id signals diff available_cash) r'
          s

  abbrev pub with_cash :
      List TradeIntent
      → List CurrentHolding
      → Reply ℕ
      → RebalanceResult
      → Session W
      → RebalanceResult × Session W
  unfolding calculate price_map name_map
  with_cash intents holdings (error e) r s = fail e r s
  with_cash intents holdings (reply available_cash) r s =
      let buy_codes = map (λ o. o.stock_code) intents in
      with_diff (length buy_codes) available_cash
        (calculate env.cash_buffer_ratio buy_codes holdings available_cash (price_map intents)
          (name_map intents))
        r s

  abbrev pub with_holdings :
      List TradeIntent
      → Reply (List CurrentHolding)
      → RebalanceResult
      → Session W
      → RebalanceResult × Session W
  with_holdings intents (error e) r s = fail e r s
  with_holdings intents (reply holdings) r s = with_cash intents holdings env.available_cash r s

  unfoldable pub submit : List TradeIntent → Bool → Session W → RebalanceResult × Session W
  submit orders dry_run s =
      let intents = buy_intents orders in
      with_holdings intents env.holdings
        (record {
          rebalance_id = env.rebalance_id;
          signal_buy_count = length intents;
          diff_result = none;
          order_result = none;
          dry_run = dry_run;
          success = false;
          error_message = none;
        })
        s

  -- `RebalanceOrchestrator.run`, and what the task does with its result or its exception
  unfoldable pub run_and_report : Reply (List TradeIntent) → Bool → Session W → Session W
  unfolding submit
  run_and_report (error e) dry_run s = record s { error_alerts = suc s.error_alerts }
  run_and_report (reply orders) dry_run s =
      let (r, s') = submit orders dry_run s in
      if r.success then s' else record s' { error_alerts = suc s'.error_alerts }

-- `_infer_latest_available_fiscal_year`
unfoldable pub infer_latest_available_fiscal_year : ℕ → ℕ → ℕ → ℕ
infer_latest_available_fiscal_year year month day =
    if ltb 4 month || (month == 4 && leb 15 day) then year - 1 else year - 2
