-- ===== src/Broker/TradeService.antt =====
-- app/services/kis/trade_service.py: the checks before a call of the broker, the call, and what is
-- read from its answer. The client behind it, `broker`, is a parameter.
use autotrading.Prelude.{
  ℕ, String, Option, none, some, Bool, true, false, not, ◌&&◌, ◌||◌, List, [], ◌∷◌, all, length,
  truthy, strip, codes, is_digit, two_digits, ltb, ◌==◌, or_empty,
}
use autotrading.Domain.{OrderAction, OrderType, market, limit, conditional}
use autotrading.Worker.Effects.{
  Action, Reply, BrokerCall, cash_order, amend_order, Exn, exception, ◌>>=◌, ◌>>◌, pure, raise_if,
  await, record_call,
}

-- `output` of an answer: KRX_FWDG_ORD_ORGNO, ODNO and ORD_TMD
pub record OrderOutput : Type 0 where
  pub org_no : Option String
  pub order_no : Option String
  pub ord_tmd : Option String

pub record OrderResponse : Type 0 where
  pub rt_cd : Option String
  pub msg_cd : Option String
  pub msg1 : Option String
  pub output : Option OrderOutput

abbrev pub value_error : Exn
value_error = exception "ValueError"

-- `_validate_stock_code`
unfoldable pub is_stock_code : String → Bool
is_stock_code stock_code = let code = strip stock_code in all is_digit code && length code == 6

abbrev pub is_zero_text : List ℕ → Bool
is_zero_text (c ∷ []) = c == b'0'
is_zero_text _ = false

-- `price in (None, "", 0, "0")`, for a text
unfoldable pub is_no_price : String → Bool
is_no_price price = not (truthy (some price)) || is_zero_text (codes price)

-- `_validate_order_inputs`; the answer is whether it passes
unfoldable pub order_inputs_ok : String → OrderType → String → Bool
unfolding is_stock_code is_no_price
order_inputs_ok stock_code market price = is_stock_code stock_code
order_inputs_ok stock_code limit price = is_stock_code stock_code && not (is_no_price price)
order_inputs_ok stock_code conditional price = false

-- `_resolve_order_params`: the mode that the broker is given, and the price
abbrev pub order_mode : OrderType → OrderType
order_mode market = market
order_mode _ = limit

abbrev pub normalized_price : OrderType → String → Option String
normalized_price market price = some "0"
normalized_price _ price = some price

abbrev pub is_below : Option ℕ → ℕ → Bool
is_below none n = false
is_below (some k) n = ltb k n

-- `today.replace(hour=int(t[:2]), …)` passes on a text of six digits that is a time of day; it is
-- run on the answer only for the log, and raises on any other text.
abbrev pub is_clock : List ℕ → Bool
is_clock (a ∷ b ∷ c ∷ d ∷ e ∷ f ∷ _) =
    is_below (two_digits a b) 24 && is_below (two_digits c d) 60 && is_below (two_digits e f) 60
is_clock _ = false

abbrev pub answer_clock_ok : Option OrderOutput → Bool
answer_clock_ok none = false
answer_clock_ok (some output) = is_clock (codes (or_empty output.ord_tmd))

-- `_validate_cancel_inputs`, which the revision calls too; the flag is `qty_all_order_yn == "Y"`
abbrev pub cancel_inputs_ok : String → ℕ → Bool → Bool
cancel_inputs_ok order_no quantity qty_all =
    ltb 0 (length (strip order_no)) && (qty_all || ltb 0 quantity)

module _ (broker : BrokerCall → Reply OrderResponse) where
  -- the call is on its way before the answer, or its failure, is known
  abbrev pub call_broker : BrokerCall → Action OrderResponse
  call_broker c = record_call c >> await (broker c)

  -- `buy_domestic_stock` and `sell_domestic_stock`, which differ in the method of the client
  unfoldable pub trade_domestic_stock :
      OrderAction → String → ℕ → OrderType → String → Action OrderResponse
  unfolding order_inputs_ok
  trade_domestic_stock action stock_code quantity order_type price = do
    raise_if (not (order_inputs_ok stock_code order_type price)) value_error
    response ← call_broker (
        cash_order action stock_code quantity (order_mode order_type)
          (normalized_price order_type price))
    raise_if (not (answer_clock_ok response.output)) value_error
    pure response

  unfoldable pub cancel_domestic_stock : String → Option String → ℕ → Bool → Action OrderResponse
  cancel_domestic_stock order_no krx_fwdg_ord_orgno quantity qty_all = do
    raise_if (not (cancel_inputs_ok order_no quantity qty_all)) value_error
    call_broker (amend_order order_no krx_fwdg_ord_orgno market false quantity (some "0") qty_all)

  unfoldable pub revise_domestic_stock :
      String → Option String → ℕ → OrderType → String → Bool → Action OrderResponse
  revise_domestic_stock order_no krx_fwdg_ord_orgno quantity order_type price qty_all = do
    raise_if (not (cancel_inputs_ok order_no quantity qty_all)) value_error
    call_broker (
        amend_order order_no krx_fwdg_ord_orgno (order_mode order_type) true quantity
          (normalized_price order_type price) qty_all)
