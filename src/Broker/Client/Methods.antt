-- ===== src/Broker/Client/Methods.antt =====
-- The loop of attempts in app/broker/kis/kis_order.py, and the three methods that send orders.
use autotrading.Prelude.{
  ℕ, zero, suc, String, some, none, true, false, List, [], ◌∷◌, if◌then◌else◌,
}
use autotrading.Worker.Effects.{Reply, reply, error}
use autotrading.Broker.Client.{
  ◌<>◌, Attempt, HttpRequest, no_payload, KisOrderError, Result, order_error, other, Client,
  build_headers, http_retry_count, Stage, Tried, passed, request_error, status_error, tried,
  network_error, http_error, accepted,
}

-- The fields that the caller gives; a market order's price is the text of 0.
pub record CashOrder : Type 0 where
  pub access_token : String
  pub account_no : String
  pub account_product_code : String
  pub order_type : String
  pub stock_code : String
  pub quantity : ℕ
  pub price : String
  pub exchange_type : String

pub record Amendment : Type 0 where
  pub access_token : String
  pub account_no : String
  pub account_product_code : String
  pub krx_fwdg_ord_orgno : String
  pub order_no : String
  pub order_type : String
  pub revise_cancel_type : String
  pub quantity : String
  pub revise_price : String
  pub qty_all_order_yn : String
  pub exchange_type : String

-- `TRID.resolve`
abbrev resolve : Client → String → String → String
resolve client live paper = if client.is_paper then paper else live

abbrev pub buy_stage : Stage
buy_stage = record {
  name = "buy_domestic_stock_by_cash";
  failed = "주식 매수 주문 요청 실패";
  network_failed = "주식 매수 주문 요청 실패: ";
  refusal = "주식 매수 주문 실패";
}

abbrev pub sell_stage : Stage
sell_stage = record {
  name = "sell_domestic_stock_by_cash";
  failed = "주식 매도 주문 요청 실패";
  network_failed = "주식 매도 주문 요청 실패 : ";
  refusal = "주식 매도 주문 실패";
}

abbrev pub modify_stage : Stage
modify_stage = record {
  name = "modify_order_by_cash";
  failed = "주식 주문 정정/취소 요청 실패";
  network_failed = "주식 주문 정정/취소 요청 실패: ";
  refusal = "주식 주문 정정/취소 실패";
}

abbrev cash_request : Client → String → String → CashOrder → String → HttpRequest
cash_request client tr_id sll_type o str_price = record {
  url = client.base_url <> "/uapi/domestic-stock/v1/trading/order-cash";
  headers = build_headers client o.access_token tr_id;
  json =
      ("CANO", o.account_no)
      ∷ ("ACNT_PRDT_CD", o.account_product_code)
      ∷ ("PDNO", o.stock_code)
      ∷ ("SLL_TYPE", sll_type)
      ∷ ("ORD_DVSN", o.order_type)
      ∷ ("ORD_QTY", client.decimal o.quantity)
      ∷ ("ORD_UNPR", str_price)
      ∷ ("CNDT_PRIC", "")
      ∷ ("EXCG_ID_DVSN_CD", o.exchange_type)
      ∷ [];
}

abbrev pub buy_request : Client → CashOrder → String → HttpRequest
buy_request client = cash_request client (resolve client "TTTC0012U" "VTTC0012U") ""

abbrev pub sell_request : Client → CashOrder → String → HttpRequest
sell_request client = cash_request client (resolve client "TTTC0011U" "VTTC0011U") "01"

abbrev pub modify_request : Client → Amendment → String → HttpRequest
modify_request client o str_price = record {
  url = client.base_url <> "/uapi/domestic-stock/v1/trading/order-rvsecncl";
  headers = build_headers client o.access_token (resolve client "TTTC0013U" "VTTC0013U");
  json =
      ("CANO", o.account_no)
      ∷ ("ACNT_PRDT_CD", o.account_product_code)
      ∷ ("KRX_FWDG_ORD_ORGNO", o.krx_fwdg_ord_orgno)
      ∷ ("ORGN_ODNO", o.order_no)
      ∷ ("ORD_DVSN", o.order_type)
      ∷ ("RVSE_CNCL_DVSN_CD", o.revise_cancel_type)
      ∷ ("ORD_QTY", o.quantity)
      ∷ ("ORD_UNPR", str_price)
      ∷ ("QTY_ALL_ORD_YN", o.qty_all_order_yn)
      ∷ ("CNDT_PRIC", "")
      ∷ ("EXCG_ID_DVSN_CD", o.exchange_type)
      ∷ [];
}

-- `KISOrderError(message)`, with its other parameters at their defaults
abbrev pub bare_error : String → KisOrderError
bare_error message = record {
  message = some message;
  status_code = none;
  error_code = none;
  rt_cd = none;
  msg_cd = none;
  msg1 = none;
  payload = no_payload;
}

-- The requests that were sent, newest first; `attempts` is what comes of the n-th one.
module _ (client : Client) (attempts : ℕ → Attempt) where
  -- an attempt of a cash order, with the number of those that are left after it
  abbrev pub retried :
      Stage → ℕ → Tried → Result × List HttpRequest → List HttpRequest → Result × List HttpRequest
  retried stage left (passed r) again sent = (accepted client stage true r, sent)
  retried stage zero (request_error e) again sent = (order_error (network_error stage e), sent)
  retried stage zero (status_error r) again sent = (order_error (http_error client stage r), sent)
  retried stage (suc left) _ again sent = again

  -- `for attempt in range(…)`, from an attempt on; without any attempt `resp` has no value
  unfoldable pub post : Stage → HttpRequest → ℕ → ℕ → List HttpRequest → Result × List HttpRequest
  post stage request zero attempt sent = (other client.attribute_error, sent)
  post stage request (suc left) attempt sent =
      retried stage left (tried client (attempts attempt))
        (post stage request left (suc attempt) (request ∷ sent)) (request ∷ sent)

  -- an attempt of an amendment, which raises after the pause if the answer is an HTTP error
  abbrev pub amended :
      ℕ → Tried → Result × List HttpRequest → List HttpRequest → Result × List HttpRequest
  amended left (passed r) again sent = (accepted client modify_stage false r, sent)
  amended zero (request_error e) again sent = (order_error (network_error modify_stage e), sent)
  amended zero (status_error r) again sent = (order_error (http_error client modify_stage r), sent)
  amended (suc left) (request_error e) again sent = again
  amended (suc left) (status_error r) again sent =
      (order_error (bare_error "주식 주문 정정/취소 중 오류가 발생했습니다."), sent)

  unfoldable pub amend : HttpRequest → ℕ → ℕ → List HttpRequest → Result × List HttpRequest
  amend request zero attempt sent = (other client.attribute_error, sent)
  amend request (suc left) attempt sent =
      amended left (tried client (attempts attempt))
        (amend request left (suc attempt) (request ∷ sent)) (request ∷ sent)

  -- the price is read before anything is sent
  abbrev priced :
      Reply String
      → (String → List HttpRequest → Result × List HttpRequest)
      → List HttpRequest
      → Result × List HttpRequest
  priced (reply str_price) send sent = send str_price sent
  priced (error e) send sent = (other e, sent)

  unfoldable pub buy_domestic_stock_by_cash :
      CashOrder → List HttpRequest → Result × List HttpRequest
  buy_domestic_stock_by_cash o =
      priced (client.integral o.price)
        λ str_price. post buy_stage (buy_request client o str_price) http_retry_count 0

  unfoldable pub sell_domestic_stock_by_cash :
      CashOrder → List HttpRequest → Result × List HttpRequest
  sell_domestic_stock_by_cash o =
      priced (client.integral o.price)
        λ str_price. post sell_stage (sell_request client o str_price) http_retry_count 0

  unfoldable pub modify_order_by_cash : Amendment → List HttpRequest → Result × List HttpRequest
  modify_order_by_cash o =
      priced (client.integral o.revise_price)
        λ str_price. amend (modify_request client o str_price) http_retry_count 0
