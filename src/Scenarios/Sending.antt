-- ===== src/Scenarios/Sending.antt =====
-- An order that is sent twice, and an amendment that meets a rate limit (app/broker/kis/kis_order.py).
use autotrading.Prelude.{
  ℕ, zero, suc, ◌≡◌, refl, String, some, none, true, false, ◌&&◌, [], ◌∷◌, leb, ltb, arith,
}
use autotrading.Worker.Effects.{reply, exception}
use autotrading.Worker.Submit.{is_rate_limit_error}
use autotrading.Broker.Client.{
  Entry, text, absent, Body, Attempt, answers, fails, order_response, order_error, Client, tried,
  accepted,
}
use autotrading.Broker.Client.Methods.{
  CashOrder, Amendment, buy_stage, sell_stage, buy_request, sell_request, modify_request,
  bare_error, post, buy_domestic_stock_by_cash, sell_domestic_stock_by_cash, modify_order_by_cash,
}
use autotrading.Broker.Client.Tries.{Tries, cash_orders-Tries}
use autotrading.Broker.Client.Amendments.{amend_message, seen, modify_order_by_cash-bare}

abbrev pub client : Client
client = record {
  base_url = "https://broker";
  appkey = "key";
  appsecret = "secret";
  is_paper = true;
  is_success = λ n. leb 200 n && ltb n 300;
  integral = reply;
  decimal = λ n. "7";
  validate = λ body. reply (record { rt_cd = some "0"; msg_cd = none; msg1 = none; output = none });
  json_error = exception "JSONDecodeError";
  attribute_error = exception "AttributeError";
}

abbrev cash : CashOrder
cash = record {
  access_token = "token";
  account_no = "12345678";
  account_product_code = "01";
  order_type = "00";
  stock_code = "005930";
  quantity = 7;
  price = "70000";
  exchange_type = "KRX";
}

abbrev amendment : Amendment
amendment = record {
  access_token = "token";
  account_no = "12345678";
  account_product_code = "01";
  krx_fwdg_ord_orgno = "00950";
  order_no = "0000117057";
  order_type = "00";
  revise_cancel_type = "02";
  quantity = "7";
  revise_price = "0";
  qty_all_order_yn = "Y";
  exchange_type = "KRX";
}

abbrev body : String → Entry → Body
body rt_cd msg_cd = record { rt_cd = text rt_cd; msg_cd = msg_cd; msg1 = absent; output_ok = true }

abbrev answer : ℕ → Body → Attempt
answer status_code b =
    answers (record { status_code = status_code; body = some b; response_text = "" })

-- the first attempt times out, and the second is accepted
abbrev times_out : ℕ → Attempt
times_out zero = fails "ReadTimeout"
times_out (suc n) = answer 200 (body "0" absent)

buys_twice : buy_domestic_stock_by_cash client times_out cash [] ≡ (
  order_response (record { rt_cd = some "0"; msg_cd = none; msg1 = none; output = none }),
  buy_request client cash "70000" ∷ buy_request client cash "70000" ∷ [],
)
unfolding buy_domestic_stock_by_cash post tried accepted
buys_twice = refl

cash_orders-Tries_example :
    Tries client times_out buy_stage
      (buy_request client cash "70000")
      2
      0
      []
      (buy_domestic_stock_by_cash client times_out cash [])
    × Tries client times_out sell_stage
        (sell_request client cash "70000")
        2
        0
        []
        (sell_domestic_stock_by_cash client times_out cash [])
cash_orders-Tries_example = cash_orders-Tries client times_out cash "70000" [] refl

-- the broker's answer to too many requests
abbrev limited : ℕ → Attempt
limited n = answer 500 (body "1" (text "EGW00201"))

modify_order_by_cash-bare_example :
    (modify_order_by_cash client limited amendment []
      ≡ (order_error (bare_error amend_message), modify_request client amendment "0" ∷ []))
    × (is_rate_limit_error (seen (bare_error amend_message)) ≡ false)
modify_order_by_cash-bare_example =
    modify_order_by_cash-bare client limited amendment "0" [] 0 refl (omega arith)
      (λ j below. ground (arith, below)) (unfold tried in refl)
