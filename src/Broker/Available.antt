-- ===== src/Broker/Available.antt =====
-- `get_available_buy` of app/broker/kis/kis_account.py, which asks once, and of
-- app/services/kis/account_service.py, which takes the lesser of two amounts out of the answer. Amounts are natural
-- numbers; how Python reads one is given, as `int(float(value))`.
use autotrading.Prelude.{
  ℕ, ◌≤◌, ◌≡◌, ◌⊎◌, inl, inr, arith, Bool-cases, String, Option, none, some, not, [], ◌∷◌, leb,
  truthy, if◌then◌else◌,
}
use autotrading.Worker.Effects.{Exn, exception, Reply, reply, error}
use autotrading.Broker.Client.{
  ◌<>◌, Entry, get, get_or, Client, HttpRequest, build_headers, is_zero,
}
use autotrading.Snapshot.Account.{◌>>=◌, >>=-eq-reply, reply_injective}

pub record AvailableBuyItem : Type 0 where
  pub ord_psbl_cash : String
  pub ord_psbl_sbst : String
  pub ruse_psbl_amt : String
  pub fund_rpch_chgs : String
  pub psbl_qty_calc_unpr : String
  pub nrcvb_buy_amt : String
  pub nrcvb_buy_qty : String
  pub max_buy_amt : String
  pub max_buy_qty : String
  pub cma_evlu_amt : String
  pub ovrs_re_use_amt_wcrc : String
  pub ord_psbl_frcr_amt_wcrc : String

pub record BalanceAvailableBuyResponse : Type 0 where
  pub rt_cd : String
  pub msg_cd : String
  pub msg1 : String
  pub output : AvailableBuyItem

-- the JSON object of an answer, whose output only the model of the response reads
pub record AvailableBody (O : Type 0) : Type 0 where
  pub rt_cd : Entry
  pub msg_cd : Entry
  pub msg1 : Entry
  pub output : O

pub data AvailableAttempt (O : Type 0) : Type 0 where
  answered : ℕ → Option (AvailableBody O) → AvailableAttempt O
  unanswered : String → AvailableAttempt O

pub data AvailablePayload (O : Type 0) : Type 0 where
  network_payload : String → AvailablePayload O
  refusal_payload : AvailableBody O → AvailablePayload O

pub record AvailableError (O : Type 0) : Type 0 where
  pub message : Option String
  pub status_code : ℕ
  pub error_code : Option String
  pub rt_cd : Option String
  pub msg_cd : Option String
  pub msg1 : Option String
  pub payload : AvailablePayload O

-- the response, a `KISAccountError`, or another exception, such as the one for a status of HTTP
pub data Available (O : Type 0) : Type 0 where
  available : BalanceAvailableBuyResponse → Available O
  account_failed : AvailableError O → Available O
  escaped : Exn → Available O

abbrev pub available_request : Client → String → String → String → HttpRequest
available_request client access_token account_no account_product_code = record {
  url = client.base_url <> "/uapi/domestic-stock/v1/trading/inquire-psbl-order";
  headers =
      build_headers client access_token (if client.is_paper then "VTTC8908R" else "TTTC8908R");
  json =
      ("CANO", account_no)
      ∷ ("ACNT_PRDT_CD", account_product_code)
      ∷ ("PDNO", "")
      ∷ ("ORD_UNPR", "")
      ∷ ("ORD_DVSN", "")
      ∷ ("CMA_EVLU_AMT_ICLD_YN", "N")
      ∷ ("OVRS_ICLD_YN", "N")
      ∷ [];
}

module _ {O : Type 0} (client : Client)
    (validate : AvailableBody O → Reply BalanceAvailableBuyResponse) (status_error : ℕ → Exn) where
  abbrev unanswered_error : String → AvailableError O
  unanswered_error e = record {
    message = some ("매수 가능 조회 요청 실패: " <> e);
    status_code = 500;
    error_code = some "NETWORK_ERROR";
    rt_cd = some "ERROR";
    msg_cd = some "NETWORK_ERROR";
    msg1 = some ("매수 가능 조회 요청 실패: " <> e);
    payload = network_payload e;
  }

  abbrev refused_error : AvailableBody O → AvailableError O
  refused_error body = record {
    message = get_or body.msg1 (some "매수 가능 조회 실패");
    status_code = 400;
    error_code = get body.msg_cd;
    rt_cd = get body.rt_cd;
    msg_cd = get body.msg_cd;
    msg1 = get body.msg1;
    payload = refusal_payload body;
  }

  abbrev response : AvailableBody O → Available O
  response body = elim (validate body) [ reply r ↦ available r | error e ↦ escaped e ]

  abbrev read_body : Option (AvailableBody O) → Available O
  read_body none = escaped client.json_error
  read_body (some body) =
      if not (is_zero body.rt_cd) then account_failed (refused_error body) else response body

  unfoldable pub ask_available :
      (HttpRequest → AvailableAttempt O) → String → String → String → Available O
  ask_available broker access_token account_no account_product_code =
      elim (broker (available_request client access_token account_no account_product_code)) [
        | unanswered e ↦ account_failed (unanswered_error e)
        | answered status_code body ↦
            if client.is_success status_code
            then read_body body
            else escaped (status_error status_code)
      ]

-- `_to_int`: the empty text is 0
abbrev pub to_int : (String → Option ℕ) → String → Reply ℕ
to_int int_of_float value =
    if truthy (some value)
    then elim (int_of_float value) [ some n ↦ reply n | none ↦ error (exception "ValueError") ]
    else reply 0

abbrev pub least : ℕ → ℕ → ℕ
least a b = if leb b a then b else a

least-cases : (a b n : ℕ) → least a b ≡ n → (n ≤ a) × (n ≤ b) × ((n ≡ a) ⊎ (n ≡ b))
least-cases a b n same = elim (Bool-cases (leb b a)) [
  | inl below ↦ ground (arith, same, below)
  | inr above ↦ ground (arith, same, above)
]

-- The method of the service, given the token service's answer and the broker's to a request with that token.
unfoldable pub get_available_buy :
    (String → Option ℕ) → Reply String → (String → Reply BalanceAvailableBuyResponse) → Reply ℕ
get_available_buy int_of_float access_token ask = do
  token ← access_token
  available_buy ← ask token
  cash ← to_int int_of_float available_buy.output.ord_psbl_cash
  unborrowed ← to_int int_of_float available_buy.output.nrcvb_buy_amt
  reply (least cash unborrowed)

-- An amount that is answered is within both amounts of the broker's answer, and it is one of them.
get_available_buy-least :
    (int_of_float : String → Option ℕ) (access_token : Reply String)
    (ask : String → Reply BalanceAvailableBuyResponse) (n : ℕ)
    → get_available_buy int_of_float access_token ask ≡ reply n
    → (token : String) × (r : BalanceAvailableBuyResponse) × (cash : ℕ) × (unborrowed : ℕ)
      × (access_token ≡ reply token)
      × (ask token ≡ reply r)
      × (to_int int_of_float r.output.ord_psbl_cash ≡ reply cash)
      × (to_int int_of_float r.output.nrcvb_buy_amt ≡ reply unborrowed)
      × ((n ≤ cash) × (n ≤ unborrowed) × ((n ≡ cash) ⊎ (n ≡ unborrowed)))
unfolding get_available_buy
get_available_buy-least int_of_float access_token ask n done =
    let (token, known, then_ask) = >>=-eq-reply access_token _ done in
    let (r, asked, then_cash) = >>=-eq-reply (ask token) _ then_ask in
    let (cash, read, then_other) =
      >>=-eq-reply (to_int int_of_float r.output.ord_psbl_cash) _ then_cash in
    let (unborrowed, read', is_least) =
      >>=-eq-reply (to_int int_of_float r.output.nrcvb_buy_amt) _ then_other in
    (
      token,
      r,
      cash,
      unborrowed,
      known,
      asked,
      read,
      read',
      least-cases cash unborrowed n (reply_injective is_least),
    )
