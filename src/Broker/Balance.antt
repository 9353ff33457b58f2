-- ===== src/Broker/Balance.antt =====
-- app/broker/kis/kis_account.py: `get_balance`, which asks the broker for the balance page by page. What httpx
-- and pydantic do is given, and so is what comes of a request: `broker n request` for the n-th one.
pub mod Pages
pub mod Endless
use autotrading.Prelude.{
  ℕ, zero, suc, ◌+◌, ◌-◌, String, Option, none, some, Bool, true, false, not, ◌&&◌, ◌||◌, List, [],
  ◌∷◌, ◌++◌, leb, ltb, ◌==◌, strip, codes, codes_eq, if◌then◌else◌,
}
use autotrading.Worker.Effects.{Exn, Reply, reply, error}
use autotrading.Broker.Client.{
  ◌<>◌, Entry, absent, null, text, get, get_or, Client, build_headers, http_retry_count, is_zero,
}
use autotrading.Snapshot.Account.{BalanceResponse}

-- The JSON object of an answer: `output1` is what the loop extends its list with, `output2` is handed on.
pub record Page (I O : Type 0) : Type 0 where
  pub rt_cd : Entry
  pub msg_cd : Entry
  pub msg1 : Entry
  pub ctx_area_fk100 : Entry
  pub ctx_area_nk100 : Entry
  pub output1 : Reply (List I)
  pub output2 : O

pub record PageAnswer (I O : Type 0) : Type 0 where
  pub status_code : ℕ
  pub page : Option (Page I O)
  pub response_text : String

-- what comes of a request: an answer, or a `RequestError`
pub data PageAttempt (I O : Type 0) : Type 0 where
  page_answers : PageAnswer I O → PageAttempt I O
  page_fails : String → PageAttempt I O

pub record PageRequest : Type 0 where
  pub url : String
  pub headers : List (String × String)
  pub params : List (String × List ℕ)

pub data AccountPayload (I O : Type 0) : Type 0 where
  unreached : String → AccountPayload I O
  unserved : ℕ → Option (Page I O) → String → AccountPayload I O
  denied : Page I O → AccountPayload I O

pub record KisAccountError (I O : Type 0) : Type 0 where
  pub message : Option String
  pub status_code : ℕ
  pub error_code : Option String
  pub rt_cd : Option String
  pub msg_cd : Option String
  pub msg1 : Option String
  pub payload : AccountPayload I O

pub data Balance (I O : Type 0) : Type 0 where
  balance : BalanceResponse → Balance I O
  account_error : KisAccountError I O → Balance I O
  raised : Exn → Balance I O

-- the variables of the loop
pub record Paging (I : Type 0) : Type 0 where
  pub attempt : ℕ
  pub ctx_fk100 : List ℕ
  pub ctx_nk100 : List ℕ
  pub all_output1 : List I

-- what a request comes to: the end, or another request
pub data Turn (I O : Type 0) : Type 0 where
  done : Balance I O → Turn I O
  again : Paging I → Turn I O

abbrev pub resume :
    {I O : Type 0} → Turn I O → (Paging I → Option (Balance I O)) → Option (Balance I O)
resume (done result) rest = some result
resume (again s) rest = rest s

-- `data.get(key, "").strip()`; of `null`, nothing can be stripped
abbrev pub next_key : Entry → Option (List ℕ)
next_key absent = some []
next_key null = none
next_key (text s) = some (strip s)

abbrev pub is_empty : List ℕ → Bool
is_empty [] = true
is_empty (c ∷ s) = false

abbrev pub first_page : {I : Type 0} → Paging I
first_page = record { attempt = 0; ctx_fk100 = []; ctx_nk100 = []; all_output1 = [] }

abbrev pub balance_request : Client → String → String → String → List ℕ → List ℕ → PageRequest
balance_request client access_token account_no account_product_code fk nk = record {
  url = client.base_url <> "/uapi/domestic-stock/v1/trading/inquire-balance";
  headers =
      build_headers client access_token (if client.is_paper then "VTTC8434R" else "TTTC8434R");
  params =
      ("CANO", codes account_no)
      ∷ ("ACNT_PRDT_CD", codes account_product_code)
      ∷ ("AFHR_FLPR_YN", codes "N")
      ∷ ("OFL_YN", [])
      ∷ ("INQR_DVSN", codes "01")
      ∷ ("UNPR_DVSN", codes "01")
      ∷ ("FUND_STTL_ICLD_YN", codes "N")
      ∷ ("FNCG_AMT_AUTO_RDPT_YN", codes "N")
      ∷ ("PRCS_DVSN", codes "00")
      ∷ ("CTX_AREA_FK100", fk)
      ∷ ("CTX_AREA_NK100", nk)
      ∷ [];
}

-- the statuses that raise
abbrev pub is_refused : {I O : Type 0} → Client → PageAnswer I O → Bool
is_refused client r =
    (leb 500 r.status_code && ltb r.status_code 600) || not (client.is_success r.status_code)

module _ {I O : Type 0} (client : Client)
    (validate : Page I O → List I → Reply BalanceResponse) where
  abbrev unreached_error : String → KisAccountError I O
  unreached_error e = record {
    message = some ("계좌 잔고 조회 요청 실패: " <> e);
    status_code = 500;
    error_code = some "NETWORK_ERROR";
    rt_cd = some "ERROR";
    msg_cd = some "NETWORK_ERROR";
    msg1 = some ("계좌 잔고 조회 요청 실패: " <> e);
    payload = unreached e;
  }

  abbrev status_text : ℕ → String
  status_text status_code = "계좌 잔고 조회 실패: HTTP " <> client.decimal status_code

  -- the text under a key of the answer, if it is a JSON object
  abbrev told : (Page I O → Entry) → Option (Page I O) → String → Option String
  told key none d = some d
  told key (some page) d = get_or (key page) (some d)

  abbrev unserved_error : PageAnswer I O → KisAccountError I O
  unserved_error r = record {
    message = told (λ page. page.msg1) r.page (status_text r.status_code);
    status_code = r.status_code;
    error_code = told (λ page. page.msg_cd) r.page "BROKER_HTTP_ERROR";
    rt_cd = told (λ page. page.rt_cd) r.page "ERROR";
    msg_cd = told (λ page. page.msg_cd) r.page "BROKER_HTTP_ERROR";
    msg1 = told (λ page. page.msg1) r.page (status_text r.status_code);
    payload = unserved r.status_code r.page r.response_text;
  }

  abbrev denied_error : Page I O → KisAccountError I O
  denied_error page = record {
    message = get_or page.msg1 (some "계좌 잔고 조회 실패");
    status_code = 400;
    error_code = get page.msg_cd;
    rt_cd = get page.rt_cd;
    msg_cd = get page.msg_cd;
    msg1 = get page.msg1;
    payload = denied page;
  }

  -- `BalanceResponse(**final_data)`
  abbrev pub final : Page I O → List I → Balance I O
  final page items = elim (validate page items) [
    | reply response ↦ balance response
    | error e ↦ raised e
  ]

  -- the end of the loop's body: no key, the key that was sent, or another one
  abbrev pub onward : Paging I → Page I O → List I → List ℕ → List ℕ → Turn I O
  onward s page items fk nk =
      if is_empty fk && is_empty nk
      then done (final page items)
      else if codes_eq fk s.ctx_fk100 && codes_eq nk s.ctx_nk100
      then done (final page items)
      else again (record { attempt = 0; ctx_fk100 = fk; ctx_nk100 = nk; all_output1 = items })

  abbrev pub keyed : Paging I → Page I O → List I → Option (List ℕ) → Option (List ℕ) → Turn I O
  keyed s page items (some fk) (some nk) = onward s page items fk nk
  keyed s page items _ _ = done (raised client.attribute_error)

  abbrev pub extended : Paging I → Page I O → Reply (List I) → Turn I O
  extended s page (reply more) =
      keyed s page (s.all_output1 ++ more) (next_key page.ctx_area_fk100)
        (next_key page.ctx_area_nk100)
  extended s page (error e) = done (raised e)

  abbrev pub gathered : Paging I → Option (Page I O) → Turn I O
  gathered s none = done (raised client.json_error)
  gathered s (some page) =
      if not (is_zero page.rt_cd)
      then done (account_error (denied_error page))
      else extended s page page.output1

  abbrev pub retry : Paging I → KisAccountError I O → Turn I O
  retry s e =
      if s.attempt == http_retry_count - 1
      then done (account_error e)
      else again (record s { attempt = s.attempt + 1 })

  -- one request
  unfoldable pub turn : Paging I → PageAttempt I O → Turn I O
  turn s (page_fails e) = retry s (unreached_error e)
  turn s (page_answers r) =
      if is_refused client r then retry s (unserved_error r) else gathered s r.page

  module _ (broker : ℕ → PageRequest → PageAttempt I O)
      (access_token account_no account_product_code : String) where
    abbrev pub asked : ℕ → Paging I → PageAttempt I O
    asked n s = broker n (
        balance_request client access_token account_no account_product_code s.ctx_fk100 s.ctx_nk100)

    -- both loops, from the n-th request on; the fuel is the number of requests looked at
    unfoldable pub pages : ℕ → ℕ → Paging I → Option (Balance I O)
    unfolding turn
    pages zero n s = none
    pages (suc fuel) n s = resume (turn s (asked n s)) (pages fuel (n + 1))

    abbrev pub get_balance : ℕ → Option (Balance I O)
    get_balance fuel = pages fuel 0 first_page
