-- ===== src/Broker/Client.antt =====
-- app/broker/kis/kis_order.py: the methods of the HTTP client that place and amend orders, with their
-- retries, over the headers of app/broker/kis/base.py. What httpx, pydantic and decimal do is given.
pub mod Methods
pub mod Tries
pub mod Amendments
use autotrading.Prelude.{
  ℕ, zero, suc, ◌+◌, String, Option, none, some, Bool, true, false, not, ◌&&◌, ◌||◌, List, [], ◌∷◌,
  leb, ltb, codes, codes_eq, if◌then◌else◌,
}
use autotrading.Worker.Effects.{Exn, Reply, reply, error}
use autotrading.Broker.TradeService.{OrderResponse}

infixr 20 ◌<>◌
abbrev pub ◌<>◌ : String → String → String
String.[] <> t = t
(String.◌∷◌ c s) <> t = String.◌∷◌ c (s <> t)

-- a key of a JSON object: missing, `null`, or a text
pub data Entry : Type 0 where
  absent : Entry
  null : Entry
  text : String → Entry

-- `get(key)` and `get(key, default)`
abbrev pub get : Entry → Option String
get absent = none
get null = none
get (text s) = some s

abbrev pub get_or : Entry → Option String → Option String
get_or absent d = d
get_or null d = none
get_or (text s) d = some s

-- A JSON object; the flag is whether `get("output", {})` has a method `get`.
pub record Body : Type 0 where
  pub rt_cd : Entry
  pub msg_cd : Entry
  pub msg1 : Entry
  pub output_ok : Bool

-- an answer; `none` for a body that is no JSON object
pub record HttpAnswer : Type 0 where
  pub status_code : ℕ
  pub body : Option Body
  pub response_text : String

-- What comes of one request: an answer, or a `RequestError`, of which `TimeoutException` is one.
pub data Attempt : Type 0 where
  answers : HttpAnswer → Attempt
  fails : String → Attempt

pub record HttpRequest : Type 0 where
  pub url : String
  pub headers : List (String × String)
  pub json : List (String × String)

pub data Response : Type 0 where
  parsed : Body → Response
  raw : ℕ → String → Response

pub data ErrorPayload : Type 0 where
  no_payload : ErrorPayload
  network : String → String → ErrorPayload
  http : String → ℕ → Response → ErrorPayload
  refused : Body → ErrorPayload

pub record KisOrderError : Type 0 where
  pub message : Option String
  pub status_code : Option ℕ
  pub error_code : Option String
  pub rt_cd : Option String
  pub msg_cd : Option String
  pub msg1 : Option String
  pub payload : ErrorPayload

pub data Result : Type 0 where
  order_response : OrderResponse → Result
  order_error : KisOrderError → Result
  other : Exn → Result

-- The client's settings, `raise_for_status` as the test that it makes, `str(int(Decimal(str(price))))`,
-- the text of a number, the check of an answer by its model, and the exceptions of a body that is no
-- JSON object and of an output that is none.
pub record Client : Type 0 where
  pub base_url : String
  pub appkey : String
  pub appsecret : String
  pub is_paper : Bool
  pub is_success : ℕ → Bool
  pub integral : String → Reply String
  pub decimal : ℕ → String
  pub validate : Body → Reply OrderResponse
  pub json_error : Exn
  pub attribute_error : Exn

-- `build_headers`, whose other parameters have their defaults
unfoldable pub build_headers : Client → String → String → List (String × String)
build_headers client access_token tr_id =
    ("Content-Type", "application/json;charset=utf-8")
    ∷ ("Authorization", "Bearer " <> access_token)
    ∷ ("appkey", client.appkey)
    ∷ ("appsecret", client.appsecret)
    ∷ ("personalseckey", "")
    ∷ ("tr_id", tr_id)
    ∷ ("tr_cont", "")
    ∷ ("custtype", "P")
    ∷ ("seq_no", "")
    ∷ ("mac_address", "")
    ∷ ("phone_number", "")
    ∷ ("ip_addr", "")
    ∷ ("gt_uid", "")
    ∷ []

abbrev pub http_retry_count : ℕ
http_retry_count = 3

-- the texts by which one method differs from another
pub record Stage : Type 0 where
  pub name : String
  pub failed : String
  pub network_failed : String
  pub refusal : String

-- what the `try` block of one attempt ends in
pub data Tried : Type 0 where
  passed : HttpAnswer → Tried
  request_error : String → Tried
  status_error : HttpAnswer → Tried

unfoldable pub tried : Client → Attempt → Tried
tried client (fails e) = request_error e
tried client (answers r) =
    if (leb 500 r.status_code && ltb r.status_code 600) || not (client.is_success r.status_code)
    then status_error r
    else passed r

abbrev pub network_error : Stage → String → KisOrderError
network_error stage e = record {
  message = some (stage.failed <> ": " <> e);
  status_code = some 500;
  error_code = none;
  rt_cd = some "ERROR";
  msg_cd = some "NETWORK_ERROR";
  msg1 = some (stage.network_failed <> e);
  payload = network stage.name e;
}

abbrev http_text : Client → Stage → ℕ → String
http_text client stage status_code = stage.failed <> ": HTTP " <> client.decimal status_code

abbrev pub http_error : Client → Stage → HttpAnswer → KisOrderError
http_error client stage r = elim r.body [
  | some body ↦ record {
    message = get_or body.msg1 (some (http_text client stage r.status_code));
    status_code = some r.status_code;
    error_code = get_or body.msg_cd (some "BROKER_HTTP_ERROR");
    rt_cd = get_or body.rt_cd (some "ERROR");
    msg_cd = get_or body.msg_cd (some "BROKER_HTTP_ERROR");
    msg1 = get_or body.msg1 (some (http_text client stage r.status_code));
    payload = http stage.name r.status_code (parsed body);
  }
  | none ↦ record {
    message = some (http_text client stage r.status_code);
    status_code = some r.status_code;
    error_code = some "BROKER_HTTP_ERROR";
    rt_cd = some "ERROR";
    msg_cd = some "BROKER_HTTP_ERROR";
    msg1 = some (http_text client stage r.status_code);
    payload = http stage.name r.status_code (raw r.status_code r.response_text);
  }
]

-- `rt_cd != "0"` raises this
abbrev pub refusal_error : Stage → Body → KisOrderError
refusal_error stage body = record {
  message = get_or body.msg1 (some stage.refusal);
  status_code = some 400;
  error_code = get body.msg_cd;
  rt_cd = get body.rt_cd;
  msg_cd = get body.msg_cd;
  msg1 = get body.msg1;
  payload = refused body;
}

abbrev pub is_zero : Entry → Bool
is_zero (text s) = codes_eq (codes s) (codes "0")
is_zero _ = false

abbrev pub validated : Client → Body → Result
validated client body = elim (client.validate body) [
  | reply r ↦ order_response r
  | error e ↦ other e
]

-- What becomes of an answer that passed; a cash order looks its number up, for the log.
unfoldable pub accepted : Client → Stage → Bool → HttpAnswer → Result
accepted client stage looks r = elim r.body [
  | none ↦ other client.json_error
  | some body ↦
      if not (is_zero body.rt_cd)
      then order_error (refusal_error stage body)
      else if looks && not body.output_ok
      then other client.attribute_error
      else validated client body
]
