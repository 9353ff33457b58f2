-- ===== src/Broker/Client/Amendments.antt =====
-- What an amendment makes of an HTTP error (app/broker/kis/kis_order.py: `modify_order_by_cash`).
use autotrading.Prelude.{
  ℕ, zero, suc, ◌+◌, ◌<◌, ◌≡◌, ◌∙◌, refl, sym, ap, String, Option, none, some, Bool, true, false,
  List, ◌∷◌, arith, or_empty,
}
use autotrading.Worker.Effects.{reply, Payload, KisError}
use autotrading.Worker.Submit.{is_rate_limit_error}
use autotrading.Broker.Client.{
  Attempt, HttpRequest, Result, order_error, Client, Tried, passed, request_error, status_error,
  tried, ErrorPayload, http, parsed, raw, KisOrderError, get,
}
use autotrading.Broker.Client.Methods.{
  Amendment, bare_error, modify_request, amended, amend, modify_order_by_cash,
}
use autotrading.Broker.Client.Tries.{repeated, shift, start}

abbrev pub is_request_error : Tried → Bool
is_request_error (request_error e) = true
is_request_error _ = false

abbrev pub is_status_error : Tried → Bool
is_status_error (status_error r) = true
is_status_error _ = false

abbrev pub amend_message : String
amend_message = "주식 주문 정정/취소 중 오류가 발생했습니다."

-- what worker 1 reads of an error
abbrev pub response_of : ErrorPayload → Option Payload
response_of (http stage status_code (parsed body)) =
    some (record { msg_cd = get body.msg_cd; msg1 = get body.msg1 })
response_of (http stage status_code (raw code content)) =
    some (record { msg_cd = none; msg1 = none })
response_of _ = none

abbrev pub seen : KisOrderError → KisError
seen e = record {
  message = or_empty e.message;
  rt_cd = e.rt_cd;
  msg_cd = e.msg_cd;
  msg1 = e.msg1;
  response = response_of e.payload;
}

module _ (client : Client) (attempts : ℕ → Attempt) where
  abbrev status : Attempt → Bool
  status a = is_status_error (tried client a)

  abbrev network : Attempt → Bool
  network a = is_request_error (tried client a)

  amended-again :
      (left : ℕ) (t : Tried) (again : Result × List HttpRequest) (sent : List HttpRequest)
      → is_request_error t ≡ true
      → amended client attempts (suc left) t again sent ≡ again
  amended-again left (passed r) again sent bad = ground (arith, bad)
  amended-again left (request_error e) again sent bad = refl
  amended-again left (status_error r) again sent bad = ground (arith, bad)

  amended-bare :
      (left : ℕ) (t : Tried) (again : Result × List HttpRequest) (sent : List HttpRequest)
      → is_status_error t ≡ true
      → amended client attempts (suc left) t again sent
        ≡ (order_error (bare_error amend_message), sent)
  amended-bare left (passed r) again sent bad = ground (arith, bad)
  amended-bare left (request_error e) again sent bad = ground (arith, bad)
  amended-bare left (status_error r) again sent bad = refl

  amend-bare :
      (request : HttpRequest) (k left first : ℕ) (sent : List HttpRequest)
      → k < left
      → ((j : ℕ) → j < k → is_request_error (tried client (attempts (first + j))) ≡ true)
      → is_status_error (tried client (attempts (first + k))) ≡ true
      → amend client attempts request (suc left) first sent
        ≡ (order_error (bare_error amend_message), repeated (suc k) request sent)
  unfolding amend
  amend-bare request k zero first sent below early bad = ground (arith, below)
  amend-bare request zero (suc left) first sent below early bad =
      amended-bare left (tried client (attempts first)) _ (request ∷ sent)
        (ap status (sym (start client attempts first)) ∙ bad)
  amend-bare request (suc k) (suc left) first sent below early bad =
      amended-again left (tried client (attempts first))
        (amend client attempts request (suc left) (suc first) (request ∷ sent)) (request ∷ sent)
        (ap network (sym (start client attempts first)) ∙ early 0 (omega arith))
      ∙ amend-bare request k left (suc first) (request ∷ sent) (omega arith)
          (λ j less. ap network (sym (shift client attempts first j)) ∙ early (suc j) (omega arith))
          (ap status (sym (shift client attempts first k)) ∙ bad)

-- If the first or the second attempt of an amendment is answered by an HTTP error, and those before it failed
-- in the network, the amendment is not tried again: it ends with an error that has one fixed text, and
-- neither the status nor the code and the text that the broker answered, so that worker 1 does not take it
-- for a rate limit, whatever the broker answered.
pub modify_order_by_cash-bare :
    (client : Client) (attempts : ℕ → Attempt) (o : Amendment) (str_price : String)
    (sent : List HttpRequest) (k : ℕ)
    → client.integral o.revise_price ≡ reply str_price
    → k < 2
    → ((j : ℕ) → j < k → is_request_error (tried client (attempts j)) ≡ true)
    → is_status_error (tried client (attempts k)) ≡ true
    → (modify_order_by_cash client attempts o sent ≡ (
      order_error (bare_error amend_message),
      repeated (suc k) (modify_request client o str_price) sent,
    ))
      × (is_rate_limit_error (seen (bare_error amend_message)) ≡ false)
unfolding modify_order_by_cash
modify_order_by_cash-bare client attempts o str_price sent k price below early bad = (
  rw price (
      amend-bare client attempts (modify_request client o str_price) k 2 0 sent below
        (λ j less. ap (network client attempts) (ap attempts (omega arith)) ∙ early j less)
        (ap (status client attempts) (ap attempts (omega arith)) ∙ bad)),
  unfold is_rate_limit_error in refl,
)
