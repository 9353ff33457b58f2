-- ===== src/Broker/Client/Tries.antt =====
-- How often the client sends an order (app/broker/kis/kis_order.py).
use autotrading.Prelude.{
  ℕ, zero, suc, ◌+◌, ◌≤◌, ◌<◌, ◌≡◌, refl, ap, String, Bool, true, false, List, ◌∷◌, arith,
  Bool-cases, ◌⊎◌, inl, inr,
}
use autotrading.Worker.Effects.{reply}
use autotrading.Broker.Client.{
  Attempt, HttpRequest, Result, order_error, Client, Stage, Tried, passed, request_error,
  status_error, tried, network_error, http_error, accepted,
}
use autotrading.Broker.Client.Methods.{
  CashOrder, buy_stage, sell_stage, buy_request, sell_request, retried, post,
  buy_domestic_stock_by_cash, sell_domestic_stock_by_cash,
}

abbrev pub is_fault : Tried → Bool
is_fault (passed r) = false
is_fault (request_error e) = true
is_fault (status_error r) = true

-- what an attempt comes to, if the method ends with it
abbrev pub outcome : Client → Stage → Tried → Result
outcome client stage (passed r) = accepted client stage true r
outcome client stage (request_error e) = order_error (network_error stage e)
outcome client stage (status_error r) = order_error (http_error client stage r)

abbrev pub repeated : ℕ → HttpRequest → List HttpRequest → List HttpRequest
repeated zero request sent = sent
repeated (suc n) request sent = repeated n request (request ∷ sent)

-- Of the attempts from `first` on, with `left` after the first one: those before some attempt fail, the
-- request was sent once for each up to that one, and that one gives the result; it is the last that
-- is allowed, or it did not fail.
abbrev pub Tries :
    Client
    → (ℕ → Attempt)
    → Stage
    → HttpRequest
    → ℕ
    → ℕ
    → List HttpRequest
    → Result × List HttpRequest
    → Type 0
Tries client attempts stage request left first sent result =
    (k : ℕ) × (k ≤ left)
    × ((j : ℕ) → j < k → is_fault (tried client (attempts (first + j))) ≡ true)
    × ((k ≡ left) ⊎ (is_fault (tried client (attempts (first + k))) ≡ false))
    × (result ≡ (
      outcome client stage (tried client (attempts (first + k))),
      repeated (suc k) request sent,
    ))

module _ (client : Client) (attempts : ℕ → Attempt) where
  retried-passed :
      (stage : Stage) (left : ℕ) (t : Tried) (again : Result × List HttpRequest)
      (sent : List HttpRequest)
      → is_fault t ≡ false
      → retried client attempts stage left t again sent ≡ (outcome client stage t, sent)
  retried-passed stage zero (passed r) again sent ok = refl
  retried-passed stage (suc left) (passed r) again sent ok = refl
  retried-passed stage left (request_error e) again sent ok = ground (arith, ok)
  retried-passed stage left (status_error r) again sent ok = ground (arith, ok)

  retried-last :
      (stage : Stage) (t : Tried) (again : Result × List HttpRequest) (sent : List HttpRequest)
      → retried client attempts stage 0 t again sent ≡ (outcome client stage t, sent)
  retried-last stage (passed r) again sent = refl
  retried-last stage (request_error e) again sent = refl
  retried-last stage (status_error r) again sent = refl

  retried-again :
      (stage : Stage) (left : ℕ) (t : Tried) (again : Result × List HttpRequest)
      (sent : List HttpRequest)
      → is_fault t ≡ true
      → retried client attempts stage (suc left) t again sent ≡ again
  retried-again stage left (passed r) again sent bad = ground (arith, bad)
  retried-again stage left (request_error e) again sent bad = refl
  retried-again stage left (status_error r) again sent bad = refl

  pub shift : (first j : ℕ) → attempts (first + suc j) ≡ attempts (suc first + j)
  shift first j = ap attempts (omega arith)

  pub start : (first : ℕ) → attempts (first + 0) ≡ attempts first
  start first = ap attempts (omega arith)

  early-suc :
      (first k : ℕ)
      → is_fault (tried client (attempts first)) ≡ true
      → ((j : ℕ) → j < k → is_fault (tried client (attempts (suc first + j))) ≡ true)
      → (j : ℕ) → j < suc k
      → is_fault (tried client (attempts (first + j))) ≡ true
  early-suc first k bad early zero below = rw (start first) bad
  early-suc first k bad early (suc j) below = rw (shift first j) (early j (omega arith))

  end-suc :
      (first left k : ℕ)
      → ((k ≡ left) ⊎ (is_fault (tried client (attempts (suc first + k))) ≡ false))
      → (suc k ≡ suc left) ⊎ (is_fault (tried client (attempts (first + suc k))) ≡ false)
  end-suc first left k (inl last) = inl (ap suc last)
  end-suc first left k (inr ok) = inr (rw (shift first k) ok)

  Tries-suc :
      (stage : Stage) (request : HttpRequest) (left first : ℕ) (sent : List HttpRequest)
      (result : Result × List HttpRequest)
      → is_fault (tried client (attempts first)) ≡ true
      → Tries client attempts stage request left (suc first) (request ∷ sent) result
      → Tries client attempts stage request (suc left) first sent result
  Tries-suc stage request left first sent result bad (k, within, early, end, eq) = (
    suc k,
    omega arith,
    early-suc first k bad early,
    end-suc first left k end,
    rw (shift first k) eq,
  )

  Tries-zero :
      (stage : Stage) (request : HttpRequest) (left first : ℕ) (sent : List HttpRequest)
      (result : Result × List HttpRequest)
      → ((0 ≡ left) ⊎ (is_fault (tried client (attempts first)) ≡ false))
      → result ≡ (outcome client stage (tried client (attempts first)), request ∷ sent)
      → Tries client attempts stage request left first sent result
  Tries-zero stage request left first sent result end eq =
      (0, omega arith, λ j below. ground (arith, below), rw (start first) end, rw (start first) eq)

  post-Tries :
      (stage : Stage) (request : HttpRequest) (left first : ℕ) (sent : List HttpRequest)
      → Tries client attempts stage request left first sent
          (post client attempts stage request (suc left) first sent)
  unfolding post
  post-Tries stage request zero first sent =
      Tries-zero stage request 0 first sent _ (inl refl)
        (retried-last stage (tried client (attempts first)) _ (request ∷ sent))
  post-Tries stage request (suc left) first sent =
      elim (Bool-cases (is_fault (tried client (attempts first)))) [
        | inl bad ↦
            rw
              (retried-again stage left (tried client (attempts first))
                (post client attempts stage request (suc left) (suc first) (request ∷ sent))
                (request ∷ sent) bad)
              (Tries-suc stage request left first sent _ bad
                (post-Tries stage request left (suc first) (request ∷ sent)))
        | inr ok ↦
            Tries-zero stage request (suc left) first sent _ (inr ok) (
              retried-passed stage (suc left) (tried client (attempts first)) _ (request ∷ sent) ok)
      ]

-- A purchase or a sale whose price can be read posts its order once, twice or three times, the same
-- request each time: the attempts before the last one that it makes failed, be it by a network error, after
-- which the broker may have the order all the same, or by an HTTP error; the last one gives the result,
-- and is the third or did not fail.
pub cash_orders-Tries :
    (client : Client) (attempts : ℕ → Attempt) (o : CashOrder) (str_price : String)
    (sent : List HttpRequest)
    → client.integral o.price ≡ reply str_price
    → Tries client attempts buy_stage
        (buy_request client o str_price)
        2
        0
        sent
        (buy_domestic_stock_by_cash client attempts o sent)
      × Tries client attempts sell_stage
          (sell_request client o str_price)
          2
          0
          sent
          (sell_domestic_stock_by_cash client attempts o sent)
unfolding buy_domestic_stock_by_cash sell_domestic_stock_by_cash
cash_orders-Tries client attempts o str_price sent price = rw price (
  post-Tries client attempts buy_stage (buy_request client o str_price) 2 0 sent,
  post-Tries client attempts sell_stage (sell_request client o str_price) 2 0 sent,
)
