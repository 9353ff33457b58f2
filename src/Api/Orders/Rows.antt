-- ===== src/Api/Orders/Rows.antt =====
-- What the routes of app/api/router_order.py leave behind, and whether worker 1 takes it.
use autotrading.Prelude.{
  true, false, inl, inr, Option-cases, ℕ, ◌≡◌, ◌<◌, refl, String, Option, some, none, Bool, [], ◌∷◌,
  arith,
}
use autotrading.Domain.{
  OrderType, OrderKind, OrderAction, buy, sell, pending, status_in, accepted, partial_filled,
}
use autotrading.Orders.Row.{Order}
use autotrading.Orders.Repository.{get_order_by_id, create_order}
use autotrading.Worker.Effects.{World}
use autotrading.Worker.Submit.{original_id, amendment_ok}
use autotrading.Api.Http.{Response, answer, http_exception, server_error, ◌>>=◌}
use autotrading.Api.Orders.{
  ℤ, Decimal, RouteEnv, revise_price, amend_row, int, pos, negsuc, trade, buy_domestic_stock,
  sell_domestic_stock, amend_qty, cancel_domestic_stock_order, revise_domestic_stock_order,
  find_original, validate_order_request, validate_cancel_request, validate_revise_request,
  submit_row,
}
use autotrading.Api.Orders.Requests.{
  Request, buy_request, sell_request, cancel_request, revise_request, serve, is_dry_run, Amended,
  Served,
}
use autotrading.Api.Orders.Lookup.{Found, find_original-Found}

module _ (env : RouteEnv) (w : World) where
  submit_row-Served :
      (row : Order) (dry_run : Bool)
      → row.id ≡ env.new_id
      → row.status ≡ pending
      → 0 < row.order_qty
      → row.remaining_qty ≡ row.order_qty
      → Served env dry_run w (submit_row row dry_run w)
  unfolding submit_row create_order
  submit_row-Served row true id status quantity remaining =
      (row, id, status, quantity, remaining, refl, refl)
  submit_row-Served row false id status quantity remaining =
      (row, id, status, quantity, remaining, refl, refl)

  trade_quantity :
      (code : String) (quantity : ℤ) (type : OrderType) (price : Decimal)
      → validate_order_request env.isdigit code quantity type price ≡ none
      → 0 < int quantity
  unfolding validate_order_request
  trade_quantity code (pos n) type price ok = ground (arith, ok)
  trade_quantity code (negsuc n) type price ok = ground (arith, ok)

  cancel_quantity :
      (id : String) (quantity : ℤ) → validate_cancel_request id quantity ≡ none → 0 < int quantity
  unfolding validate_cancel_request
  cancel_quantity id (pos n) ok = ground (arith, ok)
  cancel_quantity id (negsuc n) ok = ground (arith, ok)

  revise_quantity :
      (id : String) (quantity : ℤ) (type : OrderType) (price : Decimal)
      → validate_revise_request id quantity type price ≡ none
      → 0 < int quantity
  unfolding validate_revise_request
  revise_quantity id (pos n) type price ok = ground (arith, ok)
  revise_quantity id (negsuc n) type price ok = ground (arith, ok)

  trade-Served :
      (side : OrderAction) (code : String) (quantity : ℤ) (type : OrderType) (price : Decimal)
      (dry_run : Bool)
      → Served env dry_run w (trade env side code quantity type price dry_run w)
  unfolding trade
  trade-Served side code quantity type price dry_run =
      elim (Option-cases (validate_order_request env.isdigit code quantity type price)) [
        | inl e ↦
            rw e (
              submit_row-Served _ dry_run refl refl (trade_quantity code quantity type price e)
                refl)
        | inr (n, e) ↦ rw e refl
      ]

  amend_qty-lem : (original : Order) (n : ℕ) → amend_qty original n ≡ n
  amend_qty-lem original n = ground arith

  amended :
      (original row : Order) (dry_run : Bool) (n : ℕ)
      → original_id row ≡ original.id
      → row.order_qty ≡ n
      → amendment_ok row ≡ true
      → get_order_by_id original.id w.table ≡ some original
      → status_in original.status (accepted ∷ partial_filled ∷ []) ≡ true
      → 0 < original.remaining_qty
      → Amended row.order_kind n w (submit_row row dry_run w)
  unfolding submit_row create_order
  amended original row true n same quantity ok got status rest =
      (row, original, refl, refl, quantity, rw same got, status, ok, ground (arith, quantity, rest))
  amended original row false n same quantity ok got status rest =
      (row, original, refl, refl, quantity, rw same got, status, ok, ground (arith, quantity, rest))

  -- both parts of a request that looks up an original
  amend-both :
      (kind : OrderKind) (type : Order → OrderType) (price : Option String) (n : ℕ) (dry_run : Bool)
      → 0 < n
      → (r : Response Order × World) → Found env w r
      → let out =
          ((λ (v : World). r) >>= λ original.
          submit_row (amend_row env kind (type original) price n original) dry_run)
            w in
        Served env dry_run w out × Amended kind n w out
  unfolding Found
  amend-both kind type price n dry_run positive (http_exception c, w') found = (found, found)
  amend-both kind type price n dry_run positive (server_error c, w') found = (found, found)
  amend-both kind type price n dry_run positive (answer original, w')
        (same, got, status, numbers, rest) =
      let row = amend_row env kind (type original) price n original in
      rw same (
        submit_row-Served row dry_run refl refl (rw (amend_qty-lem original n) positive) refl,
        amended original row dry_run n refl (amend_qty-lem original n)
            (ground (arith, positive, numbers)) got status rest,
      )

  cancel-both :
      (id : String) (quantity : ℤ) (dry_run : Bool)
      → let out = cancel_domestic_stock_order env id quantity dry_run w in
        Served env dry_run w out × Amended OrderKind.cancel (int quantity) w out
  unfolding cancel_domestic_stock_order
  cancel-both id quantity dry_run = elim (Option-cases (validate_cancel_request id quantity)) [
    | inl e ↦ rw e (
        amend-both OrderKind.cancel (λ o. o.order_type) none (int quantity) dry_run
          (cancel_quantity id quantity e) (find_original env id w) (find_original-Found env w id))
    | inr (n, e) ↦ rw e (refl, refl)
  ]

  revise-both :
      (id : String) (quantity : ℤ) (type : OrderType) (price : Decimal) (dry_run : Bool)
      → let out = revise_domestic_stock_order env id quantity type price dry_run w in
        Served env dry_run w out × Amended OrderKind.modify (int quantity) w out
  unfolding revise_domestic_stock_order
  revise-both id quantity type price dry_run =
      elim (Option-cases (validate_revise_request id quantity type price)) [
        | inl e ↦ rw e (
            amend-both OrderKind.modify (λ o. type) (some (revise_price env type price))
              (int quantity) dry_run (revise_quantity id quantity type price e)
              (find_original env id w) (find_original-Found env w id))
        | inr (n, e) ↦ rw e (refl, refl)
      ]

-- A request to one of the four routes either ends with an HTTP error or an exception and leaves the
-- world as it was, or it adds and commits one pending row of a positive quantity, all of it still
-- remaining, publishes it, and queues one message for worker 1 unless it is a dry run; the answer
-- names that row.
pub serve-Served :
    (env : RouteEnv) (r : Request) (w : World) → Served env (is_dry_run r) w (serve env r w)
unfolding serve buy_domestic_stock sell_domestic_stock
serve-Served env (buy_request code quantity type price dry_run) w =
    trade-Served env w buy code quantity type price dry_run
serve-Served env (sell_request code quantity type price dry_run) w =
    trade-Served env w sell code quantity type price dry_run
serve-Served env (cancel_request id quantity dry_run) w = (cancel-both env w id quantity dry_run).0
serve-Served env (revise_request id quantity type price dry_run) w =
    (revise-both env w id quantity type price dry_run).0

-- A request to cancel or to revise an order that is served adds a row of that kind for the quantity it
-- names, behind an original order that is in the table and open at the broker. The row passes the
-- checks that worker 1 makes on it alone, and those against the original exactly if the quantity is
-- within what the original has open, which no route asks for.
pub serve-Amended :
    (env : RouteEnv) (id : String) (quantity : ℤ) (type : OrderType) (price : Decimal)
    (dry_run : Bool) (w : World)
    → Amended OrderKind.cancel (int quantity) w (serve env (cancel_request id quantity dry_run) w)
      × Amended OrderKind.modify
          (int quantity)
          w
          (serve env (revise_request id quantity type price dry_run) w)
unfolding serve
serve-Amended env id quantity type price dry_run w = (
  (cancel-both env w id quantity dry_run).1,
  (revise-both env w id quantity type price dry_run).1,
)
