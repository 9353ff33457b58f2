-- ===== src/Api/Orders/Requests.antt =====
-- What a request to a route of app/api/router_order.py may come to.
use autotrading.Prelude.{true, ℕ, ◌≡◌, ◌<◌, String, some, Bool, [], ◌∷◌, ◌++◌, leb, if◌then◌else◌}
use autotrading.Domain.{OrderType, OrderKind, pending, status_in, accepted, partial_filled}
use autotrading.Orders.Row.{Order}
use autotrading.Orders.Repository.{get_order_by_id}
use autotrading.Worker.Effects.{World, process_order}
use autotrading.Worker.Submit.{original_id, amendment_ok, original_ok}
use autotrading.Api.Http.{Response, answer, http_exception, server_error, Handler}
use autotrading.Api.Orders.{
  ℤ, Decimal, RouteEnv, OrderAnswer, buy_domestic_stock, sell_domestic_stock,
  cancel_domestic_stock_order, revise_domestic_stock_order,
}

-- A request to one of the four routes, with its parameters.
pub data Request : Type 0 where
  buy_request sell_request : String → ℤ → OrderType → Decimal → Bool → Request
  cancel_request : String → ℤ → Bool → Request
  revise_request : String → ℤ → OrderType → Decimal → Bool → Request

unfoldable pub serve : RouteEnv → Request → Handler OrderAnswer
unfolding buy_domestic_stock sell_domestic_stock cancel_domestic_stock_order
    revise_domestic_stock_order
serve env (buy_request code quantity type price dry_run) =
    buy_domestic_stock env code quantity type price dry_run
serve env (sell_request code quantity type price dry_run) =
    sell_domestic_stock env code quantity type price dry_run
serve env (cancel_request id quantity dry_run) = cancel_domestic_stock_order env id quantity dry_run
serve env (revise_request id quantity type price dry_run) =
    revise_domestic_stock_order env id quantity type price dry_run

abbrev pub is_dry_run : Request → Bool
is_dry_run (buy_request code quantity type price dry_run) = dry_run
is_dry_run (sell_request code quantity type price dry_run) = dry_run
is_dry_run (cancel_request id quantity dry_run) = dry_run
is_dry_run (revise_request id quantity type price dry_run) = dry_run

-- The row of a cancel or modify order stands behind an original order that is open at the broker, and
-- passes worker 1's own checks exactly if it asks for no more than what is open.
abbrev pub Amended : OrderKind → ℕ → World → Response OrderAnswer × World → Type 0
Amended kind quantity w (http_exception n, w') = w' ≡ w
Amended kind quantity w (server_error e, w') = w' ≡ w
Amended kind quantity w (answer a, w') =
    (row : Order) × (original : Order) × (w'.table ≡ w.table ++ row ∷ [])
    × (row.order_kind ≡ kind)
    × (row.order_qty ≡ quantity)
    × (get_order_by_id (original_id row) w.table ≡ some original)
    × (status_in original.status (accepted ∷ partial_filled ∷ []) ≡ true)
    × (amendment_ok row ≡ true)
    × (original_ok row (some original) ≡ leb quantity original.remaining_qty)

-- A refused request changes nothing; a served one adds a row.
abbrev pub Served : RouteEnv → Bool → World → Response OrderAnswer × World → Type 0
Served env dry_run w (http_exception n, w') = w' ≡ w
Served env dry_run w (server_error e, w') = w' ≡ w
Served env dry_run w (answer a, w') =
    (row : Order) × (row.id ≡ env.new_id)
    × (row.status ≡ pending)
    × (0 < row.order_qty)
    × (row.remaining_qty ≡ row.order_qty)
    × (a ≡ record { order_id = row.id; status = row.status })
    × (w' ≡ record w {
      table = w.table ++ row ∷ [];
      saved = w.table ++ row ∷ [];
      published = row.id ∷ w.published;
      queue = if dry_run then w.queue else process_order row.id 0 ∷ w.queue;
    })
