-- ===== src/Scenarios/Routes.antt =====
-- Requests to the routes of the API (app/api/router_order.py).
use autotrading.Prelude.{true, false, [], ◌∷◌, is_digit}
use autotrading.Domain.{limit, OrderKind}
use autotrading.Worker.Effects.{World, reply}
use autotrading.Api.Orders.{RouteEnv, pos, Decimal, above_zero}
use autotrading.Api.Orders.Requests.{cancel_request, revise_request, serve, Served, Amended}
use autotrading.Api.Orders.Rows.{serve-Served, serve-Amended}
use autotrading.Scenarios.{open_bid, world}

abbrev route_env : RouteEnv
route_env = record { new_id = 9; isdigit = is_digit; read_id = λ s. reply 7; zero_price = "0.0000" }

abbrev higher : Decimal
higher = record { sign = above_zero; text = "70000.0000" }

abbrev held : World
held = world (open_bid ∷ [])

-- a request for four of the ten shares, and a dry run for eleven
serve-Served_example :
    Served route_env false held
      (serve route_env (revise_request "7" (pos 4) limit higher false) held)
serve-Served_example = serve-Served route_env (revise_request "7" (pos 4) limit higher false) held

serve-Amended_example :
    Amended OrderKind.cancel 11 held (serve route_env (cancel_request "7" (pos 11) true) held)
    × Amended OrderKind.modify 11 held
        (serve route_env (revise_request "7" (pos 11) limit higher true) held)
serve-Amended_example = serve-Amended route_env "7" (pos 11) limit higher true held
