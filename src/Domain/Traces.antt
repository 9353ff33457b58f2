-- ===== src/Domain/Traces.antt =====
-- Whole lives of an order: any sequence of status updates, each applied if the table of
-- app/domain/order_state.py allows it, as the workers apply them.
use autotrading.Prelude.{◌≡◌, refl, Bool, true, false, List, [], ◌∷◌, arith, if◌then◌else◌}
use autotrading.Domain.{
  OrderStatus, pending, processing, status_in, terminal_states, can_transition,
}

-- an update is applied if it is allowed, and dropped otherwise
abbrev pub request : OrderStatus → OrderStatus → OrderStatus
request s t = if can_transition s t then t else s

unfoldable pub follow : OrderStatus → List OrderStatus → OrderStatus
follow s [] = s
follow s (t ∷ ts) = follow (request s t) ts

-- the order waits in this system, and the broker has not been asked, or has not answered
abbrev pub is_local : OrderStatus → Bool
is_local pending = true
is_local processing = true
is_local _ = false

abbrev pub is_terminal : OrderStatus → Bool
is_terminal s = status_in s terminal_states

request-local : (s t : OrderStatus) → is_local s ≡ false → is_local (request s t) ≡ false
unfolding can_transition
request-local s t h = ground arith

request-terminal : (s t : OrderStatus) → is_terminal s ≡ true → request s t ≡ s
unfolding can_transition
request-terminal s t h = ground arith

-- Under any sequence of requested updates, each dropped unless the table allows it, an order in a
-- terminal status keeps that status.
pub terminal_for_good :
    (s : OrderStatus) (ts : List OrderStatus) → is_terminal s ≡ true → follow s ts ≡ s
unfolding follow
terminal_for_good s [] h = refl
terminal_for_good s (t ∷ ts) h = cc (request-terminal s t h, terminal_for_good s ts h)

-- Under any sequence of requested updates, each dropped unless the table allows it, an order that is
-- neither PENDING nor PROCESSING never becomes one of these again.
pub handed_over_for_good :
    (s : OrderStatus) (ts : List OrderStatus) → is_local s ≡ false → is_local (follow s ts) ≡ false
unfolding follow
handed_over_for_good s [] h = h
handed_over_for_good s (t ∷ ts) h = handed_over_for_good (request s t) ts (request-local s t h)
