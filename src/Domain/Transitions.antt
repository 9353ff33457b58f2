-- ===== src/Domain/Transitions.antt =====
-- What the transition table of app/domain/order_state.py allows, as a relation on statuses.
use autotrading.Prelude.{◌≡◌, refl, true, false, arith, ◌↔◌}
use autotrading.Domain.{
  OrderStatus, pending, processing, requested, failed, accepted, partial_filled, filled, canceled,
  timeout, can_transition,
}

-- The life of an order as a diagram, written from the life cycle and not from the table.
pub data IsFinal : OrderStatus → Type 0 where
  is_filled : IsFinal filled
  is_canceled : IsFinal canceled
  is_failed : IsFinal failed
  is_timeout : IsFinal timeout

-- The broker holds the order and may still fill it.
pub data IsLive : OrderStatus → Type 0 where
  is_requested : IsLive requested
  is_accepted : IsLive accepted
  is_partial : IsLive partial_filled

-- The order waits in this system.
pub data IsWaiting : OrderStatus → Type 0 where
  is_pending : IsWaiting pending
  is_processing : IsWaiting processing

infix 40 ◌⟶◌
pub data ◌⟶◌ : OrderStatus → OrderStatus → Type 0 where
  claim : pending ⟶ processing
  reject : pending ⟶ failed
  hand_over : processing ⟶ requested
  accept : processing ⟶ accepted
  refuse : processing ⟶ failed
  give_back : processing ⟶ pending
  acknowledge : requested ⟶ accepted
  first_fill : requested ⟶ partial_filled
  fill : accepted ⟶ partial_filled
  finish : {s t : OrderStatus} → IsLive s → IsFinal t → s ⟶ t
  wait : {s : OrderStatus} → IsWaiting s → s ⟶ s
  stay : {s : OrderStatus} → IsLive s → s ⟶ s

ruleset edges = (
  claim, reject, hand_over, accept, refuse, give_back, acknowledge, first_fill, fill, finish, wait,
  stay,
)

ruleset kinds = (
  is_filled, is_canceled, is_failed, is_timeout, is_requested, is_accepted, is_partial, is_pending,
  is_processing,
)

IsFinal-frozen : {s : OrderStatus} → IsFinal s → (t : OrderStatus) → can_transition s t ≡ false
unfolding can_transition
IsFinal-frozen is_filled t = refl
IsFinal-frozen is_canceled t = refl
IsFinal-frozen is_failed t = refl
IsFinal-frozen is_timeout t = refl

live_finishes : {s t : OrderStatus} → IsLive s → IsFinal t → can_transition s t ≡ true
unfolding can_transition
live_finishes is_requested is_filled = refl
live_finishes is_requested is_canceled = refl
live_finishes is_requested is_failed = refl
live_finishes is_requested is_timeout = refl
live_finishes is_accepted is_filled = refl
live_finishes is_accepted is_canceled = refl
live_finishes is_accepted is_failed = refl
live_finishes is_accepted is_timeout = refl
live_finishes is_partial is_filled = refl
live_finishes is_partial is_canceled = refl
live_finishes is_partial is_failed = refl
live_finishes is_partial is_timeout = refl

⟶-can_transition : {s t : OrderStatus} → s ⟶ t → can_transition s t ≡ true
unfolding can_transition
⟶-can_transition claim = refl
⟶-can_transition reject = refl
⟶-can_transition hand_over = refl
⟶-can_transition accept = refl
⟶-can_transition refuse = refl
⟶-can_transition give_back = refl
⟶-can_transition acknowledge = refl
⟶-can_transition first_fill = refl
⟶-can_transition fill = refl
⟶-can_transition (finish l f) = live_finishes l f
⟶-can_transition (wait is_pending) = refl
⟶-can_transition (wait is_processing) = refl
⟶-can_transition (stay is_requested) = refl
⟶-can_transition (stay is_accepted) = refl
⟶-can_transition (stay is_partial) = refl

can_transition-⟶ : (s t : OrderStatus) → can_transition s t ≡ true → s ⟶ t
unfolding can_transition
can_transition-⟶ s t h = grind (arith, edges, kinds)

-- The test `can_transition` allows exactly the moves of the diagram `⟶`, which is drawn by the
-- kinds of statuses and not by the table.
pub can_transition_iff : (s t : OrderStatus) → (can_transition s t ≡ true) ↔ (s ⟶ t)
can_transition_iff s t = (can_transition-⟶ s t, ⟶-can_transition)
