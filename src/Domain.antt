-- ===== src/Domain.antt =====
-- app/core/enums.py and app/domain/order_state.py: the statuses of an order and the table of
-- allowed transitions. A status is the member of the enumeration; its text stands in no other set.
pub mod Transitions
pub mod Traces
use autotrading.Prelude.{Bool, true, false, List, [], ◌∷◌, any, if◌then◌else◌}

-- ORDER_STATUS
pub data OrderStatus : Type 0 where
  pending processing requested failed accepted partial_filled filled canceled timeout : OrderStatus

-- ORDER_ACTION, as `orders.order_pos`; `other` is any text that is none of them.
pub data OrderAction : Type 0 where
  buy sell cancel modify other : OrderAction

-- ORDER_KIND, as `orders.order_kind`; `other` is any text that is none of them.
pub data OrderKind : Type 0 where
  new modify cancel other : OrderKind

-- ORDER_TYPE
pub data OrderType : Type 0 where
  market limit conditional : OrderType

-- `==` on statuses, by the position of the member
abbrev pub status_eq : OrderStatus → OrderStatus → Bool
status_eq pending pending = true
status_eq processing processing = true
status_eq requested requested = true
status_eq failed failed = true
status_eq accepted accepted = true
status_eq partial_filled partial_filled = true
status_eq filled filled = true
status_eq canceled canceled = true
status_eq timeout timeout = true
status_eq _ _ = false

-- `status in statuses`
abbrev pub status_in : OrderStatus → List OrderStatus → Bool
status_in s statuses = any (status_eq s) statuses

-- ALLOWED_TRANSITIONS; `.get(…, set())` gives the empty set for a status with no entry.
abbrev pub allowed_transitions : OrderStatus → List OrderStatus
allowed_transitions pending = processing ∷ failed ∷ []
allowed_transitions processing = requested ∷ accepted ∷ failed ∷ pending ∷ []
allowed_transitions requested =
    requested ∷ accepted ∷ partial_filled ∷ filled ∷ canceled ∷ failed ∷ timeout ∷ []
allowed_transitions accepted = accepted ∷ partial_filled ∷ filled ∷ canceled ∷ failed ∷ timeout ∷ []
allowed_transitions partial_filled = partial_filled ∷ filled ∷ canceled ∷ failed ∷ timeout ∷ []
allowed_transitions _ = []

-- TERMINAL_STATES
abbrev pub terminal_states : List OrderStatus
terminal_states = filled ∷ canceled ∷ failed ∷ timeout ∷ []

unfoldable pub can_transition : OrderStatus → OrderStatus → Bool
can_transition current_status next_status =
    if status_in current_status terminal_states
    then false
    else if status_eq current_status next_status
    then true
    else status_in next_status (allowed_transitions current_status)
