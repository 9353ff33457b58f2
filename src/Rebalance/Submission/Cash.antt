-- ===== src/Rebalance/Submission/Cash.antt =====
-- `submit_orders` of app/strategy/runtime/order_generator.py comes to its end, and buys within the cash.
use autotrading.Prelude.{ℕ, ◌+◌, ◌*◌, ◌≤◌, ◌≡◌, Bool, true, false, length}
use autotrading.Worker.Effects.{World, Action, next, Outcome}
use autotrading.Rebalance.Waiting.{Spaced}
use autotrading.Rebalance.Submission.{Wait}

abbrev is_next : {A : Type 0} → Outcome A → Bool
is_next (next a) = true
is_next _ = false

-- An action that comes to its end with a value.
Ends : {A : Type 0} → Action A → Type 0
Ends m = (w : World) → is_next (m w).0 ≡ true

-- The polls of a wait are spaced as the loop spaces them, and enough for its limit.
abbrev pub Enough : ℕ → Wait → Type 0
Enough fill_timeout_seconds wait =
    Spaced 0 wait.polls × (fill_timeout_seconds + 3 ≤ 3 * length wait.polls)

abbrev IsNext : {A : Type 0} → Outcome A → Type 0
IsNext o = is_next o ≡ true
