-- ===== src/Worker/Track/Delay.antt =====
-- app/worker/tasks_order_status.py: how often an order is looked at, by `_resolve_retracking_delay`.
use autotrading.Prelude.{
  ℕ, zero, suc, ◌+◌, ◌-◌, ◌*◌, ◌≤◌, ◌<◌, ◌≡◌, refl, sym, ap, ◌∙◌, ◌↔◌, inl, inr, List, ◌∷◌, length,
  Option, none, some, arith, ltb, if◌then◌else◌,
}
use autotrading.Worker.Effects.{Message, process_order_status, World}
use autotrading.Worker.Track.Task.{TrackEnv, start_of, process_status}
use autotrading.Worker.Track.Requeue.{looks, process_status-OneMore}
use autotrading.Worker.Track.{microseconds, resolve_retracking_delay}

-- There is no next look exactly from half an hour after the first on.
pub retracking_ends_iff :
    (attempt elapsed : ℕ)
    → (resolve_retracking_delay attempt elapsed ≡ none) ↔ (microseconds 1800 ≤ elapsed)
unfolding resolve_retracking_delay
retracking_ends_iff attempt elapsed = (λ h. ground arith, λ h. ground arith)

-- A delivery of a chain for an order, by its number, the time from which the chain counts and its own time.
-- The first is that of a message without a start. After it comes the delivery of a message that the task
-- sent in the delivery before, whatever the world and the broker, no earlier than its delay after.
pub data Delivery : ℕ → ℕ → ℕ → Type 0 where
  first : {now : ℕ} → Delivery 0 now now
  again :
      {attempt started attempt' started' : ℕ} (env : TrackEnv) (order_id : ℕ)
      (first_tracked_at : Option ℕ) (w : World) (next_id delay later : ℕ)
      → Delivery attempt started env.now
      → start_of env.now first_tracked_at ≡ started
      → looks (process_status env order_id attempt first_tracked_at w).1
        ≡ process_order_status next_id attempt' (some started') delay ∷ looks w
      → env.now + microseconds delay ≤ later
      → Delivery attempt' started' later

-- The least time at which a delivery can come, in seconds: the first waits grow from 1 to 13, and then
-- a minute passes between two.
early : ℕ → ℕ
early zero = 0
early (suc attempt) = early attempt + attempt + 1

abbrev least_time : ℕ → ℕ
least_time attempt = if ltb attempt 13 then early attempt else 91 + 60 * (attempt - 13)

abbrev least_step : ℕ → ℕ
least_step attempt = if ltb attempt 13 then attempt + 1 else 60

early-twelve : (attempt : ℕ) → attempt ≡ 12 → early attempt ≡ 78
early-twelve attempt h = rw h twelve
  where
    twelve : early 12 ≡ 78
    twelve = unfold early in refl

least_time-suc : (attempt : ℕ) → least_time (suc attempt) ≤ least_time attempt + least_step attempt
unfolding early
least_time-suc attempt = ground (arith, early-twelve attempt)

least_step-le :
    (attempt elapsed : ℕ) {delay : ℕ}
    → microseconds (least_time attempt) ≤ elapsed
    → resolve_retracking_delay attempt elapsed ≡ some delay
    → (least_step attempt ≤ delay) × (elapsed < microseconds 1800)
unfolding resolve_retracking_delay
least_step-le attempt elapsed h e = ground arith

later_time :
    (a b c t e l d : ℕ)
    → a ≤ b + c
    → c ≤ d
    → t ≤ e
    → microseconds b ≤ e - t
    → e + microseconds d ≤ l
    → (t ≤ l) × (microseconds a ≤ l - t)
later_time a b c t e l d p q from r s = (omega arith, omega arith)

-- the number, the start and the delay of the message that comes first
abbrev number_in : List Message → ℕ
number_in (process_order_status i attempt started delay ∷ q) = attempt
number_in _ = 0

abbrev start_in : List Message → ℕ
start_in (process_order_status i attempt (some started) delay ∷ q) = started
start_in _ = 0

abbrev delay_in : List Message → ℕ
delay_in (process_order_status i attempt started delay ∷ q) = delay
delay_in _ = 0

-- A message that a delivery sends has the next number, the start of the chain and the delay of the look.
sent :
    (env : TrackEnv) (i attempt started attempt' started' : ℕ) (first_tracked_at : Option ℕ)
    (w : World) (next_id delay : ℕ)
    → start_of env.now first_tracked_at ≡ started
    → looks (process_status env i attempt first_tracked_at w).1
      ≡ process_order_status next_id attempt' (some started') delay ∷ looks w
    → (attempt' ≡ suc attempt)
      × (started' ≡ started)
      × (resolve_retracking_delay attempt (env.now - started) ≡ some delay)
sent env i attempt started attempt' started' first_tracked_at w next_id delay same e =
    elim (process_status-OneMore env i attempt first_tracked_at w) [
      | inl none_sent ↦ absurd (omega (arith, ap length (sym e ∙ none_sent)))
      | inr (j, d, computed, one) ↦
          let both = sym e ∙ one in
          (
            omega (arith, ap number_in both),
            ap start_in both ∙ same,
            ap (λ t. resolve_retracking_delay attempt (env.now - t)) (sym same)
                ∙ computed
                ∙ ap some (sym (ap delay_in both)),
          )
    ]

Delivery-least_time :
    {attempt started now : ℕ}
    → Delivery attempt started now
    → (started ≤ now) × (microseconds (least_time attempt) ≤ now - started)
Delivery-least_time first = (omega arith, unfold early in omega arith)
Delivery-least_time
      (again {attempt} {started} {attempt'} {started'} env i first_tracked_at w next_id delay later
        d same e h) =
    let (number, start, computed) =
      sent env i attempt started attempt' started' first_tracked_at w next_id delay same e in
    let (from, waited) = Delivery-least_time d in
    let (waits, in_time) = least_step-le attempt (env.now - started) waited computed in
    rw (number, start)
      (later_time (least_time (suc attempt)) (least_time attempt) (least_step attempt) started
        env.now later delay (least_time-suc attempt) waits from waited h)

still_low :
    (attempt elapsed : ℕ)
    → microseconds (least_time attempt) ≤ elapsed
    → elapsed < microseconds 1800
    → attempt < 42
still_low attempt elapsed waited in_time = ground arith

-- In a chain of deliveries that starts with a message without a number, each of a message that the task
-- itself sent in the delivery before and none earlier than its delay, no delivery has a number above 42.
-- A chain that the recovery starts anew counts from 0 again.
pub Delivery-bound : (attempt started now : ℕ) → Delivery attempt started now → attempt ≤ 42
Delivery-bound attempt started now first = omega arith
Delivery-bound _ _ _
      (again {attempt} {started} {attempt'} {started'} env i first_tracked_at w next_id delay later
        d same e h) =
    let (number, start, computed) =
      sent env i attempt started attempt' started' first_tracked_at w next_id delay same e in
    let (from, waited) = Delivery-least_time d in
    omega (
      arith,
      number,
      still_low attempt (env.now - started) waited
          (least_step-le attempt (env.now - started) waited computed).1,
    )
