-- ===== src/Metrics/Drawdown.antt =====
-- app/strategy/metrics/core.py: `_validate_equity` and `calc_drawdown_duration`. Days are numbered. A value is
-- only compared, so a positive number stands for its rank; 0 stands for a value of 0 or below, and `none` for
-- a missing one.
use autotrading.Prelude.{
  ℕ, ◌-◌, max, Option, none, some, Bool, true, false, ◌&&◌, List, [], ◌∷◌, all, ltb, leb,
  if◌then◌else◌, is_some, or_zero,
}

pub record Point : Type 0 where
  pub day : ℕ
  pub value : Option ℕ

pub record DrawdownDuration : Type 0 where
  pub max_days : ℕ
  pub current_days : ℕ
  pub is_recovered : Bool

abbrev pub ascending : ℕ → List Point → Bool
ascending from [] = true
ascending from (p ∷ equity) = leb from p.day && ascending p.day equity

-- `_validate_equity`, of a series with dates: whether it passes
unfoldable pub validate_equity : List Point → Bool
validate_equity [] = false
validate_equity (p ∷ equity) =
    ascending p.day equity
    && all (λ q. is_some q.value) (p ∷ equity)
    && all (λ q. ltb 0 (or_zero q.value)) (p ∷ equity)

-- each day with `equity < equity.cummax()`, from the greatest value so far
unfoldable pub underwater : ℕ → List Point → List (ℕ × Bool)
underwater running_max [] = []
underwater running_max (p ∷ equity) =
    let now = max running_max (or_zero p.value) in
    (p.day, ltb (or_zero p.value) now) ∷ underwater now equity

-- Where the two loops stand: after the day `before`, with no drawdown, or inside one that has its peak on
-- the day `peak`, after the day `last`.
pub data Phase : Type 0 where
  outside : ℕ → Phase
  inside : ℕ → ℕ → Phase

unfoldable pub walk : ℕ → Phase → List (ℕ × Bool) → DrawdownDuration
walk max_days (outside before) [] = record {
  max_days = max_days;
  current_days = 0;
  is_recovered = true;
}
walk max_days (outside before) ((day, false) ∷ days) = walk max_days (outside day) days
walk max_days (outside before) ((day, true) ∷ days) = walk max_days (inside before day) days
walk max_days (inside peak last) [] = record {
  max_days = max max_days (last - peak);
  current_days = last - peak;
  is_recovered = false;
}
walk max_days (inside peak last) ((day, true) ∷ days) = walk max_days (inside peak day) days
walk max_days (inside peak last) ((day, false) ∷ days) =
    walk (max max_days (day - peak)) (outside day) days

-- the first point is at its own maximum
unfoldable pub duration_of : List Point → DrawdownDuration
unfolding underwater walk
duration_of [] = record { max_days = 0; current_days = 0; is_recovered = true }
duration_of (p ∷ []) = record { max_days = 0; current_days = 0; is_recovered = true }
duration_of (p ∷ q ∷ equity) = walk 0 (outside p.day) (underwater 0 (p ∷ q ∷ equity))

-- `calc_drawdown_duration`; `none` for a series that does not pass
unfoldable pub calc_drawdown_duration : List Point → Option DrawdownDuration
unfolding validate_equity duration_of
calc_drawdown_duration equity = if validate_equity equity then some (duration_of equity) else none
