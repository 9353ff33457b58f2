-- ===== src/Scenarios/Measuring.antt =====
-- A drawdown that recovers and one that does not (app/strategy/metrics/core.py).
use autotrading.Prelude.{ℕ, ◌-◌, ◌≡◌, refl, some, false, List, [], ◌∷◌, leb}
use autotrading.Metrics.Drawdown.{Point, DrawdownDuration, validate_equity, calc_drawdown_duration}
use autotrading.Metrics.Longest.{Longest}
use autotrading.Metrics.Duration.{Fits, calc_drawdown_duration-Fits}

abbrev point : ℕ → ℕ → Point
point day value = record { day = day; value = some value }

-- ten days from the first peak to the recovery, and three days below the second one
abbrev series : List Point
series = point 5 90 ∷ point 10 110 ∷ point 12 100 ∷ point 13 105 ∷ []

calc_drawdown_duration_run :
    calc_drawdown_duration (point 0 100 ∷ series)
    ≡ some (record { max_days = 10; current_days = 3; is_recovered = false })
unfolding calc_drawdown_duration
calc_drawdown_duration_run = refl

calc_drawdown_duration-Fits_example :
    (d : DrawdownDuration) × (calc_drawdown_duration (point 0 100 ∷ series) ≡ some d)
    × Longest (point 0 100 ∷ series) d.max_days
    × (d.current_days ≡ 13 - 10)
    × Fits 0 13 (leb 110 105) d
calc_drawdown_duration-Fits_example =
    calc_drawdown_duration-Fits (point 0 100) series (unfold validate_equity in refl)
