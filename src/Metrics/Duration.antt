-- ===== src/Metrics/Duration.antt =====
-- How long a drawdown lasts (app/strategy/metrics/core.py).
use autotrading.Prelude.{
  ℕ, ◌+◌, ◌-◌, ◌≤◌, ◌≡◌, max, refl, sym, some, Bool, true, false, List, [], ◌∷◌, ltb, leb, or_zero,
  if◌then◌else◌, arith, Bool-cases, inl, inr,
}
use autotrading.Metrics.Drawdown.{
  Point, DrawdownDuration, Phase, outside, inside, ascending, validate_equity, underwater, walk,
  duration_of, calc_drawdown_duration,
}
use autotrading.Metrics.Longest.{Longest, last_top, walk-Longest, one-Longest}

-- the last day, the last value and the greatest value of a series that starts with the given ones
abbrev pub last_day : ℕ → List Point → ℕ
last_day day [] = day
last_day day (p ∷ equity) = last_day p.day equity

abbrev pub last_value : ℕ → List Point → ℕ
last_value value [] = value
last_value value (p ∷ equity) = last_value (or_zero p.value) equity

abbrev pub highest : ℕ → List Point → ℕ
highest value [] = value
highest value (p ∷ equity) = highest (max value (or_zero p.value)) equity

-- the day that a phase stands after, and the earliest day that it counts from
abbrev stands : Phase → ℕ
stands (outside before) = before
stands (inside peak last) = last

abbrev counts_from : Phase → ℕ
counts_from (outside before) = before
counts_from (inside peak last) = peak

-- a phase is inside exactly if the last value is below the greatest
abbrev below : Phase → Bool
below (outside before) = false
below (inside peak last) = true

-- What is said of a result: `first` and `last` are the first and the last day.
abbrev pub Fits : ℕ → ℕ → Bool → DrawdownDuration → Type 0
Fits first last at_top d =
    (d.is_recovered ≡ at_top)
    × (d.current_days ≤ d.max_days)
    × (first + d.max_days ≤ last)
    × ((if d.is_recovered then d.current_days else 0) ≡ 0)

walk-Fits :
    (first max_days running_max value : ℕ) (phase : Phase) (equity : List Point)
    → ascending (stands phase) equity ≡ true
    → first ≤ counts_from phase
    → counts_from phase ≤ stands phase
    → first + max_days ≤ stands phase
    → below phase ≡ ltb value running_max
    → value ≤ running_max
    → Fits first
        (last_day (stands phase) equity)
        (leb (highest running_max equity) (last_value value equity))
        (walk max_days phase (underwater running_max equity))
unfolding walk underwater
walk-Fits first m top value (outside before) [] up from late short flag under =
    (ground (arith, flag, under), ground arith, ground (arith, short), ground arith)
walk-Fits first m top value (inside peak last) [] up from late short flag under =
    (ground (arith, flag, under), ground arith, ground (arith, short, from, late), ground arith)
walk-Fits first m top value (outside before) (p ∷ equity) up from late short flag under =
    let v = or_zero p.value in
    elim (Bool-cases (ltb v (max top v))) [
      | inl low ↦ rw low (
          walk-Fits first m (max top v) v (inside before p.day) equity (ground (arith, up)) from
            (ground (arith, up)) (ground (arith, up, short)) (sym low) (omega arith))
      | inr high ↦ rw high (
          walk-Fits first m (max top v) v (outside p.day) equity (ground (arith, up))
            (ground (arith, up, from)) (omega arith) (ground (arith, up, short)) (sym high)
            (omega arith))
    ]
walk-Fits first m top value (inside peak last) (p ∷ equity) up from late short flag under =
    let v = or_zero p.value in
    elim (Bool-cases (ltb v (max top v))) [
      | inl low ↦ rw low (
          walk-Fits first m (max top v) v (inside peak p.day) equity (ground (arith, up)) from
            (ground (arith, up, late)) (ground (arith, up, short)) (sym low) (omega arith))
      | inr high ↦ rw high (
          walk-Fits first (max m (p.day - peak)) (max top v) v (outside p.day) equity
            (ground (arith, up)) (ground (arith, up, from, late)) (omega arith)
            (ground (arith, up, short, from, late)) (sym high) (omega arith))
    ]

duration_of-Fits :
    (p : Point) (equity : List Point)
    → ascending p.day equity ≡ true
    → Fits p.day
        (last_day p.day equity)
        (leb (highest 0 (p ∷ equity)) (last_value 0 (p ∷ equity)))
        (duration_of (p ∷ equity))
unfolding duration_of
duration_of-Fits p [] up = (ground arith, ground arith, omega arith, refl)
duration_of-Fits p (q ∷ equity) up =
    walk-Fits p.day 0 0 0 (outside p.day) (p ∷ q ∷ equity) (ground (arith, up)) (omega arith)
      (omega arith) (omega arith) refl (omega arith)

low-leb : (top v : ℕ) → ltb v (max top v) ≡ true → leb top v ≡ false
low-leb top v h = ground (arith, h)

high-leb : (top v : ℕ) → ltb v (max top v) ≡ false → leb top v ≡ true
high-leb top v h = ground (arith, h)

walk-current :
    (max_days running_max : ℕ) (phase : Phase) (equity : List Point)
    → (walk max_days phase (underwater running_max equity)).current_days
      ≡ last_day (stands phase) equity - last_top running_max (counts_from phase) equity
unfolding walk underwater
walk-current m top (outside before) [] = omega arith
walk-current m top (inside peak last) [] = refl
walk-current m top (outside before) (p ∷ equity) =
    let v = or_zero p.value in
    elim (Bool-cases (ltb v (max top v))) [
      | inl low ↦
          rw (low, low-leb top v low) (walk-current m (max top v) (inside before p.day) equity)
      | inr high ↦
          rw (high, high-leb top v high) (walk-current m (max top v) (outside p.day) equity)
    ]
walk-current m top (inside peak last) (p ∷ equity) =
    let v = or_zero p.value in
    elim (Bool-cases (ltb v (max top v))) [
      | inl low ↦
          rw (low, low-leb top v low) (walk-current m (max top v) (inside peak p.day) equity)
      | inr high ↦
          rw (high, high-leb top v high)
            (walk-current (max m (p.day - peak)) (max top v) (outside p.day) equity)
    ]

duration_of-Longest :
    (p : Point) (equity : List Point) → Longest (p ∷ equity) (duration_of (p ∷ equity)).max_days
unfolding duration_of
duration_of-Longest p [] = one-Longest p
duration_of-Longest p (q ∷ equity) = walk-Longest p.day p (q ∷ equity)

duration_of-current :
    (p : Point) (equity : List Point)
    → (duration_of (p ∷ equity)).current_days
      ≡ last_day p.day equity - last_top 0 p.day (p ∷ equity)
unfolding duration_of
duration_of-current p [] = ground arith
duration_of-current p (q ∷ equity) = walk-current 0 0 (outside p.day) (p ∷ q ∷ equity)

-- A series that passes its check has a duration. Its greatest number of days is that of a drawdown of the
-- series, or 0, and no drawdown is longer: a drawdown counts from a value that no earlier one exceeds, which
-- the next is below, to the first day that is back at that value, or else to the last day. Its
-- current days are those from the last such value to the last day, and 0 if the latest drawdown counts as
-- recovered, which it does exactly if the last value is the greatest one; the current days are no more
-- than the greatest number, and that is no longer than the series.
pub calc_drawdown_duration-Fits :
    (p : Point) (equity : List Point)
    → validate_equity (p ∷ equity) ≡ true
    → (d : DrawdownDuration) × (calc_drawdown_duration (p ∷ equity) ≡ some d)
      × Longest (p ∷ equity) d.max_days
      × (d.current_days ≡ last_day p.day equity - last_top 0 p.day (p ∷ equity))
      × Fits p.day
          (last_day p.day equity)
          (leb (highest 0 (p ∷ equity)) (last_value 0 (p ∷ equity)))
          d
unfolding calc_drawdown_duration validate_equity
calc_drawdown_duration-Fits p equity passes = (
  duration_of (p ∷ equity),
  rw passes refl,
  duration_of-Longest p equity,
  duration_of-current p equity,
  duration_of-Fits p equity (ordered passes),
)
  where
    ordered : validate_equity (p ∷ equity) ≡ true → ascending p.day equity ≡ true
    ordered passes = ground (arith, passes)
