-- ===== src/Metrics/Longest.antt =====
-- The drawdowns of a series, by its values, and the loops of `calc_drawdown_duration` in
-- app/strategy/metrics/core.py against them.
use autotrading.Prelude.{
  ℕ, ◌-◌, ◌≤◌, ◌<◌, ◌≡◌, ◌⊎◌, max, refl, subst, Bool, true, false, List, [], ◌∷◌, ltb, leb, or_zero,
  if◌then◌else◌, arith, Bool-cases, inl, inr,
}
use autotrading.Metrics.Drawdown.{Point, Phase, outside, inside, underwater, walk}

-- After a peak and days below it, the last of which is `last`, the drawdown ends after so many days:
-- with the series, or on the first day that is back at the peak's value.
pub data Under (top peak : ℕ) : ℕ → List Point → ℕ → Type 0 where
  open_end : {last days : ℕ} → days ≡ last - peak → Under top peak last [] days
  recovered :
      {last days : ℕ} {p : Point} {equity : List Point}
      → top ≤ or_zero p.value
      → days ≡ p.day - peak
      → Under top peak last (p ∷ equity) days
  goes_on :
      {last days : ℕ} {p : Point} {equity : List Point}
      → or_zero p.value < top
      → Under top peak p.day equity days
      → Under top peak last (p ∷ equity) days

-- The day that follows a peak is below it.
pub data Falls (top peak : ℕ) : List Point → ℕ → Type 0 where
  falls :
      {days : ℕ} {p : Point} {equity : List Point}
      → or_zero p.value < top
      → Under top peak p.day equity days
      → Falls top peak (p ∷ equity) days

-- A drawdown of so many days in a series, which comes after values of which the greatest is `top`: its peak
-- is a value that no earlier one exceeds and that the next is below.
pub data IsDrawdown : ℕ → List Point → ℕ → Type 0 where
  starts :
      {top days : ℕ} {p : Point} {equity : List Point}
      → top ≤ or_zero p.value
      → Falls (or_zero p.value) p.day equity days
      → IsDrawdown top (p ∷ equity) days
  later :
      {top days : ℕ} {p : Point} {equity : List Point}
      → IsDrawdown (max top (or_zero p.value)) equity days
      → IsDrawdown top (p ∷ equity) days

-- the length of a drawdown of the series, or 0 if there is none, and no drawdown is longer
abbrev pub Longest : List Point → ℕ → Type 0
Longest equity days =
    ((days ≡ 0) ⊎ IsDrawdown 0 equity days) × ((n : ℕ) → IsDrawdown 0 equity n → n ≤ days)

-- the day of the last value that no earlier one exceeds
abbrev pub last_top : ℕ → ℕ → List Point → ℕ
last_top top day [] = day
last_top top day (p ∷ equity) =
    last_top (max top (or_zero p.value)) (if leb top (or_zero p.value) then p.day else day) equity

max-low : (top v : ℕ) → ltb v (max top v) ≡ true → max top v ≡ top
max-low top v h = ground (arith, h)

max-high : (top v : ℕ) → ltb v (max top v) ≡ false → max top v ≡ v
max-high top v h = ground (arith, h)

low-of : (top v : ℕ) → v < top → ltb v (max top v) ≡ true
low-of top v h = ground (arith, h)

high-of : (top v : ℕ) → top ≤ v → ltb v (max top v) ≡ false
high-of top v h = ground (arith, h)

walk-le : (m : ℕ) (phase : Phase) (days : List (ℕ × Bool)) → m ≤ (walk m phase days).max_days
unfolding walk
walk-le m (outside before) [] = omega arith
walk-le m (outside before) ((day, false) ∷ days) = walk-le m (outside day) days
walk-le m (outside before) ((day, true) ∷ days) = walk-le m (inside before day) days
walk-le m (inside peak last) [] = omega arith
walk-le m (inside peak last) ((day, true) ∷ days) = walk-le m (inside peak day) days
walk-le m (inside peak last) ((day, false) ∷ days) =
    omega (arith, walk-le (max m (day - peak)) (outside day) days)

Under-le :
    (m top peak last n : ℕ) (equity : List Point)
    → Under top peak last equity n
    → n ≤ (walk m (inside peak last) (underwater top equity)).max_days
unfolding walk underwater
Under-le m top peak last n [] (open_end e) = omega (arith, e)
Under-le m top peak last n (p ∷ equity) (recovered back e) =
    rw (high-of top (or_zero p.value) back) (
      omega (
        arith,
        e,
        walk-le (max m (p.day - peak)) (outside p.day)
            (underwater (max top (or_zero p.value)) equity),
      ))
Under-le m top peak last n (p ∷ equity) (goes_on low d) =
    let flag = low-of top (or_zero p.value) low in
    rw (flag, max-low top (or_zero p.value) flag) (Under-le m top peak p.day n equity d)

Falls-le :
    (m top before n : ℕ) (equity : List Point)
    → Falls top before equity n
    → n ≤ (walk m (outside before) (underwater top equity)).max_days
unfolding walk underwater
Falls-le m top before n [] x = elim x [ ]
Falls-le m top before n (p ∷ equity) (falls low d) =
    let flag = low-of top (or_zero p.value) low in
    rw (flag, max-low top (or_zero p.value) flag) (Under-le m top before p.day n equity d)

pub IsDrawdown-le :
    (m top n : ℕ) (phase : Phase) (equity : List Point)
    → IsDrawdown top equity n
    → n ≤ (walk m phase (underwater top equity)).max_days
unfolding walk underwater
IsDrawdown-le m top n (outside before) [] x = elim x [ ]
IsDrawdown-le m top n (inside peak last) [] x = elim x [ ]
IsDrawdown-le m top n (outside before) (p ∷ equity) (starts high d) =
    let flag = high-of top (or_zero p.value) high in
    rw (flag, max-high top (or_zero p.value) flag) (Falls-le m (or_zero p.value) p.day n equity d)
IsDrawdown-le m top n (inside peak last) (p ∷ equity) (starts high d) =
    let flag = high-of top (or_zero p.value) high in
    rw (flag, max-high top (or_zero p.value) flag)
      (Falls-le (max m (p.day - peak)) (or_zero p.value) p.day n equity d)
IsDrawdown-le m top n (outside before) (p ∷ equity) (later d) =
    let now = max top (or_zero p.value) in
    elim (Bool-cases (ltb (or_zero p.value) now)) [
      | inl low ↦ rw low (IsDrawdown-le m now n (inside before p.day) equity d)
      | inr high ↦ rw high (IsDrawdown-le m now n (outside p.day) equity d)
    ]
IsDrawdown-le m top n (inside peak last) (p ∷ equity) (later d) =
    let now = max top (or_zero p.value) in
    elim (Bool-cases (ltb (or_zero p.value) now)) [
      | inl low ↦ rw low (IsDrawdown-le m now n (inside peak p.day) equity d)
      | inr high ↦ rw high (IsDrawdown-le (max m (p.day - peak)) now n (outside p.day) equity d)
    ]

-- the drawdown that a phase is in or may enter
abbrev Pending : Phase → ℕ → List Point → ℕ → Type 0
Pending (outside before) top equity n = Falls top before equity n
Pending (inside peak last) top equity n = Under top peak last equity n

abbrev Attained : ℕ → Phase → ℕ → List Point → ℕ → Type 0
Attained m phase top equity n = (n ≡ m) ⊎ (Pending phase top equity n ⊎ IsDrawdown top equity n)

Under-at :
    {a b peak last n : ℕ} {equity : List Point}
    → a ≡ b
    → Under a peak last equity n
    → Under b peak last equity n
Under-at {peak = peak} {last} {n} {equity} e u = subst (λ t. Under t peak last equity n) e u

Falls-at :
    {a b peak n : ℕ} {equity : List Point} → a ≡ b → Falls a peak equity n → Falls b peak equity n
Falls-at {peak = peak} {n} {equity} e u = subst (λ t. Falls t peak equity n) e u

max-longer : (r m n : ℕ) → r ≡ max m n → leb n m ≡ false → r ≡ n
max-longer r m n e longer = ground (arith, e, longer)

walk-Attained :
    (m top : ℕ) (phase : Phase) (equity : List Point)
    → Attained m phase top equity (walk m phase (underwater top equity)).max_days
unfolding walk underwater
walk-Attained m top (outside before) [] = inl refl
walk-Attained m top (inside peak last) [] = elim (Bool-cases (leb (last - peak) m)) [
  | inl e ↦ inl (ground (arith, e))
  | inr e ↦ inr (inl (open_end (ground (arith, e))))
]
walk-Attained m top (outside before) (p ∷ equity) =
    let v = or_zero p.value in
    elim (Bool-cases (ltb v (max top v))) [
      | inl low ↦
          let under : v < top = ground (arith, low) in
          rw low (elim (walk-Attained m (max top v) (inside before p.day) equity) [
            | inl e ↦ inl e
            | inr (inl u) ↦ inr (inl (falls under (Under-at (max-low top v low) u)))
            | inr (inr d) ↦ inr (inr (later d))
          ])
      | inr high ↦
          let over : top ≤ v = ground (arith, high) in
          rw high (elim (walk-Attained m (max top v) (outside p.day) equity) [
            | inl e ↦ inl e
            | inr (inl u) ↦ inr (inr (starts over (Falls-at (max-high top v high) u)))
            | inr (inr d) ↦ inr (inr (later d))
          ])
    ]
walk-Attained m top (inside peak last) (p ∷ equity) =
    let v = or_zero p.value in
    elim (Bool-cases (ltb v (max top v))) [
      | inl low ↦
          let under : v < top = ground (arith, low) in
          rw low (elim (walk-Attained m (max top v) (inside peak p.day) equity) [
            | inl e ↦ inl e
            | inr (inl u) ↦ inr (inl (goes_on under (Under-at (max-low top v low) u)))
            | inr (inr d) ↦ inr (inr (later d))
          ])
      | inr high ↦
          let over : top ≤ v = ground (arith, high) in
          rw high (elim (walk-Attained (max m (p.day - peak)) (max top v) (outside p.day) equity) [
            | inl e ↦ elim (Bool-cases (leb (p.day - peak) m)) [
              | inl shorter ↦ inl (ground (arith, e, shorter))
              | inr longer ↦
                  inr (inl (recovered {p = p} over (max-longer _ m (p.day - peak) e longer)))
            ]
            | inr (inl u) ↦ inr (inr (starts over (Falls-at (max-high top v high) u)))
            | inr (inr d) ↦ inr (inr (later d))
          ])
    ]

no_drawdown : (top n : ℕ) (p : Point) → IsDrawdown top (p ∷ []) n → n ≤ 0
no_drawdown top n p (starts high x) = elim x [ ]
no_drawdown top n p (later x) = elim x [ ]

pub walk-Longest :
    (day : ℕ) (p : Point) (equity : List Point)
    → Longest (p ∷ equity) (walk 0 (outside day) (underwater 0 (p ∷ equity))).max_days
walk-Longest day p equity = (
  elim (walk-Attained 0 0 (outside day) (p ∷ equity)) [
    | inl e ↦ inl e
    | inr (inl x) ↦ absurd (not_below x)
    | inr (inr d) ↦ inr d
  ],
  λ n d. IsDrawdown-le 0 0 n (outside day) (p ∷ equity) d,
)
  where
    not_below : {n : ℕ} → Falls 0 day (p ∷ equity) n → ⊥
    not_below (falls low d) = omega (arith, low)

pub one-Longest : (p : Point) → Longest (p ∷ []) 0
one-Longest p = (inl refl, λ n d. no_drawdown 0 n p d)
