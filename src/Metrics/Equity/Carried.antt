-- ===== src/Metrics/Equity/Carried.antt =====
-- What pandas carries forward from the snapshots to the trading days (app/strategy/metrics/adapters.py).
use autotrading.Prelude.{
  ℕ, ◌<◌, ◌≡◌, refl, sym, ap, subst, ◌∙◌, Option, none, some, true, false, List, [], ◌∷◌, map, leb,
  ltb, ◌==◌, ==_iff, All, if◌then◌else◌, arith, inl, inr, Bool-cases,
}
use autotrading.Metrics.Equity.{
  Series, labels, value_at, has_day, Ascending, forward, Frames, SnapshotView, series_of,
}
use autotrading.Metrics.Equity.Latest.{
  less-not-leb, All-later, dates, later, latest, IsAbove, latest-IsAbove,
}

-- the value with the last label up to a day, where there is one that is not NaN
abbrev pub alt : {V : Type 0} → Option V → Option V → Option V
alt none o = o
alt (some v) o = some v

abbrev pub upto : {V : Type 0} → ℕ → Series V → Option V
upto day [] = none
upto day ((d, o) ∷ s) = let rest = upto day s in if leb d day then alt rest o else rest

module _ {N Z : Type 0} {V : Type 0} (frames : Frames N Z) (f : SnapshotView N Z → V) where
  abbrev pub read : Option (SnapshotView N Z) → Option V
  read none = none
  read (some v) = some (f v)

  read-later :
      (v : SnapshotView N Z) (o : Option (SnapshotView N Z))
      → IsAbove v.trading_date o
      → read (later v o) ≡ alt (read o) (some (f v))
  read-later v none above = refl
  read-later v (some w) above = elim (Bool-cases (ltb v.trading_date w.trading_date)) [
    | inl before ↦ rw before refl
    | inr after ↦ absurd (ground (arith, above, after))
  ]

  pub upto-series_of :
      (day : ℕ) (views : List (SnapshotView N Z))
      → Ascending (dates views)
      → upto day (series_of frames f views) ≡ read (latest day views)
  upto-series_of day [] up = refl
  upto-series_of day (v ∷ views) (above, up) = elim (Bool-cases (leb v.trading_date day)) [
    | inl before ↦ rw before (
        ap (λ o. alt o (some (f v))) (upto-series_of day views up)
        ∙ sym (read-later v (latest day views) (latest-IsAbove day v.trading_date views above)))
    | inr after ↦ rw after (upto-series_of day views up)
  ]

pub less-not-eq : {a b : ℕ} → a < b → (a == b) ≡ false
less-not-eq less = ground (arith, less)

greater-not-eq : {a b : ℕ} → a < b → (b == a) ≡ false
greater-not-eq less = ground (arith, less)

==_refl : (a : ℕ) → (a == a) ≡ true
==_refl a = ground arith

eq-leb : (a b : ℕ) → (a == b) ≡ true → leb b a ≡ true
eq-leb a b same = ground (arith, same)

less-leb : {a b : ℕ} → a < b → leb a b ≡ true
less-leb less = ground (arith, less)

has_day-above : (m t : ℕ) (days : List ℕ) → All (λ e. m < e) days → has_day t days ≡ true → m < t
has_day-above m t [] above there = cc
has_day-above m t (d ∷ days) (above, all_above) there = elim (Bool-cases (t == d)) [
  | inl same ↦ ground (arith, same, above)
  | inr other ↦ has_day-above m t days all_above (rw other at there)
]

-- labels that are not the head are in the rest
has_day-rest :
    (m : ℕ) (days ls : List ℕ)
    → All (λ l. has_day l (m ∷ days) ≡ true) ls
    → All (λ l. m < l) ls
    → All (λ l. has_day l days ≡ true) ls
has_day-rest m days [] there above = tt
has_day-rest m days (l ∷ ls) (there, all_there) (above, all_above) =
    (rw (greater-not-eq above) at there, has_day-rest m days ls all_there all_above)

module _ {V : Type 0} where
  -- the series under other labels
  abbrev pub spread : Series V → List ℕ → Series V
  spread s days = map (λ d. (d, value_at d s)) days

  alt_assoc : (a b c : Option V) → alt a (alt b c) ≡ alt (alt a b) c
  alt_assoc none b c = refl
  alt_assoc (some v) b c = refl

  pub alt-none : (a : Option V) → alt a none ≡ a
  alt-none none = refl
  alt-none (some v) = refl

  forward-cons :
      (last : Option V) (d : ℕ) (o : Option V) (s : Series V)
      → forward last ((d, o) ∷ s) ≡ (d, alt o last) ∷ forward (alt o last) s
  forward-cons last d none s = refl
  forward-cons last d (some v) s = refl

  pub labels-forward : (last : Option V) (s : Series V) → labels (forward last s) ≡ labels s
  labels-forward last [] = refl
  labels-forward last ((d, none) ∷ s) = ap (◌∷◌ d) (labels-forward last s)
  labels-forward last ((d, some v) ∷ s) = ap (◌∷◌ d) (labels-forward (some v) s)

  pub labels-spread : (s : Series V) (days : List ℕ) → labels (spread s days) ≡ days
  labels-spread s [] = refl
  labels-spread s (d ∷ days) = ap (◌∷◌ d) (labels-spread s days)

  value_at-none : (m : ℕ) (s : Series V) → All (λ l. m < l) (labels s) → value_at m s ≡ none
  value_at-none m [] above = refl
  value_at-none m ((d, o) ∷ s) (above, all_above) =
      rw (less-not-eq above) (value_at-none m s all_above)

  upto-none : (m : ℕ) (s : Series V) → All (λ l. m < l) (labels s) → upto m s ≡ none
  upto-none m [] above = refl
  upto-none m ((d, o) ∷ s) (above, all_above) = rw (less-not-leb above) (upto-none m s all_above)

  spread-cons :
      (d : ℕ) (o : Option V) (s : Series V) (days : List ℕ)
      → All (λ e. d < e) days
      → spread ((d, o) ∷ s) days ≡ spread s days
  spread-cons d o s [] above = refl
  spread-cons d o s (e ∷ days) (above, all_above) =
      rw (greater-not-eq above)
        (ap (λ rest. (e, value_at e s) ∷ rest) (spread-cons d o s days all_above))

  -- the value under the first day
  value_at-head :
      (t d : ℕ) (o : Option V) (s : Series V) → (t == d) ≡ true → value_at t ((d, o) ∷ s) ≡ o
  value_at-head t d o s same = rw same refl

  value_at-tail :
      (t d : ℕ) (o : Option V) (s : Series V)
      → (t == d) ≡ false
      → value_at t ((d, o) ∷ s) ≡ value_at t s
  value_at-tail t d o s other = rw other refl

  -- a day that is no label, before all labels
  at-forward_gap :
      (last : Option V) (s : Series V) (m t : ℕ) (days : List ℕ)
      → All (λ l. m < l) (labels s)
      → (has_day t days ≡ true → value_at t (forward last (spread s days)) ≡ alt (upto t s) last)
      → has_day t (m ∷ days) ≡ true
      → value_at t (forward last (spread s (m ∷ days))) ≡ alt (upto t s) last
  at-forward_gap last s m t days still rest there =
      rw (value_at-none m s still) (elim (Bool-cases (t == m)) [
        | inl same ↦
            value_at-head t m last (forward last (spread s days)) same
            ∙ rw (upto-none t s (rw ((==_iff t m).0 same) still)) refl
        | inr other ↦
            value_at-tail t m last (forward last (spread s days)) other ∙ rest (rw other at there)
      ])

  -- a day that is the first label
  at-forward_label :
      (last o : Option V) (s : Series V) (m t : ℕ) (days : List ℕ)
      → All (λ l. m < l) (labels s)
      → All (λ l. m < l) days
      → (has_day t days ≡ true
          → value_at t (forward (alt o last) (spread s days)) ≡ alt (upto t s) (alt o last))
      → has_day t (m ∷ days) ≡ true
      → value_at t (forward last (spread ((m, o) ∷ s) (m ∷ days))) ≡ alt (upto t ((m, o) ∷ s)) last
  at-forward_label last o s m t days above days_above rest there =
      ap (value_at t) {y = (m, alt o last) ∷ forward (alt o last) (spread s days)} (
        rw (value_at-head m m o s (==_refl m))
          (rw (spread-cons m o s days days_above) (forward-cons last m o (spread s days))))
      ∙ elim (Bool-cases (t == m)) [
        | inl same ↦
            value_at-head t m (alt o last) (forward (alt o last) (spread s days)) same
            ∙ rw (eq-leb t m same) (rw (upto-none t s (rw ((==_iff t m).0 same) above)) refl)
        | inr other ↦
            let t_there = rw other at there in
            value_at-tail t m (alt o last) (forward (alt o last) (spread s days)) other
            ∙ rest t_there
            ∙ rw (less-leb (has_day-above m t days days_above t_there))
                (alt_assoc (upto t s) o last)
      ]

  -- the gaps filled: the last value up to a day
  pub at-forward :
      (last : Option V) (s : Series V) (days : List ℕ)
      → Ascending (labels s)
      → Ascending days
      → All (λ l. has_day l days ≡ true) (labels s)
      → (t : ℕ) → has_day t days ≡ true
      → value_at t (forward last (spread s days)) ≡ alt (upto t s) last
  at-forward last s [] up days_up there t t_there = cc
  at-forward last [] (m ∷ days) up (above, days_up) there t t_there =
      at-forward_gap last [] m t days tt (at-forward last [] days up days_up tt t) t_there
  at-forward last ((d, o) ∷ s) (m ∷ days) (s_above, up) (above, days_up) (d_there, s_there) t
        t_there =
      elim (Bool-cases (d == m)) [
        | inl same ↦
            let label = (==_iff d m).0 same in
            let s_above' = rw label at s_above in
            subst
              (λ x.
                value_at t (forward last (spread ((x, o) ∷ s) (m ∷ days)))
                ≡ alt (upto t ((x, o) ∷ s)) last)
              (sym label)
              (at-forward_label last o s m t days s_above' above
                (at-forward (alt o last) s days up days_up
                  (has_day-rest m days (labels s) s_there s_above') t)
                t_there)
        | inr other ↦
            let still = has_day-above m d days above (rw other at d_there) in
            let all_still : All (λ l. m < l) (labels ((d, o) ∷ s)) =
              (still, All-later m d (labels s) still s_above) in
            at-forward_gap last ((d, o) ∷ s) m t days all_still
              (at-forward last ((d, o) ∷ s) days (s_above, up) days_up
                (has_day-rest m days (labels ((d, o) ∷ s)) (d_there, s_there) all_still) t)
              t_there
      ]
