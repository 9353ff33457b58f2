-- ===== src/Metrics/Equity/Latest.antt =====
-- The snapshot that counts on a day, among snapshots in any order and in order
-- (app/strategy/metrics/adapters.py).
use autotrading.Prelude.{
  ℕ, ◌<◌, ◌≡◌, refl, sym, ap, ◌∙◌, Option, none, some, is_some, Bool, true, false, ◌||◌, List, [],
  ◌∷◌, map, leb, ltb, ◌==◌, All, if◌then◌else◌, arith, inl, inr, Bool-cases,
}
use autotrading.Metrics.Equity.{
  SnapshotView, insert_view, sorted_views, has_day, has_twice, Ascending,
}

pub or-eq-false : {a b : Bool} → (a || b) ≡ false → (a ≡ false) × (b ≡ false)
or-eq-false {a = true} h = cc
or-eq-false {a = false} h = (refl, h)

or-swap : (a b c : Bool) → (a || (b || c)) ≡ (b || (a || c))
or-swap true true c = refl
or-swap true false c = refl
or-swap false b c = refl

apart-less : {a b : ℕ} → (a == b) ≡ false → leb a b ≡ true → a < b
apart-less apart upto = ground (arith, apart, upto)

not-leb-less : {a b : ℕ} → leb a b ≡ false → b < a
not-leb-less after = ground (arith, after)

pub less-not-leb : {a b : ℕ} → b < a → leb a b ≡ false
less-not-leb less = ground (arith, less)

pub All-later : (a b : ℕ) (days : List ℕ) → a < b → All (λ e. b < e) days → All (λ e. a < e) days
All-later a b [] less all_above = all_above
All-later a b (d ∷ days) less (above, all_above) =
    (omega (arith, less, above), All-later a b days less all_above)

module _ {N Z : Type 0} where
  abbrev pub dates : List (SnapshotView N Z) → List ℕ
  dates views = map (λ v. v.trading_date) views

  -- the later of two, and the latest one up to a day
  abbrev pub later : SnapshotView N Z → Option (SnapshotView N Z) → Option (SnapshotView N Z)
  later v none = some v
  later v (some w) = if ltb v.trading_date w.trading_date then some w else some v

  abbrev pub pick : ℕ → SnapshotView N Z → Option (SnapshotView N Z) → Option (SnapshotView N Z)
  pick day v rest = if leb v.trading_date day then later v rest else rest

  abbrev pub latest : ℕ → List (SnapshotView N Z) → Option (SnapshotView N Z)
  latest day [] = none
  latest day (v ∷ views) = pick day v (latest day views)

  later-swap :
      (v w : SnapshotView N Z) (r : Option (SnapshotView N Z))
      → (v.trading_date == w.trading_date) ≡ false
      → later v (later w r) ≡ later w (later v r)
  later-swap v w none apart = ground (arith, apart)
  later-swap v w (some u) apart = ground (arith, apart)

  pick-swap :
      (day : ℕ) (v w : SnapshotView N Z) (r : Option (SnapshotView N Z))
      → (v.trading_date == w.trading_date) ≡ false
      → pick day v (pick day w r) ≡ pick day w (pick day v r)
  pick-swap day v w r apart = elim (Bool-cases (leb v.trading_date day)) [
    | inr v_after ↦ rw v_after refl
    | inl v_upto ↦ elim (Bool-cases (leb w.trading_date day)) [
      | inr w_after ↦ rw w_after refl
      | inl w_upto ↦ rw v_upto (rw w_upto (later-swap v w r apart))
    ]
  ]

  latest-insert_view :
      (day : ℕ) (v : SnapshotView N Z) (views : List (SnapshotView N Z))
      → has_day v.trading_date (dates views) ≡ false
      → latest day (insert_view v views) ≡ latest day (v ∷ views)
  latest-insert_view day v [] apart = refl
  latest-insert_view day v (w ∷ views) apart =
      elim (Bool-cases (leb v.trading_date w.trading_date)) [
        | inl first ↦ rw first refl
        | inr second ↦
            let (apart_w, apart_rest) = or-eq-false apart in
            rw second (
              ap (pick day w) (latest-insert_view day v views apart_rest)
              ∙ sym (pick-swap day v w (latest day views) apart_w))
      ]

  pub has_day-insert_view :
      (day : ℕ) (v : SnapshotView N Z) (views : List (SnapshotView N Z))
      → has_day day (dates (insert_view v views)) ≡ has_day day (dates (v ∷ views))
  has_day-insert_view day v [] = refl
  has_day-insert_view day v (w ∷ views) = elim (Bool-cases (leb v.trading_date w.trading_date)) [
    | inl first ↦ rw first refl
    | inr second ↦ rw second (
        ap (λ b. (day == w.trading_date) || b) (has_day-insert_view day v views)
        ∙ or-swap (day == w.trading_date) (day == v.trading_date) (has_day day (dates views)))
  ]

  pub has_day-sorted_views :
      (day : ℕ) (views : List (SnapshotView N Z))
      → has_day day (dates (sorted_views views)) ≡ has_day day (dates views)
  has_day-sorted_views day [] = refl
  has_day-sorted_views day (v ∷ views) =
      has_day-insert_view day v (sorted_views views)
      ∙ ap (λ b. (day == v.trading_date) || b) (has_day-sorted_views day views)

  -- sorting does not change which snapshot counts
  pub latest-sorted_views :
      (day : ℕ) (views : List (SnapshotView N Z))
      → has_twice (dates views) ≡ false
      → latest day (sorted_views views) ≡ latest day views
  latest-sorted_views day [] once = refl
  latest-sorted_views day (v ∷ views) once =
      let (apart, once_rest) = or-eq-false once in
      latest-insert_view day v (sorted_views views)
        (has_day-sorted_views v.trading_date views ∙ apart)
      ∙ ap (pick day v) (latest-sorted_views day views once_rest)

  All-insert_view :
      (bound : ℕ) (v : SnapshotView N Z) (views : List (SnapshotView N Z))
      → bound < v.trading_date
      → All (λ e. bound < e) (dates views)
      → All (λ e. bound < e) (dates (insert_view v views))
  All-insert_view bound v [] above all_above = (above, all_above)
  All-insert_view bound v (w ∷ views) above (w_above, all_above) =
      elim (Bool-cases (leb v.trading_date w.trading_date)) [
        | inl first ↦ rw first (above, (w_above, all_above))
        | inr second ↦ rw second (w_above, All-insert_view bound v views above all_above)
      ]

  insert_view-Ascending :
      (v : SnapshotView N Z) (views : List (SnapshotView N Z))
      → has_day v.trading_date (dates views) ≡ false
      → Ascending (dates views)
      → Ascending (dates (insert_view v views))
  insert_view-Ascending v [] apart up = (tt, tt)
  insert_view-Ascending v (w ∷ views) apart (above, up) =
      let (apart_w, apart_rest) = or-eq-false apart in
      elim (Bool-cases (leb v.trading_date w.trading_date)) [
        | inl first ↦
            let less = apart-less apart_w first in
            rw first (
              (less, All-later v.trading_date w.trading_date (dates views) less above),
              (above, up),
            )
        | inr second ↦ rw second (
          All-insert_view w.trading_date v views (not-leb-less second) above,
          insert_view-Ascending v views apart_rest up,
        )
      ]

  pub sorted_views-Ascending :
      (views : List (SnapshotView N Z))
      → has_twice (dates views) ≡ false
      → Ascending (dates (sorted_views views))
  sorted_views-Ascending [] once = tt
  sorted_views-Ascending (v ∷ views) once =
      let (apart, once_rest) = or-eq-false once in
      insert_view-Ascending v (sorted_views views)
        (has_day-sorted_views v.trading_date views ∙ apart) (sorted_views-Ascending views once_rest)

module _ {N Z : Type 0} where
  -- a snapshot, if it is one, of a later day
  abbrev pub IsAbove : ℕ → Option (SnapshotView N Z) → Type 0
  IsAbove bound none = Unit
  IsAbove bound (some w) = bound < w.trading_date

  later-IsAbove :
      (bound : ℕ) (v : SnapshotView N Z) (o : Option (SnapshotView N Z))
      → bound < v.trading_date
      → IsAbove bound o
      → IsAbove bound (later v o)
  later-IsAbove bound v none above above_o = above
  later-IsAbove bound v (some w) above above_o =
      elim (Bool-cases (ltb v.trading_date w.trading_date)) [
        | inl before ↦ rw before above_o
        | inr after ↦ rw after above
      ]

  pub latest-IsAbove :
      (day bound : ℕ) (views : List (SnapshotView N Z))
      → All (λ e. bound < e) (dates views)
      → IsAbove bound (latest day views)
  latest-IsAbove day bound [] above = tt
  latest-IsAbove day bound (v ∷ views) (v_above, above) =
      elim (Bool-cases (leb v.trading_date day)) [
        | inl before ↦ rw before (
            later-IsAbove bound v (latest day views) v_above (latest-IsAbove day bound views above))
        | inr after ↦ rw after (latest-IsAbove day bound views above)
      ]

  latest-none :
      (day : ℕ) (views : List (SnapshotView N Z))
      → All (λ e. day < e) (dates views)
      → latest day views ≡ none
  latest-none day [] above = refl
  latest-none day (v ∷ views) (v_above, above) =
      rw (less-not-leb v_above) (latest-none day views above)

  is_some-later :
      (v : SnapshotView N Z) (o : Option (SnapshotView N Z)) → is_some (later v o) ≡ true
  is_some-later v none = refl
  is_some-later v (some w) = elim (Bool-cases (ltb v.trading_date w.trading_date)) [
    | inl before ↦ rw before refl
    | inr after ↦ rw after refl
  ]

  -- a snapshot counts from the first date on
  pub first_date-latest :
      (day : ℕ) (v : SnapshotView N Z) (views : List (SnapshotView N Z))
      → Ascending (dates (v ∷ views))
      → leb v.trading_date day ≡ is_some (latest day (v ∷ views))
  first_date-latest day v views (above, up) = elim (Bool-cases (leb v.trading_date day)) [
    | inl before ↦ rw before (sym (is_some-later v (latest day views)))
    | inr after ↦ rw after (
        rw
          (latest-none day views
            (All-later day v.trading_date (dates views) (not-leb-less after) above))
          refl)
  ]
