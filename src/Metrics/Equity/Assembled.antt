-- ===== src/Metrics/Equity/Assembled.antt =====
-- The equity of a day is that of the snapshot that counts on it (app/strategy/metrics/adapters.py).
use autotrading.Prelude.{
  ℕ, ◌<◌, ◌≡◌, refl, sym, ap, ◌∙◌, Option, none, some, is_some, true, false, ◌&&◌, List, [], ◌∷◌,
  map, filter, leb, All, arith, inl, inr, Bool-cases, Option-cases,
}
use autotrading.Worker.Effects.{Reply, reply, error}
use autotrading.Metrics.Equity.{
  has_twice, Ascending, equity_error, Frames, IsDocumented, SnapshotView, CloseFrame, insert_view,
  sorted_views, first_date, or_value, is_empty_frame, period, quantities, worth, equities, assemble,
  assemble_equity,
}
use autotrading.Metrics.Equity.Latest.{
  dates, latest, latest-sorted_views, sorted_views-Ascending, first_date-latest,
}
use autotrading.Metrics.Equity.Carried.{read}
use autotrading.Metrics.Equity.Filled.{carried-series_of}

leb_refl : (a : ℕ) → leb a a ≡ true
leb_refl a = ground arith

module _ {N Z : Type 0} (frames : Frames N Z) (codes : List (List ℕ)) where
  -- the equity on the days of the rows, of the snapshot that counts; a day before all snapshots is left out
  abbrev pub valued : ℕ × List (Option N) → Option (SnapshotView N Z) → List (ℕ × N) → List (ℕ × N)
  valued r none rest = rest
  valued r (some v) rest = (r.0, worth frames r.1 (quantities frames codes v) v.cash_amount) ∷ rest

  abbrev pub equities_of : List (SnapshotView N Z) → List (ℕ × List (Option N)) → List (ℕ × N)
  equities_of views [] = []
  equities_of views (r ∷ rows) = valued r (latest r.0 views) (equities_of views rows)

  abbrev pub unless_nil : List (ℕ × N) → Reply (List (ℕ × N))
  unless_nil [] = error equity_error
  unless_nil (x ∷ xs) = reply (x ∷ xs)

  abbrev row_days : List (ℕ × List (Option N)) → List ℕ
  row_days rows = map (λ r. r.0) rows

  nonempty :
      (r : ℕ × List (Option N)) (o : Option (SnapshotView N Z)) (rest : List (ℕ × N))
      → is_some o ≡ true
      → unless_nil (valued r o rest) ≡ reply (valued r o rest)
  nonempty r none rest counts = cc
  nonempty r (some v) rest counts = refl

  equities-equities_of :
      (views : List (SnapshotView N Z)) (rows : List (ℕ × List (Option N)))
      → All (λ r. is_some (latest r.0 views) ≡ true) rows
      → equities frames rows
          (map
            (λ t.
              or_value
                (read frames (quantities frames codes) (latest t views))
                (map (λ code. frames.zero) codes))
            (row_days rows))
          (map
            (λ t. or_value (read frames (λ v. v.cash_amount) (latest t views)) frames.zero)
            (row_days rows))
        ≡ equities_of views rows
  equities-equities_of views [] counts = refl
  equities-equities_of views (r ∷ rows) (counts, rest) = elim (Option-cases (latest r.0 views)) [
    | inl missing ↦ (let clash = rw missing at counts in cc)
    | inr (v, is_v) ↦ rw is_v (
        ap (◌∷◌ (r.0, worth frames r.1 (quantities frames codes v) v.cash_amount))
          (equities-equities_of views rows rest))
  ]

  assemble-equities_of :
      IsDocumented frames
      → (views : List (SnapshotView N Z)) (rows : List (ℕ × List (Option N)))
      → Ascending (dates views)
      → Ascending (row_days rows)
      → All (λ r. is_some (latest r.0 views) ≡ true) rows
      → assemble frames codes views rows ≡ unless_nil (equities_of views rows)
  unfolding assemble
  assemble-equities_of documented views [] up rows_up counts = refl
  assemble-equities_of documented views (r ∷ rows) up rows_up counts =
      rw
        (carried-series_of frames documented (quantities frames codes)
          (map (λ code. frames.zero) codes) views (row_days (r ∷ rows)) up rows_up)
        (rw
          (carried-series_of frames documented (λ v. v.cash_amount) frames.zero views
            (row_days (r ∷ rows)) up rows_up)
          (ap reply (equities-equities_of views (r ∷ rows) counts)
            ∙ sym (nonempty r (latest r.0 views) (equities_of views rows) counts.0)))

  -- the days up to the end
  abbrev pub up_to : ℕ → List (ℕ × List (Option N)) → List (ℕ × List (Option N))
  up_to as_of = filter λ r. leb r.0 as_of

  period-counts :
      (first as_of : ℕ) (views : List (SnapshotView N Z)) (rows : List (ℕ × List (Option N)))
      → ((day : ℕ) → leb first day ≡ is_some (latest day views))
      → All (λ r. is_some (latest r.0 views) ≡ true) (period first as_of rows)
  period-counts first as_of views [] since = tt
  period-counts first as_of views (r ∷ rows) since = elim (Bool-cases (leb first r.0)) [
    | inr early ↦ rw early (period-counts first as_of views rows since)
    | inl there ↦ elim (Bool-cases (leb r.0 as_of)) [
      | inr late ↦ rw there (rw late (period-counts first as_of views rows since))
      | inl timely ↦
          rw there (rw timely (sym (since r.0) ∙ there, period-counts first as_of views rows since))
    ]
  ]

  before_all :
      (r : ℕ × List (Option N)) (o : Option (SnapshotView N Z)) (rest : List (ℕ × N))
      → is_some o ≡ false
      → valued r o rest ≡ rest
  before_all r none rest missing = refl
  before_all r (some v) rest missing = cc

  equities_of-period :
      (first as_of : ℕ) (views : List (SnapshotView N Z)) (rows : List (ℕ × List (Option N)))
      → ((day : ℕ) → leb first day ≡ is_some (latest day views))
      → equities_of views (period first as_of rows) ≡ equities_of views (up_to as_of rows)
  equities_of-period first as_of views [] since = refl
  equities_of-period first as_of views (r ∷ rows) since = elim (Bool-cases (leb r.0 as_of)) [
    | inr late ↦ elim (Bool-cases (leb first r.0)) [
      | inr early ↦ rw early (rw late (equities_of-period first as_of views rows since))
      | inl there ↦ rw there (rw late (equities_of-period first as_of views rows since))
    ]
    | inl timely ↦ elim (Bool-cases (leb first r.0)) [
      | inr early ↦ rw early (
          rw timely (
            equities_of-period first as_of views rows since
            ∙ sym (
                before_all r (latest r.0 views) (equities_of views (up_to as_of rows))
                  (sym (since r.0) ∙ early))))
      | inl there ↦ rw there (
          rw timely
            (ap (valued r (latest r.0 views)) (equities_of-period first as_of views rows since)))
    ]
  ]

  equities_of-nil : (rows : List (ℕ × List (Option N))) → equities_of [] rows ≡ []
  equities_of-nil [] = refl
  equities_of-nil (r ∷ rows) = equities_of-nil rows

  equities_of-sorted_views :
      (views : List (SnapshotView N Z)) (rows : List (ℕ × List (Option N)))
      → has_twice (dates views) ≡ false
      → equities_of (sorted_views views) rows ≡ equities_of views rows
  equities_of-sorted_views views [] once = refl
  equities_of-sorted_views views (r ∷ rows) once =
      ap (λ o. valued r o (equities_of (sorted_views views) rows))
        (latest-sorted_views r.0 views once)
      ∙ ap (valued r (latest r.0 views)) (equities_of-sorted_views views rows once)

  All-period :
      (bound first as_of : ℕ) (rows : List (ℕ × List (Option N)))
      → All (λ e. bound < e) (row_days rows)
      → All (λ e. bound < e) (row_days (period first as_of rows))
  All-period bound first as_of [] above = tt
  All-period bound first as_of (r ∷ rows) (above, all_above) =
      elim (Bool-cases (leb first r.0 && leb r.0 as_of)) [
        | inl inside ↦ rw inside (above, All-period bound first as_of rows all_above)
        | inr outside ↦ rw outside (All-period bound first as_of rows all_above)
      ]

  pub period-Ascending :
      (first as_of : ℕ) (rows : List (ℕ × List (Option N)))
      → Ascending (row_days rows)
      → Ascending (row_days (period first as_of rows))
  period-Ascending first as_of [] up = tt
  period-Ascending first as_of (r ∷ rows) (above, up) =
      elim (Bool-cases (leb first r.0 && leb r.0 as_of)) [
        | inl inside ↦
            rw inside (All-period r.0 first as_of rows above, period-Ascending first as_of rows up)
        | inr outside ↦ rw outside (period-Ascending first as_of rows up)
      ]

  -- snapshots in order, of which there is one
  assemble-period :
      IsDocumented frames
      → (ordered : List (SnapshotView N Z)) (rows : List (ℕ × List (Option N))) (as_of : ℕ)
      → Ascending (dates ordered)
      → Ascending (row_days rows)
      → is_some (latest (first_date ordered) ordered) ≡ true
      → assemble frames codes ordered (period (first_date ordered) as_of rows)
        ≡ unless_nil (equities_of ordered (up_to as_of rows))
  assemble-period documented [] rows as_of up rows_up exists = cc
  assemble-period documented (v ∷ views) rows as_of up rows_up exists =
      let since = λ (day : ℕ). first_date-latest day v views up in
      let inside = period v.trading_date as_of rows in
      assemble-equities_of documented (v ∷ views) inside up
        (period-Ascending v.trading_date as_of rows rows_up)
        (period-counts v.trading_date as_of (v ∷ views) rows since)
      ∙ ap unless_nil (equities_of-period v.trading_date as_of (v ∷ views) rows since)

exists-insert_view :
    {N Z : Type 0} (v : SnapshotView N Z) (views : List (SnapshotView N Z))
    → Ascending (dates (insert_view v views))
    → let ordered = insert_view v views in is_some (latest (first_date ordered) ordered) ≡ true
exists-insert_view v [] up =
    sym (first_date-latest v.trading_date v [] up) ∙ leb_refl v.trading_date
exists-insert_view v (w ∷ views) up = elim (Bool-cases (leb v.trading_date w.trading_date)) [
  | inl first ↦ rw first (
      sym (first_date-latest v.trading_date v (w ∷ views) (rw first at up))
      ∙ leb_refl v.trading_date)
  | inr second ↦ rw second (
      sym (first_date-latest w.trading_date w (insert_view v views) (rw second at up))
      ∙ leb_refl w.trading_date)
]

-- For snapshots of which no two have the same day, in any order, and closing prices that are there and whose days
-- ascend, the equity of a day up to the end is the worth, at its closing prices, of what the latest snapshot up
-- to that day holds, with that snapshot's cash. The days before the first snapshot are left out, and
-- if no day is left, the series is refused with a ValueError.
pub assemble_equity-latest :
    {N Z : Type 0} (frames : Frames N Z) (documented : IsDocumented frames)
    (views : List (SnapshotView N Z)) (frame : CloseFrame N) (as_of : ℕ)
    → has_twice (dates views) ≡ false
    → Ascending (map (λ r. r.0) frame.rows)
    → is_empty_frame frame ≡ false
    → assemble_equity frames views frame as_of
      ≡ unless_nil frames frame.codes
          (equities_of frames frame.codes views (up_to frames frame.codes as_of frame.rows))
unfolding assemble_equity
assemble_equity-latest frames documented [] frame as_of once rows_up there =
    ap (unless_nil frames frame.codes)
      (sym (equities_of-nil frames frame.codes (up_to frames frame.codes as_of frame.rows)))
assemble_equity-latest frames documented (v ∷ views) frame as_of once rows_up there =
    let up = sorted_views-Ascending (v ∷ views) once in
    rw there (
      assemble-period frames frame.codes documented (sorted_views (v ∷ views)) frame.rows as_of up
        rows_up (exists-insert_view v (sorted_views views) up)
      ∙ ap (unless_nil frames frame.codes) (
          equities_of-sorted_views frames frame.codes (v ∷ views)
            (up_to frames frame.codes as_of frame.rows) once))
