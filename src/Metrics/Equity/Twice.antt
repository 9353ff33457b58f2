-- ===== src/Metrics/Equity/Twice.antt =====
-- Two snapshots of one day (app/strategy/metrics/adapters.py).
use autotrading.Prelude.{
  ℕ, ◌<◌, ◌≡◌, refl, ap, ◌∙◌, Option, none, Bool, true, false, ◌||◌, List, [], ◌∷◌, map, leb, ◌==◌,
  All, arith, inl, inr, ◌⊎◌, Bool-cases,
}
use autotrading.Worker.Effects.{Exn, Reply, reply, error}
use autotrading.Metrics.Equity.{
  Series, labels, has_day, has_twice, Ascending, forward, equity_error, Frames, IsDocumented,
  SnapshotView, CloseFrame, insert_view, sorted_views, first_date, is_empty_frame, period,
  series_of, quantities, carried, assemble, assemble_equity,
}
use autotrading.Metrics.Equity.Latest.{dates, has_day-sorted_views, has_day-insert_view}
use autotrading.Metrics.Equity.Carried.{labels-forward, less-not-eq}
use autotrading.Metrics.Equity.Filled.{labels-series_of}
use autotrading.Metrics.Equity.Assembled.{period-Ascending}

has_day-none : (d : ℕ) (days : List ℕ) → All (λ e. d < e) days → has_day d days ≡ false
has_day-none d [] above = refl
has_day-none d (e ∷ days) (above, all_above) =
    rw (less-not-eq above) (has_day-none d days all_above)

pub Ascending-has_twice : (days : List ℕ) → Ascending days → has_twice days ≡ false
Ascending-has_twice [] up = refl
Ascending-has_twice (d ∷ days) (above, up) =
    rw (has_day-none d days above) (Ascending-has_twice days up)

or-mix : (a b c d : Bool) → ((a || b) || (c || d)) ≡ ((a || c) || (b || d))
or-mix true b c d = refl
or-mix false true true d = refl
or-mix false true false d = refl
or-mix false false c d = refl

eq-swap : (a b : ℕ) → (a == b) ≡ (b == a)
eq-swap a b = ground arith

module _ {N Z : Type 0} where
  has_twice-insert_view :
      (v : SnapshotView N Z) (views : List (SnapshotView N Z))
      → has_twice (dates (insert_view v views)) ≡ has_twice (dates (v ∷ views))
  has_twice-insert_view v [] = refl
  has_twice-insert_view v (w ∷ views) = elim (Bool-cases (leb v.trading_date w.trading_date)) [
    | inl first ↦ rw first refl
    | inr second ↦ rw second (
        rw (has_day-insert_view w.trading_date v views) (
          rw (has_twice-insert_view v views) (
            rw (eq-swap w.trading_date v.trading_date) (
              or-mix (v.trading_date == w.trading_date) (has_day w.trading_date (dates views))
                (has_day v.trading_date (dates views)) (has_twice (dates views))))))
  ]

  has_twice-sorted_views :
      (views : List (SnapshotView N Z))
      → has_twice (dates (sorted_views views)) ≡ has_twice (dates views)
  has_twice-sorted_views [] = refl
  has_twice-sorted_views (v ∷ views) =
      has_twice-insert_view v (sorted_views views)
      ∙ rw (has_day-sorted_views v.trading_date views) (rw (has_twice-sorted_views views) refl)

module _ {N Z : Type 0} (frames : Frames N Z) (documented : IsDocumented frames) where
  Reply-cases : {A : Type 0} (r : Reply A) → ((a : A) × (r ≡ reply a)) ⊎ ((e : Exn) × (r ≡ error e))
  Reply-cases (reply a) = inl (a, refl)
  Reply-cases (error e) = inr (e, refl)

  carried-twice :
      {V : Type 0} (zeros : V) (s : Series V) (merged days : List ℕ)
      → has_twice (labels s) ≡ true
      → has_twice days ≡ false
      → (e : Exn) × (carried frames zeros s merged days ≡ error e)
  unfolding carried
  carried-twice zeros s merged days twice once = elim (Bool-cases (has_twice merged)) [
    | inr merged_once ↦
        (equity_error, rw (documented.reindex-error s merged twice merged_once) refl)
    | inl merged_twice ↦ elim (Reply-cases (frames.reindex s merged)) [
      | inr (e, fails) ↦ (e, rw fails refl)
      | inl (t, there) ↦
          let still = labels-forward none t ∙ documented.labels-reindex s t merged there in
          (
            equity_error,
            rw there (
                rw (documented.ffill-forward t) (
                  rw
                    (documented.reindex-error (forward none t) days
                      (ap has_twice still ∙ merged_twice) once)
                    refl)),
          )
    ]
  ]

  assemble-twice :
      (codes : List (List ℕ)) (ordered : List (SnapshotView N Z))
      (rows : List (ℕ × List (Option N)))
      → has_twice (dates ordered) ≡ true
      → Ascending (map (λ r. r.0) rows)
      → (e : Exn) × (assemble frames codes ordered rows ≡ error e)
  unfolding assemble
  assemble-twice codes ordered [] twice up = (equity_error, refl)
  assemble-twice codes ordered (r ∷ rows) twice up =
      let days = map (λ (x : ℕ × List (Option N)). x.0) (r ∷ rows) in
      let (e, fails) =
        carried-twice (map (λ code. frames.zero) codes)
          (series_of frames (quantities frames codes) ordered) (frames.union (dates ordered) days)
          days (ap has_twice (labels-series_of frames (quantities frames codes) ordered) ∙ twice)
          (Ascending-has_twice days up) in
      (e, rw fails refl)

-- If two of the snapshots have the same day, there is no equity series: whatever the closing prices on ascending
-- days are, and however pandas unites indexes with a label twice, an exception is raised.
pub assemble_equity-twice :
    {N Z : Type 0} (frames : Frames N Z) (documented : IsDocumented frames)
    (views : List (SnapshotView N Z)) (frame : CloseFrame N) (as_of : ℕ)
    → has_twice (dates views) ≡ true
    → Ascending (map (λ r. r.0) frame.rows)
    → (e : Exn) × (assemble_equity frames views frame as_of ≡ error e)
unfolding assemble_equity
assemble_equity-twice frames documented [] frame as_of twice up = (equity_error, refl)
assemble_equity-twice frames documented (v ∷ views) frame as_of twice up =
    elim (Bool-cases (is_empty_frame frame)) [
      | inl nothing ↦ (equity_error, rw nothing refl)
      | inr there ↦
          let ordered = sorted_views (v ∷ views) in
          let (e, fails) =
            assemble-twice frames documented frame.codes ordered
              (period (first_date ordered) as_of frame.rows)
              (has_twice-sorted_views (v ∷ views) ∙ twice)
              (period-Ascending frames frame.codes (first_date ordered) as_of frame.rows up) in
          (e, rw there fails)
    ]
