-- ===== src/Metrics/Equity/Filled.antt =====
-- The chain of pandas from the snapshots to the trading days (app/strategy/metrics/adapters.py).
use autotrading.Prelude.{
  ℕ, ◌≡◌, refl, sym, ap, subst, ◌∙◌, Option, none, Bool, true, false, ◌||◌, List, [], ◌∷◌, map,
  ◌==◌, All, arith,
}
use autotrading.Worker.Effects.{reply}
use autotrading.Metrics.Equity.{
  Series, labels, value_at, has_day, Ascending, forward, Frames, IsDocumented, SnapshotView,
  or_value, series_of, carried,
}
use autotrading.Metrics.Equity.Latest.{dates, latest}
use autotrading.Metrics.Equity.Carried.{
  alt-none, upto, read, upto-series_of, spread, labels-forward, labels-spread, at-forward,
}

pub labels-series_of :
    {N Z V : Type 0} (frames : Frames N Z) (f : SnapshotView N Z → V)
    (views : List (SnapshotView N Z))
    → labels (series_of frames f views) ≡ dates views
labels-series_of frames f [] = refl
labels-series_of frames f (v ∷ views) = ap (◌∷◌ v.trading_date) (labels-series_of frames f views)

or-right : (a : Bool) {b : Bool} → b ≡ true → (a || b) ≡ true
or-right true h = refl
or-right false h = h

==_refl : (a : ℕ) → (a == a) ≡ true
==_refl a = ground arith

or-left : {a : Bool} (b : Bool) → a ≡ true → (a || b) ≡ true
or-left b h = rw h refl

has_day-cons :
    (e : ℕ) (days ds : List ℕ)
    → All (λ d. has_day d days ≡ true) ds
    → All (λ d. has_day d (e ∷ days) ≡ true) ds
has_day-cons e days [] there = tt
has_day-cons e days (d ∷ ds) (d_there, there) =
    (or-right (d == e) d_there, has_day-cons e days ds there)

-- the days are all among the days
has_day_self : (days : List ℕ) → All (λ d. has_day d days ≡ true) days
has_day_self [] = tt
has_day_self (d ∷ days) =
    (or-left (has_day d days) (==_refl d), has_day-cons d days days (has_day_self days))

module _ {N Z : Type 0} (frames : Frames N Z) (documented : IsDocumented frames) where
  module _ {V : Type 0} (zeros : V) (s : Series V) (days : List ℕ) (up : Ascending (labels s))
      (days_up : Ascending days) where
    abbrev merged : List ℕ
    merged = frames.union (labels s) days

    abbrev filled : Series V
    filled = forward none (spread s merged)

    filled-Ascending : Ascending (labels filled)
    filled-Ascending =
        subst Ascending (sym (labels-forward none (spread s merged) ∙ labels-spread s merged))
          (documented.union-Ascending (labels s) days up days_up)

    in_union :
        (ls : List ℕ)
        → All (λ l. has_day l (labels s) ≡ true) ls
        → All (λ l. has_day l merged ≡ true) ls
    in_union [] there = tt
    in_union (l ∷ ls) (l_there, there) = (
      documented.has_day-union (labels s) days l ∙ or-left (has_day l days) l_there,
      in_union ls there,
    )

    map-filled :
        (ts : List ℕ)
        → All (λ t. has_day t days ≡ true) ts
        → map (λ (r : ℕ × Option V). or_value r.1 zeros) (map (λ t. (t, value_at t filled)) ts)
          ≡ map (λ t. or_value (upto t s) zeros) ts
    map-filled [] there = refl
    map-filled (t ∷ ts) (t_there, there) =
        let at_t =
          at-forward none s merged up (documented.union-Ascending (labels s) days up days_up)
            (in_union (labels s) (has_day_self (labels s))) t
            (documented.has_day-union (labels s) days t ∙ or-right (has_day t (labels s)) t_there)
          ∙ alt-none (upto t s) in
        rw at_t (ap (◌∷◌ (or_value (upto t s) zeros)) (map-filled ts there))

    pub carried-upto :
        carried frames zeros s merged days ≡ reply (map (λ t. or_value (upto t s) zeros) days)
    unfolding carried
    carried-upto = rw (documented.reindex-reply s merged up) (
        rw (documented.ffill-forward (spread s merged)) (
          rw (documented.reindex-reply filled days filled-Ascending)
            (ap reply (map-filled days (has_day_self days)))))

  -- the chain on the snapshots in order: the value of the one that counts
  pub carried-series_of :
      {V : Type 0} (f : SnapshotView N Z → V) (zeros : V) (views : List (SnapshotView N Z))
      (days : List ℕ)
      → Ascending (dates views)
      → Ascending days
      → carried frames zeros (series_of frames f views) (frames.union (dates views) days) days
        ≡ reply (map (λ t. or_value (read frames f (latest t views)) zeros) days)
  carried-series_of f zeros views days up days_up =
      ap (λ ds. carried frames zeros (series_of frames f views) (frames.union ds days) days)
        (sym (labels-series_of frames f views))
      ∙ carried-upto zeros (series_of frames f views) days
          (subst Ascending (sym (labels-series_of frames f views)) up) days_up
      ∙ ap reply (map-upto days)
    where
      map-upto :
          (ts : List ℕ)
          → map (λ t. or_value (upto t (series_of frames f views)) zeros) ts
            ≡ map (λ t. or_value (read frames f (latest t views)) zeros) ts
      map-upto [] = refl
      map-upto (t ∷ ts) =
          rw (upto-series_of frames f t views up)
            (ap (◌∷◌ (or_value (read frames f (latest t views)) zeros)) (map-upto ts))
