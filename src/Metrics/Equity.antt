-- ===== src/Metrics/Equity.antt =====
-- app/strategy/metrics/adapters.py: the equity of each trading day, out of the snapshots of the portfolio and the
-- closing prices. A series is the list of its labels, which are days, with a value or NaN under each. What
-- pandas does to a series is given, and so are the numbers of its columns.
pub mod Latest
pub mod Carried
pub mod Filled
pub mod Assembled
pub mod Twice
use autotrading.Prelude.{
  ℕ, ◌≤◌, ◌<◌, ◌≡◌, Option, none, some, Bool, true, false, ◌&&◌, ◌||◌, List, [], ◌∷◌, map, filter,
  leb, ◌==◌, codes_eq, any, All, if◌then◌else◌,
}
use autotrading.Worker.Effects.{Exn, exception, Reply, reply, error}
use autotrading.Snapshot.Account.{◌>>=◌}

abbrev pub Series : Type 0 → Type 0
Series V = List (ℕ × Option V)

abbrev pub labels : {V : Type 0} → Series V → List ℕ
labels s = map (λ r. r.0) s

abbrev pub value_at : {V : Type 0} → ℕ → Series V → Option V
value_at day [] = none
value_at day ((d, v) ∷ s) = let rest = value_at day s in if day == d then v else rest

abbrev pub has_day : ℕ → List ℕ → Bool
has_day day = any (λ d. day == d)

-- a label that comes twice
abbrev pub has_twice : List ℕ → Bool
has_twice [] = false
has_twice (d ∷ days) = has_day d days || has_twice days

abbrev pub Ascending : List ℕ → Type 0
Ascending [] = Unit
Ascending (d ∷ days) = All (λ e. d < e) days × Ascending days

-- each gap filled with the value before it
abbrev pub forward : {V : Type 0} → Option V → Series V → Series V
forward last [] = []
forward last ((d, some v) ∷ s) = (d, some v) ∷ forward (some v) s
forward last ((d, none) ∷ s) = (d, last) ∷ forward last s

abbrev pub equity_error : Exn
equity_error = exception "ValueError"

-- Of numpy and pandas: a number from an integer, the product, the sum of a row, which leaves out NaN, and the
-- operations on labels.
pub record Frames (N Z : Type 0) : Type 1 where
  pub zero : N
  pub to_float : Z → N
  pub add : N → N → N
  pub mul : N → N → N
  pub sum : List (Option N) → N
  pub union : List ℕ → List ℕ → List ℕ
  pub reindex : {V : Type 0} → Series V → List ℕ → Reply (Series V)
  pub ffill : {V : Type 0} → Series V → Series V

-- What pandas documents: the union of two indexes in order is in order; a series without a label twice has its
-- values, or NaN, under the labels that are asked for; one with a label twice cannot get labels without.
pub record IsDocumented {N Z : Type 0} (frames : Frames N Z) : Type 1 where
  pub union-Ascending :
      (xs ys : List ℕ) → Ascending xs → Ascending ys → Ascending (frames.union xs ys)
  pub has_day-union :
      (xs ys : List ℕ) (day : ℕ)
      → has_day day (frames.union xs ys) ≡ (has_day day xs || has_day day ys)
  pub reindex-reply :
      {V : Type 0} (s : Series V) (days : List ℕ)
      → Ascending (labels s)
      → frames.reindex s days ≡ reply (map (λ d. (d, value_at d s)) days)
  pub reindex-error :
      {V : Type 0} (s : Series V) (days : List ℕ)
      → has_twice (labels s) ≡ true
      → has_twice days ≡ false
      → frames.reindex s days ≡ error equity_error
  pub labels-reindex :
      {V : Type 0} (s t : Series V) (days : List ℕ)
      → frames.reindex s days ≡ reply t
      → labels t ≡ days
  pub ffill-forward : {V : Type 0} (s : Series V) → frames.ffill s ≡ forward none s

pub record SnapshotView (N Z : Type 0) : Type 0 where
  pub trading_date : ℕ
  pub cash_amount : N
  pub holdings : List (List ℕ × Z)

-- the codes of the columns, and the prices of each day
pub record CloseFrame (N : Type 0) : Type 0 where
  pub codes : List (List ℕ)
  pub rows : List (ℕ × List (Option N))

-- `sorted` by the date; of equal dates, the first stays first
abbrev pub insert_view :
    {N Z : Type 0} → SnapshotView N Z → List (SnapshotView N Z) → List (SnapshotView N Z)
insert_view v [] = v ∷ []
insert_view v (w ∷ views) =
    let rest = insert_view v views in
    if leb v.trading_date w.trading_date then v ∷ w ∷ views else w ∷ rest

abbrev pub sorted_views : {N Z : Type 0} → List (SnapshotView N Z) → List (SnapshotView N Z)
sorted_views [] = []
sorted_views (v ∷ views) = insert_view v (sorted_views views)

abbrev pub first_date : {N Z : Type 0} → List (SnapshotView N Z) → ℕ
first_date [] = 0
first_date (v ∷ views) = v.trading_date

abbrev pub quantity_in : {Z : Type 0} → List ℕ → List (List ℕ × Z) → Option Z
quantity_in code [] = none
quantity_in code ((c, qty) ∷ holdings) =
    let rest = quantity_in code holdings in if codes_eq code c then some qty else rest

abbrev pub or_value : {V : Type 0} → Option V → V → V
or_value none d = d
or_value (some v) d = v

abbrev pub is_empty_frame : {N : Type 0} → CloseFrame N → Bool
is_empty_frame frame = elim frame.codes [
  | [] ↦ true
  | _ ∷ _ ↦ elim frame.rows [ [] ↦ true | _ ∷ _ ↦ false ]
]

-- the rows of the period
abbrev pub period : {V : Type 0} → ℕ → ℕ → List (ℕ × V) → List (ℕ × V)
period first last = filter λ r. leb first r.0 && leb r.0 last

module _ {N Z : Type 0} (frames : Frames N Z) where
  abbrev pub quantity : List (List ℕ × Z) → List ℕ → N
  quantity holdings code = elim (quantity_in code holdings) [
    | none ↦ frames.zero
    | some qty ↦ frames.to_float qty
  ]

  abbrev pub quantities : List (List ℕ) → SnapshotView N Z → List N
  quantities codes v = map (quantity v.holdings) codes

  abbrev pub series_of : {V : Type 0} → (SnapshotView N Z → V) → List (SnapshotView N Z) → Series V
  series_of f views = map (λ v. (v.trading_date, some (f v))) views

  -- `reindex(merged_index).ffill().reindex(trading_days).fillna(0.0)`
  unfoldable pub carried : {V : Type 0} → V → Series V → List ℕ → List ℕ → Reply (List V)
  carried zeros s merged days = do
    spread ← frames.reindex s merged
    there ← frames.reindex (frames.ffill spread) days
    reply (map (λ r. or_value r.1 zeros) there)

  -- a row of `closes * qty_frame`; what is multiplied with NaN is NaN
  abbrev pub times : List (Option N) → List N → List (Option N)
  times (some p ∷ prices) (q ∷ qtys) = some (frames.mul p q) ∷ times prices qtys
  times (none ∷ prices) (q ∷ qtys) = none ∷ times prices qtys
  times _ _ = []

  abbrev pub worth : List (Option N) → List N → N → N
  worth prices qtys cash = frames.add (frames.sum (times prices qtys)) cash

  abbrev pub equities : List (ℕ × List (Option N)) → List (List N) → List N → List (ℕ × N)
  equities ((day, prices) ∷ rows) (q ∷ qtys) (c ∷ cash) =
      (day, worth prices q c) ∷ equities rows qtys cash
  equities _ _ _ = []

  -- the second half, for the snapshots in order and the rows of the period
  unfoldable pub assemble :
      List (List ℕ) → List (SnapshotView N Z) → List (ℕ × List (Option N)) → Reply (List (ℕ × N))
  unfolding carried
  assemble codes ordered [] = error equity_error
  assemble codes ordered (r ∷ rows) = do
    let days = map (λ x. x.0) (r ∷ rows)
    let dates = map (λ v. v.trading_date) ordered
    let merged = frames.union dates days
    qty ←
        carried (map (λ code. frames.zero) codes) (series_of (quantities codes) ordered) merged days
    cash ← carried frames.zero (series_of (λ v. v.cash_amount) ordered) merged days
    reply (equities (r ∷ rows) qty cash)

  unfoldable pub assemble_equity : List (SnapshotView N Z) → CloseFrame N → ℕ → Reply (List (ℕ × N))
  unfolding assemble
  assemble_equity [] frame as_of = error equity_error
  assemble_equity (v ∷ views) frame as_of =
      if is_empty_frame frame
      then error equity_error
      else (let ordered = sorted_views (v ∷ views) in
          assemble frame.codes ordered (period (first_date ordered) as_of frame.rows))
