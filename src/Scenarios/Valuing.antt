-- ===== src/Scenarios/Valuing.antt =====
-- Series of small numbers, the equity of a few days, and two rebalances on one day
-- (app/strategy/metrics/adapters.py).
use autotrading.Prelude.{
  ℕ, ◌+◌, ◌*◌, ◌<◌, ◌≡◌, refl, sym, ap, ◌∙◌, Option, none, some, Bool, true, false, ◌||◌, List, [],
  ◌∷◌, map, ltb, ◌==◌, ==_iff, codes, All, arith, inl, inr, if◌then◌else◌, Bool-cases,
}
use autotrading.Worker.Effects.{Exn, Reply, reply, error}
use autotrading.Snapshot.Account.{reply_injective}
use autotrading.Snapshot.Capture.{capture, snapshot_of}
use autotrading.Metrics.Equity.{
  Series, labels, value_at, has_day, has_twice, Ascending, forward, equity_error, Frames,
  IsDocumented, SnapshotView, CloseFrame, assemble_equity,
}
use autotrading.Metrics.Equity.Assembled.{unless_nil, equities_of, up_to, assemble_equity-latest}
use autotrading.Metrics.Equity.Twice.{Ascending-has_twice}
use autotrading.Metrics.Series.{RowOrders, Market, build_equity_series}
use autotrading.Metrics.Series.Captured.{captures-build_equity_series}
use autotrading.Scenarios.Capturing.{readings, env, nothing, rows, composed}

-- the union of two indexes, each label once
abbrev add : ℕ → List ℕ → List ℕ
add d [] = d ∷ []
add d (e ∷ days) =
    let rest = add d days in if d == e then e ∷ days else if ltb d e then d ∷ e ∷ days else e ∷ rest

abbrev union : List ℕ → List ℕ → List ℕ
union [] days = days
union (d ∷ ds) days = add d (union ds days)

abbrev reindex : {V : Type 0} → Series V → List ℕ → Reply (Series V)
reindex s days =
    if has_twice (labels s) then error equity_error else reply (map (λ d. (d, value_at d s)) days)

abbrev sum : List (Option ℕ) → ℕ
sum [] = 0
sum (none ∷ xs) = sum xs
sum (some x ∷ xs) = x + sum xs

abbrev frames : Frames ℕ ℕ
frames = record {
  zero = 0;
  to_float = λ n. n;
  add = λ a b. a + b;
  mul = λ a b. a * b;
  sum = sum;
  union = union;
  reindex = reindex;
  ffill = forward none;
}

All-add :
    (bound d : ℕ) (days : List ℕ)
    → bound < d
    → All (λ e. bound < e) days
    → All (λ e. bound < e) (add d days)
All-add bound d [] above all_above = (above, tt)
All-add bound d (e ∷ days) above (e_above, all_above) = elim (Bool-cases (d == e)) [
  | inl same ↦ rw same (e_above, all_above)
  | inr other ↦ elim (Bool-cases (ltb d e)) [
    | inl first ↦ rw other (rw first (above, (e_above, all_above)))
    | inr second ↦ rw other (rw second (e_above, All-add bound d days above all_above))
  ]
]

All-less : (a b : ℕ) (days : List ℕ) → a < b → All (λ e. b < e) days → All (λ e. a < e) days
All-less a b [] less above = tt
All-less a b (e ∷ days) less (e_above, above) =
    (omega (arith, less, e_above), All-less a b days less above)

less_of : {a b : ℕ} → ltb a b ≡ true → a < b
less_of first = ground (arith, first)

greater_of : {a b : ℕ} → (a == b) ≡ false → ltb a b ≡ false → b < a
greater_of other second = ground (arith, other, second)

add-Ascending : (d : ℕ) (days : List ℕ) → Ascending days → Ascending (add d days)
add-Ascending d [] up = (tt, tt)
add-Ascending d (e ∷ days) (above, up) = elim (Bool-cases (d == e)) [
  | inl same ↦ rw same (above, up)
  | inr other ↦ elim (Bool-cases (ltb d e)) [
    | inl first ↦
        rw other (rw first ((less_of first, All-less d e days (less_of first) above), (above, up)))
    | inr second ↦
        rw other
          (rw second (All-add e d days (greater_of other second) above, add-Ascending d days up))
  ]
]

union-Ascending : (xs ys : List ℕ) → Ascending ys → Ascending (union xs ys)
union-Ascending [] ys up = up
union-Ascending (x ∷ xs) ys up = add-Ascending x (union xs ys) (union-Ascending xs ys up)

or_swap : (a b c : Bool) → (a || (b || c)) ≡ (b || (a || c))
or_swap true true c = refl
or_swap true false c = refl
or_swap false b c = refl

or_again : (a b : Bool) → (a || b) ≡ (a || (a || b))
or_again true b = refl
or_again false b = refl

or_assoc : (a b c : Bool) → (a || (b || c)) ≡ ((a || b) || c)
or_assoc true b c = refl
or_assoc false b c = refl

has_day-add : (t d : ℕ) (days : List ℕ) → has_day t (add d days) ≡ ((t == d) || has_day t days)
has_day-add t d [] = refl
has_day-add t d (e ∷ days) = elim (Bool-cases (d == e)) [
  | inl same ↦ rw same (rw ((==_iff d e).0 same) (or_again (t == e) (has_day t days)))
  | inr other ↦ elim (Bool-cases (ltb d e)) [
    | inl first ↦ rw other (rw first refl)
    | inr second ↦ rw other (
        rw second (
          ap (λ b. (t == e) || b) (has_day-add t d days)
          ∙ or_swap (t == e) (t == d) (has_day t days)))
  ]
]

has_day-union : (xs ys : List ℕ) (t : ℕ) → has_day t (union xs ys) ≡ (has_day t xs || has_day t ys)
has_day-union [] ys t = refl
has_day-union (x ∷ xs) ys t =
    has_day-add t x (union xs ys)
    ∙ ap (λ b. (t == x) || b) (has_day-union xs ys t)
    ∙ or_assoc (t == x) (has_day t xs) (has_day t ys)

labels-spread :
    {V : Type 0} (s : Series V) (days : List ℕ) → labels (map (λ d. (d, value_at d s)) days) ≡ days
labels-spread s [] = refl
labels-spread s (d ∷ days) = ap (◌∷◌ d) (labels-spread s days)

labels-reindex :
    {V : Type 0} (s t : Series V) (days : List ℕ) → reindex s days ≡ reply t → labels t ≡ days
labels-reindex s t days there = elim (Bool-cases (has_twice (labels s))) [
  | inl twice ↦ (let clash = rw twice at there in cc)
  | inr once ↦ ap labels (sym (reply_injective (rw once at there))) ∙ labels-spread s days
]

documented : IsDocumented frames
documented = record {
  union-Ascending = λ xs ys xs_up ys_up. union-Ascending xs ys ys_up;
  has_day-union = has_day-union;
  reindex-reply = λ s days up. rw (Ascending-has_twice (labels s) up) refl;
  reindex-error = λ s days twice once. rw twice refl;
  labels-reindex = labels-reindex;
  ffill-forward = λ s. refl;
}

abbrev stock : List ℕ
stock = codes "005930"

-- the later one first
abbrev views : List (SnapshotView ℕ ℕ)
views =
    record { trading_date = 3; cash_amount = 50; holdings = (stock, 2) ∷ [] }
    ∷ record { trading_date = 1; cash_amount = 100; holdings = (stock, 1) ∷ [] }
    ∷ []

-- the second day of the snapshots has no price
abbrev frame : CloseFrame ℕ
frame = record {
  codes = stock ∷ [];
  rows =
      (0, some 7 ∷ [])
      ∷ (1, some 10 ∷ [])
      ∷ (2, none ∷ [])
      ∷ (3, some 20 ∷ [])
      ∷ (4, some 30 ∷ [])
      ∷ [];
}

values :
    equities_of frames (stock ∷ []) views (up_to frames (stock ∷ []) 3 frame.rows)
    ≡ (1, 110) ∷ (2, 100) ∷ (3, 90) ∷ []
values = refl

assemble_equity-latest_example :
    assemble_equity frames views frame 3
    ≡ unless_nil frames
        (stock ∷ [])
        (equities_of frames (stock ∷ []) views (up_to frames (stock ∷ []) 3 frame.rows))
assemble_equity-latest_example =
    assemble_equity-latest frames documented views frame 3 refl (omega arith) refl

abbrev orders : RowOrders ℕ ℕ
orders = record {
  order_by_date = λ found. found;
  count-order_by_date = λ found test. refl;
  order_by_snapshot = λ held. held;
}

abbrev market : Market ℕ
market = record {
  get_ohlcv = λ code start_date end_date. some ((1, 720) ∷ []);
  sort_index = λ prices. prices;
  close_rows = λ series_map. (1, some 720 ∷ some 720 ∷ []) ∷ [];
  close_rows-Ascending = λ series_map. (tt, tt);
}

captures-build_equity_series_example :
    let first = (capture readings (env 1) (λ t. t) 7 nothing).1 in
    let second = (capture readings (env 2) (λ t. t) 8 first).1 in
    (e : Exn) × (build_equity_series frames orders market "12345678" "01" 0 9 second ≡ error e)
captures-build_equity_series_example =
    captures-build_equity_series readings frames documented orders market "12345678" "01" 0 9 1
      (env 1) (env 2) 7 8 nothing (snapshot_of readings (env 1) 7 5000)
      (snapshot_of readings (env 2) 8 5000) (rows 1) (rows 2) refl refl refl (composed 1 7)
      (composed 2 8) (refl, refl) (refl, refl) (refl, refl) (omega arith) (omega arith)
