-- ===== src/Rebalance/History.antt =====
-- What an automatic rebalance asks of the past ones (app/repository/rebalance_repository.py). An instant is
-- a number; the day of an instant in Seoul, its month in the database and the month of a day are given. The
-- statuses are the three that the program writes.
use autotrading.Prelude.{
  ℕ, ◌≤◌, ◌≡◌, max, refl, ap, subst, ◌∙◌, Option, none, some, Bool, true, false, not, ◌&&◌, ◌||◌,
  List, [], ◌∷◌, any, all, leb, ltb, ◌==◌, if◌then◌else◌, arith, Bool-cases, Option-cases, inl, inr,
}
use autotrading.Rebalance.Executor.{RebalanceStatus, running, completed}

pub record PastRebalance : Type 0 where
  pub status : RebalanceStatus
  pub dry_run : Bool
  pub executed_at : ℕ

pub record Dates : Type 0 where
  pub kst_date : ℕ → ℕ
  pub month_in_database : ℕ → ℕ
  pub month_of : ℕ → ℕ

abbrev pub is_completed : RebalanceStatus → Bool
is_completed completed = true
is_completed _ = false

abbrev pub is_running : RebalanceStatus → Bool
is_running running = true
is_running _ = false

abbrev pub counts : PastRebalance → Bool
counts row = is_completed row.status && not row.dry_run

-- `order_by(executed_at.desc()).limit(1)`
abbrev pub later_of : ℕ → Option ℕ → Option ℕ
later_of t none = some t
later_of t (some u) = some (max t u)

unfoldable pub last_executed_at : List PastRebalance → Option ℕ
last_executed_at [] = none
last_executed_at (row ∷ rows) =
    let rest = last_executed_at rows in if counts row then later_of row.executed_at rest else rest

abbrev pub as_date : Dates → Option ℕ → Option ℕ
as_date dates none = none
as_date dates (some t) = some (dates.kst_date t)

unfoldable pub get_last_completed_rebalance_date : Dates → List PastRebalance → Option ℕ
unfolding last_executed_at
get_last_completed_rebalance_date dates rows = as_date dates (last_executed_at rows)

unfoldable pub has_completed_rebalance_in_month : Dates → List PastRebalance → ℕ → Bool
has_completed_rebalance_in_month dates rows target_month =
    any
      (λ row.
        (is_running row.status || is_completed row.status)
        && not row.dry_run
        && dates.month_in_database row.executed_at == dates.month_of target_month)
      rows

-- the instant of a completed rebalance that no completed one is after, dry runs left aside
pub record IsLast (rows : List PastRebalance) (t : ℕ) : Type 0 where
  pub is_there : any (λ row. counts row && row.executed_at == t) rows ≡ true
  pub none_after : all (λ row. not (counts row) || leb row.executed_at t) rows ≡ true

none-nothing :
    (rows : List PastRebalance) (t : ℕ)
    → last_executed_at rows ≡ none
    → any (λ row. counts row && row.executed_at == t) rows ≡ false
unfolding last_executed_at
none-nothing [] t e = refl
none-nothing (row ∷ rows) t e = elim (Bool-cases (counts row)) [
  | inl b ↦ elim (Option-cases (last_executed_at rows)) [
    | inl m ↦ absurd (ground (arith, e, b, m))
    | inr (u, m) ↦ absurd (ground (arith, e, b, m))
  ]
  | inr b ↦ rw b (none-nothing rows t (ground (arith, e, b)))
]

none-all :
    (rows : List PastRebalance) (t : ℕ)
    → last_executed_at rows ≡ none
    → all (λ row. not (counts row) || leb row.executed_at t) rows ≡ true
unfolding last_executed_at
none-all [] t e = refl
none-all (row ∷ rows) t e = elim (Bool-cases (counts row)) [
  | inl b ↦ elim (Option-cases (last_executed_at rows)) [
    | inl m ↦ absurd (ground (arith, e, b, m))
    | inr (u, m) ↦ absurd (ground (arith, e, b, m))
  ]
  | inr b ↦ rw b (none-all rows t (ground (arith, e, b)))
]

all-after :
    (rows : List PastRebalance) (t u : ℕ)
    → t ≤ u
    → all (λ row. not (counts row) || leb row.executed_at t) rows ≡ true
    → all (λ row. not (counts row) || leb row.executed_at u) rows ≡ true
all-after [] t u h e = refl
all-after (row ∷ rows) t u h e = let rest = all-after rows t u h in ground (arith, h, e, rest)

there-before :
    (rows : List PastRebalance) (t u : ℕ)
    → all (λ row. not (counts row) || leb row.executed_at u) rows ≡ true
    → any (λ row. counts row && row.executed_at == t) rows ≡ true
    → t ≤ u
there-before [] t u e h = absurd (ground (arith, h))
there-before (row ∷ rows) t u e h = let rest = there-before rows t u in ground (arith, e, h, rest)

pub last_executed_at-IsLast :
    (rows : List PastRebalance) (t : ℕ) → last_executed_at rows ≡ some t → IsLast rows t
unfolding last_executed_at
last_executed_at-IsLast [] t e = absurd (ground (arith, e))
last_executed_at-IsLast (row ∷ rows) t e = elim (Bool-cases (counts row)) [
  | inl b ↦ elim (Option-cases (last_executed_at rows)) [
    | inl m ↦
        let same : row.executed_at ≡ t = ground (arith, e, b, m) in
        record {
          is_there = ground (arith, b, same);
          none_after = ground (arith, b, same, none-all rows t m);
        }
    | inr (u, m) ↦
        let same : max row.executed_at u ≡ t = ground (arith, e, b, m) in
        let rest = last_executed_at-IsLast rows u m in
        elim (Bool-cases (ltb u row.executed_at)) [
          | inl above ↦ record {
            is_there = ground (arith, b, same, above);
            none_after = ground (
              arith,
              b,
              same,
              above,
              all-after rows u t (ground (arith, same, above)) rest.none_after,
            );
          }
          | inr under ↦
              let equal : u ≡ t = ground (arith, same, under) in
              record {
                is_there = ground (
                  arith,
                  subst (λ v. any (λ r. counts r && r.executed_at == v) rows ≡ true) equal
                      rest.is_there,
                );
                none_after = ground (
                  arith,
                  b,
                  under,
                  equal,
                  all-after rows u t (omega (arith, equal)) rest.none_after,
                );
              }
        ]
  ]
  | inr b ↦
      let rest = last_executed_at-IsLast rows t (ground (arith, e, b)) in
      record {
        is_there = ground (arith, b, rest.is_there);
        none_after = ground (arith, b, rest.none_after);
      }
]

le_antisymm : (t u : ℕ) → t ≤ u → u ≤ t → t ≡ u
le_antisymm t u h k = omega (arith, h, k)

pub IsLast-last_executed_at :
    (rows : List PastRebalance) (t : ℕ) → IsLast rows t → last_executed_at rows ≡ some t
IsLast-last_executed_at rows t last = elim (Option-cases (last_executed_at rows)) [
  | inl m ↦ absurd (ground (arith, none-nothing rows t m, last.is_there))
  | inr (u, m) ↦
      let other = last_executed_at-IsLast rows u m in
      m
      ∙ ap (λ v. some v)
          (le_antisymm u t (there-before rows u t last.none_after other.is_there)
            (there-before rows t u other.none_after last.is_there))
]
