-- ===== src/Screener/Fscore/Bounds.antt =====
-- How high an F-score can be (app/strategy/screener/fscore.py).
use autotrading.Prelude.{
  ◌≡◌, sym, ◌∙◌, ap, String, Option, none, some, Bool, true, List, [], ◌∷◌, filter, if◌then◌else◌,
  Bool-cases, inl, inr,
}
use autotrading.Screener.Fscore.{
  Number, Metric, Config, Score, FsRow, raw_scores, scored, metrics, calculate_fscore, max_possible,
  sum_from, weighted_score, get_metric_weight, is_metric_enabled,
}

-- What is used of the numbers. The laws hold of floating-point numbers that are finite and have finite sums,
-- rounding included. They exclude NaN and the infinities, which the model itself allows.
pub record Ordered {N : Type 0} (number : Number N) : Type 0 where
  pub le_refl : (a : N) → number.le a a ≡ true
  pub le_trans : (a b c : N) → number.le a b ≡ true → number.le b c ≡ true → number.le a c ≡ true
  pub add_le :
      (a b c d : N)
      → number.le a b ≡ true
      → number.le c d ≡ true
      → number.le (number.add a c) (number.add b d) ≡ true
  pub add_zero : (a : N) → number.add a number.zero ≡ a
  pub one_mul : (a : N) → number.mul number.one a ≡ a
  pub zero_mul : (a : N) → number.mul number.zero a ≡ number.zero

abbrev or_this : {A : Type 0} → A → Option A → A
or_this a none = a
or_this a (some b) = b

module _ {N : Type 0} (number : Number N) (config : Config N) where
  -- the score is the sum over its own raw scores
  pub calculate_fscore-sum :
      (code : String) (rows : List (FsRow N)) (s : Score N)
      → calculate_fscore number config code rows ≡ some s
      → s.fscore ≡ sum_from number number.zero (weighted_score number config s.raw_scores) metrics
  unfolding calculate_fscore
  calculate_fscore-sum code rows s found = go (raw_scores number rows) found
    where
      go :
          (o : Option (N × (Metric → Bool)))
          → scored number config code o ≡ some s
          → s.fscore
            ≡ sum_from number number.zero (weighted_score number config s.raw_scores) metrics
      go none e = cc
      go (some (equity, raw)) e =
          let same = ap (or_this s) e in
          sym (ap (λ x. x.fscore) same)
          ∙ ap
              (λ x. sum_from number number.zero (weighted_score number config x.raw_scores) metrics)
              same

  module _ (ordered : Ordered number) where
    sum_from-le :
        (raw : Metric → Bool) (ms : List Metric) (a b : N)
        → ((m : Metric) → number.le number.zero (get_metric_weight number config m) ≡ true)
        → number.le a b ≡ true
        → number.le (sum_from number a (weighted_score number config raw) ms) (
            sum_from number b
              (get_metric_weight number config)
              (filter (is_metric_enabled number config) ms))
          ≡ true
    sum_from-le raw [] a b positive below = below
    sum_from-le raw (m ∷ ms) a b positive below =
        elim (Bool-cases (is_metric_enabled number config m)) [
          | inl on ↦
              rw on (sum_from-le raw ms _ _ positive (ordered.add_le a b _ _ below (passed on)))
          | inr off ↦ rw (off, ordered.add_zero a) (sum_from-le raw ms a b positive below)
        ]
      where
        passed :
            is_metric_enabled number config m ≡ true
            → number.le
                (number.mul
                  (if raw m then number.one else number.zero)
                  (get_metric_weight number config m))
                (get_metric_weight number config m)
              ≡ true
        passed on = elim (Bool-cases (raw m)) [
          | inl passes ↦ rw (passes, ordered.one_mul) (ordered.le_refl _)
          | inr fails ↦ rw (fails, ordered.zero_mul) (positive m)
        ]

    -- If no enabled metric has a weight below 0, a score is no higher than the sum of the enabled weights,
    -- which the screener logs as the greatest possible.
    pub calculate_fscore-max_possible :
        (code : String) (rows : List (FsRow N)) (s : Score N)
        → ((m : Metric) → number.le number.zero (get_metric_weight number config m) ≡ true)
        → calculate_fscore number config code rows ≡ some s
        → number.le s.fscore (max_possible number config) ≡ true
    unfolding max_possible
    calculate_fscore-max_possible code rows s positive found =
        rw (calculate_fscore-sum code rows s found) (
          sum_from-le s.raw_scores metrics number.zero number.zero positive
            (ordered.le_refl number.zero))
