-- ===== src/Strategy/Reversal/Traced.antt =====
-- Every candidate of a scan of app/strategy/strategies/reversal_volume_strategy.py carries the figures of the
-- frame of its stock.
use autotrading.Prelude.{
  ℕ, zero, suc, ◌≡◌, refl, max, String, Option, none, some, Bool, List, [], ◌∷◌, filter, take,
  length, Bool-cases, Option-cases, inl, inr, All, arith,
}
use autotrading.Strategy.{Arithmetic, UniverseRow, Candidate, Frame}
use autotrading.Strategy.Reversal.{
  Pandas, ReversalParams, gt, return_of, volume_ratio_of, with_returns, with_ratios, falling,
}
use autotrading.Strategy.Reversal.Measured.{
  IsReturn, OfFrame, Measured, return_of-IsReturn, volume_ratio_of-IsVolumeRatio,
}
use autotrading.Strategy.Reversal.Scan.{screened, spiked, final}

pub All-filter :
    {A : Type 0} (P : A → Type 0) (p : A → Bool) (xs : List A) → All P xs → All P (filter p xs)
All-filter P p [] h = tt
All-filter P p (x ∷ xs) h = elim (Bool-cases (p x)) [
  | inl e ↦ rw e (h.0, All-filter P p xs h.1)
  | inr e ↦ rw e (All-filter P p xs h.1)
]

pub All-take : {A : Type 0} (P : A → Type 0) (n : ℕ) (xs : List A) → All P xs → All P (take n xs)
All-take P zero xs h = tt
All-take P (suc n) [] h = tt
All-take P (suc n) (x ∷ xs) h = (h.0, All-take P n xs h.1)

module _ {N : Type 0} (number : Arithmetic N) (pandas : Pandas N) (params : ReversalParams N)
    (source : String → Option (Frame N)) where
  abbrev Fallen : Candidate N → Type 0
  Fallen c = OfFrame number pandas params (IsReturn number pandas params) source c.code c.return_pct

  of_return_lem :
      (frame : Option (Frame N)) (code : String) (r : N)
      → source code ≡ frame
      → return_of number pandas params frame ≡ some r
      → OfFrame number pandas params (IsReturn number pandas params) source code r
  of_return_lem none code r same e = absurd (unfold return_of in ground (arith, e))
  of_return_lem (some frame) code r same e =
      (frame, same, return_of-IsReturn number pandas params frame r e)

  with_returns-Fallen :
      (rows : List UniverseRow) → All Fallen (with_returns number pandas params source rows)
  unfolding with_returns
  with_returns-Fallen [] = tt
  with_returns-Fallen (row ∷ rows) =
      elim (Option-cases (return_of number pandas params (source row.code))) [
        | inl missing ↦ rw missing (with_returns-Fallen rows)
        | inr (r, found) ↦
            rw found
              (of_return_lem (source row.code) row.code r refl found, with_returns-Fallen rows)
      ]

  measured :
      (frame : Option (Frame N)) (c : Candidate N) (r : N)
      → Fallen c
      → source c.code ≡ frame
      → volume_ratio_of number pandas params frame ≡ some r
      → Measured number pandas params source (record c { volume_ratio = r })
  measured none c r fallen same e = absurd (unfold volume_ratio_of in ground (arith, e))
  measured (some frame) c r fallen same e =
      (fallen, (frame, same, volume_ratio_of-IsVolumeRatio number pandas params frame r e))

  with_ratios-Measured :
      (rows : List (Candidate N))
      → All Fallen rows
      → All (Measured number pandas params source) (with_ratios number pandas params source rows)
  unfolding with_ratios
  with_ratios-Measured [] fallen = tt
  with_ratios-Measured (c ∷ rows) fallen =
      elim (Option-cases (volume_ratio_of number pandas params (source c.code))) [
        | inl missing ↦ rw missing (with_ratios-Measured rows fallen.1)
        | inr (r, found) ↦
            rw found
              (measured (source c.code) c r fallen.0 refl found, with_ratios-Measured rows fallen.1)
      ]

  pub final-Measured :
      (universe : List UniverseRow)
      → All (Measured number pandas params source) (final number pandas params source universe)
  final-Measured universe =
      let P : Candidate N → Type 0 = Measured number pandas params source in
      let key : Candidate N → N = λ c. c.return_pct in
      let returns = with_returns number pandas params source universe in
      let cut = falling number pandas params returns in
      let rows = screened number pandas params source universe in
      let fallen : All Fallen rows =
        All-take Fallen (max 1 (pandas.share (length cut) params.reversal_pct))
          (pandas.sort_values key cut)
          (pandas.All-sort_values key cut Fallen (
            All-filter Fallen (λ c. number.lt c.return_pct number.zero) returns
              (with_returns-Fallen universe))) in
      pandas.All-sort_values key _ P (
        All-filter P (λ c. gt number pandas params c.return_pct params.max_drawdown_pct)
          (spiked number pandas params source universe)
          (All-filter P (λ c. number.le params.volume_spike_ratio c.volume_ratio)
            (with_ratios number pandas params source rows) (with_ratios-Measured rows fallen)))
