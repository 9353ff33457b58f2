-- ===== src/Strategy/Reversal/Scan.antt =====
-- What the two scans of app/strategy/strategies/reversal_volume_strategy.py let through, and that they agree.
use autotrading.Prelude.{
  ℕ, ◌≤◌, ◌≡◌, ◌⊎◌, refl, ◌∙◌, max, String, Option, none, some, Bool, true, not, ◌&&◌, List, [],
  ◌∷◌, filter, all, count, length, arith, Option-cases, inl, inr, all-and, all-filter,
  all-filter_self, all-take, all_iff_count, count-filter-le, count-take-le,
}
use autotrading.Strategy.{Arithmetic, UniverseRow, Candidate, Frame, Stocks, frame_of}
use autotrading.Strategy.Reversal.{
  Pandas, ReversalParams, gt, return_of, volume_ratio_of, with_returns, with_ratios, falling, worst,
  spiking, apply_risk_cut, unless_empty, slice_until, scan_from_data,
}

module _ {N : Type 0} (number : Arithmetic N) (pandas : Pandas N) (params : ReversalParams N) where
  -- what a candidate has passed, in one test
  abbrev pub qualifies : Candidate N → Bool
  qualifies c =
      number.lt c.return_pct number.zero
      && (number.le params.volume_spike_ratio c.volume_ratio
          && gt number pandas params c.return_pct params.max_drawdown_pct)

  all-sort_values :
      (test : Candidate N → Bool) (key : Candidate N → N) (rows : List (Candidate N))
      → all test rows ≡ true
      → all test (pandas.sort_values key rows) ≡ true
  all-sort_values test key rows pass =
      (all_iff_count test (pandas.sort_values key rows)).1
        (pandas.count-sort_values key rows (λ c. not (test c)) ∙ (all_iff_count test rows).0 pass)

  all-with_ratios :
      (test : N → Bool) (source : String → Option (Frame N)) (rows : List (Candidate N))
      → all (λ c. test c.return_pct) rows ≡ true
      → all (λ c. test c.return_pct) (with_ratios number pandas params source rows) ≡ true
  unfolding with_ratios
  all-with_ratios test source [] pass = refl
  all-with_ratios test source (c ∷ rows) pass =
      let rest = all-with_ratios test source rows in
      elim (Option-cases (volume_ratio_of number pandas params (source c.code))) [
        | inl missing ↦ rw missing (ground (arith, rest))
        | inr (r, found) ↦ rw found (ground (arith, rest))
      ]

  count-with_ratios-le :
      (test : String → Bool) (source : String → Option (Frame N)) (rows : List (Candidate N))
      → count (λ c. test c.code) (with_ratios number pandas params source rows)
        ≤ count (λ c. test c.code) rows
  unfolding with_ratios
  count-with_ratios-le test source [] = omega arith
  count-with_ratios-le test source (c ∷ rows) =
      let rest = count-with_ratios-le test source rows in
      elim (Option-cases (volume_ratio_of number pandas params (source c.code))) [
        | inl missing ↦ rw missing (omega (arith, rest))
        | inr (r, found) ↦ rw found (omega (arith, rest))
      ]

  count-with_returns-le :
      (test : String → Bool) (source : String → Option (Frame N)) (rows : List UniverseRow)
      → count (λ c. test c.code) (with_returns number pandas params source rows)
        ≤ count (λ u. test u.code) rows
  unfolding with_returns
  count-with_returns-le test source [] = omega arith
  count-with_returns-le test source (u ∷ rows) =
      let rest = count-with_returns-le test source rows in
      elim (Option-cases (return_of number pandas params (source u.code))) [
        | inl missing ↦ rw missing (omega (arith, rest))
        | inr (r, found) ↦ rw found (omega (arith, rest))
      ]

  -- the later steps of the scan
  abbrev pub screened : (String → Option (Frame N)) → List UniverseRow → List (Candidate N)
  screened source universe =
      worst number pandas params
        (falling number pandas params (with_returns number pandas params source universe))

  abbrev pub spiked : (String → Option (Frame N)) → List UniverseRow → List (Candidate N)
  spiked source universe =
      spiking number pandas params
        (with_ratios number pandas params source (screened source universe))

  abbrev pub final : (String → Option (Frame N)) → List UniverseRow → List (Candidate N)
  final source universe =
      pandas.sort_values (λ c. c.return_pct)
        (apply_risk_cut number pandas params (spiked source universe))

  pub final-qualifies :
      (source : String → Option (Frame N)) (universe : List UniverseRow)
      → all qualifies (final source universe) ≡ true
  final-qualifies source universe =
      let key : Candidate N → N = λ c. c.return_pct in
      let returns = with_returns number pandas params source universe in
      let cut = falling number pandas params returns in
      let ratios = with_ratios number pandas params source (screened source universe) in
      let falls : Candidate N → Bool = λ c. number.lt c.return_pct number.zero in
      let spikes : Candidate N → Bool = λ c. number.le params.volume_spike_ratio c.volume_ratio in
      let safe : Candidate N → Bool =
        λ c. gt number pandas params c.return_pct params.max_drawdown_pct in
      let fallen =
        all-with_ratios (λ r. number.lt r number.zero) source (screened source universe)
          (all-take falls (max 1 (pandas.share (length cut) params.reversal_pct))
            (pandas.sort_values key cut)
            (all-sort_values falls key cut (all-filter_self falls returns))) in
      all-sort_values qualifies key (apply_risk_cut number pandas params (spiked source universe)) (
        all-and falls (λ c. spikes c && safe c) (filter safe (filter spikes ratios))
          (all-filter falls safe (filter spikes ratios) (all-filter falls spikes ratios fallen))
          (all-and spikes safe (filter safe (filter spikes ratios))
            (all-filter spikes safe (filter spikes ratios) (all-filter_self spikes ratios))
            (all-filter_self safe (filter spikes ratios))))

  pub count-final-le :
      (test : String → Bool) (source : String → Option (Frame N)) (universe : List UniverseRow)
      → count (λ c. test c.code) (final source universe) ≤ count (λ u. test u.code) universe
  count-final-le test source universe =
      let returns = with_returns number pandas params source universe in
      let cut = falling number pandas params returns in
      let p : Candidate N → Bool = λ c. test c.code in
      omega (
        arith,
        pandas.count-sort_values (λ c. c.return_pct)
            (apply_risk_cut number pandas params (spiked source universe)) p,
        count-filter-le p (λ c. gt number pandas params c.return_pct params.max_drawdown_pct)
            (spiked source universe),
        count-filter-le p (λ c. number.le params.volume_spike_ratio c.volume_ratio)
            (with_ratios number pandas params source (screened source universe)),
        count-with_ratios-le test source (screened source universe),
        count-take-le p (max 1 (pandas.share (length cut) params.reversal_pct))
            (pandas.sort_values (λ c. c.return_pct) cut),
        pandas.count-sort_values (λ c. c.return_pct) cut p,
        count-filter-le p (λ c. number.lt c.return_pct number.zero) returns,
        count-with_returns-le test source universe,
      )

  -- Either scan gives a frame without columns, or the frame of the last step.
  abbrev pub Scanned :
      (String → Option (Frame N)) → List UniverseRow → Option (List (Candidate N)) → Type 0
  Scanned source universe answer = (answer ≡ none) ⊎ (answer ≡ some (final source universe))

  unless_empty-cases :
      (rows : List (Candidate N)) (answer : Option (List (Candidate N)))
      (source : String → Option (Frame N)) (universe : List UniverseRow)
      → Scanned source universe answer
      → Scanned source universe (unless_empty number pandas params rows answer)
  unless_empty-cases [] answer source universe cases = inl refl
  unless_empty-cases (c ∷ rows) answer source universe cases = cases

  pub scan_from_data-Scanned :
      (date : ℕ) (universe : List UniverseRow) (stocks : Stocks N)
      → Scanned
          (λ code. slice_until number pandas params date (frame_of code stocks))
          universe
          (scan_from_data number pandas params date universe stocks)
  unfolding scan_from_data
  scan_from_data-Scanned date universe stocks =
      let source : String → Option (Frame N) =
        λ code. slice_until number pandas params date (frame_of code stocks) in
      let returns = with_returns number pandas params source universe in
      let cut = falling number pandas params returns in
      let ratios = with_ratios number pandas params source (screened source universe) in
      unless_empty-cases returns _ source universe (
        unless_empty-cases cut _ source universe (
          unless_empty-cases ratios _ source universe
            (unless_empty-cases (spiked source universe) _ source universe (inr refl))))
