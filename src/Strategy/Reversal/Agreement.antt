-- ===== src/Strategy/Reversal/Agreement.antt =====
-- The live scan and the backtest's scan of app/strategy/strategies/reversal_volume_strategy.py, two copies of
-- one pipeline that stop at different empty frames.
use autotrading.Prelude.{
  ℕ, zero, suc, ◌≡◌, refl, sym, ap, inl, inr, ◌∙◌, max, String, Option, none, some, true, List, [],
  ◌∷◌, take, count, arith,
}
use autotrading.Strategy.{Arithmetic, UniverseRow, Candidate, Frame, Stocks, frame_of}
use autotrading.Strategy.Reversal.{
  Pandas, ReversalParams, Listing, with_returns, with_ratios, falling, worst, unless_empty,
  slice_until, scan_from_data, screen_reversal, check_volume_spike, filter_liquidity,
}
use autotrading.Strategy.Reversal.Scan.{screened, spiked, final, Scanned}
use autotrading.Strategy.Reversal.Methods.{scan, ◌>>=◌, nonempty}

count_all-zero : {A : Type 0} (xs : List A) → count (λ _. true) xs ≡ 0 → xs ≡ []
count_all-zero [] h = refl
count_all-zero (x ∷ xs) h = absurd (omega (arith, h))

take-nil : {A : Type 0} (n : ℕ) → take {A = A} n [] ≡ []
take-nil zero = refl
take-nil (suc n) = refl

module _ {N : Type 0} (number : Arithmetic N) (pandas : Pandas N) (params : ReversalParams N) where
  abbrev Answer : Type 0
  Answer = Option (List (Candidate N))

  abbrev guarded : {A : Type 0} → List A → Answer → Answer
  guarded [] answer = none
  guarded (x ∷ xs) answer = answer

  worst-nil : worst number pandas params [] ≡ []
  worst-nil =
      ap (take (max 1 (pandas.share 0 params.reversal_pct))) (
        count_all-zero (pandas.sort_values (λ c. c.return_pct) [])
          (pandas.count-sort_values (λ c. c.return_pct) [] (λ _. true)))
      ∙ take-nil (max 1 (pandas.share 0 params.reversal_pct))

  -- the live pipeline, as the frames at which it stops
  bind-nonempty :
      {A : Type 0} (xs : List A) (f : List A → Answer)
      → ◌>>=◌ number pandas params (nonempty number pandas params xs) f ≡ guarded xs (f xs)
  bind-nonempty [] f = refl
  bind-nonempty (x ∷ xs) f = refl

  bind-unless_empty :
      (xs rows : List (Candidate N)) (f : List (Candidate N) → Answer)
      → ◌>>=◌ number pandas params (unless_empty number pandas params xs (some rows)) f
        ≡ guarded xs (f rows)
  bind-unless_empty [] rows f = refl
  bind-unless_empty (x ∷ xs) rows f = refl

  guarded-agree :
      {A B C D E : Type 0} (u : List A) (returns : List B) (cut : List C) (w : List D)
      (ratios : List E) (answer : Answer)
      → (u ≡ [] → returns ≡ [])
      → (cut ≡ [] → w ≡ [])
      → (w ≡ [] → ratios ≡ [])
      → guarded u (guarded returns (guarded w (guarded ratios answer)))
        ≡ guarded returns (guarded cut (guarded ratios answer))
  guarded-agree [] returns cut w ratios answer hu hc hw = rw (hu refl) refl
  guarded-agree (a ∷ u) [] cut w ratios answer hu hc hw = refl
  guarded-agree (a ∷ u) (b ∷ returns) [] w ratios answer hu hc hw = rw (hc refl) refl
  guarded-agree (a ∷ u) (b ∷ returns) (c ∷ cut) [] ratios answer hu hc hw = rw (hw refl) refl
  guarded-agree (a ∷ u) (b ∷ returns) (c ∷ cut) (d ∷ w) ratios answer hu hc hw = refl

  unless-guarded :
      (rows : List (Candidate N)) (answer : Answer)
      → unless_empty number pandas params rows answer ≡ guarded rows answer
  unless-guarded [] answer = refl
  unless-guarded (c ∷ rows) answer = refl

  module _ (source : String → Option (Frame N)) (universe : List UniverseRow) where
    abbrev returns : List (Candidate N)
    returns = with_returns number pandas params source universe

    abbrev cut : List (Candidate N)
    cut = falling number pandas params returns

    abbrev chosen : List (Candidate N)
    chosen = screened number pandas params source universe

    abbrev ratios : List (Candidate N)
    ratios = with_ratios number pandas params source chosen

    abbrev passed : List (Candidate N)
    passed = spiked number pandas params source universe

    abbrev answer : Answer
    answer = guarded passed (some (final number pandas params source universe))

    agree :
        guarded universe (guarded returns (guarded chosen (guarded ratios answer)))
        ≡ guarded returns (guarded cut (guarded ratios answer))
    agree =
        guarded-agree universe returns cut chosen ratios answer
          (λ e. ap (with_returns number pandas params source) e ∙ unfold with_returns in refl)
          (λ e. ap (worst number pandas params) e ∙ worst-nil)
          (λ e. ap (with_ratios number pandas params source) e ∙ unfold with_ratios in refl)

  scan-guarded :
      (special : List String) (source : String → Option (Frame N)) (listings : List (Listing N))
      → let universe = filter_liquidity number pandas params special source listings in
        scan number pandas params special source listings
        ≡ guarded universe (
            guarded (returns source universe) (
              guarded
                (chosen source universe)
                (guarded (ratios source universe) (answer source universe))))
  unfolding scan screen_reversal check_volume_spike
  scan-guarded special source listings =
      let universe = filter_liquidity number pandas params special source listings in
      bind-nonempty universe _
      ∙ ap (guarded universe) (
          bind-unless_empty (returns source universe) (chosen source universe) _
          ∙ ap (guarded (returns source universe)) (
              bind-nonempty (chosen source universe) _
              ∙ ap (guarded (chosen source universe)) (
                  bind-unless_empty (ratios source universe) (passed source universe) _
                  ∙ ap (guarded (ratios source universe))
                      (bind-nonempty (passed source universe) _))))

  scan_from_data-guarded :
      (date : ℕ) (universe : List UniverseRow) (stocks : Stocks N)
      → let source : String → Option (Frame N) =
          λ code. slice_until number pandas params date (frame_of code stocks) in
        scan_from_data number pandas params date universe stocks
        ≡ guarded (returns source universe) (
            guarded
              (cut source universe)
              (guarded (ratios source universe) (answer source universe)))
  unfolding scan_from_data
  scan_from_data-guarded date universe stocks =
      let source : String → Option (Frame N) =
        λ code. slice_until number pandas params date (frame_of code stocks) in
      unless-guarded (returns source universe) _
      ∙ ap (guarded (returns source universe)) (
          unless-guarded (cut source universe) _
          ∙ ap (guarded (cut source universe)) (
              unless-guarded (ratios source universe) _
              ∙ ap (guarded (ratios source universe)) (unless-guarded (passed source universe) _)))

  guarded-Scanned :
      {A : Type 0} (xs : List A) (end : Answer) (source : String → Option (Frame N))
      (universe : List UniverseRow)
      → Scanned number pandas params source universe end
      → Scanned number pandas params source universe (guarded xs end)
  guarded-Scanned [] end source universe cases = inl refl
  guarded-Scanned (x ∷ xs) end source universe cases = cases

  pub scan-Scanned :
      (special : List String) (source : String → Option (Frame N)) (listings : List (Listing N))
      → Scanned number pandas params source
          (filter_liquidity number pandas params special source listings)
          (scan number pandas params special source listings)
  scan-Scanned special source listings =
      let universe = filter_liquidity number pandas params special source listings in
      rw (scan-guarded special source listings) (
        guarded-Scanned universe _ source universe (
          guarded-Scanned (returns source universe) _ source universe (
            guarded-Scanned (chosen source universe) _ source universe (
              guarded-Scanned (ratios source universe) _ source universe
                (guarded-Scanned (passed source universe) _ source universe (inr refl))))))

-- If the frames that the provider answers for the window of a live scan are the loaded frames up to the day of the
-- scan, then the live scan and the scan of the backtest over the same universe end alike: with the same
-- candidates in the same order, or both with a frame that has no columns.
pub scan-scan_from_data :
    {N : Type 0} (number : Arithmetic N) (pandas : Pandas N) (params : ReversalParams N)
    (special : List String) (listings : List (Listing N)) (date : ℕ) (stocks : Stocks N)
    → let source : String → Option (Frame N) =
        λ code. slice_until number pandas params date (frame_of code stocks) in
      scan number pandas params special source listings
      ≡ scan_from_data number pandas params date
          (filter_liquidity number pandas params special source listings)
          stocks
scan-scan_from_data number pandas params special listings date stocks =
    let source : String → Option _ =
      λ code. slice_until number pandas params date (frame_of code stocks) in
    let universe = filter_liquidity number pandas params special source listings in
    scan-guarded number pandas params special source listings
    ∙ agree number pandas params source universe
    ∙ sym (scan_from_data-guarded number pandas params date universe stocks)
