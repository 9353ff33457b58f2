-- ===== src/Strategy/Reversal/Measured.antt =====
-- The two figures that app/strategy/strategies/reversal_volume_strategy.py reads off a stock's frame, by a
-- description of the bars that they come from.
use autotrading.Prelude.{
  ℕ, zero, suc, ◌+◌, ◌≤◌, ◌≡◌, refl, sym, ap, ◌∙◌, Option, some, true, List, [], ◌∷◌, ◌++◌, map,
  take, length, String, ltb, arith, Bool-cases, Option-cases, inl, inr,
}
use mathlib.Core.List.{reverse, reverse_aux}
use autotrading.Strategy.{Arithmetic, Bar, Candidate, Frame}
use autotrading.Strategy.Reversal.{
  Pandas, ReversalParams, nth, tail, spike, return_of, volume_ratio_of,
}

module _ {A : Type 0} where
  -- the last of a list that starts with `x`
  abbrev pub last_of : A → List A → A
  last_of x [] = x
  last_of x (y ∷ ys) = last_of y ys

  last_of-append : (x y : A) (xs : List A) → last_of x (xs ++ y ∷ []) ≡ y
  last_of-append x y [] = refl
  last_of-append x y (z ∷ xs) = last_of-append z y xs

  append_nil : (xs : List A) → xs ++ [] ≡ xs
  append_nil [] = refl
  append_nil (x ∷ xs) = ap (λ t. x ∷ t) (append_nil xs)

  append_assoc : (xs ys zs : List A) → (xs ++ ys) ++ zs ≡ xs ++ (ys ++ zs)
  append_assoc [] ys zs = refl
  append_assoc (x ∷ xs) ys zs = ap (λ t. x ∷ t) (append_assoc xs ys zs)

  reverse_aux-lem : (xs ys : List A) → reverse_aux xs ys ≡ reverse xs ++ ys
  reverse_aux-lem [] ys = refl
  reverse_aux-lem (x ∷ xs) ys =
      reverse_aux-lem xs (x ∷ ys)
      ∙ sym (append_assoc (reverse xs) (x ∷ []) ys)
      ∙ ap (λ t. t ++ ys) (sym (reverse_aux-lem xs (x ∷ [])))

  reverse_aux-append :
      (xs ys zs : List A) → reverse_aux (xs ++ ys) zs ≡ reverse_aux ys (reverse_aux xs zs)
  reverse_aux-append [] ys zs = refl
  reverse_aux-append (x ∷ xs) ys zs = reverse_aux-append xs ys (x ∷ zs)

  reverse_aux-reverse_aux :
      (xs ys zs : List A) → reverse_aux (reverse_aux xs ys) zs ≡ reverse_aux ys (xs ++ zs)
  reverse_aux-reverse_aux [] ys zs = refl
  reverse_aux-reverse_aux (x ∷ xs) ys zs = reverse_aux-reverse_aux xs (x ∷ ys) zs

  length-reverse_aux : (xs ys : List A) → length (reverse_aux xs ys) ≡ length xs + length ys
  length-reverse_aux [] ys = omega arith
  length-reverse_aux (x ∷ xs) ys = omega (arith, length-reverse_aux xs (x ∷ ys))

  -- what comes first in the reverse of a list comes last in the list
  reverse-split :
      (xs front back : List A) → reverse xs ≡ front ++ back → xs ≡ reverse back ++ reverse front
  reverse-split xs front back e =
      sym (reverse_aux-reverse_aux xs [] [] ∙ append_nil xs)
      ∙ ap reverse e
      ∙ reverse_aux-append front back []
      ∙ reverse_aux-lem back (reverse front)

  nth-split :
      (n : ℕ) (xs : List A) (x : A)
      → nth n xs ≡ some x
      → (front : List A) × (back : List A) × (xs ≡ front ++ x ∷ back) × (length front ≡ n)
  nth-split n [] x e = absurd (ground (arith, e))
  nth-split zero (y ∷ xs) x e = ([], xs, ground (arith, e), refl)
  nth-split (suc n) (y ∷ xs) x e =
      let (front, back, same, long) = nth-split n xs x e in
      (y ∷ front, back, ap (λ t. y ∷ t) same, omega (arith, long))

  take-split :
      (n : ℕ) (xs : List A)
      → n ≤ length xs
      → (rest : List A) × (xs ≡ take n xs ++ rest) × (length (take n xs) ≡ n)
  take-split zero xs h = (xs, refl, refl)
  take-split (suc n) [] h = absurd (omega (arith, h))
  take-split (suc n) (x ∷ xs) h =
      let (rest, same, long) = take-split n xs (omega (arith, h)) in
      (rest, ap (λ t. x ∷ t) same, omega (arith, long))

  last_of-reverse :
      (a b : A) (front back : List A)
      → nth 0 (front ++ b ∷ back) ≡ some a
      → last_of b (reverse front) ≡ a
  last_of-reverse a b [] back e = ground (arith, e)
  last_of-reverse a b (x ∷ front) back e =
      ap (last_of b) (reverse_aux-lem front (x ∷ []))
      ∙ last_of-append b x (reverse front)
      ∙ ground (arith, e)

module _ {N : Type 0} (number : Arithmetic N) (pandas : Pandas N) (params : ReversalParams N) where
  -- The last close over the close `reversal_days` bars before it, less one.
  abbrev pub IsReturn : Frame N → N → Type 0
  IsReturn frame r =
      (older : Frame N) × (base : Bar N) × (newer : Frame N) × (frame ≡ older ++ base ∷ newer)
      × (length newer ≡ params.reversal_days)
      × (r ≡ number.sub (number.div (last_of base newer).close base.close) (number.of_nat 1))

  -- The last volume over the mean, above zero, of those of the `volume_avg_days` bars before it.
  abbrev pub IsVolumeRatio : Frame N → N → Type 0
  IsVolumeRatio frame r =
      (older : Frame N) × (window : Frame N) × (last : Bar N) × (frame
        ≡ older ++ (window ++ last ∷ []))
      × (length window ≡ params.volume_avg_days)
      × (number.lt number.zero (pandas.mean (map (λ b. b.volume) window)) ≡ true)
      × (r ≡ number.div last.volume (pandas.mean (map (λ b. b.volume) window)))

  -- a figure is that of the frame of a stock
  abbrev pub OfFrame : (Frame N → N → Type 0) → (String → Option (Frame N)) → String → N → Type 0
  OfFrame Figure source code r = (frame : Frame N) × (source code ≡ some frame) × Figure frame r

  -- both figures of a candidate are those of the frame of its stock
  abbrev pub Measured : (String → Option (Frame N)) → Candidate N → Type 0
  Measured source c =
      OfFrame IsReturn source c.code c.return_pct
      × OfFrame IsVolumeRatio source c.code c.volume_ratio

  two-IsReturn :
      (frame : Frame N) (a b : Bar N) (r : N)
      → nth 0 (reverse frame) ≡ some a
      → nth params.reversal_days (reverse frame) ≡ some b
      → r ≡ number.sub (number.div a.close b.close) (number.of_nat 1)
      → IsReturn frame r
  two-IsReturn frame a b r newest earlier e =
      let (front, back, same, long) = nth-split params.reversal_days (reverse frame) b earlier in
      (
        reverse back,
        b,
        reverse front,
        reverse-split frame front (b ∷ back) same
            ∙ ap (λ t. t ++ reverse front) (reverse_aux-lem back (b ∷ []))
            ∙ append_assoc (reverse back) (b ∷ []) (reverse front),
        omega (arith, length-reverse_aux front [], long),
        e
            ∙ ap (λ bar. number.sub (number.div bar.close b.close) (number.of_nat 1))
                (sym (last_of-reverse a b front back (ap (nth 0) (sym same) ∙ newest))),
      )

  pub return_of-IsReturn :
      (frame : Frame N) (r : N)
      → return_of number pandas params (some frame) ≡ some r
      → IsReturn frame r
  unfolding return_of
  return_of-IsReturn frame r e = elim (Bool-cases (ltb (length frame) (params.reversal_days + 1))) [
    | inl short ↦ absurd (ground (arith, e, short))
    | inr enough ↦ elim (Option-cases (nth 0 (reverse frame))) [
      | inl missing ↦ absurd (ground (arith, e, enough, missing))
      | inr (a, newest) ↦ elim (Option-cases (nth params.reversal_days (reverse frame))) [
        | inl missing ↦ absurd (ground (arith, e, enough, newest, missing))
        | inr (b, earlier) ↦
            two-IsReturn frame a b r newest earlier (ground (arith, e, enough, newest, earlier))
      ]
    ]
  ]

  window-IsVolumeRatio :
      (frame : Frame N) (n : ℕ) (rows : Frame N) (r : N)
      → n ≡ params.volume_avg_days
      → n + 1 ≤ length frame
      → reverse frame ≡ rows
      → spike number pandas params
          (pandas.mean (map (λ b. b.volume) (reverse (take n (tail rows)))))
          (nth 0 rows)
        ≡ some r
      → IsVolumeRatio frame r
  window-IsVolumeRatio frame n [] r days enough same e = absurd (ground (arith, e))
  window-IsVolumeRatio frame n (last ∷ rows) r days enough same e =
      let long : n ≤ length rows =
        omega (arith, enough, ap length same, length-reverse_aux frame []) in
      let (rest, parts, whole) = take-split n rows long in
      let split = reverse-split frame (last ∷ take n rows) rest (same ∙ ap (λ t. last ∷ t) parts) in
      (
        reverse rest,
        reverse (take n rows),
        last,
        split ∙ ap (λ t. reverse rest ++ t) (reverse_aux-lem (take n rows) (last ∷ [])),
        omega (arith, length-reverse_aux (take n rows) [], whole, days),
        ground (arith, e),
        ground (arith, e),
      )

  pub volume_ratio_of-IsVolumeRatio :
      (frame : Frame N) (r : N)
      → volume_ratio_of number pandas params (some frame) ≡ some r
      → IsVolumeRatio frame r
  unfolding volume_ratio_of
  volume_ratio_of-IsVolumeRatio frame r e =
      elim (Bool-cases (ltb (length frame) (params.volume_avg_days + 1))) [
        | inl short ↦ absurd (ground (arith, e, short))
        | inr enough ↦
            window-IsVolumeRatio frame params.volume_avg_days (reverse frame) r refl
              (ground (arith, enough)) refl (ground (arith, e, enough))
      ]
