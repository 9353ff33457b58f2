-- ===== src/Rebalance/Partition.antt =====
-- app/strategy/runtime/position_diff.py: which stocks are sold, kept and bought.
use autotrading.Prelude.{
  ℕ, ◌+◌, ◌<◌, ◌≡◌, refl, String, Option, Bool, true, false, not, ◌&&◌, List, [], ◌∷◌, filter,
  length, ltb, or_zero, arith, Bool-cases, inl, inr, All, codes, codes_eq_refl,
}
use autotrading.Rebalance.Diff.{
  CurrentHolding, Quotient, code_in, is_held, shares, is_affordable, buy_items, purchases,
  calculate, new_buy_codes, hold_items, sell_items, put_all,
}

module _ {A : Type 0} where
  filter-All : (P : A → Type 0) (p : A → Bool) (xs : List A) → All P xs → All P (filter p xs)
  filter-All P p [] h = tt
  filter-All P p (x ∷ xs) h = elim (Bool-cases (p x)) [
    | inl e ↦ rw e (h.0, filter-All P p xs h.1)
    | inr e ↦ rw e (filter-All P p xs h.1)
  ]

  filter-test : (p : A → Bool) (xs : List A) → All (λ x. p x ≡ true) (filter p xs)
  filter-test p [] = tt
  filter-test p (x ∷ xs) = elim (Bool-cases (p x)) [
    | inl e ↦ rw e (e, filter-test p xs)
    | inr e ↦ rw e (filter-test p xs)
  ]

  pub weaken-All : (P Q : A → Type 0) (xs : List A) → ((x : A) → P x → Q x) → All P xs → All Q xs
  weaken-All P Q [] f h = tt
  weaken-All P Q (x ∷ xs) f h = (f x h.0, weaken-All P Q xs f h.1)

  both-All : (P Q : A → Type 0) (xs : List A) → All P xs → All Q xs → All (λ x. P x × Q x) xs
  both-All P Q [] h k = tt
  both-All P Q (x ∷ xs) h k = ((h.0, k.0), both-All P Q xs h.1 k.1)

-- Every code of a list is in the list.
pub code_in_self : (xs : List String) → All (λ c. code_in c xs ≡ true) xs
code_in_self [] = tt
code_in_self (x ∷ xs) = (
  rw (codes_eq_refl (codes x)) refl,
  weaken-All (λ c. code_in c xs ≡ true) (λ c. code_in c (x ∷ xs) ≡ true) xs
      (λ c h. ground (arith, h)) (code_in_self xs),
)

buy_items-All :
    (P : String → Type 0) (price_map : String → Option ℕ) (name_map : String → Option String)
    (q : Quotient) (stock_codes : List String)
    → All P stock_codes
    → All
        (λ item. P item.stock_code × (0 < item.order_qty))
        (buy_items price_map name_map q stock_codes)
buy_items-All P price_map name_map q [] h = tt
buy_items-All P price_map name_map q (code ∷ stock_codes) h =
    let rest = buy_items-All P price_map name_map q stock_codes h.1 in
    elim (Bool-cases (is_affordable price_map q code)) [
      | inl e ↦ rw e ((h.0, affordable q e), rest)
      | inr e ↦ rw e rest
    ]
  where
    affordable :
        (q : Quotient)
        → is_affordable price_map q code ≡ true
        → 0 < shares q (or_zero (price_map code))
    affordable q e = ground arith

purchases-All :
    (P : String → Type 0) (price_map : String → Option ℕ) (name_map : String → Option String)
    (q : Quotient) (stock_codes : List String)
    → All P stock_codes
    → All
        (λ item. P item.stock_code × (0 < item.order_qty))
        (purchases price_map name_map q stock_codes)
purchases-All P price_map name_map q stock_codes h =
    elim (Bool-cases (ltb 0 (length stock_codes) && ltb 0 q.num)) [
      | inl e ↦ rw e (buy_items-All P price_map name_map q stock_codes h)
      | inr e ↦ rw e tt
    ]

sell_items-All :
    (buy_codes : List String) (m : List CurrentHolding)
    → All (λ item. code_in item.stock_code buy_codes ≡ false) (sell_items buy_codes m)
sell_items-All buy_codes [] = tt
sell_items-All buy_codes (h ∷ m) = elim (Bool-cases (code_in h.stock_code buy_codes)) [
  | inl e ↦ rw e (sell_items-All buy_codes m)
  | inr e ↦ rw e (e, sell_items-All buy_codes m)
]

hold_items-All :
    (buy_codes : List String) (m : List CurrentHolding)
    → All (λ item. code_in item.stock_code buy_codes ≡ true) (hold_items buy_codes m)
hold_items-All buy_codes [] = tt
hold_items-All buy_codes (h ∷ m) = elim (Bool-cases (code_in h.stock_code buy_codes)) [
  | inl e ↦ rw e (e, hold_items-All buy_codes m)
  | inr e ↦ rw e (hold_items-All buy_codes m)
]

items-length :
    (buy_codes : List String) (m : List CurrentHolding)
    → length (sell_items buy_codes m) + length (hold_items buy_codes m) ≡ length m
items-length buy_codes [] = refl
items-length buy_codes (h ∷ m) = elim (Bool-cases (code_in h.stock_code buy_codes)) [
  | inl e ↦ rw e (omega (arith, items-length buy_codes m))
  | inr e ↦ rw e (omega (arith, items-length buy_codes m))
]

-- Each stock that is held is either sold, if the strategy does not want it, or kept, if it does; what
-- is bought is wanted, is not held, and is at least one share. So nothing is both bought and sold.
pub calculate-sides :
    (ratio : ℕ) (buy_codes : List String) (holdings : List CurrentHolding) (cash : ℕ)
    (price_map : String → Option ℕ) (name_map : String → Option String)
    → let r = calculate ratio buy_codes holdings cash price_map name_map in
      let m = put_all [] holdings in
      (length r.sell_list + length r.hold_list ≡ length m)
      × All (λ item. code_in item.stock_code buy_codes ≡ false) r.sell_list
      × All (λ item. code_in item.stock_code buy_codes ≡ true) r.hold_list
      × All
          (λ item.
            ((code_in item.stock_code buy_codes ≡ true) × (is_held m item.stock_code ≡ false))
            × (0 < item.order_qty))
          r.buy_list
unfolding calculate
calculate-sides ratio buy_codes holdings cash price_map name_map =
    let m = put_all [] holdings in
    let wanted =
      both-All (λ c. code_in c buy_codes ≡ true) (λ c. is_held m c ≡ false)
        (new_buy_codes buy_codes m)
        (filter-All (λ c. code_in c buy_codes ≡ true) (λ c. not (is_held m c)) buy_codes
          (code_in_self buy_codes))
        (weaken-All (λ c. not (is_held m c) ≡ true) (λ c. is_held m c ≡ false)
          (new_buy_codes buy_codes m) (λ c h. ground (arith, h))
          (filter-test (λ c. not (is_held m c)) buy_codes)) in
    (
      items-length buy_codes m,
      sell_items-All buy_codes m,
      hold_items-All buy_codes m,
      purchases-All (λ c. (code_in c buy_codes ≡ true) × (is_held m c ≡ false)) price_map name_map _
          (new_buy_codes buy_codes m) wanted,
    )
