-- ===== src/Rebalance/Recalculation.antt =====
-- app/strategy/runtime/order_generator.py: what is bought after the sales against what was planned.
use native.Mathlib.Nat.{mul-le-mul}
use autotrading.Prelude.{
  ◌≤◌, ◌<◌, length-filter-le, ℕ, suc, ◌+◌, ◌*◌, ◌≡◌, refl, sym, ap, subst, String, Option, Bool,
  true, false, not, ◌&&◌, ◌||◌, List, [], ◌∷◌, filter, any, map, length, sum_by, leb, ltb, ◌==◌,
  if◌then◌else◌, arith, Bool-cases, ◌⊎◌, inl, inr, All, codes, codes_eq,
}
use autotrading.Domain.{OrderType}
use autotrading.Rebalance.Diff.{
  CurrentHolding, PositionDiffItem, Quotient, same_code, code_in, is_held, is_affordable, buy_items,
  purchases, calculate, new_buy_codes, hold_items, sell_items, put_all, alloc_per_stock,
  net_investable,
}
use autotrading.Rebalance.Generator.{OrderRequest, in_items, buy_requests, recalculate_buy_orders}
use autotrading.Rebalance.Partition.{code_in_self, weaken-All}

codes_eq_lem : (s t : List ℕ) → codes_eq s t ≡ true → s ≡ t
codes_eq_lem [] [] h = refl
codes_eq_lem [] (b ∷ t) h = ground (arith, h)
codes_eq_lem (a ∷ s) [] h = ground (arith, h)
codes_eq_lem (a ∷ s) (b ∷ t) h = ground (arith, codes_eq_lem s t)

-- Two texts with the same code points are in the same lists.
code_in-same :
    (a b : String) (xs : List String) → same_code a b ≡ true → code_in a xs ≡ code_in b xs
code_in-same a b xs h =
    ap (λ s. any (λ x. codes_eq s (codes x)) xs) (codes_eq_lem (codes a) (codes b) h)

-- A stock that the strategy wants is held exactly if it is kept.
held-kept :
    (buy_codes : List String) (c : String) (m : List CurrentHolding)
    → code_in c buy_codes ≡ true
    → is_held m c ≡ in_items (hold_items buy_codes m) c
held-kept buy_codes c [] w = refl
held-kept buy_codes c (h ∷ m) w = elim (Bool-cases (code_in h.stock_code buy_codes)) [
  | inl e ↦ rw (e, held-kept buy_codes c m w) refl
  | inr e ↦
      rw (e, sym (held-kept buy_codes c m w)) (other e (Bool-cases (same_code c h.stock_code)))
]
  where
    other :
        code_in h.stock_code buy_codes ≡ false
        → ((same_code c h.stock_code ≡ true) ⊎ (same_code c h.stock_code ≡ false))
        → (same_code c h.stock_code || is_held m c) ≡ is_held m c
    other e (inl s) = absurd (ground (arith, w, e, code_in-same c h.stock_code buy_codes s))
    other e (inr s) = rw s refl

filter-cong :
    {A : Type 0} (p q : A → Bool) (xs : List A)
    → All (λ x. p x ≡ q x) xs
    → filter p xs ≡ filter q xs
filter-cong p q [] h = refl
filter-cong p q (x ∷ xs) h = rw (h.0, filter-cong p q xs h.1) refl

new_buy_codes-kept :
    (buy_codes : List String) (m : List CurrentHolding)
    → new_buy_codes buy_codes m ≡ filter (λ c. not (in_items (hold_items buy_codes m) c)) buy_codes
new_buy_codes-kept buy_codes m =
    filter-cong (λ c. not (is_held m c)) (λ c. not (in_items (hold_items buy_codes m) c)) buy_codes
      (weaken-All (λ c. code_in c buy_codes ≡ true) _ buy_codes
        (λ c w. ap not (held-kept buy_codes c m w)) (code_in_self buy_codes))

-- the stock and the number of shares
abbrev pub planned : PositionDiffItem → String × ℕ
planned item = (item.stock_code, item.order_qty)

abbrev pub ordered : OrderRequest → String × ℕ
ordered order_req = (order_req.stock_code, order_req.quantity)

-- There is a budget exactly if there is cash for it.
alloc-some :
    (total wanted new net : ℕ)
    → net ≤ total
    → 0 < net
    → 0 < new
    → 0 < (alloc_per_stock total wanted new net).num
alloc-some total wanted new net within some_net some_new =
    elim (Bool-cases (leb (total * new) (net * wanted))) [
      | inl e ↦ rw e (
          omega (
            arith,
            mul-le-mul {n₁ = 1} {m₁ = 1} {n₂ = total} {m₂ = new} (omega (arith, within, some_net))
                some_new,
          ))
      | inr e ↦ rw e some_net
    ]

alloc-none : (total wanted new net : ℕ) → net ≡ 0 → (alloc_per_stock total wanted new net).num ≡ 0
alloc-none total wanted new net h = elim (Bool-cases (leb (total * new) (net * wanted))) [
  | inl e ↦ rw e (nothing e)
  | inr e ↦ rw e h
]
  where
    zero_product : total * new ≤ net * wanted → net * wanted ≡ 0 * wanted → total * new ≡ 0
    zero_product a b = omega arith

    nothing : leb (total * new) (net * wanted) ≡ true → total * new ≡ 0
    nothing e = zero_product (ground arith) (ap (λ k. k * wanted) h)

module _ (new_id : ℕ → ℕ) (order_type : OrderType) (price_map : String → Option ℕ)
    (name_map : String → Option String) (rebalance_id : ℕ) where
  buy_requests-planned :
      (q : Quotient) (n : ℕ) (stock_codes : List String)
      → map ordered (buy_requests new_id order_type price_map name_map rebalance_id q n stock_codes)
        ≡ map planned (buy_items price_map name_map q stock_codes)
  buy_requests-planned q n [] = refl
  buy_requests-planned q n (code ∷ stock_codes) =
      elim (Bool-cases (is_affordable price_map q code)) [
        | inl e ↦ rw (e, buy_requests-planned q (suc n) stock_codes) refl
        | inr e ↦ rw (e, buy_requests-planned q (suc n) stock_codes) refl
      ]

  -- The two guards agree.
  guarded :
      (total wanted net : ℕ) (stock_codes : List String)
      → net ≤ total
      → length stock_codes ≤ wanted
      → let q = alloc_per_stock total wanted (length stock_codes) net in
        map ordered (
          if net == 0 || wanted == 0 || length stock_codes == 0
          then []
          else buy_requests new_id order_type price_map name_map rebalance_id q 0 stock_codes)
        ≡ map planned (purchases price_map name_map q stock_codes)
  guarded total wanted net stock_codes within fewer =
      let q = alloc_per_stock total wanted (length stock_codes) net in
      elim (Bool-cases (ltb 0 net && ltb 0 (length stock_codes))) [
        | inl e ↦
            let some_net : 0 < net = ground arith in
            let some_new : 0 < length stock_codes = ground arith in
            let open_guard : (net == 0 || wanted == 0 || length stock_codes == 0) ≡ false =
              ground arith in
            let budget : (ltb 0 (length stock_codes) && ltb 0 q.num) ≡ true =
              ground (
                arith,
                alloc-some total wanted (length stock_codes) net within some_net some_new,
              ) in
            rw (open_guard, budget) (buy_requests-planned q 0 stock_codes)
        | inr e ↦
            let closed_guard : (net == 0 || wanted == 0 || length stock_codes == 0) ≡ true =
              ground arith in
            let no_budget : (ltb 0 (length stock_codes) && ltb 0 q.num) ≡ false =
              ground (arith, alloc-none total wanted (length stock_codes) net) in
            rw (closed_guard, no_budget) refl
      ]

  -- out of the cash without a buffer, at any ratio of it
  recalculate-net :
      (ratio : ℕ) (buy_codes : List String) (holdings : List CurrentHolding) (cash : ℕ)
      → let r = calculate ratio buy_codes holdings cash price_map name_map in
        map ordered (
          recalculate_buy_orders new_id order_type
            (net_investable ratio (cash + r.total_sell_value))
            buy_codes
            r.hold_list
            price_map
            name_map
            rebalance_id)
        ≡ map planned r.buy_list
  unfolding calculate recalculate_buy_orders
  recalculate-net ratio buy_codes holdings cash =
      let m = put_all [] holdings in
      let hold_value = sum_by (λ item. item.current_value) (hold_items buy_codes m) in
      let net =
        net_investable ratio (cash + sum_by (λ item. item.order_value) (sell_items buy_codes m)) in
      rw (sym (new_buy_codes-kept buy_codes m)) (
        guarded (net + hold_value) (length buy_codes) net (new_buy_codes buy_codes m) (omega arith)
          (length-filter-le (λ c. not (is_held m c)) buy_codes))

  net_investable-zero : (total : ℕ) → net_investable 0 total ≡ total
  net_investable-zero total = omega arith

  -- If the account has, after the sales of a plan, the cash that the plan reckoned with, so all of it and
  -- not what its buffer leaves, the orders to buy that are computed anew are the purchases of a
  -- plan whose buffer ratio is 0, whatever ratio the plan had: the same stocks, in the same order
  -- and quantity. No buffer is kept back.
  pub recalculate-calculate :
      (ratio : ℕ) (buy_codes : List String) (holdings : List CurrentHolding) (cash : ℕ)
      → let r = calculate ratio buy_codes holdings cash price_map name_map in
        map ordered (
          recalculate_buy_orders new_id order_type
            (cash + r.total_sell_value)
            buy_codes
            r.hold_list
            price_map
            name_map
            rebalance_id)
        ≡ map planned (calculate 0 buy_codes holdings cash price_map name_map).buy_list
  unfolding calculate
  recalculate-calculate ratio buy_codes holdings cash =
      subst
        (λ net.
          map ordered (
            recalculate_buy_orders new_id order_type net buy_codes
              (hold_items buy_codes (put_all [] holdings)) price_map name_map rebalance_id)
          ≡ map planned (calculate 0 buy_codes holdings cash price_map name_map).buy_list)
        (net_investable-zero
          (cash + (calculate 0 buy_codes holdings cash price_map name_map).total_sell_value))
        (recalculate-net 0 buy_codes holdings cash)
