-- ===== src/Rebalance/Budget.antt =====
-- app/strategy/runtime/position_diff.py: the purchases of a rebalance stay within the cash for them.
use native.Mathlib.Nat.{div-mul-le_self, le_of_mul-le-mul_right, mul-le-mul_left}
use mathlib.Core.Path.{subst}
use autotrading.Prelude.{
  ℕ, ◌+◌, ◌*◌, ◌≤◌, ◌<◌, ◌≡◌, refl, String, Option, true, false, not, ◌&&◌, List, [], ◌∷◌, length,
  length-filter-le, sum_by, leb, ltb, or_zero, arith, Bool-cases, inl, inr,
}
use autotrading.Rebalance.Diff.{
  CurrentHolding, Quotient, alloc_per_stock, shares, is_affordable, buy_items, purchases, calculate,
  cash_buffer, net_investable, new_buy_codes, hold_items, sell_items, is_held, put_all,
}

-- What is bought of one stock costs no more than its share of the budget.
cost_of_shares : (q : Quotient) (price : ℕ) → shares q price * price * q.den ≤ q.num
cost_of_shares q price = omega (arith, div-mul-le_self q.num (q.den * price))

pub buy_items-cost :
    (price_map : String → Option ℕ) (name_map : String → Option String) (q : Quotient)
    (stock_codes : List String)
    → sum_by (λ item. item.order_value) (buy_items price_map name_map q stock_codes) * q.den
      ≤ q.num * length stock_codes
buy_items-cost price_map name_map q [] = omega arith
buy_items-cost price_map name_map q (code ∷ stock_codes) =
    let rest = buy_items-cost price_map name_map q stock_codes in
    elim (Bool-cases (is_affordable price_map q code)) [
      | inl e ↦ rw e (omega (arith, cost_of_shares q (or_zero (price_map code)), rest))
      | inr e ↦ rw e (omega (arith, rest))
    ]

share_within :
    (cost total wanted new net : ℕ)
    → 0 < new
    → 0 < wanted
    → total * new ≤ net * wanted
    → cost * (wanted * new) ≤ total * new * new
    → cost ≤ net
share_within cost total wanted new net some_new some_wanted few h =
    le_of_mul-le-mul_right
      (omega (
        arith,
        le_of_mul-le-mul_right {m = cost * wanted} {n = total * new} (omega (arith, h)) some_new,
        few,
      ))
      some_wanted

-- A budget for `new` stocks, none of them counted for less than a share of it.
pub cost_within :
    (cost total wanted new net : ℕ)
    → 0 < new
    → 0 < wanted
    → (cost * (alloc_per_stock total wanted new net).den
        ≤ (alloc_per_stock total wanted new net).num * new)
    → cost ≤ net
cost_within cost total wanted new net some_new some_wanted h =
    elim (Bool-cases (leb (total * new) (net * wanted))) [
      | inl e ↦
          share_within cost total wanted new net some_new some_wanted (ground arith)
            (subst (λ (q : Quotient). cost * q.den ≤ q.num * new) (full e) h)
      | inr e ↦
          le_of_mul-le-mul_right {m = cost} {n = net} {k = new}
            (subst (λ (q : Quotient). cost * q.den ≤ q.num * new) (cut e) h) some_new
    ]
  where
    full :
        leb (total * new) (net * wanted) ≡ true
        → alloc_per_stock total wanted new net ≡ record { num = total * new; den = wanted * new }
    full e = rw e refl

    cut :
        leb (total * new) (net * wanted) ≡ false
        → alloc_per_stock total wanted new net ≡ record { num = net; den = new }
    cut e = rw e refl

purchases-cost :
    (price_map : String → Option ℕ) (name_map : String → Option String) (total net : ℕ)
    (buy_codes wanted : List String)
    → length wanted ≤ length buy_codes
    → sum_by
        (λ item. item.order_value)
        (purchases price_map name_map
          (alloc_per_stock total (length buy_codes) (length wanted) net)
          wanted)
      ≤ net
purchases-cost price_map name_map total net buy_codes wanted fewer =
    let q = alloc_per_stock total (length buy_codes) (length wanted) net in
    elim (Bool-cases (ltb 0 (length wanted) && ltb 0 q.num)) [
      | inl e ↦ rw e (
          cost_within _ total (length buy_codes) (length wanted) net (ground arith) (ground arith)
            (buy_items-cost price_map name_map q wanted))
      | inr e ↦ rw e (omega arith)
    ]

buffer-le : (ratio investable : ℕ) → ratio ≤ 10000 → cash_buffer ratio investable ≤ investable
buffer-le ratio investable small =
    omega (arith, mul-le-mul_left {m = ratio} {n = 10000} investable small)

-- With a ratio of 100 per cent at most, the purchases and the buffer together are within the cash
-- and the planned sales, so the cash expected afterwards is their difference, not stopped at 0,
-- and covers the buffer.
pub calculate-buffer :
    (ratio : ℕ) (buy_codes : List String) (holdings : List CurrentHolding) (cash : ℕ)
    (price_map : String → Option ℕ) (name_map : String → Option String)
    → ratio ≤ 10000
    → let r = calculate ratio buy_codes holdings cash price_map name_map in
      let investable = cash + r.total_sell_value in
      (r.total_buy_value + cash_buffer ratio investable ≤ investable)
      × (r.estimated_cash_after + r.total_buy_value ≡ investable)
      × (cash_buffer ratio investable ≤ r.estimated_cash_after)
unfolding calculate
calculate-buffer ratio buy_codes holdings cash price_map name_map small =
    let holding_map = put_all [] holdings in
    let investable = cash + sum_by (λ item. item.order_value) (sell_items buy_codes holding_map) in
    let net = net_investable ratio investable in
    let wanted = new_buy_codes buy_codes holding_map in
    let hold_value = sum_by (λ item. item.current_value) (hold_items buy_codes holding_map) in
    let few =
      purchases-cost price_map name_map (net + hold_value) net buy_codes wanted
        (length-filter-le (λ code. not (is_held holding_map code)) buy_codes) in
    let room : cash_buffer ratio investable ≤ investable = buffer-le ratio investable small in
    (omega (arith, few, room), omega (arith, few, room), omega (arith, few, room))
