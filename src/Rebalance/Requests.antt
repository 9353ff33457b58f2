-- ===== src/Rebalance/Requests.antt =====
-- app/strategy/runtime/order_generator.py: the orders that are made, what they cost, and their rows.
use mathlib.Core.List.{append-nil, append_assoc}
use autotrading.Prelude.{
  sym, ◌∙◌, ℕ, suc, ◌+◌, ◌*◌, ◌≤◌, ◌<◌, ◌≡◌, refl, String, Option, none, some, Bool, true, false,
  not, ◌||◌, List, [], ◌∷◌, ◌++◌, filter, map, length, length-append, sum_by, ◌==◌, if◌then◌else◌,
  or_zero, arith, Bool-cases, inl, inr, All,
}
use autotrading.Domain.{OrderAction, OrderType}
use autotrading.Orders.Row.{Order}
use autotrading.Orders.Repository.{create_order}
use autotrading.Worker.Effects.{World, next, process_order}
use autotrading.Rebalance.Diff.{
  PositionDiffItem, PositionDiffResult, Quotient, alloc_per_stock, is_affordable, buy_items,
}
use autotrading.Rebalance.Budget.{buy_items-cost, cost_within}
use autotrading.Rebalance.Generator.{
  OrderRequest, add_request, create_order_request, in_items, requests, generate_orders,
  buy_requests, recalculate_buy_orders, order_of, insert_and_queue, insert_all,
}

add_request-total :
    (o : Option OrderRequest) (stock_code : String) (rest : List OrderRequest × List String) (k : ℕ)
    → length rest.0 + length rest.1 ≡ k
    → All (λ x. 0 < x.quantity) rest.0
    → ((x : OrderRequest) → o ≡ some x → 0 < x.quantity)
    → let r = add_request o stock_code rest in
      (length r.0 + length r.1 ≡ suc k) × All (λ x. 0 < x.quantity) r.0
add_request-total none stock_code rest k h a p = (omega (arith, h), a)
add_request-total (some x) stock_code rest k h a p = (omega (arith, h), (p x refl, a))

created-some :
    (new_id : ℕ → ℕ) (order_type : OrderType) (action : OrderAction) (rebalance_id n : ℕ)
    (item : PositionDiffItem) (x : OrderRequest)
    → create_order_request new_id order_type n item action rebalance_id ≡ some x
    → 0 < x.quantity
created-some new_id order_type action rebalance_id n item x e = ground (arith, e)

-- one loop: each item is ordered or passed over, and what is ordered has a quantity
requests-total :
    (new_id : ℕ → ℕ) (order_type : OrderType) (action : OrderAction) (rebalance_id n : ℕ)
    (items : List PositionDiffItem)
    → let r = requests new_id order_type action rebalance_id n items in
      (length r.0 + length r.1 ≡ length items) × All (λ x. 0 < x.quantity) r.0
requests-total new_id order_type action rebalance_id n [] = (refl, tt)
requests-total new_id order_type action rebalance_id n (item ∷ items) =
    let rest = requests new_id order_type action rebalance_id (suc n) items in
    let (all_of_them, all_some) =
      requests-total new_id order_type action rebalance_id (suc n) items in
    add_request-total (create_order_request new_id order_type n item action rebalance_id)
      item.stock_code rest (length items) all_of_them all_some
      (created-some new_id order_type action rebalance_id n item)

-- Each item of the plan becomes one order or is named as passed over, and no order is for nothing.
pub generate_orders-total :
    (new_id : ℕ → ℕ) (order_type : OrderType) (diff : PositionDiffResult) (rebalance_id : ℕ)
    → let g = generate_orders new_id order_type diff rebalance_id in
      (length g.sell_orders + length g.buy_orders + length g.skipped
        ≡ length diff.sell_list + length diff.buy_list)
      × All (λ x. 0 < x.quantity) g.sell_orders
      × All (λ x. 0 < x.quantity) g.buy_orders
unfolding generate_orders
generate_orders-total new_id order_type diff rebalance_id =
    let sells = requests new_id order_type OrderAction.sell rebalance_id 0 diff.sell_list in
    let buys =
      requests new_id order_type OrderAction.buy rebalance_id (length diff.sell_list)
        diff.buy_list in
    let (sold, sold_some) =
      requests-total new_id order_type OrderAction.sell rebalance_id 0 diff.sell_list in
    let (bought, bought_some) =
      requests-total new_id order_type OrderAction.buy rebalance_id (length diff.sell_list)
        diff.buy_list in
    (omega (arith, sold, bought, length-append sells.1 buys.1), sold_some, bought_some)

-- what an order to buy costs, at the price that was looked up
abbrev pub cost_at : (String → Option ℕ) → OrderRequest → ℕ
cost_at price_map order_req = order_req.quantity * or_zero (price_map order_req.stock_code)

module _ (new_id : ℕ → ℕ) (order_type : OrderType) (price_map : String → Option ℕ)
    (name_map : String → Option String) (rebalance_id : ℕ) where
  buy_requests-cost :
      (q : Quotient) (n : ℕ) (stock_codes : List String)
      → sum_by
          (cost_at price_map)
          (buy_requests new_id order_type price_map name_map rebalance_id q n stock_codes)
        ≡ sum_by (λ item. item.order_value) (buy_items price_map name_map q stock_codes)
  buy_requests-cost q n [] = refl
  buy_requests-cost q n (code ∷ stock_codes) =
      let rest = buy_requests-cost q (suc n) stock_codes in
      elim (Bool-cases (is_affordable price_map q code)) [
        | inl e ↦ rw e (omega (arith, rest))
        | inr e ↦ rw e rest
      ]

  -- The orders to buy that are computed after the sales cost no more than the cash that there is.
  pub recalculate-cost :
      (cash : ℕ) (buy_codes : List String) (hold_list : List PositionDiffItem)
      → sum_by (cost_at price_map) (
          recalculate_buy_orders new_id order_type cash buy_codes hold_list price_map name_map
            rebalance_id)
        ≤ cash
  unfolding recalculate_buy_orders
  recalculate-cost cash buy_codes hold_list =
      let hold_value = sum_by (λ item. item.current_value) hold_list in
      let wanted = filter (λ code. not (in_items hold_list code)) buy_codes in
      let q = alloc_per_stock (cash + hold_value) (length buy_codes) (length wanted) cash in
      elim (Bool-cases (cash == 0 || length buy_codes == 0 || length wanted == 0)) [
        | inl e ↦ rw e (omega arith)
        | inr e ↦
            rw (e, buy_requests-cost q 0 wanted)
              (cost_within _ (cash + hold_value) (length buy_codes) (length wanted) cash
                (ground arith) (ground arith) (buy_items-cost price_map name_map q wanted))
      ]

append-create_order :
    (decimal : ℕ → String) (t : List Order) (x : OrderRequest) (xs : List OrderRequest)
    → create_order (order_of decimal x) t ++ map (order_of decimal) xs
      ≡ t ++ map (order_of decimal) (x ∷ xs)
unfolding create_order
append-create_order decimal t x xs =
    append_assoc t (order_of decimal x ∷ []) (map (order_of decimal) xs)

-- All the orders of one side become rows at the end of the table, in their order, and worker 1 is sent
-- one message for each; a dry run sends none.
pub insert_all-lem :
    (decimal : ℕ → String) (dry_run : Bool) (order_reqs : List OrderRequest) (w : World)
    → ((insert_all decimal dry_run order_reqs w).0 ≡ next tt)
      × ((insert_all decimal dry_run order_reqs w).1.table
          ≡ w.table ++ map (order_of decimal) order_reqs)
      × (length (insert_all decimal dry_run order_reqs w).1.queue
          ≡ length w.queue + (if dry_run then 0 else length order_reqs))
unfolding insert_all insert_and_queue
insert_all-lem decimal true [] w = (refl, sym (append-nil w.table), omega arith)
insert_all-lem decimal false [] w = (refl, sym (append-nil w.table), omega arith)
insert_all-lem decimal true (order_req ∷ order_reqs) w =
    let t = create_order (order_of decimal order_req) w.table in
    let rest = insert_all-lem decimal true order_reqs (record w { table = t; saved = t }) in
    (rest.0, rest.1 ∙ append-create_order decimal w.table order_req order_reqs, rest.2)
insert_all-lem decimal false (order_req ∷ order_reqs) w =
    let t = create_order (order_of decimal order_req) w.table in
    let rest =
      insert_all-lem decimal false order_reqs
        (record w { table = t; saved = t; queue = process_order order_req.order_id 0 ∷ w.queue }) in
    (
      rest.0,
      rest.1 ∙ append-create_order decimal w.table order_req order_reqs,
      omega (arith, rest.2),
    )
