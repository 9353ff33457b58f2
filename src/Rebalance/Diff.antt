-- ===== src/Rebalance/Diff.antt =====
-- app/strategy/runtime/position_diff.py: what to sell, to keep and to buy. Amounts are in won. The
-- quotients, which Python takes in floating point, are exact here: the two agree while the amounts
-- stay below 2^44 won and the stocks are fewer than a hundred, since a quotient of such whole numbers
-- is a whole number, which is exact, or further from one than the rounding. The buffer agrees for the
-- ratio of 2 per cent, the default, which the callers use. The values of a strategy's metadata, which
-- only a summary shows, are not kept.
use autotrading.Prelude.{
  ℕ, ◌+◌, ◌-◌, ◌*◌, ◌/◌, String, Option, none, some, Bool, not, ◌&&◌, List, [], ◌∷◌, filter, any,
  length, sum_by, leb, ltb, if◌then◌else◌, codes, codes_eq, or_zero,
}

pub data DiffAction : Type 0 where
  sell buy hold rebalance : DiffAction

pub record CurrentHolding : Type 0 where
  pub stock_code : String
  pub stock_name : String
  pub quantity : ℕ
  pub current_price : ℕ
  pub eval_amount : ℕ

pub record PositionDiffItem : Type 0 where
  pub stock_code : String
  pub stock_name : String
  pub action : DiffAction
  pub current_qty : ℕ
  pub current_price : ℕ
  pub current_value : ℕ
  pub target_qty : ℕ
  pub target_value : ℕ
  pub order_qty : ℕ
  pub order_value : ℕ

pub record PositionDiffResult : Type 0 where
  pub sell_list : List PositionDiffItem
  pub buy_list : List PositionDiffItem
  pub hold_list : List PositionDiffItem
  pub total_sell_value : ℕ
  pub total_buy_value : ℕ
  pub available_cash : ℕ
  pub estimated_cash_after : ℕ
  pub target_count : ℕ
  pub current_count : ℕ

abbrev pub same_code : String → String → Bool
same_code a b = codes_eq (codes a) (codes b)

abbrev pub code_in : String → List String → Bool
code_in code stock_codes = any (same_code code) stock_codes

-- `holding_map = {h.stock_code: h for h in current_holdings}`: a later holding of the same stock takes
-- the place of the earlier one.
pub put : CurrentHolding → List CurrentHolding → List CurrentHolding
put h [] = h ∷ []
put h (k ∷ m) =
    let rest = put h m in if same_code k.stock_code h.stock_code then h ∷ m else k ∷ rest

pub put_all : List CurrentHolding → List CurrentHolding → List CurrentHolding
put_all m [] = m
put_all m (h ∷ hs) = put_all (put h m) hs

abbrev pub is_held : List CurrentHolding → String → Bool
is_held m code = any (λ h. same_code code h.stock_code) m

abbrev pub hold_item : CurrentHolding → PositionDiffItem
hold_item h = record {
  stock_code = h.stock_code;
  stock_name = h.stock_name;
  action = DiffAction.hold;
  current_qty = h.quantity;
  current_price = h.current_price;
  current_value = h.eval_amount;
  target_qty = 0;
  target_value = 0;
  order_qty = 0;
  order_value = 0;
}

abbrev pub sell_item : CurrentHolding → PositionDiffItem
sell_item h = record (hold_item h) {
  action = DiffAction.sell;
  order_qty = h.quantity;
  order_value = h.quantity * h.current_price;
}

abbrev pub hold_items : List String → List CurrentHolding → List PositionDiffItem
hold_items buy_codes [] = []
hold_items buy_codes (h ∷ m) =
    let rest = hold_items buy_codes m in
    if code_in h.stock_code buy_codes then hold_item h ∷ rest else rest

abbrev pub sell_items : List String → List CurrentHolding → List PositionDiffItem
sell_items buy_codes [] = []
sell_items buy_codes (h ∷ m) =
    let rest = sell_items buy_codes m in
    if code_in h.stock_code buy_codes then rest else sell_item h ∷ rest

abbrev pub new_buy_codes : List String → List CurrentHolding → List String
new_buy_codes buy_codes m = filter (λ code. not (is_held m code)) buy_codes

-- a quotient that is not rounded
pub record Quotient : Type 0 where
  pub num : ℕ
  pub den : ℕ

-- `min(total / wanted * new, net) / new`: what each new stock may cost
abbrev pub alloc_per_stock : (total wanted new net : ℕ) → Quotient
alloc_per_stock total wanted new net =
    if leb (total * new) (net * wanted)
    then record { num = total * new; den = wanted * new }
    else record { num = net; den = new }

-- `math.floor(alloc_per_stock / price)`
abbrev pub shares : Quotient → ℕ → ℕ
shares alloc price = alloc.num / (alloc.den * price)

abbrev pub name_of : (String → Option String) → String → String
name_of name_map code = elim (name_map code) [ none ↦ code | some name ↦ name ]

abbrev pub buy_item :
    (String → Option ℕ) → (String → Option String) → Quotient → String → PositionDiffItem
buy_item price_map name_map alloc code =
    let price = or_zero (price_map code) in
    record {
      stock_code = code;
      stock_name = name_of name_map code;
      action = DiffAction.buy;
      current_qty = 0;
      current_price = price;
      current_value = 0;
      target_qty = shares alloc price;
      target_value = alloc.num / alloc.den;
      order_qty = shares alloc price;
      order_value = shares alloc price * price;
    }

-- A price is known, and it is low enough for one share.
abbrev pub is_affordable : (String → Option ℕ) → Quotient → String → Bool
is_affordable price_map alloc code =
    ltb 0 (or_zero (price_map code)) && ltb 0 (shares alloc (or_zero (price_map code)))

abbrev pub buy_items :
    (String → Option ℕ) → (String → Option String) → Quotient → List String → List PositionDiffItem
buy_items price_map name_map alloc [] = []
buy_items price_map name_map alloc (code ∷ stock_codes) =
    let rest = buy_items price_map name_map alloc stock_codes in
    if is_affordable price_map alloc code
    then buy_item price_map name_map alloc code ∷ rest
    else rest

-- `int(total_investable * self.cash_buffer_ratio)`, the ratio in hundredths of a per cent
abbrev pub cash_buffer : ℕ → ℕ → ℕ
cash_buffer cash_buffer_ratio total_investable = total_investable * cash_buffer_ratio / 10000

-- the cash that may be spent
abbrev pub net_investable : ℕ → ℕ → ℕ
net_investable cash_buffer_ratio total_investable =
    total_investable - cash_buffer cash_buffer_ratio total_investable

-- The list of purchases, from the budget for them.
abbrev pub purchases :
    (String → Option ℕ) → (String → Option String) → Quotient → List String → List PositionDiffItem
purchases price_map name_map alloc stock_codes =
    if ltb 0 (length stock_codes) && ltb 0 alloc.num
    then buy_items price_map name_map alloc stock_codes
    else []

-- `PositionDiffCalculator.calculate`
unfoldable pub calculate :
    ℕ
    → List String
    → List CurrentHolding
    → ℕ
    → (String → Option ℕ)
    → (String → Option String)
    → PositionDiffResult
unfolding put_all
calculate cash_buffer_ratio buy_codes current_holdings available_cash price_map name_map =
    let holding_map = put_all [] current_holdings in
    let hold_list = hold_items buy_codes holding_map in
    let sell_list = sell_items buy_codes holding_map in
    let total_sell_value = sum_by (λ item. item.order_value) sell_list in
    let net = net_investable cash_buffer_ratio (available_cash + total_sell_value) in
    let hold_value = sum_by (λ item. item.current_value) hold_list in
    let wanted = new_buy_codes buy_codes holding_map in
    let alloc = alloc_per_stock (net + hold_value) (length buy_codes) (length wanted) net in
    let buy_list = purchases price_map name_map alloc wanted in
    let total_buy_value = sum_by (λ item. item.order_value) buy_list in
    record {
      sell_list = sell_list;
      buy_list = buy_list;
      hold_list = hold_list;
      total_sell_value = total_sell_value;
      total_buy_value = total_buy_value;
      available_cash = available_cash;
      estimated_cash_after = available_cash + total_sell_value - total_buy_value;
      target_count = length buy_codes;
      current_count = length current_holdings;
    }
