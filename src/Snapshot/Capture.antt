-- ===== src/Snapshot/Capture.antt =====
-- The tables of the snapshots, the capture of one, and its reading.
pub mod Stored
pub mod Overlaps
use autotrading.Prelude.{
  ℕ, zero, suc, ◌+◌, ◌-◌, ◌*◌, ◌/◌, ◌≡◌, String, Option, none, some, Bool, true, false, List, [],
  ◌∷◌, ◌++◌, map, filter, count, length, ◌==◌, strip, if◌then◌else◌,
}
use autotrading.Worker.Effects.{Exn, exception, Reply, reply, error}
use autotrading.Snapshot.Account.{
  HoldingRead, AccountSummaryRead, AccountCall, ◌>>=◌, get_holding_list, get_account_summary,
}

-- app/db/models/snapshot.py; the columns that the server fills are left out
pub record PortfolioSnapshot (Z : Type 0) : Type 0 where
  pub id : ℕ
  pub snapshot_at : ℕ
  pub snapshot_type : String
  pub account_no : String
  pub account_product_code : String
  pub net_deposit : Option Z
  pub rebalance_id : Option ℕ
  pub cash_amount : Option Z
  pub trading_date : Option ℕ

pub record PortfolioSnapshotHolding (Z D : Type 0) : Type 0 where
  pub id : ℕ
  pub snapshot_id : ℕ
  pub stock_code : List ℕ
  pub stock_name : String
  pub holding_qty : Z
  pub avg_buy_price : D
  pub current_price : Option D

-- the two tables, oldest row first
pub record Tables (Z D : Type 0) : Type 0 where
  pub snapshots : List (PortfolioSnapshot Z)
  pub holdings : List (PortfolioSnapshotHolding Z D)

-- `int` and `Decimal` on a text, and the order of the database by the code, which keeps the rows
pub record Readings (Z D : Type 0) : Type 0 where
  pub int_of : String → Option Z
  pub decimal_of : List ℕ → Option D
  pub decimal_zero : D
  pub order_by_code : List (PortfolioSnapshotHolding Z D) → List (PortfolioSnapshotHolding Z D)
  pub count-order_by_code :
      (rows : List (PortfolioSnapshotHolding Z D)) (test : PortfolioSnapshotHolding Z D → Bool)
      → count test (order_by_code rows) ≡ count test rows

-- what a capture is given: the account's settings, its two requests, the time in seconds and the new keys
pub record CaptureEnv : Type 0 where
  pub account_no : String
  pub account_product_code : String
  pub holdings_call : AccountCall
  pub summary_call : AccountCall
  pub now : ℕ
  pub snapshot_id : ℕ
  pub holding_id : ℕ → ℕ

-- a row of the answer, and the answer, of the reading
pub record SnapshotHoldingResponse (Z D : Type 0) : Type 0 where
  pub stock_code : List ℕ
  pub stock_name : String
  pub holding_qty : Z
  pub avg_buy_price : D

pub record RebalanceSnapshotResponse (Z D : Type 0) : Type 0 where
  pub snapshot_id : ℕ
  pub snapshot_at : ℕ
  pub snapshot_type : String
  pub rebalance_id : Option ℕ
  pub cash_amount : Option Z
  pub holdings : List (SnapshotHoldingResponse Z D)

abbrev pub kst_date : ℕ → ℕ
kst_date at = (at + 9 * 3600) / 86400

-- `zfill(6)`: a leading sign stays in front
abbrev zeros : ℕ → List ℕ → List ℕ
zeros zero s = s
zeros (suc n) s = b'0' ∷ zeros n s

abbrev is_sign : ℕ → Bool
is_sign c = if c == b'+' then true else c == b'-'

unfoldable pub zfill : List ℕ → List ℕ
zfill [] = zeros 6 []
zfill (c ∷ s) = if is_sign c then c ∷ zeros (5 - length s) s else zeros (5 - length s) (c ∷ s)

abbrev pub multiple_results_found : Exn
multiple_results_found = exception "MultipleResultsFound"

-- `scalar_one_or_none`
abbrev pub one_or_none : {A : Type 0} → List A → Reply (Option A)
one_or_none [] = reply none
one_or_none (a ∷ []) = reply (some a)
one_or_none (a ∷ b ∷ rest) = error multiple_results_found

abbrev pub is_of : Option ℕ → ℕ → Bool
is_of none i = false
is_of (some j) i = j == i

module _ {Z D : Type 0} (readings : Readings Z D) where
  abbrev pub of_rebalance : ℕ → PortfolioSnapshot Z → Bool
  of_rebalance rebalance_id s = is_of s.rebalance_id rebalance_id

  unfoldable pub get_snapshot_by_rebalance : ℕ → Tables Z D → Reply (Option (PortfolioSnapshot Z))
  get_snapshot_by_rebalance rebalance_id db =
      one_or_none (filter (of_rebalance rebalance_id) db.snapshots)

  unfoldable pub get_snapshot_id_by_rebalance : ℕ → Tables Z D → Reply (Option ℕ)
  get_snapshot_id_by_rebalance rebalance_id db =
      one_or_none (map (λ s. s.id) (filter (of_rebalance rebalance_id) db.snapshots))

  unfoldable pub get_snapshot_holdings : ℕ → Tables Z D → List (PortfolioSnapshotHolding Z D)
  get_snapshot_holdings snapshot_id db =
      readings.order_by_code (filter (λ h. h.snapshot_id == snapshot_id) db.holdings)

  unfoldable pub insert_snapshot :
      PortfolioSnapshot Z → List (PortfolioSnapshotHolding Z D) → Tables Z D → Tables Z D
  insert_snapshot snapshot holdings db = record {
    snapshots = db.snapshots ++ snapshot ∷ [];
    holdings = db.holdings ++ holdings;
  }

  abbrev pub read_int : String → Reply Z
  read_int text = elim (readings.int_of text) [
    | some z ↦ reply z
    | none ↦ error (exception "ValueError")
  ]

  -- `_to_decimal(…)`, and `avg_buy_price or Decimal(0)`
  abbrev pub to_decimal : String → Option D
  to_decimal text = readings.decimal_of (strip text)

  abbrev pub or_decimal_zero : Option D → D
  or_decimal_zero none = readings.decimal_zero
  or_decimal_zero (some d) = d

  abbrev pub entity : CaptureEnv → ℕ → HoldingRead → Z → PortfolioSnapshotHolding Z D
  entity env n h qty = record {
    id = env.holding_id n;
    snapshot_id = env.snapshot_id;
    stock_code = zfill (strip h.stock_code);
    stock_name = h.stock_name;
    holding_qty = qty;
    avg_buy_price = or_decimal_zero (to_decimal h.avg_buy_price);
    current_price = to_decimal h.current_price;
  }

  -- the loop over the holdings
  unfoldable pub entities :
      CaptureEnv → ℕ → List HoldingRead → Reply (List (PortfolioSnapshotHolding Z D))
  entities env n [] = reply []
  entities env n (h ∷ raw) = do
    qty ← read_int h.holding_qty
    rest ← entities env (n + 1) raw
    reply (entity env n h qty ∷ rest)

  abbrev pub snapshot_of : CaptureEnv → ℕ → Z → PortfolioSnapshot Z
  snapshot_of env rebalance_id cash = record {
    id = env.snapshot_id;
    snapshot_at = env.now;
    snapshot_type = "REBALANCE";
    account_no = env.account_no;
    account_product_code = env.account_product_code;
    net_deposit = none;
    rebalance_id = some rebalance_id;
    cash_amount = some cash;
    trading_date = some (kst_date env.now);
  }

  -- steps 2 and 3: the rows to insert
  unfoldable pub compose :
      CaptureEnv → ℕ → Reply (PortfolioSnapshot Z × List (PortfolioSnapshotHolding Z D))
  unfolding entities
  compose env rebalance_id = do
    raw ← get_holding_list env.holdings_call
    summary ← get_account_summary env.summary_call
    cash ← read_int summary.settlement_cash_amount
    rows ← entities env 0 raw
    reply (snapshot_of env rebalance_id cash, rows)

  abbrev pub stored :
      CaptureEnv
      → Reply (PortfolioSnapshot Z × List (PortfolioSnapshotHolding Z D))
      → Tables Z D
      → Reply ℕ × Tables Z D
  stored env (reply (snapshot, rows)) db = (reply env.snapshot_id, insert_snapshot snapshot rows db)
  stored env (error e) db = (error e, db)

  abbrev pub unless_found :
      Reply (Option ℕ) → Tables Z D → Reply ℕ × Tables Z D → Reply ℕ × Tables Z D
  unless_found (reply none) db new = new
  unless_found (reply (some existing)) db new = (reply existing, db)
  unless_found (error e) db new = (error e, db)

  -- `capture`, with what other tasks do to the tables between its look and its commit
  unfoldable pub capture :
      CaptureEnv → (Tables Z D → Tables Z D) → ℕ → Tables Z D → Reply ℕ × Tables Z D
  unfolding insert_snapshot
  capture env others rebalance_id db =
      unless_found (get_snapshot_id_by_rebalance rebalance_id db) db
        (stored env (compose env rebalance_id) (others db))

  -- the task; an error is rolled back, and swallowed
  unfoldable pub capture_rebalance_snapshot :
      CaptureEnv → (Tables Z D → Tables Z D) → ℕ → Tables Z D → Tables Z D
  unfolding capture
  capture_rebalance_snapshot env others rebalance_id db = (capture env others rebalance_id db).1

  abbrev pub shown : PortfolioSnapshotHolding Z D → SnapshotHoldingResponse Z D
  shown h = record {
    stock_code = h.stock_code;
    stock_name = h.stock_name;
    holding_qty = h.holding_qty;
    avg_buy_price = h.avg_buy_price;
  }

  abbrev pub response_of :
      Tables Z D → Option (PortfolioSnapshot Z) → Option (RebalanceSnapshotResponse Z D)
  response_of db none = none
  response_of db (some s) = some (record {
    snapshot_id = s.id;
    snapshot_at = s.snapshot_at;
    snapshot_type = s.snapshot_type;
    rebalance_id = s.rebalance_id;
    cash_amount = s.cash_amount;
    holdings = map shown (get_snapshot_holdings s.id db);
  })

  unfoldable pub get_rebalance_snapshot :
      ℕ → Tables Z D → Reply (Option (RebalanceSnapshotResponse Z D))
  unfolding get_snapshot_by_rebalance get_snapshot_holdings
  get_rebalance_snapshot rebalance_id db = do
    snapshot ← get_snapshot_by_rebalance rebalance_id db
    reply (response_of db snapshot)
