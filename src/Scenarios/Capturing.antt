-- ===== src/Scenarios/Capturing.antt =====
-- An account of two stocks, captured once, again, twice in turn and twice at a time
-- (app/services/rebalance/portfolio_snapshot_service.py, app/worker/tasks_snapshot.py).
use autotrading.Prelude.{
  ℕ, ◌+◌, ◌-◌, ◌*◌, ◌≤◌, ◌≡◌, refl, arith, String, Option, some, Bool, List, [], ◌∷◌, map, count,
  codes,
}
use autotrading.Worker.Effects.{reply, error}
use autotrading.Snapshot.Account.{
  BalanceItem, BalanceSummary, AccountCall, get_holding_list, get_account_summary,
  get_account_balance,
}
use autotrading.Snapshot.Capture.{
  PortfolioSnapshotHolding, Tables, Readings, CaptureEnv, SnapshotHoldingResponse,
  multiple_results_found, zfill, snapshot_of, compose, entities, capture, shown,
  get_rebalance_snapshot,
}
use autotrading.Snapshot.Capture.Stored.{snapshots_of, answer, capture-get_rebalance_snapshot}
use autotrading.Snapshot.Capture.Overlaps.{
  captured, overlapped, captured-once, overlapping_captures,
}

-- a text of digits as a number
abbrev digits : ℕ → List ℕ → Option ℕ
digits n [] = some n
digits n (c ∷ s) = digits (n * 10 + (c - b'0')) s

abbrev pub readings : Readings ℕ ℕ
readings = record {
  int_of = λ text. digits 0 (codes text);
  decimal_of = digits 0;
  decimal_zero = 0;
  order_by_code = λ rows. rows;
  count-order_by_code = λ rows test. refl;
}

abbrev item : String → String → BalanceItem
item code qty = record {
  pdno = code;
  prdt_name = "stock";
  trad_dvsn_name = "";
  bfdy_buy_qty = "";
  bfdy_sll_qty = "";
  thdt_buyqty = "";
  thdt_sll_qty = "";
  hldg_qty = qty;
  ord_psbl_qty = qty;
  pchs_avg_pric = "700";
  pchs_amt = "7000";
  prpr = "720";
  evlu_amt = "7200";
  evlu_pfls_amt = "200";
  evlu_pfls_rt = "2.85";
  evlu_erng_rt = "";
  loan_dt = "";
  loan_amt = "";
  stln_slng_chgs = "";
  expd_dt = "";
  fltt_rt = "";
  bfdy_cprs_icdc = "";
  item_mgna_rt_name = "";
  grta_rt_name = "";
  sbst_pric = "";
  stck_loan_unpr = "";
}

abbrev total : BalanceSummary
total = record {
  dnca_tot_amt = "";
  nxdy_excc_amt = "";
  prvs_rcdl_excc_amt = "5000";
  cma_evlu_amt = "";
  bfdy_buy_amt = "";
  thdt_buy_amt = "";
  nxdy_auto_rdpt_amt = "";
  bfdy_sll_amt = "";
  thdt_sll_amt = "";
  d2_auto_rdpt_amt = "";
  bfdy_tlex_amt = "";
  thdt_tlex_amt = "";
  tot_loan_amt = "";
  scts_evlu_amt = "7200";
  tot_evlu_amt = "12200";
  nass_amt = "12200";
  fncg_gld_auto_rdpt_yn = "";
  pchs_amt_smtl_amt = "7000";
  evlu_amt_smtl_amt = "7200";
  evlu_pfls_smtl_amt = "200";
  tot_stln_slng_chgs = "";
  bfdy_tot_asst_evlu_amt = "";
  asst_icdc_amt = "";
  asst_icdc_erng_rt = "";
}

abbrev call : AccountCall
call = record {
  access_token = reply "token";
  get_balance = λ token. reply (record {
    rt_cd = "0";
    msg_cd = "";
    msg1 = "";
    ctx_area_fk100 = "";
    ctx_area_nk100 = "";
    output1 = item "5930" "10" ∷ item "000660" "3" ∷ [];
    output2 = total ∷ [];
  });
}

abbrev pub env : ℕ → CaptureEnv
env key = record {
  account_no = "12345678";
  account_product_code = "01";
  holdings_call = call;
  summary_call = call;
  now = 86399;
  snapshot_id = key;
  holding_id = λ n. 100 * key + n;
}

abbrev pub nothing : Tables ℕ ℕ
nothing = record { snapshots = []; holdings = [] }

abbrev row : ℕ → ℕ → List ℕ → ℕ → PortfolioSnapshotHolding ℕ ℕ
row key id code qty = record {
  id = id;
  snapshot_id = key;
  stock_code = code;
  stock_name = "stock";
  holding_qty = qty;
  avg_buy_price = 700;
  current_price = some 720;
}

abbrev pub rows : ℕ → List (PortfolioSnapshotHolding ℕ ℕ)
rows key =
    row key (100 * key + 0) (codes "005930") 10 ∷ row key (100 * key + 1) (codes "000660") 3 ∷ []

pub composed :
    (key rebalance_id : ℕ)
    → compose readings (env key) rebalance_id
      ≡ reply (snapshot_of readings (env key) rebalance_id 5000, rows key)
unfolding compose entities get_holding_list get_account_summary get_account_balance zfill
composed key rebalance_id = refl

capture-get_rebalance_snapshot_example :
    let done = capture readings (env 1) (λ t. t) 7 nothing in
    (done.0 ≡ reply 1)
    × ((holdings : List (SnapshotHoldingResponse ℕ ℕ)) × (get_rebalance_snapshot readings 7 done.1
          ≡ reply (some (answer 7 (env 1) 5000 holdings)))
        × ((test : SnapshotHoldingResponse ℕ ℕ → Bool)
            → count test holdings ≡ count test (map (shown readings) (rows 1))))
    × ((env' : CaptureEnv) (others' : Tables ℕ ℕ → Tables ℕ ℕ)
        → capture readings env' others' 7 done.1 ≡ (reply 1, done.1))
capture-get_rebalance_snapshot_example =
    capture-get_rebalance_snapshot readings 7 (env 1) (λ t. t) nothing 5000 (rows 1) refl refl refl
      (composed 1 7)

captured-once_example :
    snapshots_of readings 7 (captured readings ((env 1, 7) ∷ (env 2, 8) ∷ (env 3, 7) ∷ []) nothing)
    ≤ 1
captured-once_example =
    captured-once readings ((env 1, 7) ∷ (env 2, 8) ∷ (env 3, 7) ∷ []) nothing (λ i. omega arith) 7

overlapping_captures_example :
    let done = overlapped readings (env 1) (env 2) 7 nothing in
    (done.0 ≡ reply 1)
    × ((capture readings (env 2) (λ u. u) 7 nothing).0 ≡ reply 2)
    × (snapshots_of readings 7 done.1 ≡ 2)
    × (get_rebalance_snapshot readings 7 done.1 ≡ error multiple_results_found)
    × ((env'' : CaptureEnv) (others : Tables ℕ ℕ → Tables ℕ ℕ)
        → capture readings env'' others 7 done.1 ≡ (error multiple_results_found, done.1))
overlapping_captures_example =
    overlapping_captures readings 7 (env 1) (env 2) nothing (snapshot_of readings (env 1) 7 5000)
      (snapshot_of readings (env 2) 7 5000) (rows 1) (rows 2) refl (composed 1 7) (composed 2 7)
