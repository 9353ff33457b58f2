-- ===== src/Snapshot/Account.antt =====
-- app/services/kis/account_service.py: the balance of the account, taken apart.
use autotrading.Prelude.{ℕ, String, List, [], ◌∷◌, map, length, ◌≡◌, refl}
use autotrading.Worker.Effects.{exception, Reply, reply, error}

pub record BalanceItem : Type 0 where
  pub pdno : String
  pub prdt_name : String
  pub trad_dvsn_name : String
  pub bfdy_buy_qty : String
  pub bfdy_sll_qty : String
  pub thdt_buyqty : String
  pub thdt_sll_qty : String
  pub hldg_qty : String
  pub ord_psbl_qty : String
  pub pchs_avg_pric : String
  pub pchs_amt : String
  pub prpr : String
  pub evlu_amt : String
  pub evlu_pfls_amt : String
  pub evlu_pfls_rt : String
  pub evlu_erng_rt : String
  pub loan_dt : String
  pub loan_amt : String
  pub stln_slng_chgs : String
  pub expd_dt : String
  pub fltt_rt : String
  pub bfdy_cprs_icdc : String
  pub item_mgna_rt_name : String
  pub grta_rt_name : String
  pub sbst_pric : String
  pub stck_loan_unpr : String

pub record BalanceSummary : Type 0 where
  pub dnca_tot_amt : String
  pub nxdy_excc_amt : String
  pub prvs_rcdl_excc_amt : String
  pub cma_evlu_amt : String
  pub bfdy_buy_amt : String
  pub thdt_buy_amt : String
  pub nxdy_auto_rdpt_amt : String
  pub bfdy_sll_amt : String
  pub thdt_sll_amt : String
  pub d2_auto_rdpt_amt : String
  pub bfdy_tlex_amt : String
  pub thdt_tlex_amt : String
  pub tot_loan_amt : String
  pub scts_evlu_amt : String
  pub tot_evlu_amt : String
  pub nass_amt : String
  pub fncg_gld_auto_rdpt_yn : String
  pub pchs_amt_smtl_amt : String
  pub evlu_amt_smtl_amt : String
  pub evlu_pfls_smtl_amt : String
  pub tot_stln_slng_chgs : String
  pub bfdy_tot_asst_evlu_amt : String
  pub asst_icdc_amt : String
  pub asst_icdc_erng_rt : String

pub record BalanceResponse : Type 0 where
  pub rt_cd : String
  pub msg_cd : String
  pub msg1 : String
  pub ctx_area_fk100 : String
  pub ctx_area_nk100 : String
  pub output1 : List BalanceItem
  pub output2 : List BalanceSummary

pub record HoldingRead : Type 0 where
  pub stock_code : String
  pub stock_name : String
  pub holding_qty : String
  pub avg_buy_price : String
  pub current_price : String
  pub purchase_amount : String
  pub evaluation_amount : String
  pub profit_loss_amount : String
  pub profit_loss_rate : String

-- the number of stocks is a text in the source
pub record AccountSummaryRead : Type 0 where
  pub settlement_cash_amount : String
  pub stock_evaluation_amount : String
  pub total_evaluation_amount : String
  pub net_asset_amount : String
  pub total_purchase_amount : String
  pub total_profit_loss_amount : String
  pub holding_stock_count : ℕ

pub record AccountDashboardRead : Type 0 where
  pub account_summary : AccountSummaryRead
  pub holding_list : List HoldingRead

infixl 5 ◌>>=◌
abbrev pub ◌>>=◌ : {A B : Type 0} → Reply A → (A → Reply B) → Reply B
◌>>=◌ (reply a) f = f a
◌>>=◌ (error e) f = error e

-- a chain that answers, taken apart
pub >>=-eq-reply :
    {A B : Type 0} (m : Reply A) (f : A → Reply B) {b : B}
    → ◌>>=◌ m f ≡ reply b
    → (a : A) × (m ≡ reply a) × (f a ≡ reply b)
>>=-eq-reply (reply a) f h = (a, refl, h)
>>=-eq-reply (error e) f h = cc

pub reply_injective : {A : Type 0} {a b : A} → reply a ≡ reply b → a ≡ b
reply_injective e = cc

abbrev pub holding_of : BalanceItem → HoldingRead
holding_of item = record {
  stock_code = item.pdno;
  stock_name = item.prdt_name;
  holding_qty = item.hldg_qty;
  avg_buy_price = item.pchs_avg_pric;
  current_price = item.prpr;
  purchase_amount = item.pchs_amt;
  evaluation_amount = item.evlu_amt;
  profit_loss_amount = item.evlu_pfls_amt;
  profit_loss_rate = item.evlu_pfls_rt;
}

abbrev pub build_holding_list : List BalanceItem → List HoldingRead
build_holding_list = map holding_of

abbrev pub build_account_summary : BalanceSummary → ℕ → AccountSummaryRead
build_account_summary summary holding_stock_count = record {
  settlement_cash_amount = summary.prvs_rcdl_excc_amt;
  stock_evaluation_amount = summary.scts_evlu_amt;
  total_evaluation_amount = summary.tot_evlu_amt;
  net_asset_amount = summary.nass_amt;
  total_purchase_amount = summary.pchs_amt_smtl_amt;
  total_profit_loss_amount = summary.evlu_pfls_smtl_amt;
  holding_stock_count = holding_stock_count;
}

-- What one request needs: the token service's answer, and the broker's to a request with that token.
pub record AccountCall : Type 0 where
  pub access_token : Reply String
  pub get_balance : String → Reply BalanceResponse

unfoldable pub get_account_balance : AccountCall → Reply BalanceResponse
get_account_balance call = do token ← call.access_token; call.get_balance token

unfoldable pub get_holding_list : AccountCall → Reply (List HoldingRead)
unfolding get_account_balance
get_holding_list call = do
  balance ← get_account_balance call
  reply (build_holding_list balance.output1)

abbrev summary_of : BalanceResponse → List BalanceSummary → Reply AccountSummaryRead
summary_of balance [] = error (exception "ValueError")
summary_of balance (summary ∷ rest) = reply (build_account_summary summary (length balance.output1))

unfoldable pub get_account_summary : AccountCall → Reply AccountSummaryRead
unfolding get_account_balance
get_account_summary call = do balance ← get_account_balance call; summary_of balance balance.output2

abbrev dashboard : AccountSummaryRead → List HoldingRead → Reply AccountDashboardRead
dashboard summary holdings = reply (record { account_summary = summary; holding_list = holdings })

-- one request for both
unfoldable pub get_dashboard : AccountCall → Reply AccountDashboardRead
unfolding get_account_balance
get_dashboard call = do
  balance ← get_account_balance call
  summary ← summary_of balance balance.output2
  dashboard summary (build_holding_list balance.output1)

dashboard-parts :
    (answer : Reply BalanceResponse)
    → (do
      balance ← answer
      summary ← summary_of balance balance.output2
      dashboard summary (build_holding_list balance.output1))
      ≡ (do
        summary ← (do balance ← answer; summary_of balance balance.output2)
        holdings ← (do balance ← answer; reply (build_holding_list balance.output1))
        dashboard summary holdings)
dashboard-parts (error e) = refl
dashboard-parts (reply balance) = elim (summary_of balance balance.output2) [
  | reply summary ↦ refl
  | error e ↦ refl
]

-- The dashboard's one request gives what the two other requests give when all three have the same answer.
get_dashboard-parts :
    (call : AccountCall)
    → get_dashboard call ≡ (do
      summary ← get_account_summary call
      holdings ← get_holding_list call
      dashboard summary holdings)
unfolding get_dashboard get_account_summary get_holding_list
get_dashboard-parts call = dashboard-parts (get_account_balance call)
