-- ===== src/Scenarios/Paging.antt =====
-- A balance of two pages, of which the first is asked for twice
-- (app/broker/kis/kis_account.py).
use autotrading.Prelude.{ℕ, zero, suc, ◌≤◌, ◌≡◌, refl, String, some, List, [], ◌∷◌, codes, inl}
use autotrading.Worker.Effects.{Reply, reply}
use autotrading.Broker.Client.{text, absent}
use autotrading.Broker.Balance.{
  Page, PageAttempt, page_answers, page_fails, PageRequest, final, get_balance,
}
use autotrading.Broker.Balance.Pages.{Delivers, last, next, failed, by_keys, get_balance-Delivers}
use autotrading.Snapshot.Account.{BalanceResponse}
use autotrading.Scenarios.Sending.{client}

abbrev page : String → List ℕ → Page ℕ ℕ
page key items = record {
  rt_cd = text "0";
  msg_cd = absent;
  msg1 = absent;
  ctx_area_fk100 = text key;
  ctx_area_nk100 = absent;
  output1 = reply items;
  output2 = 0;
}

abbrev shows_page : String → List ℕ → PageAttempt ℕ ℕ
shows_page key items =
    page_answers (record { status_code = 200; page = some (page key items); response_text = "" })

-- the model of the response, that takes any page
abbrev validate : Page ℕ ℕ → List ℕ → Reply BalanceResponse
validate page items = reply (record {
  rt_cd = "0";
  msg_cd = "";
  msg1 = "";
  ctx_area_fk100 = "";
  ctx_area_nk100 = "";
  output1 = [];
  output2 = [];
})

-- the first request times out
abbrev two_pages : ℕ → PageRequest → PageAttempt ℕ ℕ
two_pages zero request = page_fails "ReadTimeout"
two_pages (suc zero) request = shows_page "A " (1 ∷ 2 ∷ [])
two_pages (suc (suc n)) request = shows_page "" (3 ∷ [])

delivers :
    Delivers client
      (by_keys client two_pages "token" "12345678" "01")
      0
      0
      []
      []
      (1 ∷ 2 ∷ 3 ∷ [])
      (page "" (3 ∷ []))
delivers = failed (inl ("ReadTimeout", refl)) refl (
    next (page "A " (1 ∷ 2 ∷ [])) (1 ∷ 2 ∷ []) (codes "A") []
      (_, refl, refl, refl, refl, refl, refl, refl) refl
      (last (page "" (3 ∷ [])) (3 ∷ []) [] [] (_, refl, refl, refl, refl, refl, refl, refl) refl))

get_balance-Delivers_example :
    (least : ℕ) × ((fuel : ℕ)
      → least ≤ fuel
      → get_balance client validate two_pages "token" "12345678" "01" fuel
        ≡ some (final client validate (page "" (3 ∷ [])) (1 ∷ 2 ∷ 3 ∷ [])))
get_balance-Delivers_example =
    get_balance-Delivers client validate two_pages "token" "12345678" "01" delivers
