-- ===== src/Broker/Balance/Endless.antt =====
-- Pages of the balance that never end (app/broker/kis/kis_account.py).
use autotrading.Prelude.{
  ℕ, zero, suc, ◌+◌, ◌≡◌, refl, ap, ◌∙◌, String, Option, none, false, ◌&&◌, ◌||◌, List, [], ◌++◌,
  codes_eq,
}
use autotrading.Worker.Effects.{Reply}
use autotrading.Broker.Client.{Client}
use autotrading.Snapshot.Account.{BalanceResponse}
use autotrading.Broker.Balance.{
  Page, PageAttempt, PageRequest, Balance, Paging, is_empty, resume, pages, get_balance,
}
use autotrading.Broker.Balance.Pages.{Shows, by_keys, turn-Shows, onward-again}

module _ {I O : Type 0} (client : Client) where
  -- an answer that shows a page which names keys, and others than were sent
  abbrev pub GoesOn : PageAttempt I O → List ℕ → List ℕ → Type 0
  GoesOn a fk nk =
      (page : Page I O) × (more : List I) × (fk' : List ℕ) × (nk' : List ℕ) × Shows client a page
        more fk' nk'
      × (((is_empty fk' && is_empty nk') || (codes_eq fk' fk && codes_eq nk' nk)) ≡ false)

module _ {I O : Type 0} (client : Client) (validate : Page I O → List I → Reply BalanceResponse)
    (broker : ℕ → PageRequest → PageAttempt I O)
    (access_token account_no account_product_code : String) where
  abbrev shown : ℕ → List ℕ → List ℕ → PageAttempt I O
  shown = by_keys client broker access_token account_no account_product_code

  abbrev paging : ℕ → List ℕ → List ℕ → List I → Paging I
  paging attempt fk nk items = record {
    attempt = attempt;
    ctx_fk100 = fk;
    ctx_nk100 = nk;
    all_output1 = items;
  }

  -- the loop, by its first request
  abbrev loop : ℕ → ℕ → Paging I → Option (Balance I O)
  loop = pages client validate broker access_token account_no account_product_code

  pages-none :
      ((n : ℕ) (fk nk : List ℕ) → GoesOn client (shown n fk nk) fk nk)
      → (fuel n : ℕ) (fk nk : List ℕ) (before : List I) → loop fuel n (paging 0 fk nk before) ≡ none
  unfolding pages
  pages-none goes_on zero n fk nk before = refl
  pages-none goes_on (suc fuel) n fk nk before =
      let (page, more, fk', nk', shows, another) = goes_on n fk nk in
      let s = paging 0 fk nk before in
      ap (λ t. resume t (loop fuel (n + 1)))
        (turn-Shows client validate s (shown n fk nk) page more fk' nk' shows
          ∙ onward-again client validate broker access_token account_no account_product_code s page
              (before ++ more) fk' nk' another)
      ∙ pages-none goes_on fuel (n + 1) fk' nk' (before ++ more)

-- If the broker answers each request with a page that names some keys, and not those that it was asked with, then
-- `get_balance` never ends: there is no number of requests within which it has a result.
pub get_balance-endless :
    {I O : Type 0} (client : Client) (validate : Page I O → List I → Reply BalanceResponse)
    (broker : ℕ → PageRequest → PageAttempt I O)
    (access_token account_no account_product_code : String)
    → ((n : ℕ) (fk nk : List ℕ)
        → GoesOn client
            (by_keys client broker access_token account_no account_product_code n fk nk)
            fk
            nk)
    → (fuel : ℕ)
    → get_balance client validate broker access_token account_no account_product_code fuel ≡ none
get_balance-endless client validate broker access_token account_no account_product_code goes_on
      fuel =
    pages-none client validate broker access_token account_no account_product_code goes_on fuel 0 []
      [] []
