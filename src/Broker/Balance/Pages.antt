-- ===== src/Broker/Balance/Pages.antt =====
-- The pages of the balance come together (app/broker/kis/kis_account.py).
use autotrading.Prelude.{
  ℕ, zero, suc, ◌+◌, ◌≡◌, ◌⊎◌, inl, inr, refl, ap, ◌∙◌, String, Option, some, true, false, ◌&&◌,
  ◌||◌, List, [], ◌++◌, ◌==◌, codes_eq, ◌≤◌, arith, Bool-cases, append_assoc,
}
use autotrading.Worker.Effects.{Reply, reply}
use autotrading.Broker.Client.{Client, is_zero}
use autotrading.Snapshot.Account.{BalanceResponse}
use autotrading.Broker.Balance.{
  Page, PageAnswer, PageAttempt, page_answers, page_fails, PageRequest, Balance, Paging, Turn, done,
  again, next_key, is_empty, balance_request, final, onward, resume, is_refused, turn, pages,
  get_balance,
}

module _ {I O : Type 0} (client : Client) where
  -- an answer that shows a page, with its items and the keys of the next page
  abbrev pub Shows : PageAttempt I O → Page I O → List I → List ℕ → List ℕ → Type 0
  Shows a page more fk nk =
      (r : PageAnswer I O) × (a ≡ page_answers r)
      × (is_refused client r ≡ false)
      × (r.page ≡ some page)
      × (is_zero page.rt_cd ≡ true)
      × (page.output1 ≡ reply more)
      × (next_key page.ctx_area_fk100 ≡ some fk)
      × (next_key page.ctx_area_nk100 ≡ some nk)

  -- a request without an answer, or with an error of HTTP
  abbrev pub Fails : PageAttempt I O → Type 0
  Fails a =
      ((e : String) × (a ≡ page_fails e))
      ⊎ ((r : PageAnswer I O) × (a ≡ page_answers r) × (is_refused client r ≡ true))

  module _ (validate : Page I O → List I → Reply BalanceResponse) where
    pub turn-Shows :
        (s : Paging I) (a : PageAttempt I O) (page : Page I O) (more : List I) (fk nk : List ℕ)
        → Shows a page more fk nk
        → turn client validate s a ≡ onward client validate s page (s.all_output1 ++ more) fk nk
    unfolding turn
    turn-Shows s a page more fk nk (r, answered, passed, is_page, zero_code, read, at_fk, at_nk) =
        rw answered (rw passed (rw is_page (rw zero_code (rw read (rw at_fk (rw at_nk refl))))))

    turn-Fails :
        (s : Paging I) (a : PageAttempt I O)
        → Fails a
        → (s.attempt == 2) ≡ false
        → turn client validate s a ≡ again (record s { attempt = s.attempt + 1 })
    unfolding turn
    turn-Fails s a (inl (e, failed)) early = rw failed (rw early refl)
    turn-Fails s a (inr (r, answered, refused)) early = rw answered (rw refused (rw early refl))

-- The broker shows pages one after another, each at the keys that the one before has named, to a client that has asked
-- `attempt` times in vain for the first of them: their items, and the last page.
module _ {I O : Type 0} (client : Client) (broker : ℕ → List ℕ → List ℕ → PageAttempt I O) where
  pub data Delivers : ℕ → ℕ → List ℕ → List ℕ → List I → Page I O → Type 0 where
    -- the last page names no key, or the keys that were sent
    last :
        {n attempt : ℕ} {fk nk : List ℕ} (page : Page I O) (more : List I) (fk' nk' : List ℕ)
        → Shows client (broker n fk nk) page more fk' nk'
        → ((is_empty fk' && is_empty nk') || (codes_eq fk' fk && codes_eq nk' nk)) ≡ true
        → Delivers n attempt fk nk more page
    next :
        {n attempt : ℕ} {fk nk : List ℕ} (page : Page I O) (more : List I) (fk' nk' : List ℕ)
        {items : List I} {final_page : Page I O}
        → Shows client (broker n fk nk) page more fk' nk'
        → ((is_empty fk' && is_empty nk') || (codes_eq fk' fk && codes_eq nk' nk)) ≡ false
        → Delivers (n + 1) 0 fk' nk' items final_page
        → Delivers n attempt fk nk (more ++ items) final_page
    failed :
        {n attempt : ℕ} {fk nk : List ℕ} {items : List I} {final_page : Page I O}
        → Fails client (broker n fk nk)
        → (attempt == 2) ≡ false
        → Delivers (n + 1) (attempt + 1) fk nk items final_page
        → Delivers n attempt fk nk items final_page

-- the broker, by the keys that are sent
abbrev pub by_keys :
    {I O : Type 0}
    → Client
    → (ℕ → PageRequest → PageAttempt I O)
    → String
    → String
    → String
    → ℕ
    → List ℕ
    → List ℕ
    → PageAttempt I O
by_keys client broker access_token account_no account_product_code n fk nk =
    broker n (balance_request client access_token account_no account_product_code fk nk)

module _ {I O : Type 0} (client : Client) (validate : Page I O → List I → Reply BalanceResponse)
    (broker : ℕ → PageRequest → PageAttempt I O)
    (access_token account_no account_product_code : String) where
  abbrev shown : ℕ → List ℕ → List ℕ → PageAttempt I O
  shown = by_keys client broker access_token account_no account_product_code

  onward-end :
      (s : Paging I) (page : Page I O) (items : List I) (fk nk : List ℕ)
      → ((is_empty fk && is_empty nk) || (codes_eq fk s.ctx_fk100 && codes_eq nk s.ctx_nk100))
        ≡ true
      → onward client validate s page items fk nk ≡ done (final client validate page items)
  onward-end s page items fk nk ends = elim (Bool-cases (is_empty fk && is_empty nk)) [
    | inl none_left ↦ rw none_left refl
    | inr some_left ↦ rw some_left (rw (rw some_left at ends) refl)
  ]

  pub onward-again :
      (s : Paging I) (page : Page I O) (items : List I) (fk nk : List ℕ)
      → ((is_empty fk && is_empty nk) || (codes_eq fk s.ctx_fk100 && codes_eq nk s.ctx_nk100))
        ≡ false
      → onward client validate s page items fk nk
        ≡ again (record { attempt = 0; ctx_fk100 = fk; ctx_nk100 = nk; all_output1 = items })
  onward-again s page items fk nk goes_on = elim (Bool-cases (is_empty fk && is_empty nk)) [
    | inl none_left ↦ (let clash = rw none_left at goes_on in cc)
    | inr some_left ↦ rw some_left (rw (rw some_left at goes_on) refl)
  ]

  abbrev paging : ℕ → List ℕ → List ℕ → List I → Paging I
  paging attempt fk nk items = record {
    attempt = attempt;
    ctx_fk100 = fk;
    ctx_nk100 = nk;
    all_output1 = items;
  }

  -- the loop, by its first request
  abbrev loop : ℕ → ℕ → Paging I → Option (Balance I O)
  loop = pages client validate broker access_token account_no account_product_code

  abbrev turn_at : ℕ → Paging I → Turn I O
  turn_at n s = turn client validate s (shown n s.ctx_fk100 s.ctx_nk100)

  pages-done :
      (fuel n : ℕ) (s : Paging I) (result : Balance I O)
      → turn_at n s ≡ done result
      → 1 ≤ fuel
      → loop fuel n s ≡ some result
  unfolding pages
  pages-done zero n s result ends enough = absurd (omega (arith, enough))
  pages-done (suc fuel) n s result ends enough = ap (λ t. resume t (loop fuel (n + 1))) ends

  pages-again :
      (least fuel n : ℕ) (s s' : Paging I) (result : Option (Balance I O))
      → turn_at n s ≡ again s'
      → ((fuel' : ℕ) → least ≤ fuel' → loop fuel' (n + 1) s' ≡ result)
      → least + 1 ≤ fuel
      → loop fuel n s ≡ result
  unfolding pages
  pages-again least zero n s s' result goes_on rest enough = absurd (omega (arith, enough))
  pages-again least (suc fuel) n s s' result goes_on rest enough =
      ap (λ t. resume t (loop fuel (n + 1))) goes_on ∙ rest fuel (omega (arith, enough))

  -- with enough fuel, from any point
  pages-Delivers :
      {n attempt : ℕ} {fk nk : List ℕ} {items : List I} {final_page : Page I O}
      → Delivers client shown n attempt fk nk items final_page
      → (least : ℕ) × ((fuel : ℕ) (before : List I)
          → least ≤ fuel
          → loop fuel n (paging attempt fk nk before)
            ≡ some (final client validate final_page (before ++ items)))
  pages-Delivers {n = n} {attempt = attempt} {fk = fk} {nk = nk}
        (last page more fk' nk' shows ends) =
      (
        1,
        λ fuel before enough.
            let s = paging attempt fk nk before in
            pages-done fuel n s (final client validate page (before ++ more))
              (turn-Shows client validate s (shown n fk nk) page more fk' nk' shows
                ∙ onward-end s page (before ++ more) fk' nk' ends)
              enough,
      )
  pages-Delivers {n = n} {attempt = attempt} {fk = fk} {nk = nk} {final_page = final_page}
        (next page more fk' nk' {items = items} shows goes_on rest) =
      let (least, gathers) = pages-Delivers rest in
      (
        least + 1,
        λ fuel before enough.
            let s = paging attempt fk nk before in
            pages-again least fuel n s (paging 0 fk' nk' (before ++ more))
              (some (final client validate final_page (before ++ (more ++ items))))
              (turn-Shows client validate s (shown n fk nk) page more fk' nk' shows
                ∙ onward-again s page (before ++ more) fk' nk' goes_on)
              (λ fuel' enough'.
                gathers fuel' (before ++ more) enough'
                ∙ ap (λ gathered. some (final client validate final_page gathered))
                    (append_assoc before more items))
              enough,
      )
  pages-Delivers {n = n} {attempt = attempt} {fk = fk} {nk = nk} {items = items}
        {final_page = final_page} (failed fails early rest) =
      let (least, gathers) = pages-Delivers rest in
      (
        least + 1,
        λ fuel before enough.
            let s = paging attempt fk nk before in
            pages-again least fuel n s (paging (attempt + 1) fk nk before)
              (some (final client validate final_page (before ++ items)))
              (turn-Fails client validate s (shown n fk nk) fails early)
              (λ fuel' enough'. gathers fuel' before enough') enough,
      )

-- If the broker shows pages one after another, each at the keys that the one before has named, the last one naming no
-- keys or those that it was asked with, and if at most two requests for a page fail before it is shown, then
-- `get_balance` ends after finitely many requests: its result is the last page, with the items of all pages in
-- their order, as the model of the response takes it.
pub get_balance-Delivers :
    {I O : Type 0} (client : Client) (validate : Page I O → List I → Reply BalanceResponse)
    (broker : ℕ → PageRequest → PageAttempt I O)
    (access_token account_no account_product_code : String) {items : List I} {final_page : Page I O}
    → Delivers client
        (by_keys client broker access_token account_no account_product_code)
        0
        0
        []
        []
        items
        final_page
    → (least : ℕ) × ((fuel : ℕ)
        → least ≤ fuel
        → get_balance client validate broker access_token account_no account_product_code fuel
          ≡ some (final client validate final_page items))
get_balance-Delivers client validate broker access_token account_no account_product_code delivers =
    let (least, gathers) =
      pages-Delivers client validate broker access_token account_no account_product_code delivers in
    (least, λ fuel. gathers fuel [])
