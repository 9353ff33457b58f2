-- ===== src/Backtest/Ledger.antt =====
-- Positions of different stocks, and trades apart from each other, in the ledger of a backtest
-- (app/strategy/backtest/backtest_executor.py).
use autotrading.Prelude.{
  ℕ, ◌+◌, ◌≡◌, refl, String, Bool, true, false, not, ◌&&◌, ◌||◌, List, [], ◌∷◌, ◌++◌, all, ltb,
  codes, codes_eq, arith,
}
use autotrading.Strategy.{same, is_held, SwingPosition, SwingTradeRecord}

codes_eq_comm : (a b : List ℕ) → codes_eq a b ≡ codes_eq b a
codes_eq_comm [] [] = refl
codes_eq_comm [] (y ∷ b) = refl
codes_eq_comm (x ∷ a) [] = refl
codes_eq_comm (x ∷ a) (y ∷ b) = ground (arith, codes_eq_comm a b)

pub same_comm : (a b : String) → same a b ≡ same b a
same_comm a b = codes_eq_comm (codes a) (codes b)

module _ {N : Type 0} (cooldown_days : ℕ) where
  -- a stock of this code that is entered on this day had each of its trades end more than the cooldown before
  abbrev pub apart : String → ℕ → List (SwingTradeRecord N) → Bool
  apart code entry trades =
      all (λ t. not (same t.stock_code code) || ltb (t.exit_date + cooldown_days) entry) trades

  -- of the trades, newest first, each is apart from those before it
  abbrev pub spaced : List (SwingTradeRecord N) → Bool
  spaced [] = true
  spaced (t ∷ trades) = apart t.stock_code t.entry_date trades && spaced trades

  abbrev pub all_apart : List (SwingTradeRecord N) → List (SwingPosition N) → Bool
  all_apart trades positions = all (λ p. apart p.stock_code p.entry_date trades) positions

  abbrev pub distinct : List (SwingPosition N) → Bool
  distinct [] = true
  distinct (p ∷ positions) = not (is_held positions p.stock_code) && distinct positions

  -- what is kept by a book: positions of different stocks, and waits between trades and positions of one stock
  abbrev pub Waited : List (SwingPosition N) → List (SwingTradeRecord N) → Type 0
  Waited positions trades =
      (spaced trades ≡ true) × (all_apart trades positions ≡ true) × (distinct positions ≡ true)

  pub all_apart-cons :
      (t : SwingTradeRecord N) (trades : List (SwingTradeRecord N)) (ps : List (SwingPosition N))
      → is_held ps t.stock_code ≡ false
      → all_apart trades ps ≡ true
      → all_apart (t ∷ trades) ps ≡ true
  all_apart-cons t trades [] free apart_all = refl
  all_apart-cons t trades (p ∷ ps) free apart_all =
      ground (arith, same_comm t.stock_code p.stock_code, all_apart-cons t trades ps)

  pub is_held-append :
      (ps : List (SwingPosition N)) (q : SwingPosition N) (code : String)
      → is_held (ps ++ q ∷ []) code ≡ (is_held ps code || same q.stock_code code)
  is_held-append [] q code = ground arith
  is_held-append (p ∷ ps) q code = ground (arith, is_held-append ps q code)

  pub distinct-append :
      (ps : List (SwingPosition N)) (q : SwingPosition N)
      → distinct ps ≡ true
      → is_held ps q.stock_code ≡ false
      → distinct (ps ++ q ∷ []) ≡ true
  distinct-append [] q differ free = refl
  distinct-append (p ∷ ps) q differ free = ground (
    arith,
    is_held-append ps q p.stock_code,
    same_comm q.stock_code p.stock_code,
    distinct-append ps q,
  )

  pub all_apart-append :
      (trades : List (SwingTradeRecord N)) (ps : List (SwingPosition N)) (q : SwingPosition N)
      → all_apart trades ps ≡ true
      → apart q.stock_code q.entry_date trades ≡ true
      → all_apart trades (ps ++ q ∷ []) ≡ true
  all_apart-append trades [] q apart_all new = ground (arith, new)
  all_apart-append trades (p ∷ ps) q apart_all new = ground (arith, all_apart-append trades ps q)
