-- ===== src/Rebalance/Waiting.antt =====
-- app/strategy/runtime/order_generator.py: how the wait for the fills ends, and what it cancels.
use autotrading.Prelude.{
  ℕ, suc, ◌+◌, ◌*◌, ◌≤◌, ◌<◌, ◌≡◌, refl, some, true, false, List, [], ◌∷◌, all, any, count, length,
  length-append, leb, arith, Bool-cases, inl, inr, is_some, All,
}
use autotrading.Domain.{filled, canceled, failed, timeout}
use autotrading.Orders.Row.{Order}
use autotrading.Orders.Repository.{Table, create_order}
use autotrading.Worker.Effects.{World, next, process_order}
use autotrading.Worker.Track.{microseconds}
use autotrading.Rebalance.Fills.{
  FillResult, Poll, has, is_over, tally, poll_fills, poll_interval, is_unfilled, fill_cancel_order,
  cancel_rows, cancel_unfilled_orders, rows_of,
}

counts-all :
    (rows : List Order)
    → all is_over rows ≡ true
    → count (has filled) rows + count (has canceled) rows + count (has failed) rows ≡ length rows
counts-all [] h = refl
counts-all (o ∷ rows) h = ground (arith, counts-all rows)

-- If the wait has a result without time-out, it counts the rows of a look at which each order had
-- ended: filled, canceled and failed together are all of them.
pub poll_fills-is_over :
    (fill_timeout_seconds : ℕ) (polls : List Poll) (result final : FillResult)
    → poll_fills fill_timeout_seconds polls result ≡ some final
    → final.timed_out ≡ false
    → (rows : List Order) × (all is_over rows ≡ true)
      × (final.filled_orders + final.canceled_orders + final.failed_orders ≡ length rows)
unfolding poll_fills tally
poll_fills-is_over t [] result final e done = ground (arith, e)
poll_fills-is_over t (p ∷ polls) result final e done =
    elim (Bool-cases (leb (microseconds t) p.elapsed)) [
      | inl late ↦ ground (arith, e, done, late)
      | inr early ↦ elim (Bool-cases (all is_over p.rows)) [
        | inl over ↦ (p.rows, over, counted early over)
        | inr waiting ↦
            poll_fills-is_over t polls (tally p.rows result) final (later early waiting) done
      ]
    ]
  where
    counted :
        leb (microseconds t) p.elapsed ≡ false
        → all is_over p.rows ≡ true
        → final.filled_orders + final.canceled_orders + final.failed_orders ≡ length p.rows
    counted early over = ground (arith, e, early, over, counts-all p.rows)

    later :
        leb (microseconds t) p.elapsed ≡ false
        → all is_over p.rows ≡ false
        → poll_fills t polls (tally p.rows result) ≡ some final
    later early waiting = ground (arith, e, early, waiting)

-- Polls as the loop makes them: the pause after each look has passed before the next.
abbrev pub Spaced : ℕ → List Poll → Type 0
Spaced from [] = Unit
Spaced from (p ∷ polls) =
    (from ≤ p.elapsed) × Spaced (p.elapsed + microseconds (poll_interval p.elapsed)) polls

ends-from :
    (t from : ℕ) (polls : List Poll) (result : FillResult)
    → Spaced from polls
    → 0 < length polls
    → microseconds t + microseconds 3 ≤ from + microseconds 3 * length polls
    → is_some (poll_fills t polls result) ≡ true
unfolding poll_fills
ends-from t from [] result h some_poll enough = ground arith
ends-from t from (p ∷ polls) result h some_poll enough =
    elim (Bool-cases (leb (microseconds t) p.elapsed)) [
      | inl e ↦ rw e refl
      | inr e ↦ elim (Bool-cases (all is_over p.rows)) [
        | inl d ↦ rw (e, d) refl
        | inr d ↦
            let early : p.elapsed < microseconds t = ground arith in
            let pause : microseconds 3 ≤ microseconds (poll_interval p.elapsed) = ground arith in
            rw (e, d)
              (ends-from t (p.elapsed + microseconds (poll_interval p.elapsed)) polls
                (tally p.rows result) h.1 (omega (arith, enough, h.0, early))
                (omega (arith, enough, h.0, pause)))
      ]
    ]

-- For polls that are spaced as the loop spaces them, and that are at least one more than a third
-- of the limit in seconds, the wait has a result.
pub poll_fills-is_some :
    (fill_timeout_seconds : ℕ) (polls : List Poll) (result : FillResult)
    → Spaced 0 polls
    → fill_timeout_seconds + 3 ≤ 3 * length polls
    → is_some (poll_fills fill_timeout_seconds polls result) ≡ true
poll_fills-is_some t polls result h enough =
    ends-from t 0 polls result h (omega (arith, enough)) (omega (arith, enough))

-- An order that worker 2 has given up, and that stays so, keeps the wait from being over.
abbrev pub HasTimeout : List Poll → Type 0
HasTimeout polls = All (λ p. any (has timeout) p.rows ≡ true) polls

has_timeout-lem : (rows : List Order) → any (has timeout) rows ≡ true → all is_over rows ≡ false
has_timeout-lem [] h = ground (arith, h)
has_timeout-lem (o ∷ rows) h = ground (arith, has_timeout-lem rows, h)

-- If at every look one of the orders waited for has the status TIMEOUT, and the wait has a result,
-- that result is a time-out.
pub timeout_waits :
    (fill_timeout_seconds : ℕ) (polls : List Poll) (result final : FillResult)
    → HasTimeout polls
    → poll_fills fill_timeout_seconds polls result ≡ some final
    → final.timed_out ≡ true
unfolding poll_fills
timeout_waits t [] result final h e = ground (arith, e)
timeout_waits t (p ∷ polls) result final h e =
    let open_row = has_timeout-lem p.rows h.0 in
    ground (arith, open_row, timeout_waits t polls (tally p.rows result) final h.1)

-- one more row and one more message for each of `k` orders
abbrev Grown : ℕ → World → World → Type 0
Grown k w w' = (length w'.table ≡ length w.table + k) × (length w'.queue ≡ length w.queue + k)

cancel_rows-Grown :
    (new_id : ℕ → ℕ) (n : ℕ) (rows : List Order) (w : World)
    → ((cancel_rows new_id n rows w).0 ≡ next (n + count is_unfilled rows))
      × Grown (count is_unfilled rows) w (cancel_rows new_id n rows w).1
unfolding cancel_rows
cancel_rows-Grown new_id n [] w = (ground arith, (omega arith, omega arith))
cancel_rows-Grown new_id n (o ∷ rows) w = elim (Bool-cases (is_unfilled o)) [
  | inl e ↦
      let i = new_id n in
      let w' = record w {
        table = create_order (fill_cancel_order i o) w.table;
        queue = process_order i 0 ∷ w.queue;
      } in
      let rest = cancel_rows-Grown new_id (suc n) rows w' in
      rw e (
        ground (arith, rest.0),
        (omega (arith, rest.1.0, one_more i w.table), omega (arith, rest.1.1)),
      )
  | inr e ↦
      let rest = cancel_rows-Grown new_id n rows w in
      rw e (ground (arith, rest.0), (omega (arith, rest.1.0), omega (arith, rest.1.1)))
]
  where
    one_more : (i : ℕ) (t : Table) → length (create_order (fill_cancel_order i o) t) ≡ length t + 1
    one_more i t = unfold create_order in length-append t (fill_cancel_order i o ∷ [])

-- The cancelling after a time-out commits one more row, and queues one more message, for each of
-- the orders that is neither filled, failed nor canceled and has shares left, and answers their
-- number.
pub cancel_unfilled_orders-count :
    (new_id : ℕ → ℕ) (order_ids : List ℕ) (w : World)
    → let k = count is_unfilled (rows_of order_ids w.table) in
      let after = cancel_unfilled_orders new_id order_ids w in
      (after.0 ≡ next k)
      × (length after.1.saved ≡ length w.table + k)
      × (length after.1.queue ≡ length w.queue + k)
unfolding cancel_unfilled_orders
cancel_unfilled_orders-count new_id order_ids w =
    let rows = rows_of order_ids w.table in
    let (told, (more_rows, more_messages)) = cancel_rows-Grown new_id 0 rows w in
    (ground (arith, told), ground (arith, told, more_rows), ground (arith, told, more_messages))
