-- ===== src/Orders/Statements.antt =====
-- What each statement of app/repository/order_repository.py does to the row with an id.
use mathlib.Core.Option
use autotrading.Prelude.{ℕ, ◌≡◌, ◌≢◌, refl, none, some, false, List, [], ◌∷◌, arith, if◌then◌else◌}
use autotrading.Domain.{OrderStatus, processing, failed, status_eq, status_in}
use autotrading.Orders.Row.{Order}
use autotrading.Orders.Repository.{
  Table, SubmitResult, TrackingResult, FailureResult, get_or_keep, has_status, get_order_by_id,
  create_order, update_order_status, update_order_submit_result, update_order_tracking_result,
  update_order_failure_result,
}
use autotrading.Orders.Updates.{
  changed, UniqueIds, test_row, rowcount, update_where-none, update_where-UniqueIds,
  get_order_by_id-update_where, get_order_by_id-id,
}

-- Of two runs of the same guarded status update, one after the other, the second changes no row,
-- if the new status is none of those expected.
pub update_order_status_once :
    (i : ℕ) (expected : List OrderStatus) (new_status : OrderStatus) (t : Table)
    → status_in new_status expected ≡ false
    → (update_order_status i expected new_status (update_order_status i expected new_status t).0).1
      ≡ false
unfolding update_order_status
update_order_status_once i expected new_status [] h = refl
update_order_status_once i expected new_status (o ∷ t) h =
    ground (arith, update_order_status_once i expected new_status t h)

module _ (i : ℕ) (expected : List OrderStatus) (new_status : OrderStatus) (t : Table) where
  pub update_order_status-count :
      UniqueIds t
      → (update_order_status i expected new_status t).1
        ≡ test_row (λ o. status_in o.status expected) (get_order_by_id i t)
  unfolding update_order_status
  update_order_status-count u =
      rowcount i (λ o. status_in o.status expected) (λ o. record o { status = new_status }) t u

  pub update_order_status-none :
      (update_order_status i expected new_status t).1 ≡ false
      → (update_order_status i expected new_status t).0 ≡ t
  unfolding update_order_status
  update_order_status-none =
      update_where-none (has_status i expected) (λ o. record o { status = new_status }) t

  pub update_order_status-UniqueIds :
      UniqueIds t → UniqueIds (update_order_status i expected new_status t).0
  unfolding update_order_status
  update_order_status-UniqueIds =
      update_where-UniqueIds (has_status i expected) (λ o. record o { status = new_status }) t
        (λ o. refl)

  pub get_order_by_id-update_order_status :
      get_order_by_id i (update_order_status i expected new_status t).0
      ≡ Option.map
          (changed (has_status i expected) (λ o. record o { status = new_status }))
          (get_order_by_id i t)
  unfolding update_order_status
  get_order_by_id-update_order_status =
      get_order_by_id-update_where i (has_status i expected) (λ o. record o { status = new_status })
        t (λ o. refl)

-- the row that takes the answer of the broker
abbrev pub recorded : Order → SubmitResult → Order
recorded o r = record o {
  rt_cd = r.rt_cd;
  msg_cd = r.msg_cd;
  msg1 = r.msg1;
  broker_org_no = r.broker_org_no;
  broker_order_no = r.broker_order_no;
  submitted_at = r.submitted_at;
  status = r.next_status;
  remaining_qty = get_or_keep r.remaining_qty o.remaining_qty;
}

module _ (i : ℕ) (r : SubmitResult) (t : Table) where
  pub update_order_submit_result-count :
      UniqueIds t
      → (update_order_submit_result i r t).1
        ≡ test_row (λ o. status_in o.status (processing ∷ [])) (get_order_by_id i t)
  unfolding update_order_submit_result
  update_order_submit_result-count u =
      rowcount i (λ o. status_in o.status (processing ∷ [])) (λ o. recorded o r) t u

  pub get_order_by_id-update_order_submit_result :
      get_order_by_id i (update_order_submit_result i r t).0
      ≡ Option.map
          (changed (has_status i (processing ∷ [])) (λ o. recorded o r))
          (get_order_by_id i t)
  unfolding update_order_submit_result
  get_order_by_id-update_order_submit_result =
      get_order_by_id-update_where i (has_status i (processing ∷ [])) (λ o. recorded o r) t
        (λ o. refl)

-- the row that takes what the tracking found
abbrev pub tracked : Order → TrackingResult → Order
tracked o r = record o {
  rt_cd = r.rt_cd;
  msg_cd = r.msg_cd;
  msg1 = r.msg1;
  broker_org_no = r.broker_org_no;
  broker_order_no = r.broker_order_no;
  filled_qty = r.filled_qty;
  remaining_qty = r.remaining_qty;
  avg_fill_price = r.filled_avg_price;
  error_message = if status_eq r.next_status failed then r.msg1 else none;
  status = r.next_status;
}

module _ (i : ℕ) (expected : List OrderStatus) (r : TrackingResult) (t : Table) where
  pub update_order_tracking_result-count :
      UniqueIds t
      → (update_order_tracking_result i expected r t).1
        ≡ test_row (λ o. status_in o.status expected) (get_order_by_id i t)
  unfolding update_order_tracking_result
  update_order_tracking_result-count u =
      rowcount i (λ o. status_in o.status expected) (λ o. tracked o r) t u

  pub get_order_by_id-update_order_tracking_result :
      (j : ℕ)
      → get_order_by_id j (update_order_tracking_result i expected r t).0
        ≡ Option.map (changed (has_status i expected) (λ o. tracked o r)) (get_order_by_id j t)
  unfolding update_order_tracking_result
  get_order_by_id-update_order_tracking_result j =
      get_order_by_id-update_where j (has_status i expected) (λ o. tracked o r) t (λ o. refl)

abbrev failed_row : FailureResult → Order → Order
failed_row r o = record o {
  rt_cd = r.rt_cd;
  msg_cd = r.msg_cd;
  msg1 = r.msg1;
  error_message = r.msg1;
  status = r.next_status;
}

pub get_order_by_id-update_order_failure_result_ne :
    (i j : ℕ) (expected : List OrderStatus) (r : FailureResult) (t : Table) (o : Order)
    → j ≢ i
    → get_order_by_id j t ≡ some o
    → get_order_by_id j (update_order_failure_result i expected r t).0 ≡ some o
unfolding update_order_failure_result
get_order_by_id-update_order_failure_result_ne i j expected r t o ne found =
    rw (get_order_by_id-update_where j (has_status i expected) (failed_row r) t (λ o. refl), found)
      (ground (arith, get_order_by_id-id j t o found))

pub get_order_by_id-create_order :
    (j : ℕ) (new_order : Order) (t : Table) (o : Order)
    → get_order_by_id j t ≡ some o
    → get_order_by_id j (create_order new_order t) ≡ some o
unfolding get_order_by_id create_order
get_order_by_id-create_order j new_order [] o h = cc
get_order_by_id-create_order j new_order (r ∷ t) o h =
    ground (arith, get_order_by_id-create_order j new_order t o)
