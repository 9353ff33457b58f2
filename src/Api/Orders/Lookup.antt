-- ===== src/Api/Orders/Lookup.antt =====
-- The look-up of the original order in the routes of app/api/router_order.py.
use autotrading.Prelude.{
  ◌&&◌, Bool-cases, true, false, inl, inr, ℕ, ◌≡◌, ◌<◌, refl, ap, ◌∙◌, String, Option, some, none,
  Bool, [], ◌∷◌, arith, truthy, ltb,
}
use autotrading.Domain.{status_in, accepted, partial_filled}
use autotrading.Orders.Row.{Order}
use autotrading.Orders.Repository.{get_order_by_id}
use autotrading.Orders.Updates.{get_order_by_id-id}
use autotrading.Worker.Effects.{World, Reply, reply, error}
use autotrading.Api.Http.{
  Response, answer, http_exception, server_error, ◌>>=◌, await, query, check,
}
use autotrading.Api.Orders.{
  RouteEnv, is_amendable_kind, find_original, validate_original_order_for_modify_cancel,
}

module _ (env : RouteEnv) (w : World) where
  -- What the look-up of an original may come to.
  unfoldable pub Found : Response Order × World → Type 0
  Found (http_exception n, w') = w' ≡ w
  Found (server_error e, w') = w' ≡ w
  Found (answer original, w') =
      (w' ≡ w)
      × (get_order_by_id original.id w.table ≡ some original)
      × (status_in original.status (accepted ∷ partial_filled ∷ []) ≡ true)
      × (truthy original.broker_order_no && truthy original.broker_org_no ≡ true)
      × (0 < original.remaining_qty)

  is_open : Order → Bool
  is_open original =
      is_amendable_kind original.order_kind
      && status_in original.status (accepted ∷ partial_filled ∷ [])
      && truthy original.broker_order_no
      && truthy original.broker_org_no
      && ltb 0 original.remaining_qty

  validate-open :
      (original : Order)
      → is_open original ≡ true
      → validate_original_order_for_modify_cancel (some original) ≡ answer original
  unfolding is_open validate_original_order_for_modify_cancel
  validate-open original ok = ground (arith, ok)

  validate-closed :
      (original : Order)
      → is_open original ≡ false
      → (n : ℕ) × (validate_original_order_for_modify_cancel (some original) ≡ http_exception n)
  unfolding is_open validate_original_order_for_modify_cancel
  validate-closed original ok = (400, ground (arith, ok))

  open_status :
      (o : Order) → is_open o ≡ true → status_in o.status (accepted ∷ partial_filled ∷ []) ≡ true
  unfolding is_open
  open_status o ok = ground (arith, ok)

  open_numbers :
      (o : Order) → is_open o ≡ true → truthy o.broker_order_no && truthy o.broker_org_no ≡ true
  unfolding is_open
  open_numbers o ok = ground (arith, ok)

  open_rest : (o : Order) → is_open o ≡ true → 0 < o.remaining_qty
  unfolding is_open
  open_rest o ok = ground (arith, ok)

  pub find_original-Found : (id : String) → Found (find_original env id w)
  unfolding find_original Found
  find_original-Found id = read (env.read_id id)
    where
      looked_up :
          (key : ℕ) (o : Option Order)
          → get_order_by_id key w.table ≡ o
          → Found (validate_original_order_for_modify_cancel o, w)
      looked_up key none e = unfold validate_original_order_for_modify_cancel Found in refl
      looked_up key (some original) e = elim (Bool-cases (is_open original)) [
        | inl ok ↦ rw (validate-open original ok) (
          refl,
          ap (λ k. get_order_by_id k w.table) (get_order_by_id-id key w.table original e) ∙ e,
          open_status original ok,
          open_numbers original ok,
          open_rest original ok,
        )
        | inr closed ↦ rw (validate-closed original closed).1 (unfold Found in refl)
      ]

      read :
          (r : Reply ℕ)
          → Found (
              (await r >>= λ key. query (get_order_by_id key) >>= λ o.
              check (validate_original_order_for_modify_cancel o))
                w)
      read (error e) = unfold Found in refl
      read (reply key) = looked_up key (get_order_by_id key w.table) refl
