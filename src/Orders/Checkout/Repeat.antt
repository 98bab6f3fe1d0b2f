-- ===== src/Orders/Checkout/Repeat.antt =====
-- A checkout that is sent again with its idempotency key
-- (src/vertical/restaurants/order.service.ts).
use peer_core.Base.{
  truthy-some, or_default, ltb, Option-cases, truthy, subst, sym, Bool-cases, ◌∙◌, [], ◌∷◌, some,
  false, refl, inl, inr, Option, ap, eq_iff, arith, ◌++◌, ◌||◌, ◌==◌, any, ◌≡◌, List, String,
}
use peer_core.Orders.Checkout.Keeps.{branch_of, lines_of}
use peer_core.Errors.{order_error, OrderCode}
use peer_core.Orders.Tables.{
  Tables, CatalogItem-scoped, MenuAvailability-scoped, Branch-scoped, Promotion-scoped,
  Order-scoped, OrderItem-scoped, OrderEvent-scoped, LoyaltyAccount-scoped, Order,
}
use peer_core.Action.{lift, consult, throw_if, World, ok, Result-cases}
use peer_core.Base.Int.{ltb_ℤ, pos}
use peer_core.Action.Yields.{◌▸◌, Yields}
use peer_core.Orders.Pricing.{compute_totals, OrderTotals}
use peer_core.Orders.Lines.{Resolved}
use peer_core.Orders.Checkout.{
  is_closed, is_bad_schedule, fee_of, is_empty, authorization, resolve_promo_of, existing_order,
  checkout_in, place, authorized_row, new_order, placed_event, item_rows, has_key, clashes,
  insert_order, record_order, checkout, Draws, CheckoutInput,
}
use peer_core.Tenancy.{Uuid, uuid_of, with_tenant}
use peer_core.Tenancy.Rows.{select_one}
use peer_core.Orders.Services.{Outside, Services}

-- Rows that a new order does not clash with have another key.
select-concat :
    (t : Uuid) (k : String) (o : Order) (os : List Order)
    → o.tenant_id ≡ t
    → o.idempotency_key ≡ some k
    → any (λ r. (r.id == o.id) || clashes o r) os ≡ false
    → select_one t (has_key t k) (os ++ o ∷ []) ≡ some o
unfolding select_one
select-concat t k o [] own key h = ground (arith, eq_iff k k)
select-concat t k o (r ∷ os) own key h = ground (arith, eq_iff k k, select-concat t k o os own key)

module _ (s : Services) (t : Uuid) (input : CheckoutInput) (d : Draws) where
  -- The tables with the rows of a new order.
  abbrev pub with_rows : Order → Resolved → OrderTotals → String → Tables → Tables
  with_rows o resolved totals ref db = record db {
    orders = db.orders ++ o ∷ [];
    order_items =
        db.order_items ++ item_rows t o.id resolved.price_lines resolved.snapshots totals.lines;
    order_events = db.order_events ++ placed_event t o.id ∷ [];
    payments = db.payments ++ authorized_row t o.id s.payments.name totals.total_minor ref ∷ [];
  }

  pub record_order-effect :
      (resolved : Resolved) (totals : OrderTotals) (ref : String) (promo_code : Option String)
      (w w' : World Tables (Outside s.payments.State s.NotifierState)) (o : Order)
      → record_order s t input d resolved totals ref promo_code w ≡ (ok o, w')
      → (o ≡ new_order t input d totals ref promo_code)
        × (any (λ r. (r.id == o.id) || clashes o r) w.db.orders ≡ false)
        × (w'.db ≡ with_rows o resolved totals ref w.db)
  unfolding record_order insert_order
  record_order-effect resolved totals ref promo_code w w' o h =
      let n = new_order t input d totals ref promo_code in
      elim (Bool-cases (ltb_ℤ n.total_minor (pos 0))) [
        | inl low ↦ absurd (ground arith)
        | inr fine ↦ elim (Bool-cases (any (λ r. (r.id == n.id) || clashes n r) w.db.orders)) [
          | inl clash ↦ absurd (ground arith)
          | inr free ↦
              let same : n ≡ o = ground arith in
              let rows : with_rows n resolved totals ref w.db ≡ w'.db = ground arith in
              (
                sym same,
                subst (λ x. any (λ r. (r.id == x.id) || clashes x r) w.db.orders ≡ false) same free,
                sym rows ∙ ap (λ x. with_rows x resolved totals ref w.db) same,
              )
        ]
      ]

module _ (s : Services) (t : Uuid) (input : CheckoutInput) (d : Draws) (k : String)
    (key : input.idempotency_key ≡ some k) where
  record_order-orders :
      (resolved : Resolved) (totals : OrderTotals) (ref : String) (promo_code : Option String)
      → Yields
          (λ o db. select_one t (has_key t k) db.orders ≡ some o)
          (record_order s t input d resolved totals ref promo_code)
  unfolding record_order insert_order
  record_order-orders resolved totals ref promo_code = record {
    at = λ w w' o h.
        let (same, free, rows) =
          record_order-effect s t input d resolved totals ref promo_code w w' o h in
        rw (ap (λ db. db.orders) rows) (
          select-concat t k o w.db.orders (ap (λ x. x.tenant_id) same)
            (ap (λ x. x.idempotency_key) same ∙ key) free);
  }

  place-orders : Yields (λ o db. select_one t (has_key t k) db.orders ≡ some o) (place s t input d)
  unfolding place
  place-orders = throw_if (is_empty input.lines) (order_error OrderCode.bad_item) ▸ λ _.
      consult (lines_of t input) ▸ λ resolved.
      lift (compute_totals resolved.price_lines (fee_of input) (pos 0)) ▸ λ base.
      consult (branch_of t input) ▸ λ branch.
      throw_if (ltb base.subtotal_minor branch.min_order_minor)
        (order_error OrderCode.below_minimum)
      ▸ λ _.
          throw_if (is_bad_schedule d.now_ms input.scheduled_for)
            (order_error OrderCode.bad_schedule)
          ▸ λ _.
              throw_if (is_closed branch.hours (or_default input.scheduled_for d.when_ms))
                (order_error OrderCode.closed)
              ▸ λ _. resolve_promo_of s t (truthy input.promo_code) base.subtotal_minor ▸ λ promo.
                  lift (compute_totals resolved.price_lines (fee_of input) (pos promo.0))
                  ▸ λ totals. authorization s t input d totals.total_minor ▸ λ intent.
                      record_order-orders resolved totals intent.ref promo.1

-- An order that a checkout returned is found again by its key.
existing-order :
    (s : Services) (t : Uuid) (input : CheckoutInput) (d : Draws) (k : String)
    (w w' : World Tables (Outside s.payments.State s.NotifierState)) (o : Order)
    → truthy input.idempotency_key ≡ some k
    → checkout_in s t input d w ≡ (ok o, w')
    → existing_order t input.idempotency_key w'.db ≡ some o
unfolding checkout_in existing_order
existing-order s t input d k w w' o key h =
    elim (Option-cases (select_one t (has_key t k) w.db.orders)) [
      | inl e ↦
          rw (existing_order, key)
            ((place-orders s t input d k (truthy-some input.idempotency_key k key)).at w w' o
              (rw (checkout_in, existing_order, key, e) at h))
      | inr (r, e) ↦
          let same : r ≡ o = ground arith in
          let unmoved : w ≡ w' = ground arith in
          rw (existing_order, key)
            (subst (λ x. select_one t (has_key t k) x.db.orders ≡ some o) unmoved
              (e ∙ ap some same))
    ]

-- After a checkout that returned order `o` for a request with a key that is not empty, a checkout
-- with the same key for the same tenant, whatever else is in its request, returns `o`, places no
-- order, moves no money and leaves the tables as they are.
pub checkout_in-repeat :
    (s : Services) (t : Uuid) (first second : CheckoutInput) (d e : Draws) (k : String)
    (w w' : World Tables (Outside s.payments.State s.NotifierState)) (o : Order)
    → truthy first.idempotency_key ≡ some k
    → second.idempotency_key ≡ first.idempotency_key
    → checkout_in s t first d w ≡ (ok o, w')
    → checkout_in s t second e w' ≡ (ok o, w')
unfolding checkout_in existing_order
checkout_in-repeat s t first second d e k w w' o key same h =
    rw (ap (λ x. existing_order t x w'.db) same ∙ existing-order s t first d k w w' o key h) refl

-- The same of `checkout`, with its transaction, for any tenant id.
pub checkout-repeat :
    (s : Services) (tenant_id : String) (first second : CheckoutInput) (d e : Draws) (k : String)
    (w w' : World Tables (Outside s.payments.State s.NotifierState)) (o : Order)
    → truthy first.idempotency_key ≡ some k
    → second.idempotency_key ≡ first.idempotency_key
    → checkout s tenant_id first d w ≡ (ok o, w')
    → checkout s tenant_id second e w' ≡ (ok o, w')
unfolding checkout with_tenant
checkout-repeat s tenant_id first second d e k w w' o key same h =
    elim (Option-cases (uuid_of tenant_id)) [
      | inl f ↦ absurd (ground arith)
      | inr (t, f) ↦ elim (Result-cases (checkout_in s t first d w).0) [
        | inr (x, g) ↦ absurd (ground (arith, f, g))
        | inl (p, g) ↦
            let body : checkout_in s t first d w ≡ (ok o, w') = ground (arith, f, g) in
            rw
              (
                checkout,
                with_tenant,
                f,
                checkout_in-repeat s t first second d e k w w' o key same body,
              )
              refl
      ]
    ]
