-- ===== src/Orders/Checkout/Keeps.antt =====
-- A way to prove that `checkout` of src/vertical/restaurants/order.service.ts keeps a property of the
-- tables: each of its writes does.
use peer_core.Base.{
  [], ◌∷◌, none, some, Option, Bool, truthy, or_default, ltb, not, ℕ, ◌==◌, String, ◌++◌, List,
}
use peer_core.Orders.Tables.{
  CatalogItem-scoped, MenuAvailability-scoped, Branch-scoped, Promotion-scoped, Order-scoped,
  OrderItem-scoped, OrderEvent-scoped, LoyaltyAccount-scoped, Branch, Promotion,
}
use peer_core.Action.{ok, throw_if, or_err, Result}
use peer_core.Base.Int.{pos, ℤ}
use peer_core.Orders.Pricing.{compute_totals}
use peer_core.Orders.Lines.{resolve_lines}
use peer_core.Tenancy.Rows.{select_one}
use peer_core.Orders.Services.{Outside}
use peer_core.Action.Keeps.{
  Keeps-execute, Keeps-call, Keeps-query, Keeps-throw_if, Keeps-consult, Keeps-lift,
  Keeps-statement, Keeps, ◌▹◌,
}
use peer_core.Errors.{order_error, OrderCode}
use peer_core.Orders.Promo.{discount_of, is_used_up, has_code, redeem, resolve_promo}
use peer_core.Tenancy.{Uuid}
use peer_core.Orders.Checkout.{
  authorization, is_closed, is_bad_schedule, fee_of, existing_order, is_empty, place, dedupe,
  checkout_in, authorized_row, placed_event, new_order, OrderTotals, Resolved, resolve_promo_of,
  record_order, Draws, PricedLine, Snapshot, CheckoutInput, PriceLineInput, Services, Order, Tables,
  item_rows, insert_order,
}

-- The writes of a checkout for tenant `t`.
pub record KeepsWrites (t : Uuid) (P : Tables → Type 0) : Type 0 where
  pub redeems : (promo : Promotion) (db : Tables) → P db → P (redeem t promo db)
  pub inserts :
      (input : CheckoutInput) (d : Draws) (totals : OrderTotals) (ref : String)
      (promo_code : Option String) (db : Tables)
      → P db
      → P (insert_order (new_order t input d totals ref promo_code) db).1
  pub items :
      (order_id : Uuid) (ls : List PriceLineInput) (ss : List Snapshot) (ps : List PricedLine)
      (db : Tables)
      → P db
      → P (record db { order_items = db.order_items ++ item_rows t order_id ls ss ps })
  pub events :
      (order_id : Uuid) (db : Tables)
      → P db
      → P (record db { order_events = db.order_events ++ placed_event t order_id ∷ [] })
  pub pays :
      (order_id : Uuid) (provider : String) (total : ℤ) (ref : String) (db : Tables)
      → P db
      → P (record db {
        payments = db.payments ++ authorized_row t order_id provider total ref ∷ [];
      })

abbrev promo_of : Uuid → String → Tables → Result Promotion
promo_of t code db =
    or_err (select_one t (has_code t code) db.promotions) (order_error OrderCode.bad_promo)

abbrev pub lines_of : Uuid → CheckoutInput → Tables → Result Resolved
lines_of t input db = resolve_lines t db (some input.branch_id) input.lines

abbrev pub branch_of : Uuid → CheckoutInput → Tables → Result Branch
branch_of t input db =
    or_err (select_one t (λ b. b.id == input.branch_id) db.branches)
      (order_error OrderCode.bad_item)

module _ (t : Uuid) {P : Tables → Type 0} (s : Services) (input : CheckoutInput) (d : Draws)
    (writes : KeepsWrites t P) where
  guard :
      (b : Bool) (c : OrderCode)
      → Keeps {X = Outside s.payments.State s.NotifierState} P
          (throw_if {D = Tables} b (order_error c))
  guard b c = Keeps-throw_if b (order_error c)

  redeemed-Keeps :
      (code : String) (subtotal_minor : ℕ)
      → Keeps {X = Outside s.payments.State s.NotifierState} P (resolve_promo t code subtotal_minor)
  unfolding resolve_promo
  redeemed-Keeps code subtotal_minor = Keeps-consult (promo_of t code) ▹ λ promo.
      guard (not promo.active) OrderCode.bad_promo ▹ λ _.
      guard (ltb subtotal_minor promo.min_order_minor) OrderCode.bad_promo ▹ λ _.
      guard (is_used_up promo) OrderCode.bad_promo ▹ λ _.
      Keeps-execute (redeem t promo) (writes.redeems promo) ▹ λ _. Keeps-lift (
        ok (record {
          discount_minor = discount_of promo.kind promo.value subtotal_minor;
          code = promo.code;
        }))

  promo-Keeps :
      (code : Option String) (subtotal_minor : ℕ)
      → Keeps P (resolve_promo_of s t code subtotal_minor)
  promo-Keeps none subtotal_minor = Keeps-lift (ok (0, none))
  promo-Keeps (some code) subtotal_minor = redeemed-Keeps code subtotal_minor ▹ λ promo.
      Keeps-lift (ok (promo.discount_minor, some promo.code))

  record_order-Keeps :
      (resolved : Resolved) (totals : OrderTotals) (ref : String) (promo_code : Option String)
      → Keeps P (record_order s t input d resolved totals ref promo_code)
  unfolding record_order
  record_order-Keeps resolved totals ref promo_code =
      Keeps-statement (insert_order (new_order t input d totals ref promo_code))
        (writes.inserts input d totals ref promo_code)
      ▹ λ order.
          Keeps-execute _
            (writes.items order.id resolved.price_lines resolved.snapshots totals.lines)
          ▹ λ _. Keeps-execute _ (writes.events order.id) ▹ λ _.
              Keeps-execute _ (writes.pays order.id s.payments.name totals.total_minor ref) ▹ λ _.
              Keeps-lift (ok order)

  authorization-Keeps : (total : ℤ) → Keeps P (authorization s t input d total)
  authorization-Keeps total = Keeps-call _

  place-Keeps : Keeps P (place s t input d)
  unfolding place
  place-Keeps = guard (is_empty input.lines) OrderCode.bad_item ▹ λ _.
      Keeps-consult (lines_of t input) ▹ λ resolved.
      Keeps-lift (compute_totals resolved.price_lines (fee_of input) (pos 0)) ▹ λ base.
      Keeps-consult (branch_of t input) ▹ λ branch.
      guard (ltb base.subtotal_minor branch.min_order_minor) OrderCode.below_minimum ▹ λ _.
      guard (is_bad_schedule d.now_ms input.scheduled_for) OrderCode.bad_schedule ▹ λ _.
      guard (is_closed branch.hours (or_default input.scheduled_for d.when_ms)) OrderCode.closed
      ▹ λ _. promo-Keeps (truthy input.promo_code) base.subtotal_minor ▹ λ promo.
          Keeps-lift (compute_totals resolved.price_lines (fee_of input) (pos promo.0)) ▹ λ totals.
          authorization-Keeps totals.total_minor ▹ λ intent.
          record_order-Keeps resolved totals intent.ref promo.1

  dedupe-Keeps : (existing : Option Order) → Keeps P (dedupe s t input d existing)
  dedupe-Keeps (some o) = Keeps-lift (ok o)
  dedupe-Keeps none = place-Keeps

  pub checkout_in-Keeps : Keeps P (checkout_in s t input d)
  unfolding checkout_in
  checkout_in-Keeps = Keeps-query (existing_order t input.idempotency_key) ▹ dedupe-Keeps
