-- ===== src/Orders/Checkout.antt =====
-- `OrderService.checkout` of src/vertical/restaurants/order.service.ts.
pub mod Keeps
pub mod Spares
pub mod Settles
pub mod Repeat
use peer_core.Base.{
  [], ◌∷◌, none, some, true, false, Option, ◌++◌, any, str_eq, ◌||◌, ◌+◌, ◌&&◌, if◌then◌else◌, ◌==◌,
  not, ltb, truthy, or_default, ◌*◌, Bool, String, ℕ, List,
}
use peer_core.Orders.Tables.{
  CatalogItem-scoped, MenuAvailability-scoped, Branch-scoped, Promotion-scoped, Order-scoped,
  OrderItem-scoped, OrderEvent-scoped, LoyaltyAccount-scoped, Payment, authorize, OrderItem,
  OrderType, Tables, OrderEvent, Order,
}
use peer_core.Action.{
  ok, err, or_err, lift, consult, execute, query, statement, throw_if, ◌>>=◌, ◌>>◌, call, Result,
  pure,
}
use peer_core.Base.Int.{pos, ltb_ℤ, ℤ}
use peer_core.Orders.Promo.{resolve_promo}
use peer_core.Errors.{OrderCode, order_error, unique_violation, check_violation, database}
use peer_core.Tenancy.Rows.{select_one}
use peer_core.Payments.{authorized, PaymentIntent}
use peer_core.Orders.State.{new}
use peer_core.Orders.Lines.{resolve_lines, Snapshot, Resolved, CheckoutLine}
use peer_core.Orders.Pricing.{compute_totals, PricedLine, OrderTotals, PriceLineInput}
use peer_core.Orders.Services.{on_psp, OrderAction, Services}
use peer_core.Orders.Hours.{is_open_at, Hours}
use peer_core.Tenancy.{with_tenant, Uuid}

pub record CheckoutInput : Type 0 where
  pub branch_id : Uuid
  pub order_type : OrderType
  pub lines : List CheckoutLine
  pub delivery_fee_minor : Option ℤ
  pub idempotency_key : Option String
  pub diner_phone : Option String
  pub promo_code : Option String
  pub scheduled_for : Option ℕ

-- What the run draws from outside: the clock, which is read twice, the id and the stamp that
-- Postgres gives the order, and the two UUIDs of `randomUUID()`.
pub record Draws : Type 0 where
  pub now_ms : ℕ
  pub when_ms : ℕ
  pub order_id : Uuid
  pub created_at : ℕ
  pub key_uuid : String
  pub ref_uuid : String

abbrev pub schedule_horizon_ms : ℕ
schedule_horizon_ms = 60 * 24 * 60 * 60 * 1000

abbrev has_key : Uuid → String → Order → Bool
has_key t key o =
    (o.tenant_id == t) && (elim o.idempotency_key [ none ↦ false | some k ↦ str_eq k key ])

-- The order of an earlier checkout with the same key; an empty key is no key.
unfoldable pub existing_order : Uuid → Option String → Tables → Option Order
existing_order t key db = elim (truthy key) [
  | none ↦ none
  | some k ↦ select_one t (has_key t k) db.orders
]

abbrev pub is_empty : List CheckoutLine → Bool
is_empty [] = true
is_empty (l ∷ ls) = false

-- `t < nowMs - 60_000 || t > nowMs + SCHEDULE_HORIZON_MS`; both throw `bad_schedule`.
abbrev pub is_bad_schedule : ℕ → Option ℕ → Bool
is_bad_schedule now_ms none = false
is_bad_schedule now_ms (some at) = ltb (at + 60000) now_ms || ltb (now_ms + schedule_horizon_ms) at

-- A branch with no hours at all is always open.
abbrev pub is_closed : Hours → ℕ → Bool
is_closed [] at = false
is_closed (w ∷ ws) at = not (is_open_at (w ∷ ws) at)

abbrev pub fee_of : CheckoutInput → ℤ
fee_of input = or_default input.delivery_fee_minor (pos 0)

abbrev pub new_order : Uuid → CheckoutInput → Draws → OrderTotals → String → Option String → Order
new_order t input d totals ref promo_code = record {
  id = d.order_id;
  tenant_id = t;
  branch_id = input.branch_id;
  order_type = input.order_type;
  subtotal_minor = totals.subtotal_minor;
  vat_minor = totals.vat_minor;
  delivery_fee_minor = fee_of input;
  total_minor = totals.total_minor;
  status = new;
  payment_status = authorized;
  payment_ref = some ref;
  idempotency_key = input.idempotency_key;
  diner_phone = input.diner_phone;
  scheduled_for = input.scheduled_for;
  discount_minor = totals.discount_minor;
  promotion_code = promo_code;
  created_at = d.created_at;
}

-- uq_orders_idem: one order for each tenant and key that is not null.
abbrev pub clashes : Order → Order → Bool
clashes o r = elim o.idempotency_key [ none ↦ false | some key ↦ has_key o.tenant_id key r ]

-- The insert into `orders`, with ck_orders_money, the primary key and uq_orders_idem
-- of drizzle/0009_orders.sql.
unfoldable pub insert_order : Order → Tables → Result Order × Tables
insert_order o db =
    if ltb_ℤ o.total_minor (pos 0)
    then (err (database check_violation), db)
    else if any (λ r. (r.id == o.id) || clashes o r) db.orders
    then (err (database unique_violation), db)
    else (ok o, record db { orders = db.orders ++ o ∷ [] })

-- The rows of the loop over `priceLines`; the three lists are of one length.
unfoldable pub item_rows :
    Uuid → Uuid → List PriceLineInput → List Snapshot → List PricedLine → List OrderItem
item_rows t order_id (l ∷ ls) (s ∷ ss) (p ∷ ps) =
    record {
      tenant_id = t;
      order_id = order_id;
      item_id = s.item_id;
      name = s.name;
      unit_price_minor = p.effective_unit_minor;
      quantity = l.quantity;
      modifiers = l.modifiers;
      line_total_minor = p.line_total_minor;
    }
    ∷ item_rows t order_id ls ss ps
item_rows t order_id _ _ _ = []

abbrev pub placed_event : Uuid → Uuid → OrderEvent
placed_event t order_id = record {
  tenant_id = t;
  order_id = order_id;
  from_status = none;
  to_status = new;
}

abbrev authorized_row : Uuid → Uuid → String → ℤ → String → Payment
authorized_row t order_id provider total_minor ref = record {
  tenant_id = t;
  order_id = order_id;
  action = authorize;
  amount_minor = total_minor;
  provider = provider;
  provider_ref = some ref;
  status = authorized;
}

module _ (s : Services) where
  -- The discount and the code to store.
  abbrev resolve_promo_of : Uuid → Option String → ℕ → OrderAction s (ℕ × Option String)
  resolve_promo_of t none subtotal_minor = pure (0, none)
  resolve_promo_of t (some code) subtotal_minor = do
    promo ← resolve_promo t code subtotal_minor
    pure (promo.discount_minor, some promo.code)

  abbrev authorization : Uuid → CheckoutInput → Draws → ℤ → OrderAction s PaymentIntent
  authorization t input d total = call (
      on_psp (
        s.payments.authorize d.ref_uuid (record {
          amount_minor = total;
          currency = "SAR";
          idempotency_key = or_default input.idempotency_key d.key_uuid;
        })))

  -- The rows of a new order, once its payment is authorized.
  pub record_order :
      Uuid
      → CheckoutInput
      → Draws
      → Resolved
      → OrderTotals
      → String
      → Option String
      → OrderAction s Order
  unfolding insert_order item_rows
  record_order t input d resolved totals ref promo_code = do
    order ← statement (insert_order (new_order t input d totals ref promo_code))
    execute (λ db. record db {
      order_items =
          db.order_items
          ++ item_rows t order.id resolved.price_lines resolved.snapshots totals.lines;
    })
    execute (λ db. record db { order_events = db.order_events ++ placed_event t order.id ∷ [] })
    execute (λ db. record db {
      payments =
          db.payments ++ authorized_row t order.id s.payments.name totals.total_minor ref ∷ [];
    })
    pure order

  -- The rest of `checkout`, for a request that is no repetition.
  pub place : Uuid → CheckoutInput → Draws → OrderAction s Order
  unfolding record_order
  place t input d = do
    throw_if (is_empty input.lines) (order_error OrderCode.bad_item)
    resolved ← consult (λ db. resolve_lines t db (some input.branch_id) input.lines)
    base ← lift (compute_totals resolved.price_lines (fee_of input) (pos 0))
    branch ← consult (λ db.
        or_err (select_one t (λ b. b.id == input.branch_id) db.branches)
          (order_error OrderCode.bad_item))
    throw_if (ltb base.subtotal_minor branch.min_order_minor) (order_error OrderCode.below_minimum)
    throw_if (is_bad_schedule d.now_ms input.scheduled_for) (order_error OrderCode.bad_schedule)
    throw_if (is_closed branch.hours (or_default input.scheduled_for d.when_ms))
        (order_error OrderCode.closed)
    (discount, promo_code) ← resolve_promo_of t (truthy input.promo_code) base.subtotal_minor
    totals ← lift (compute_totals resolved.price_lines (fee_of input) (pos discount))
    intent ← authorization t input d totals.total_minor
    record_order t input d resolved totals intent.ref promo_code

  abbrev dedupe : Uuid → CheckoutInput → Draws → Option Order → OrderAction s Order
  dedupe t input d (some existing) = pure existing
  dedupe t input d none = place t input d

  unfoldable pub checkout_in : Uuid → CheckoutInput → Draws → OrderAction s Order
  unfolding place
  checkout_in t input d = do
    existing ← query (existing_order t input.idempotency_key)
    dedupe t input d existing

  unfoldable pub checkout : String → CheckoutInput → Draws → OrderAction s Order
  checkout tenant_id input d = with_tenant tenant_id (λ t. checkout_in t input d)
