-- ===== src/Orders/Samples.antt =====
-- A small database of one branch, for the tests.
use peer_core.Base.{[], ◌∷◌, none, some, false, refl, arith, String}
use peer_core.Orders.Tables.{
  CatalogItem-scoped, MenuAvailability-scoped, Branch-scoped, Promotion-scoped, Order-scoped,
  OrderItem-scoped, OrderEvent-scoped, LoyaltyAccount-scoped, pickup, available, Tables, Branch,
  CatalogItem, Order,
}
use peer_core.Base.Int.{pos}
use peer_core.Orders.Pricing.{integer}
use peer_core.Orders.State.{OrderStatus, accepted, new}
use peer_core.Orders.Invariant.{IsConsistent}
use peer_core.Payments.{captured, PaymentStatus, authorized, PaymentIntent}
use peer_core.Orders.Keys.{UniqueIds}
use peer_core.Payments.Fake.{fake, FakeState}
use peer_core.Orders.Services.{Services, OrderWorld}
use peer_core.Tenancy.{Uuid}
use peer_core.Orders.Checkout.{Draws, CheckoutInput}

abbrev pub tenant : String
tenant = "00000000-0000-0000-0000-000000000007"

abbrev pub services : Services
services = record { payments = fake; NotifierState = Unit {0}; notifier = none }

abbrev pub uuid_text : Uuid → String
uuid_text k = "order"

abbrev pub item : CatalogItem
item = record {
  id = 30;
  tenant_id = 7;
  name = "kabsa";
  description = none;
  price_minor = 2000;
  currency = "SAR";
  modifier_groups = none;
  allergens = none;
  status = available;
}

abbrev pub branch : Branch
branch = record {
  id = 20;
  tenant_id = 7;
  name = "Main";
  address = none;
  phone = none;
  hours = [];
  min_order_minor = 1000;
}

-- An order of 2000 halalas with VAT.
abbrev pub order_at : Uuid → Uuid → OrderStatus → PaymentStatus → Order
order_at t k st p = record {
  id = k;
  tenant_id = t;
  branch_id = 20;
  order_type = pickup;
  subtotal_minor = 2000;
  vat_minor = 300;
  delivery_fee_minor = pos 0;
  total_minor = pos 2300;
  status = st;
  payment_status = p;
  payment_ref = some "auth_a";
  idempotency_key = some "key";
  diner_phone = none;
  scheduled_for = none;
  discount_minor = 0;
  promotion_code = none;
  created_at = 0;
}

abbrev pub order : Order
order = order_at 7 1 new authorized

abbrev pub cooking : Order
cooking = order_at 7 2 accepted captured

-- The same id space, another tenant.
abbrev pub foreign_order : Order
foreign_order = order_at 8 3 new authorized

abbrev pub tables : Tables
tables = record {
  catalog_items = item ∷ [];
  menu_availability = [];
  branches = branch ∷ [];
  promotions = [];
  orders = order ∷ cooking ∷ foreign_order ∷ [];
  order_items = [];
  order_events = [];
  payments = [];
  loyalty_accounts = [];
  loyalty_ledger = [];
}

abbrev pub intent : PaymentIntent
intent = record { ref = "auth_a"; status = authorized; amount_minor = pos 2300 }

abbrev pub held : FakeState
held = record {
  intents = ("auth_a", intent) ∷ [];
  by_key = ("key", "auth_a") ∷ [];
  fail_next = false;
}

abbrev pub world : OrderWorld services
world = record { db = tables; outside = record { psp = held; notes = tt } }

abbrev pub request : CheckoutInput
request = record {
  branch_id = 20;
  order_type = pickup;
  lines = record { item_id = 30; quantity = integer (pos 2); modifiers = none } ∷ [];
  delivery_fee_minor = none;
  idempotency_key = some "fresh";
  diner_phone = none;
  promo_code = none;
  scheduled_for = none;
}

abbrev pub draws : Draws
draws = record {
  now_ms = 1700000000000;
  when_ms = 1700000000000;
  order_id = 4;
  created_at = 0;
  key_uuid = "u1";
  ref_uuid = "u2";
}

tables-IsConsistent_keys : UniqueIds tables.orders
tables-IsConsistent_keys = ground arith

pub tables-IsConsistent : IsConsistent tables
tables-IsConsistent = record {
  keys = tables-IsConsistent_keys;
  settled = (λ _. refl, (λ _. refl, (λ _. refl, tt)));
}
