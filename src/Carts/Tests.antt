-- ===== src/Carts/Tests.antt =====
-- A cart of one line, checked out on the sample tables of orders.
use peer_core.Carts.{Cart-scoped, Shop, CartCheckout, Cart, active, add_item}
use peer_core.Orders.Services.{Outside}
use peer_core.Tenancy.{uuid_of, with_tenant}
use peer_core.Base.{◌≡◌, [], ◌∷◌, none, some, refl}
use peer_core.Action.{World, err}
use peer_core.Base.Int.{pos}
use peer_core.Orders.Samples.{tenant, services, tables, world}
use peer_core.Orders.Pricing.{integer}
use peer_core.Orders.Tables.{pickup}
use peer_core.Errors.{database, check_violation}

abbrev cart : Cart
cart = record { id = 5; tenant_id = 7; branch_id = 20; status = active }

abbrev shop : World Shop (Outside services.payments.State services.NotifierState)
shop = record {
  db = record {
    base = tables;
    carts = cart ∷ [];
    cart_items =
        record { tenant_id = 7; cart_id = 5; item_id = 30; quantity = pos 2; modifiers = [] } ∷ [];
  };
  outside = world.outside;
}

abbrev opts : CartCheckout
opts = record {
  branch_id = 20;
  order_type = pickup;
  diner_phone = none;
  idempotency_key = some "fresh";
  delivery_fee_minor = none;
}

no_portions :
    (add_item tenant 5
      (record { item_id = 30; quantity = integer (pos 0); modifiers = none })
      shop).0
    ≡ err (database check_violation)
unfolding add_item with_tenant uuid_of
no_portions = refl
