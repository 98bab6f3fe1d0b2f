-- ===== src/Orders/Invariant.antt =====
-- What holds of the table `orders` between two requests to OrderService
-- (src/vertical/restaurants/order.service.ts): ids are unique, and the money of an order stands
-- where its status says.
-- The payment status that goes with an order status.
use peer_core.Tenancy.Rows.{update, select_one}
use peer_core.Payments.{refunded, voided, captured, authorized, PaymentStatus}
use peer_core.Orders.Keys.{
  All-update, update-UniqueIds, All-select_one, with_id, IsLocal, UniqueIds,
}
use peer_core.Orders.State.{
  cancelled, rejected, accepted, new, complete, delivered, picked_up, out_for_delivery, ready,
  preparing, can_transition, OrderStatus,
}
use peer_core.Tenancy.{Uuid}
use peer_core.Base.{◌⊎◌, arith, truthy, All, Bool, ◌≡◌, none, some, true, false}
use peer_core.Orders.Tables.{
  Tables, Order, CatalogItem-scoped, MenuAvailability-scoped, Branch-scoped, Promotion-scoped,
  Order-scoped, OrderItem-scoped, OrderEvent-scoped, LoyaltyAccount-scoped,
}

abbrev pub Settled : OrderStatus → PaymentStatus → Type 0
Settled new p = p ≡ authorized
Settled accepted p = p ≡ captured
Settled preparing p = p ≡ captured
Settled ready p = p ≡ captured
Settled out_for_delivery p = p ≡ captured
Settled picked_up p = p ≡ captured
Settled delivered p = p ≡ captured
Settled complete p = p ≡ captured
Settled rejected p = p ≡ voided
Settled cancelled p = (p ≡ voided) ⊎ (p ≡ refunded)

abbrev pub has_ref : Order → Bool
has_ref o = elim (truthy o.payment_ref) [ none ↦ false | some ref ↦ true ]

-- An order that no payment backs is left out.
abbrev pub IsSettled : Order → Type 0
IsSettled o = has_ref o ≡ true → Settled o.status o.payment_status

pub record IsConsistent (db : Tables) : Type 0 where
  pub keys : UniqueIds db.orders
  pub settled : All IsSettled db.orders

-- The statuses that staff give an order that is being prepared or handed over.
abbrev pub IsFulfilment : OrderStatus → Type 0
IsFulfilment preparing = Unit {0}
IsFulfilment ready = Unit {0}
IsFulfilment out_for_delivery = Unit {0}
IsFulfilment picked_up = Unit {0}
IsFulfilment delivered = Unit {0}
IsFulfilment complete = Unit {0}
IsFulfilment _ = ⊥

-- A legal step to a fulfilment status finds the money captured.
pub step-Settled :
    (from to : OrderStatus) (p : PaymentStatus)
    → can_transition from to ≡ true
    → IsFulfilment to
    → Settled from p
    → Settled to p
unfolding can_transition
step-Settled from to p h f e = ground arith

module _ (t : Uuid) (db : Tables) (order : Order) (c : IsConsistent db)
    (e : select_one t (with_id order.id) db.orders ≡ some order) where
  -- One order is given a new row.
  pub change-IsConsistent :
      (f : Order → Order) (db' : Tables)
      → IsLocal f
      → IsSettled (f order)
      → db'.orders ≡ update t (with_id order.id) f db.orders
      → IsConsistent db'
  change-IsConsistent f db' keep fresh same = record {
    keys = rw same (update-UniqueIds t (with_id order.id) f keep db.orders c.keys);
    settled = rw same (All-update IsSettled t f db.orders order c.keys e c.settled fresh);
  }

  pub order-IsSettled : IsSettled order
  order-IsSettled = All-select_one IsSettled t (with_id order.id) db.orders order c.settled e
