-- ===== src/Orders/Reads/Queue.antt =====
-- What the staff queue of src/vertical/restaurants/order.service.ts lists.
use peer_core.Orders.Services.{OrderWorld, Services}
use peer_core.Base.{
  some, String, refl, ◌∙◌, ◌&&◌, ◌||◌, ◌==◌, ◌≡◌, keep, leb, any, arith, Bool-cases, ◌≤◌, All, Bool,
  ℕ, List, [], ◌∷◌, true, inl, inr,
}
use peer_core.Orders.Reads.{ok, queue, oldest_first, open_statuses, insert_order_by_age, queue_rows}
use peer_core.Orders.State.{includes}
use peer_core.Tenancy.{with_tenant, uuid_of, Uuid}
use peer_core.Tenancy.Rows.{select}
use peer_core.Orders.Tables.{
  Order, CatalogItem-scoped, MenuAvailability-scoped, Branch-scoped, Promotion-scoped, Order-scoped,
  OrderItem-scoped, OrderEvent-scoped, LoyaltyAccount-scoped,
}

-- Each order is at least as old as those after it.
abbrev pub IsByAge : List Order → Type 0
IsByAge [] = Unit {0}
IsByAge (o ∷ os) = All (λ x. o.created_at ≤ x.created_at) os × IsByAge os

insert-All :
    (P : Order → Type 0) (o : Order) (os : List Order)
    → P o
    → All P os
    → All P (insert_order_by_age o os)
unfolding insert_order_by_age
insert-All P o [] p h = (p, tt)
insert-All P o (x ∷ os) p h = elim (Bool-cases (leb o.created_at x.created_at)) [
  | inl le ↦ rw (insert_order_by_age, le) (p, h)
  | inr gt ↦ rw (insert_order_by_age, gt) (h.0, insert-All P o os p h.1)
]

older-All :
    (a b : ℕ) (os : List Order)
    → a ≤ b
    → All (λ x. b ≤ x.created_at) os
    → All (λ x. a ≤ x.created_at) os
older-All a b [] le h = tt
older-All a b (x ∷ os) le h = (omega (arith, le, h.0), older-All a b os le h.1)

insert-IsByAge : (o : Order) (os : List Order) → IsByAge os → IsByAge (insert_order_by_age o os)
unfolding insert_order_by_age
insert-IsByAge o [] h = (tt, tt)
insert-IsByAge o (x ∷ os) h = elim (Bool-cases (leb o.created_at x.created_at)) [
  | inl le ↦
      let le' : o.created_at ≤ x.created_at = ground arith in
      rw (insert_order_by_age, le) ((le', older-All o.created_at x.created_at os le' h.0), h)
  | inr gt ↦
      let ge : x.created_at ≤ o.created_at = ground arith in
      rw (insert_order_by_age, gt)
        (insert-All (λ y. x.created_at ≤ y.created_at) o os ge h.0, insert-IsByAge o os h.1)
]

oldest_first-IsByAge : (os : List Order) → IsByAge (oldest_first os)
unfolding oldest_first
oldest_first-IsByAge [] = tt
oldest_first-IsByAge (o ∷ os) = insert-IsByAge o (oldest_first os) (oldest_first-IsByAge os)

insert-any :
    (p : Order → Bool) (o : Order) (os : List Order)
    → any p (insert_order_by_age o os) ≡ (p o || any p os)
unfolding insert_order_by_age
insert-any p o [] = refl
insert-any p o (x ∷ os) = ground (arith, insert-any p o os)

oldest_first-any : (p : Order → Bool) (os : List Order) → any p (oldest_first os) ≡ any p os
unfolding oldest_first
oldest_first-any p [] = refl
oldest_first-any p (o ∷ os) =
    ground (arith, insert-any p o (oldest_first os), oldest_first-any p os)

keep-any :
    (p : Order → Bool) (q : Order → Bool) (t : Uuid) (os : List Order)
    → any p (keep q (select t (λ o. true) os)) ≡ any (λ o. (o.tenant_id == t) && q o && p o) os
unfolding select
keep-any p q t [] = refl
keep-any p q t (o ∷ os) = ground (arith, keep-any p q t os)

-- `queue` returns, and writes nothing; its rows go from the oldest to the newest, and one of them has
-- a given property exactly when the tenant has an order with it that is NEW, ACCEPTED, PREPARING,
-- READY or OUT_FOR_DELIVERY.
pub queue-IsByAge :
    (s : Services) (tenant_id : String) (t : Uuid) (w : OrderWorld s)
    → uuid_of tenant_id ≡ some t
    → (rows : List Order) × (queue s tenant_id w ≡ (ok rows, w))
      × IsByAge rows
      × ((p : Order → Bool)
          → any p rows
            ≡ any (λ o. (o.tenant_id == t) && includes open_statuses o.status && p o) w.db.orders)
unfolding queue queue_rows with_tenant select
queue-IsByAge s tenant_id t w e =
    let listed = keep (λ o. includes open_statuses o.status) (select t (λ o. true) w.db.orders) in
    (
      oldest_first listed,
      rw (queue, with_tenant, e) refl,
      oldest_first-IsByAge listed,
      λ p.
          oldest_first-any p listed
          ∙ keep-any p (λ o. includes open_statuses o.status) t w.db.orders,
    )
