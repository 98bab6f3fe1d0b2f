-- ===== src/Orders/Checkout/Settles.antt =====
-- `checkout` of src/vertical/restaurants/order.service.ts and the invariant of the money.
use peer_core.Tenancy.Keeps.{Keeps-with_tenant}
use peer_core.Orders.Services.{OrderWorld, Services}
use peer_core.Orders.Keys.{UniqueIds}
use peer_core.Orders.Invariant.{IsConsistent, IsSettled}
use peer_core.Orders.Checkout.Keeps.{checkout_in-Keeps, KeepsWrites}
use peer_core.Tenancy.{Uuid}
use peer_core.Orders.Checkout.{clashes, Draws, new_order, CheckoutInput, insert_order, checkout}
use peer_core.Base.{
  arith, ◌≡◌, subst, All-concat, ◌||◌, ◌==◌, sym, Bool-cases, ◌++◌, ◌≢◌, String, All, List, any, [],
  ◌∷◌, false, refl, inl, inr,
}
use peer_core.Orders.Tables.{
  Tables, Order, CatalogItem-scoped, MenuAvailability-scoped, Branch-scoped, Promotion-scoped,
  Order-scoped, OrderItem-scoped, OrderEvent-scoped, LoyaltyAccount-scoped,
}
use peer_core.Base.Int.{ltb_ℤ, pos}

any-absent :
    (o : Order) (os : List Order)
    → any (λ r. (r.id == o.id) || clashes o r) os ≡ false
    → All (λ r. r.id ≢ o.id) os
any-absent o [] h = tt
any-absent o (r ∷ os) h = ground (arith, any-absent o os)

snoc-UniqueIds :
    (o : Order) (os : List Order)
    → UniqueIds os
    → All (λ r. r.id ≢ o.id) os
    → UniqueIds (os ++ o ∷ [])
snoc-UniqueIds o [] u h = (tt, tt)
snoc-UniqueIds o (r ∷ os) u h =
    (All-concat (λ x. x.id ≢ r.id) os o u.0 (λ e. h.0 (sym e)), snoc-UniqueIds o os u.1 h.1)

insert-IsConsistent :
    (o : Order) (db : Tables) → IsSettled o → IsConsistent db → IsConsistent (insert_order o db).1
unfolding insert_order
insert-IsConsistent o db fresh c = elim (Bool-cases (ltb_ℤ o.total_minor (pos 0))) [
  | inl low ↦ rw (insert_order, low) c
  | inr fine ↦ elim (Bool-cases (any (λ r. (r.id == o.id) || clashes o r) db.orders)) [
    | inl clash ↦ rw (insert_order, fine, clash) c
    | inr free ↦
        rw (insert_order, fine, free)
          (record {
            keys = snoc-UniqueIds o db.orders c.keys (any-absent o db.orders free);
            settled = All-concat IsSettled db.orders o c.settled fresh;
          })
  ]
]

writes-IsConsistent : (t : Uuid) → KeepsWrites t IsConsistent
writes-IsConsistent t = record {
  redeems = λ promo db c. record { keys = c.keys; settled = c.settled };
  inserts = λ input d totals ref code db c.
      insert-IsConsistent (new_order t input d totals ref code) db (λ _. refl) c;
  items = λ order_id ls ss ps db c. record { keys = c.keys; settled = c.settled };
  events = λ order_id db c. record { keys = c.keys; settled = c.settled };
  pays = λ order_id provider total ref db c. record { keys = c.keys; settled = c.settled };
}

-- `checkout` leaves consistent tables consistent, whether it returns or throws.
pub checkout-IsConsistent :
    (s : Services) (tenant_id : String) (input : CheckoutInput) (d : Draws) (w : OrderWorld s)
    → IsConsistent w.db
    → IsConsistent (checkout s tenant_id input d w).1.db
unfolding checkout
checkout-IsConsistent s tenant_id input d =
    (Keeps-with_tenant tenant_id _ (λ t w w' o c h.
      subst (λ x. IsConsistent x.1.db) h
        ((checkout_in-Keeps t s input d (writes-IsConsistent t)).at w c))).at
