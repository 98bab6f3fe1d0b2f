-- ===== src/Orders/Checkout/Spares.antt =====
-- `checkout` of src/vertical/restaurants/order.service.ts and the rows of other tenants.
use peer_core.Base.{
  [], ◌∷◌, some, refl, inl, inr, ◌+◌, any, ◌||◌, Bool-cases, ◌==◌, ◌∙◌, String, ◌++◌, All, ◌≡◌,
  List,
}
use peer_core.Orders.Services.{OrderWorld}
use peer_core.Orders.Isolation.{others, payments-others, orders-others, events-others, IsSpared}
use peer_core.Orders.Tables.{
  CatalogItem-scoped, MenuAvailability-scoped, Branch-scoped, Promotion-scoped, Order-scoped,
  OrderItem-scoped, OrderEvent-scoped, LoyaltyAccount-scoped, Promotion,
}
use peer_core.Base.Int.{pos, ltb_ℤ}
use peer_core.Orders.Checkout.Keeps.{checkout_in-Keeps, KeepsWrites}
use peer_core.Tenancy.Keeps.{Keeps-with_tenant_at}
use peer_core.Tenancy.Isolation.{foreign-update, foreign-append}
use peer_core.Orders.Promo.{redeem}
use peer_core.Tenancy.{uuid_of, Uuid}
use peer_core.Orders.Checkout.{
  checkout, authorized_row, placed_event, clashes, new_order, Draws, PricedLine, Snapshot,
  CheckoutInput, PriceLineInput, Services, Order, Tables, item_rows, insert_order,
}

items-own :
    (t order_id : Uuid) (ls : List PriceLineInput) (ss : List Snapshot) (ps : List PricedLine)
    → All (λ r. r.tenant_id ≡ t) (item_rows t order_id ls ss ps)
unfolding item_rows
items-own t order_id (l ∷ ls) (s ∷ ss) (p ∷ ps) = (refl, items-own t order_id ls ss ps)
items-own t order_id [] ss ps = tt
items-own t order_id (l ∷ ls) [] ps = tt
items-own t order_id (l ∷ ls) (s ∷ ss) [] = tt

items-others :
    (t order_id : Uuid) (db : Tables) (ls : List PriceLineInput) (ss : List Snapshot)
    (ps : List PricedLine)
    → others t (record db { order_items = db.order_items ++ item_rows t order_id ls ss ps })
      ≡ others t db
unfolding others
items-others t order_id db ls ss ps = λ i. record (others t db) {
  order_items = foreign-append t db.order_items _ (items-own t order_id ls ss ps) i;
}

insert-others :
    (t : Uuid) (db : Tables) (o : Order)
    → o.tenant_id ≡ t
    → others t (insert_order o db).1 ≡ others t db
unfolding insert_order
insert-others t db o own = elim (Bool-cases (ltb_ℤ o.total_minor (pos 0))) [
  | inl low ↦ rw (insert_order, low) refl
  | inr fine ↦ elim (Bool-cases (any (λ r. (r.id == o.id) || clashes o r) db.orders)) [
    | inl clash ↦ rw (insert_order, fine, clash) refl
    | inr free ↦
        rw (insert_order, fine, free)
          (orders-others t db (db.orders ++ o ∷ []) (foreign-append t db.orders (o ∷ []) (own, tt)))
  ]
]

redeem-others :
    (t : Uuid) (promo : Promotion) (db : Tables) → others t (redeem t promo db) ≡ others t db
unfolding others
redeem-others t promo db = λ i. record (others t db) {
  promotions =
      foreign-update t (λ p. p.id == promo.id)
        (λ p. record p { redeemed_count = promo.redeemed_count + 1 }) db.promotions (λ r. refl) i;
}

module _ (t : Uuid) (first : Tables) where
  writes-IsSpared : KeepsWrites t (IsSpared t first)
  writes-IsSpared = record {
    redeems = λ promo db h. redeem-others t promo db ∙ h;
    inserts = λ input d totals ref code db h.
        insert-others t db (new_order t input d totals ref code) refl ∙ h;
    items = λ order_id ls ss ps db h. items-others t order_id db ls ss ps ∙ h;
    events = λ order_id db h. events-others t db (placed_event t order_id) refl ∙ h;
    pays = λ order_id provider total ref db h.
        payments-others t db (authorized_row t order_id provider total ref) refl ∙ h;
  }

-- `checkout` of a tenant leaves the rows of every other tenant as they were in each table, whether it
-- returns or throws.
pub checkout-IsSpared :
    (s : Services) (input : CheckoutInput) (d : Draws) (tenant_id : String) (t : Uuid)
    (w : OrderWorld s)
    → uuid_of tenant_id ≡ some t
    → others t (checkout s tenant_id input d w).1.db ≡ others t w.db
unfolding checkout
checkout-IsSpared s input d tenant_id t w e =
    (Keeps-with_tenant_at tenant_id t _ e
        (checkout_in-Keeps t s input d (writes-IsSpared t w.db))).at
      w refl
