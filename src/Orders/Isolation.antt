-- ===== src/Orders/Isolation.antt =====
-- The writes of OrderService (src/vertical/restaurants/order.service.ts) under row-level security:
-- rows of other tenants stay as they are.
use peer_core.Errors.{order_error, OrderCode}
use peer_core.Payments.{PaymentStatus}
use peer_core.Action.Keeps.{
  Keeps-call, Keeps-lift, Keeps-statement, Keeps-throw_if, Keeps-bind, Keeps-execute, Keeps,
}
use peer_core.Orders.Services.{on_psp, Services}
use peer_core.Orders.State.{complete, can_transition, same_status, OrderStatus}
use peer_core.Tenancy.Isolation.{foreign-update, foreign-append, foreign}
use peer_core.Orders.Transition.{
  money_step, action_of, payment_row, money_call, with_status, with_payment, unchanged, move_money,
  reprice, claim, moved_event, Money, apply_transition, award, loyalty, upsert_points,
}
use peer_core.Tenancy.Rows.{update, select_one, Scoped}
use peer_core.Tenancy.{Uuid}
use peer_core.Base.{
  ltb, not, truthy, Bool-cases, Bool, str_eq, keep, ◌++◌, Option-cases, ℕ, ◌∙◌, String, ◌≡◌, List,
  [], ◌∷◌, none, some, refl, inl, inr, Option,
}
use peer_core.Orders.Tables.{
  OrderEvent, LoyaltyAccount, Order, LoyaltyEntry, Tables, Payment, CatalogItem-scoped,
  MenuAvailability-scoped, Branch-scoped, Promotion-scoped, Order-scoped, OrderItem-scoped,
  OrderEvent-scoped, LoyaltyAccount-scoped,
}
use peer_core.Action.{call, statement, throw_if, execute, ok}

instance abbrev pub Payment-scoped : Scoped Payment
Payment-scoped = record { tenant_of = λ r. r.tenant_id }

instance abbrev pub LoyaltyEntry-scoped : Scoped LoyaltyEntry
LoyaltyEntry-scoped = record { tenant_of = λ r. r.tenant_id }

-- The tables without the rows of `t` in those that the service writes.
unfoldable pub others : Uuid → Tables → Tables
others t db = record db {
  promotions = foreign t db.promotions;
  orders = foreign t db.orders;
  order_items = foreign t db.order_items;
  order_events = foreign t db.order_events;
  payments = foreign t db.payments;
  loyalty_accounts = foreign t db.loyalty_accounts;
  loyalty_ledger = foreign t db.loyalty_ledger;
}

module _ (t : Uuid) (first : Tables) where
  -- The rows of the other tenants are those of `first`.
  abbrev pub IsSpared : Tables → Type 0
  IsSpared db = others t db ≡ others t first

upsert-foreign :
    (t : Uuid) (phone : String) (points : ℕ) (rows : List LoyaltyAccount)
    → foreign t (upsert_points t phone points rows) ≡ foreign t rows
unfolding upsert_points
upsert-foreign t phone points rows =
    elim (Option-cases (select_one t (λ a. str_eq a.diner_phone phone) rows)) [
      | inl e ↦ rw (upsert_points, e) (foreign-append t rows _ (refl, tt))
      | inr (a, e) ↦ rw (upsert_points, e) (foreign-update t _ _ rows (λ r. refl))
    ]

abbrev entry : Uuid → Order → String → ℕ → LoyaltyEntry
entry t order phone points = record {
  tenant_id = t;
  diner_phone = phone;
  order_id = order.id;
  delta = points;
  reason = "order_complete";
}

award-others :
    (t : Uuid) (order : Order) (phone : String) (points : ℕ) (db : Tables)
    → others t (award t order phone points db) ≡ others t db
unfolding award others
award-others t order phone points db = elim (Bool-cases (ltb 0 points)) [
  | inl e ↦
      rw (award, e)
        (λ i. record (others t db) {
          loyalty_accounts = upsert-foreign t phone points db.loyalty_accounts i;
          loyalty_ledger =
              foreign-append t db.loyalty_ledger (entry t order phone points ∷ []) (refl, tt) i;
        })
  | inr e ↦ rw (award, e) refl
]

loyalty-others :
    (t : Uuid) (order : Order) (to : OrderStatus) (db : Tables)
    → others t (loyalty t order to db) ≡ others t db
unfolding loyalty
loyalty-others t order to db = elim (Option-cases (truthy order.diner_phone)) [
  | inl e ↦ rw (loyalty, e) refl
  | inr (phone, e) ↦ elim (Bool-cases (same_status to complete)) [
    | inl c ↦ rw (loyalty, e, c) (award-others t order phone _ db)
    | inr c ↦ rw (loyalty, e, c) refl
  ]
]

pub orders-others :
    (t : Uuid) (db : Tables) (rows : List Order)
    → foreign t rows ≡ foreign t db.orders
    → others t (record db { orders = rows }) ≡ others t db
unfolding others
orders-others t db rows e = λ i. record (others t db) { orders = e i }

pub events-others :
    (t : Uuid) (db : Tables) (e : OrderEvent)
    → e.tenant_id ≡ t
    → others t (record db { order_events = db.order_events ++ e ∷ [] }) ≡ others t db
unfolding others
events-others t db e own = λ i. record (others t db) {
  order_events = foreign-append t db.order_events (e ∷ []) (own, tt) i;
}

pub payments-others :
    (t : Uuid) (db : Tables) (e : Payment)
    → e.tenant_id ≡ t
    → others t (record db { payments = db.payments ++ e ∷ [] }) ≡ others t db
unfolding others
payments-others t db e own =
    λ i. record (others t db) { payments = foreign-append t db.payments (e ∷ []) (own, tt) i }

module _ (t : Uuid) (first : Tables) (s : Services) where
  pub IsSpared-step :
      {X : Type 0} (f : Tables → Tables)
      → ((db : Tables) → others t (f db) ≡ others t db)
      → Keeps {X = X} (IsSpared t first) (execute f)
  IsSpared-step f e = Keeps-execute f (λ db h. e db ∙ h)

  update_orders-IsSpared :
      (p : Order → Bool) (f : Order → Order) (db : Tables)
      → ((o : Order) → (f o).tenant_id ≡ o.tenant_id)
      → IsSpared t first db
      → IsSpared t first (record db { orders = update t p f db.orders })
  update_orders-IsSpared p f db keep h =
      orders-others t db _ (foreign-update t p f db.orders keep) ∙ h

  claim-IsSpared :
      (order : Order) (to : OrderStatus) (db : Tables)
      → IsSpared t first db
      → IsSpared t first (claim t order to db).1
  unfolding claim
  claim-IsSpared order to db h =
      update_orders-IsSpared (unchanged order) (with_status to) db (λ o. refl) h

  reprice-IsSpared :
      (order : Order) (st : PaymentStatus) (claimed : Order) (db : Tables)
      → IsSpared t first db
      → IsSpared t first (reprice t order st claimed db).1
  unfolding reprice
  reprice-IsSpared order st claimed db h =
      update_orders-IsSpared _ (with_payment st) db (λ o. refl) h

  move_money-IsSpared :
      (order claimed : Order) (m : Option (Money × String))
      → Keeps (IsSpared t first) (move_money s t order claimed m)
  move_money-IsSpared order claimed none = Keeps-lift (ok claimed)
  move_money-IsSpared order claimed (some (m, ref)) =
      Keeps-bind (call (on_psp (money_call s m ref))) _ (Keeps-call (on_psp (money_call s m ref)))
        (λ intent.
          Keeps-bind (execute _) _
            (IsSpared-step _ (λ db.
              payments-others t db
                (payment_row t order (action_of m) s.payments.name order.payment_ref intent.status)
                refl))
            (λ _.
              Keeps-statement (reprice t order intent.status claimed)
                (reprice-IsSpared order intent.status claimed)))

  pub apply_transition-IsSpared :
      (order : Order) (to : OrderStatus) (money : Option Money)
      → Keeps (IsSpared t first) (apply_transition s t order to money)
  unfolding apply_transition
  apply_transition-IsSpared order to money =
      Keeps-bind
        (throw_if (not (can_transition order.status to)) (order_error OrderCode.illegal_transition))
        _ (Keeps-throw_if _ _)
        (λ _.
          Keeps-bind (statement (claim t order to)) _
            (Keeps-statement (claim t order to) (claim-IsSpared order to))
            (λ claimed.
              Keeps-bind (move_money s t order claimed (money_step s money order.payment_ref)) _
                (move_money-IsSpared order claimed _)
                (λ updated.
                  Keeps-bind (execute _) _
                    (IsSpared-step _ (λ db. events-others t db (moved_event t order to) refl))
                    (λ _.
                      Keeps-bind (execute _) _ (IsSpared-step _ (loyalty-others t order to))
                        (λ _. Keeps-lift (ok updated))))))
