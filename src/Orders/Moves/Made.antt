-- ===== src/Orders/Moves/Made.antt =====
-- The transitions that are recorded of an order, over the calls of OrderService
-- (src/vertical/restaurants/order.service.ts).
use peer_core.Base.{
  [], ◌∷◌, none, some, true, inl, inr, Option, arith, Bool-cases, sym, subst, is_truthy, String,
  ◌≡◌, ◌≤◌, any, ◌||◌, ◌==◌, ◌++◌,
}
use peer_core.Action.{ok, Result-cases, World}
use peer_core.Base.Int.{pos, ltb_ℤ}
use peer_core.Orders.Moves.{
  IsPaced, moves, moves-snoc, rank_in, rank-payment, rank-insert, claim-IsPaced,
}
use peer_core.Orders.Transition.Effect.{
  without-ref, claimed, recorded, loyalty-LeavesOrders, LeavesOrders, money_effect, plain_effect, W,
}
use peer_core.Orders.Transition.Settles.{ref-cases}
use peer_core.Orders.Transition.{
  apply_transition, Money, with_status, transition_in, cancel_in, load, order_money, unchanged,
  loyalty,
}
use peer_core.Orders.Notify.Keeps.{told, load-select}
use peer_core.Orders.Notify.{cancel, transition}
use peer_core.Orders.Checkout.Keeps.{checkout_in-Keeps, KeepsWrites}
use peer_core.Orders.Checkout.{
  Draws, CheckoutInput, checkout, insert_order, clashes, new_order, placed_event,
}
use peer_core.Orders.Keys.{with_id}
use peer_core.Orders.Services.{Services, Outside}
use peer_core.Orders.State.{OrderStatus, cancelled}
use peer_core.Tenancy.Rows.{select_one, update}
use peer_core.Tenancy.Keeps.{Keeps-with_tenant}
use peer_core.Tenancy.{Uuid}
use peer_core.Action.Keeps.{Keeps}
use peer_core.Orders.Tables.{
  Order, Tables, CatalogItem-scoped, MenuAvailability-scoped, Branch-scoped, Promotion-scoped,
  Order-scoped, OrderItem-scoped, OrderEvent-scoped, LoyaltyAccount-scoped,
}

module _ (u k : Uuid) where
  left-IsPaced : (db db' : Tables) → LeavesOrders db db' → IsPaced u k db → IsPaced u k db'
  left-IsPaced db db' left h = rw (left.orders, left.events) h

  module _ (s : Services) (t : Uuid) (order : Order) (to : OrderStatus) (w w' : W s t order to)
      (e : select_one t (with_id order.id) w.db.orders ≡ some order) (h : IsPaced u k w.db) where
    plain-IsPaced :
        {o : Order} → apply_transition s t order to none w ≡ (ok o, w') → IsPaced u k w'.db
    plain-IsPaced r =
        let (legal, same, _) = plain_effect s t order to w w' r in
        let db = recorded s t order to (claimed s t order to w.db) in
        subst (λ (x : W s t order to). IsPaced u k x.db) (sym same)
          (left-IsPaced db (loyalty t order to db) (loyalty-LeavesOrders t order to db)
            (claim-IsPaced u k t order to w.db e legal h))

    money-IsPaced :
        (m : Money) (ref : String) {o : Order}
        → order.payment_ref ≡ some ref
        → is_truthy ref ≡ true
        → apply_transition s t order to (some m) w ≡ (ok o, w')
        → IsPaced u k w'.db
    money-IsPaced m ref f truth r =
        let (legal, intent, i, same) = money_effect s t order to m ref w w' f truth r in
        let kept =
          rank-payment u k t (with_id order.id) intent.status
            (update t (unchanged order) (with_status to) w.db.orders) in
        let paced = claim-IsPaced u k t order to w.db e legal h in
        subst (λ (x : W s t order to). IsPaced u k x.db) (sym same)
          (left-IsPaced _ _ (loyalty-LeavesOrders t order to _) (omega (arith, kept, paced)))

    apply-IsPaced :
        (m : Option Money) {o : Order}
        → apply_transition s t order to m w ≡ (ok o, w')
        → IsPaced u k w'.db
    apply-IsPaced none r = plain-IsPaced r
    apply-IsPaced (some m) r = elim (ref-cases order) [
      | inl without ↦ plain-IsPaced (rw (without-ref s t order to m w without) at r)
      | inr (ref, f, truth) ↦ money-IsPaced m ref f truth r
    ]

  module _ (s : Services) (uuid_text : Uuid → String) where
    module _ (t order_id : Uuid) (w w' : World Tables (Outside s.payments.State s.NotifierState))
        {o : Order} (h : IsPaced u k w.db) where
      transition_in-IsPaced :
          (to : OrderStatus) (m : Option Money)
          → transition_in s t order_id to m w ≡ (ok o, w')
          → IsPaced u k w'.db
      unfolding transition_in
      transition_in-IsPaced to m r = elim (Result-cases (load t order_id w.db)) [
        | inl (order, e) ↦
            apply-IsPaced s t order to w w' (load-select t order_id w.db order e) h m (rw e at r)
        | inr (x, e) ↦ absurd (ground arith)
      ]

      cancel_in-IsPaced : cancel_in s t order_id w ≡ (ok o, w') → IsPaced u k w'.db
      unfolding cancel_in
      cancel_in-IsPaced r = elim (Result-cases (load t order_id w.db)) [
        | inl (order, e) ↦
            apply-IsPaced s t order cancelled w w' (load-select t order_id w.db order e) h
              (some (order_money order.payment_status)) (rw e at r)
        | inr (x, e) ↦ absurd (ground arith)
      ]

    pub transition-IsPaced :
        (tenant_id : String) (order_id : Uuid) (to : OrderStatus) (m : Option Money)
        → Keeps (IsPaced u k) (transition s uuid_text tenant_id order_id to m)
    unfolding transition
    transition-IsPaced tenant_id order_id to m =
        told s uuid_text (IsPaced u k) tenant_id _
          (λ t w w' o h. transition_in-IsPaced t order_id w w' h to m)

    pub cancel-IsPaced :
        (tenant_id : String) (order_id : Uuid)
        → Keeps (IsPaced u k) (cancel s uuid_text tenant_id order_id)
    unfolding cancel
    cancel-IsPaced tenant_id order_id =
        told s uuid_text (IsPaced u k) tenant_id _
          (λ t w w' o h. cancel_in-IsPaced t order_id w w' h)

  insert-IsPaced : (o : Order) (db : Tables) → IsPaced u k db → IsPaced u k (insert_order o db).1
  unfolding insert_order
  insert-IsPaced o db h = elim (Bool-cases (ltb_ℤ o.total_minor (pos 0))) [
    | inl low ↦ rw (insert_order, low) h
    | inr fine ↦ elim (Bool-cases (any (λ r. (r.id == o.id) || clashes o r) db.orders)) [
      | inl clash ↦ rw (insert_order, fine, clash) h
      | inr free ↦
          let more = rank-insert u k o db.orders in
          rw (insert_order, fine, free) (omega (arith, more, h))
    ]
  ]

  placed-IsPaced :
      (t order_id : Uuid) (db : Tables)
      → IsPaced u k db
      → moves u k (db.order_events ++ placed_event t order_id ∷ []) ≤ rank_in u k db.orders
  placed-IsPaced t order_id db h =
      ground (arith, moves-snoc u k (placed_event t order_id) db.order_events)

  writes-IsPaced : (t : Uuid) → KeepsWrites t (IsPaced u k)
  writes-IsPaced t = record {
    redeems = λ promo db h. h;
    inserts = λ input d totals ref code db. insert-IsPaced (new_order t input d totals ref code) db;
    items = λ order_id ls ss ps db h. h;
    events = λ order_id db. placed-IsPaced t order_id db;
    pays = λ order_id provider total ref db h. h;
  }

  pub checkout-IsPaced :
      (s : Services) (tenant_id : String) (input : CheckoutInput) (d : Draws)
      → Keeps (IsPaced u k) (checkout s tenant_id input d)
  unfolding checkout
  checkout-IsPaced s tenant_id input d = Keeps-with_tenant tenant_id _ (λ t w w' o h e.
      subst (λ x. IsPaced u k x.1.db) e ((checkout_in-Keeps t s input d (writes-IsPaced t)).at w h))
