-- ===== src/Orders/Transition/Effect.antt =====
-- What the transaction of a transition in src/vertical/restaurants/order.service.ts does.
-- `loyalty` writes to its own two tables alone.
use peer_core.Orders.Invariant.{has_ref}
use mathlib.Core.Option
use peer_core.Orders.Keys.{with_id}
use peer_core.Orders.Services.{Outside, Services}
use peer_core.Orders.Transition.{
  money_step, select_one, action_of, money_call, payment_row, PaymentIntent, with_payment,
  PaymentStatus, Money, moved_event, with_status, unchanged, update, can_transition,
  apply_transition, OrderStatus, Uuid, loyalty,
}
use peer_core.Base.{false, inr, inl, is_truthy, some, String, ◌++◌, arith, ◌≡◌, [], ◌∷◌, none, true}
use peer_core.Orders.Tables.{
  Order, Tables, CatalogItem-scoped, MenuAvailability-scoped, Branch-scoped, Promotion-scoped,
  Order-scoped, OrderItem-scoped, OrderEvent-scoped, LoyaltyAccount-scoped,
}
use peer_core.Action.{Result-cases, World, ok}

pub record LeavesOrders (before after : Tables) : Type 0 where
  pub orders : after.orders ≡ before.orders
  pub events : after.order_events ≡ before.order_events
  pub payments : after.payments ≡ before.payments

pub loyalty-LeavesOrders :
    (t : Uuid) (order : Order) (to : OrderStatus) (db : Tables)
    → LeavesOrders db (loyalty t order to db)
unfolding loyalty
loyalty-LeavesOrders t order to db = ground arith

module _ (s : Services) (t : Uuid) (order : Order) (to : OrderStatus) where
  abbrev pub W : Type 0
  W = World Tables (Outside s.payments.State s.NotifierState)

  -- The tables with the claim made, and with the event recorded.
  abbrev pub claimed : Tables → Tables
  claimed db = record db { orders = update t (unchanged order) (with_status to) db.orders }

  abbrev pub recorded : Tables → Tables
  recorded db = record db { order_events = db.order_events ++ moved_event t order to ∷ [] }

  pub plain_effect :
      (w w' : W) {o : Order}
      → apply_transition s t order to none w ≡ (ok o, w')
      → (can_transition order.status to ≡ true)
        × (w' ≡ record w { db = loyalty t order to (recorded (claimed w.db)) })
        × (Option.map (with_status to) (select_one t (unchanged order) w.db.orders) ≡ some o)
  unfolding apply_transition
  plain_effect w w' {o} h = ground arith

  -- The tables once money has moved.
  abbrev pub paid : Money → String → PaymentStatus → Tables → Tables
  paid m ref st db = record db {
    orders = update t (with_id order.id) (with_payment st) db.orders;
    payments =
        db.payments ++ payment_row t order (action_of m) s.payments.name order.payment_ref st ∷ [];
  }

  pub money_effect :
      (m : Money) (ref : String) (w w' : W) {o : Order}
      → order.payment_ref ≡ some ref
      → is_truthy ref ≡ true
      → apply_transition s t order to (some m) w ≡ (ok o, w')
      → (can_transition order.status to ≡ true)
        × (intent : PaymentIntent) × ((money_call s m ref w.outside.psp).0 ≡ ok intent)
        × (w' ≡ record {
          db = loyalty t order to (recorded (paid m ref intent.status (claimed w.db)));
          outside = record w.outside { psp = (money_call s m ref w.outside.psp).1 };
        })
  unfolding apply_transition
  money_effect m ref w w' {o} e r h = elim (Result-cases (money_call s m ref w.outside.psp).0) [
    | inl (intent, i) ↦ (ground arith, intent, i, ground arith)
    | inr (x, i) ↦ absurd (ground arith)
  ]

  money_step-without :
      (m : Money) → has_ref order ≡ false → money_step s (some m) order.payment_ref ≡ none
  money_step-without m h = ground arith

  -- No money moves for an order without a payment reference.
  pub without-ref :
      (m : Money) (w : W)
      → has_ref order ≡ false
      → apply_transition s t order to (some m) w ≡ apply_transition s t order to none w
  unfolding apply_transition
  without-ref m w h = rw (money_step-without m h)
