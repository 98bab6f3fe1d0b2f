-- ===== src/Orders/Notify/Settles.antt =====
-- Each public transition of src/vertical/restaurants/order.service.ts, and the invariant of the
-- money over the tables.
use peer_core.Orders.Notify.Keeps.{told, load-select}
use peer_core.Orders.Services.{OrderWorld, Outside, Services}
use peer_core.Payments.{refunded, voided, captured, authorized, PaymentStatus}
use peer_core.Orders.Transition.Settles.{apply-IsConsistent, after_money, plain-IsConsistent}
use peer_core.Orders.Invariant.{step-Settled, Settled, IsFulfilment, IsConsistent}
use peer_core.Orders.Notify.{
  cancelled, accepted, rejected, OrderStatus, transition, accept, Order, cancel, advance, reject,
}
use peer_core.Tenancy.{Uuid}
use peer_core.Payments.Laws.{IsTwoPhase}
use peer_core.Orders.Transition.{Money, cancel_in, transition_in, load, order_money}
use peer_core.Base.{arith, ◌≡◌, String, none, some, refl, inl, inr}
use peer_core.Orders.Tables.{
  Tables, CatalogItem-scoped, MenuAvailability-scoped, Branch-scoped, Promotion-scoped,
  Order-scoped, OrderItem-scoped, OrderEvent-scoped, LoyaltyAccount-scoped,
}
use peer_core.Action.{Result-cases, World, ok}

module _ (s : Services) (two : IsTwoPhase s.payments) (uuid_text : Uuid → String) where
  -- What `cancel` calls for a payment status leaves the money where a cancelled order has it.
  refunds_or_voids :
      (t : Uuid) (order : Order) (p : PaymentStatus)
      → Settled cancelled (after_money s two t order cancelled (order_money p))
  refunds_or_voids t order authorized = inl refl
  refunds_or_voids t order captured = inr refl
  refunds_or_voids t order voided = inl refl
  refunds_or_voids t order refunded = inl refl

  module _ (t order_id : Uuid) (w w' : World Tables (Outside s.payments.State s.NotifierState))
      {o : Order} (c : IsConsistent w.db) where
    moved-IsConsistent :
        (to : OrderStatus) (m : Money)
        → ((order : Order) → Settled to (after_money s two t order to m))
        → transition_in s t order_id to (some m) w ≡ (ok o, w')
        → IsConsistent w'.db
    unfolding transition_in
    moved-IsConsistent to m fits h = elim (Result-cases (load t order_id w.db)) [
      | inl (order, e) ↦
          apply-IsConsistent s two t order to w w' c (load-select t order_id w.db order e) m
            (fits order) (rw e at h)
      | inr (x, e) ↦ absurd (ground arith)
    ]

    advanced-IsConsistent :
        (to : OrderStatus)
        → IsFulfilment to
        → transition_in s t order_id to none w ≡ (ok o, w')
        → IsConsistent w'.db
    unfolding transition_in
    advanced-IsConsistent to fits h = elim (Result-cases (load t order_id w.db)) [
      | inl (order, e) ↦
          plain-IsConsistent s two t order to w w' c (load-select t order_id w.db order e)
            (λ r legal. step-Settled order.status to order.payment_status legal fits) (rw e at h)
      | inr (x, e) ↦ absurd (ground arith)
    ]

    cancelled-IsConsistent : cancel_in s t order_id w ≡ (ok o, w') → IsConsistent w'.db
    unfolding cancel_in
    cancelled-IsConsistent h = elim (Result-cases (load t order_id w.db)) [
      | inl (order, e) ↦
          apply-IsConsistent s two t order cancelled w w' c (load-select t order_id w.db order e)
            (order_money order.payment_status) (refunds_or_voids t order order.payment_status)
            (rw e at h)
      | inr (x, e) ↦ absurd (ground arith)
    ]

  module _ (tenant_id : String) (order_id : Uuid) where
    -- `accept` leaves consistent tables consistent, whether it returns or throws, with a payment
    -- provider whose calls, when they succeed, leave an intent at the status they are named for.
    pub accept-IsConsistent :
        (w : OrderWorld s)
        → IsConsistent w.db
        → IsConsistent (accept s uuid_text tenant_id order_id w).1.db
    unfolding accept transition
    accept-IsConsistent =
        (told s uuid_text IsConsistent tenant_id _ (λ t w w' o c.
          moved-IsConsistent t order_id w w' c accepted Money.capture (λ _. refl))).at

    -- `reject` leaves consistent tables consistent, whether it returns or throws, with a payment
    -- provider whose calls, when they succeed, leave an intent at the status they are named for.
    pub reject-IsConsistent :
        (w : OrderWorld s)
        → IsConsistent w.db
        → IsConsistent (reject s uuid_text tenant_id order_id w).1.db
    unfolding reject transition
    reject-IsConsistent =
        (told s uuid_text IsConsistent tenant_id _
          (λ t w w' o c. moved-IsConsistent t order_id w w' c rejected Money.void (λ _. refl))).at

    -- `cancel` leaves consistent tables consistent, whether it returns or throws, with a payment
    -- provider whose calls, when they succeed, leave an intent at the status they are named for.
    pub cancel-IsConsistent :
        (w : OrderWorld s)
        → IsConsistent w.db
        → IsConsistent (cancel s uuid_text tenant_id order_id w).1.db
    unfolding cancel
    cancel-IsConsistent =
        (told s uuid_text IsConsistent tenant_id _
          (λ t w w' o c. cancelled-IsConsistent t order_id w w' c)).at

    -- `advance` to a fulfilment status (PREPARING, READY, OUT_FOR_DELIVERY, PICKED_UP, DELIVERED or
    -- COMPLETE) leaves consistent tables consistent, whether it returns or throws, with a payment
    -- provider whose calls, when they succeed, leave an intent at the status they are named for.
    pub advance-IsConsistent :
        (to : OrderStatus) (w : OrderWorld s)
        → IsFulfilment to
        → IsConsistent w.db
        → IsConsistent (advance s uuid_text tenant_id order_id to w).1.db
    unfolding advance transition
    advance-IsConsistent to w fits =
        (told s uuid_text IsConsistent tenant_id _
            (λ t w w' o c. advanced-IsConsistent t order_id w w' c to fits)).at
          w
