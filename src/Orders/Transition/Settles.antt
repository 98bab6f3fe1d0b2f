-- ===== src/Orders/Transition/Settles.antt =====
-- The transitions of src/vertical/restaurants/order.service.ts and the invariant of the money.
use peer_core.Orders.Transition.Effect.{
  without-ref, claimed, recorded, loyalty-LeavesOrders, money_effect, plain_effect, W,
}
use peer_core.Tenancy.{Uuid}
use peer_core.Orders.Invariant.{
  order-IsSettled, change-IsConsistent, Settled, has_ref, IsConsistent,
}
use peer_core.Orders.Transition.{
  refund, void, capture, apply_transition, money_call, PaymentIntent, select_one, captured, Money,
  with_payment, with_status,
}
use peer_core.Payments.{refunded, voided, PaymentStatus}
use peer_core.Orders.Keys.{update-unchanged, update-claim, with_id, IsLocal}
use peer_core.Payments.Laws.{IsTwoPhase}
use peer_core.Orders.Services.{Services}
use peer_core.Orders.State.{can_transition, OrderStatus}
use peer_core.Base.{
  arith, Bool-cases, Option-cases, ◌⊎◌, sym, subst, is_truthy, ◌∙◌, String, ◌≡◌, none, some, true,
  false, refl, inl, inr, ap,
}
use peer_core.Orders.Tables.{
  Order, CatalogItem-scoped, MenuAvailability-scoped, Branch-scoped, Promotion-scoped, Order-scoped,
  OrderItem-scoped, OrderEvent-scoped, LoyaltyAccount-scoped,
}
use peer_core.Action.{ok}

pub status-IsLocal : (st : OrderStatus) → IsLocal (with_status st)
status-IsLocal st = record { id = λ o. refl; tenant = λ o. refl }

both-IsLocal :
    (st : OrderStatus) (p : PaymentStatus) → IsLocal (λ o. with_payment p (with_status st o))
both-IsLocal st p = record { id = λ o. refl; tenant = λ o. refl }

-- An order has a payment reference, or none that counts.
pub ref-cases :
    (o : Order)
    → (has_ref o ≡ false) ⊎ ((ref : String) × (o.payment_ref ≡ some ref) × (is_truthy ref ≡ true))
ref-cases o = elim (Option-cases o.payment_ref) [
  | inl e ↦ inl (rw e)
  | inr (ref, e) ↦ elim (Bool-cases (is_truthy ref)) [
    | inl truth ↦ inr (ref, e, truth)
    | inr empty ↦ inl (ground arith)
  ]
]

module _ (s : Services) (two : IsTwoPhase s.payments) (t : Uuid) (order : Order)
    (to : OrderStatus) where
  -- The status that each call leaves, if it succeeds.
  abbrev pub after_money : Money → PaymentStatus
  after_money capture = captured
  after_money void = voided
  after_money refund = refunded

  money_call-status :
      (m : Money) (ref : String) (st : s.payments.State) (i : PaymentIntent)
      → (money_call s m ref st).0 ≡ ok i
      → i.status ≡ after_money m
  money_call-status capture ref st i h = two.captures ref st i h
  money_call-status void ref st i h = two.voids ref st i h
  money_call-status refund ref st i h = two.refunds ref st i h

  module _ (w w' : W s t order to) (c : IsConsistent w.db)
      (e : select_one t (with_id order.id) w.db.orders ≡ some order) where
    pub plain-IsConsistent :
        {o : Order}
        → (has_ref order ≡ true
            → can_transition order.status to ≡ true
            → Settled order.status order.payment_status
            → Settled to order.payment_status)
        → apply_transition s t order to none w ≡ (ok o, w')
        → IsConsistent w'.db
    plain-IsConsistent fits h =
        let (legal, same, _) = plain_effect s t order to w w' h in
        change-IsConsistent t w.db order c e (with_status to) w'.db (status-IsLocal to)
          (λ r. fits r legal (order-IsSettled t w.db order c e r))
          (ap (λ (x : W s t order to). x.db.orders) same
            ∙ (loyalty-LeavesOrders t order to
                (recorded s t order to (claimed s t order to w.db))).orders
            ∙ update-unchanged t (with_status to) order w.db.orders (status-IsLocal to) c.keys e)

    money-IsConsistent :
        (m : Money) (ref : String) {o : Order}
        → order.payment_ref ≡ some ref
        → is_truthy ref ≡ true
        → Settled to (after_money m)
        → apply_transition s t order to (some m) w ≡ (ok o, w')
        → IsConsistent w'.db
    money-IsConsistent m ref r truth fits h =
        let (legal, intent, i, same) = money_effect s t order to m ref w w' r truth h in
        let st : intent.status ≡ after_money m = money_call-status m ref w.outside.psp intent i in
        change-IsConsistent t w.db order c e (λ x. with_payment intent.status (with_status to x))
          w'.db (both-IsLocal to intent.status) (λ _. subst (Settled to) (sym st) fits)
          (ap (λ (x : W s t order to). x.db.orders) same
            ∙ (loyalty-LeavesOrders t order to _).orders
            ∙ update-claim t (with_status to) (with_payment intent.status) (status-IsLocal to) order
                w.db.orders c.keys e)

    -- A transition whose money step fits its status, for an order with a payment or without.
    pub apply-IsConsistent :
        (m : Money) {o : Order}
        → Settled to (after_money m)
        → apply_transition s t order to (some m) w ≡ (ok o, w')
        → IsConsistent w'.db
    apply-IsConsistent m fits h = elim (ref-cases order) [
      | inl without ↦
          plain-IsConsistent (λ r. absurd (cc)) (rw (without-ref s t order to m w without) at h)
      | inr (ref, r, truth) ↦ money-IsConsistent m ref r truth fits h
    ]
