-- ===== src/Orders/Transition/Progress.antt =====
-- The transitions of src/vertical/restaurants/order.service.ts that go through.
use peer_core.Base.{refl, ◌∙◌, subst, ap, is_truthy, arith, String, ◌≡◌, none, some, true}
use peer_core.Orders.Invariant.{order-IsSettled, Settled, IsConsistent, has_ref}
use peer_core.Orders.Transition.Effect.{claimed, loyalty-LeavesOrders, W, recorded}
use peer_core.Payments.{PaymentStatus, authorized, captured, PaymentIntent}
use peer_core.Orders.Transition.Settles.{status-IsLocal}
use peer_core.Orders.Transition.Stale.{select-claimed, select-unchanged}
use peer_core.Orders.State.{new, accepted, can_transition, OrderStatus}
use peer_core.Orders.Transition.{
  with_payment, money_call, loyalty, Money, with_status, reprice, claim, load, apply_transition,
  transition_in,
}
use peer_core.Orders.Keys.{with_id}
use peer_core.Tenancy.Rows.{select_one}
use peer_core.Tenancy.{Uuid}
use peer_core.Orders.Services.{Services}
use peer_core.Orders.Tables.{
  Order, CatalogItem-scoped, MenuAvailability-scoped, Branch-scoped, Promotion-scoped, Order-scoped,
  OrderItem-scoped, OrderEvent-scoped, LoyaltyAccount-scoped,
}
use peer_core.Action.{ok}

module _ (s : Services) (t : Uuid) (order : Order) (to : OrderStatus) (w : W s t order to)
    (found : select_one t (with_id order.id) w.db.orders ≡ some order)
    (legal : can_transition order.status to ≡ true) where
  -- Without money.
  pub plain-progress : transition_in s t order.id to none w ≡ (
    ok (with_status to order),
    record w { db = loyalty t order to (recorded s t order to (claimed s t order to w.db)) },
  )
  unfolding transition_in apply_transition load claim
  plain-progress =
      rw (transition_in, load, found) (ground (arith, select-unchanged t order w.db.orders found))

  -- A loaded order, a transition that `can_transition` allows, a payment reference that is not empty
  -- and a call that the provider makes with success: the transition returns the order with the new
  -- status and the payment status that the provider answered.
  pub money-progress :
      (m : Money) (ref : String) (i : PaymentIntent)
      → order.payment_ref ≡ some ref
      → is_truthy ref ≡ true
      → (money_call s m ref w.outside.psp).0 ≡ ok i
      → (transition_in s t order.id to (some m) w).0
        ≡ ok (with_payment i.status (with_status to order))
  unfolding transition_in apply_transition load claim reprice
  money-progress m ref i r truth call = ground (
    arith,
    found,
    select-unchanged t order w.db.orders found,
    select-claimed t order (with_status to) w.db.orders (status-IsLocal to) found,
  )

unsettled : {p : PaymentStatus} → p ≡ authorized → p ≡ captured → ⊥
unsettled a c = ground arith

accepted-settled :
    (s : Services) (t : Uuid) (order : Order) (w : W s t order accepted)
    → select_one t (with_id order.id) w.db.orders ≡ some order
    → has_ref order ≡ true
    → IsConsistent
        (loyalty t order accepted (recorded s t order accepted (claimed s t order accepted w.db)))
    → order.payment_status ≡ captured
accepted-settled s t order w found paid after =
    let db =
      loyalty t order accepted (recorded s t order accepted (claimed s t order accepted w.db)) in
    let left =
      (loyalty-LeavesOrders t order accepted
        (recorded s t order accepted (claimed s t order accepted w.db))).orders in
    order-IsSettled t db (with_status accepted order) after
      (ap (select_one t (with_id order.id)) left
        ∙ select-claimed t order (with_status accepted) w.db.orders (status-IsLocal accepted) found)
      paid

-- An order NEW whose payment is held, where the money stands right: `advance` to ACCEPTED is carried
-- out without a call of the provider, and the money of the tables no longer stands right.
pub advance-unpaid :
    (s : Services) (t : Uuid) (order : Order) (w : W s t order accepted)
    → select_one t (with_id order.id) w.db.orders ≡ some order
    → order.status ≡ new
    → has_ref order ≡ true
    → IsConsistent w.db
    → (let (r, w') = transition_in s t order.id accepted none w in
        (r ≡ ok (with_status accepted order)) × (w'.outside ≡ w.outside) × ¬ IsConsistent w'.db)
unfolding can_transition
advance-unpaid s t order w found fresh paid c =
    let legal : can_transition order.status accepted ≡ true = rw fresh refl in
    let before : order.payment_status ≡ authorized =
      subst (λ x. Settled x order.payment_status) fresh
        (order-IsSettled t w.db order c found paid) in
    rw (plain-progress s t order accepted w found legal)
      (refl, refl, λ after. unsettled before (accepted-settled s t order w found paid after))
