-- ===== src/Orders/Transition/Stale.antt =====
-- What a transition of src/vertical/restaurants/order.service.ts does when the order has moved on
-- since it was loaded, and when it has not.
use peer_core.Base.{
  subst, if◌then◌else◌, Bool-cases, List, Bool, arith, ◌≡◌, [], ◌∷◌, none, some, refl, inl, inr,
  Option,
}
use peer_core.Orders.Keys.{same_status_self, unchanged-id, IsLocal, with_id}
use peer_core.Orders.Services.{Outside}
use peer_core.Orders.State.{can_transition, OrderStatus}
use peer_core.Tenancy.Rows.{sees, select_one, update}
use peer_core.Orders.Transition.{
  with_status, OrderCode, order_error, unchanged, Money, Services, Uuid, apply_transition,
}
use peer_core.Orders.Tables.{
  Tables, Order, CatalogItem-scoped, MenuAvailability-scoped, Branch-scoped, Promotion-scoped,
  Order-scoped, OrderItem-scoped, OrderEvent-scoped, LoyaltyAccount-scoped,
}
use peer_core.Action.{World, err}

update-none :
    (t : Uuid) (p : Order → Bool) (f : Order → Order) (os : List Order)
    → select_one t p os ≡ none
    → update t p f os ≡ os
unfolding update select_one
update-none t p f [] h = refl
update-none t p f (o ∷ os) h = ground (arith, update-none t p f os)

-- An order whose row has another status by now: a transition that `can_transition` allows fails with
-- `conflict` and any other with `illegal_transition`, whatever money was to move; the tables, the
-- payment provider and the notifier are as before.
pub apply_transition-stale :
    (s : Services) (t : Uuid) (order : Order) (to : OrderStatus) (money : Option Money)
    (w : World Tables (Outside s.payments.State s.NotifierState))
    → select_one t (unchanged order) w.db.orders ≡ none
    → apply_transition s t order to money w ≡ (
      err (
          order_error (
            if can_transition order.status to
            then OrderCode.conflict
            else OrderCode.illegal_transition)),
      w,
    )
unfolding apply_transition
apply_transition-stale s t order to money w h =
    ground (arith, update-none t (unchanged order) (with_status to) w.db.orders h)

-- An order that was just loaded is still there to claim.
pub select-unchanged :
    (t : Uuid) (order : Order) (os : List Order)
    → select_one t (with_id order.id) os ≡ some order
    → select_one t (unchanged order) os ≡ some order
unfolding select_one
select-unchanged t order [] h = h
select-unchanged t order (o ∷ os) h = elim (Bool-cases (sees t (with_id order.id) o)) [
  | inl hit ↦
      let same : o ≡ order = ground arith in
      subst (λ x. select_one t (unchanged x) (o ∷ os) ≡ some x) same
        (ground (arith, same_status_self o.status))
  | inr miss ↦ ground (arith, select-unchanged t order os, unchanged-id order o)
]

-- And once claimed it is the row with its id.
pub select-claimed :
    (t : Uuid) (order : Order) (f : Order → Order) (os : List Order)
    → IsLocal f
    → select_one t (with_id order.id) os ≡ some order
    → select_one t (with_id order.id) (update t (unchanged order) f os) ≡ some (f order)
unfolding select_one update
select-claimed t order f [] keep h = absurd (ground arith)
select-claimed t order f (o ∷ os) keep h = elim (Bool-cases (sees t (with_id order.id) o)) [
  | inl hit ↦
      let same : o ≡ order = ground arith in
      subst (λ x. select_one t (with_id x.id) (update t (unchanged x) f (o ∷ os)) ≡ some (f x)) same
        (ground (arith, same_status_self o.status, keep.id o, keep.tenant o))
  | inr miss ↦ ground (arith, select-claimed t order f os keep, unchanged-id order o)
]
