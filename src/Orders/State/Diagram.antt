-- ===== src/Orders/State/Diagram.antt =====
-- The diagram in the comment of src/vertical/restaurants/order-state.ts, as a relation.
use peer_core.Base.{◌⊎◌, ◌<◌, ◌↔◌, false, ℕ, ◌≤◌, ◌≡◌, refl, true, arith}
use peer_core.Orders.State.{
  OrderStatus, new, accepted, preparing, ready, out_for_delivery, picked_up, delivered, complete,
  rejected, cancelled, can_transition,
}

infix 40 ◌⟶◌
pub data ◌⟶◌ : OrderStatus → OrderStatus → Type 0 where
  accept : new ⟶ accepted
  reject : new ⟶ rejected
  withdraw : new ⟶ cancelled
  start : accepted ⟶ preparing
  cancel_accepted : accepted ⟶ cancelled
  finish : preparing ⟶ ready
  cancel_preparing : preparing ⟶ cancelled
  dispatch : ready ⟶ out_for_delivery
  hand_over : ready ⟶ picked_up
  arrive : out_for_delivery ⟶ delivered
  close_pickup : picked_up ⟶ complete
  close_delivery : delivered ⟶ complete

ruleset edges = (
  accept, reject, withdraw, start, cancel_accepted, finish, cancel_preparing, dispatch, hand_over,
  arrive, close_pickup, close_delivery,
)

can_transition_sound : (s t : OrderStatus) → can_transition s t ≡ true → s ⟶ t
unfolding can_transition
can_transition_sound s t h = grind (arith, edges)

can_transition_complete : {s t : OrderStatus} → s ⟶ t → can_transition s t ≡ true
unfolding can_transition
can_transition_complete accept = refl
can_transition_complete reject = refl
can_transition_complete withdraw = refl
can_transition_complete start = refl
can_transition_complete cancel_accepted = refl
can_transition_complete finish = refl
can_transition_complete cancel_preparing = refl
can_transition_complete dispatch = refl
can_transition_complete hand_over = refl
can_transition_complete arrive = refl
can_transition_complete close_pickup = refl
can_transition_complete close_delivery = refl

-- The transitions that `canTransition` allows are exactly those of the documented diagram.
can_transition_iff : (s t : OrderStatus) → (can_transition s t ≡ true) ↔ (s ⟶ t)
can_transition_iff s t = (can_transition_sound s t, can_transition_complete)

-- How far an order has come.
abbrev pub rank : OrderStatus → ℕ
rank new = 0
rank accepted = 1
rank preparing = 2
rank ready = 3
rank out_for_delivery = 4
rank picked_up = 5
rank delivered = 5
rank complete = 6
rank rejected = 6
rank cancelled = 6

pub rank_grows : (s t : OrderStatus) → can_transition s t ≡ true → rank s < rank t
unfolding can_transition
rank_grows s t h = ground arith

pub rank-le : (s : OrderStatus) → rank s ≤ 6
rank-le s = ground arith

abbrev IsTerminal : OrderStatus → Type 0
IsTerminal s = (t : OrderStatus) → can_transition s t ≡ false

terminal_ends : (s : OrderStatus) → IsTerminal s → (s ≡ complete) ⊎ (s ≡ rejected) ⊎ (s ≡ cancelled)
unfolding can_transition
terminal_ends s h =
    ground (arith, h accepted, h preparing, h ready, h picked_up, h delivered, h complete)

ends-IsTerminal :
    (s : OrderStatus) → (s ≡ complete) ⊎ (s ≡ rejected) ⊎ (s ≡ cancelled) → IsTerminal s
unfolding can_transition
ends-IsTerminal s h t = ground arith

-- The terminal statuses are COMPLETE, REJECTED and CANCELLED.
IsTerminal-iff :
    (s : OrderStatus) → IsTerminal s ↔ ((s ≡ complete) ⊎ (s ≡ rejected) ⊎ (s ≡ cancelled))
IsTerminal-iff s = (terminal_ends s, ends-IsTerminal s)
