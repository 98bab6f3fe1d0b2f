-- ===== src/Orders/Moves/Counted.antt =====
-- How many transitions are recorded of an order, after any sequence of calls of OrderService
-- (src/vertical/restaurants/order.service.ts).
use peer_core.Base.{[], ◌∷◌, none, some, Option, String, ◌≤◌, arith, List}
use peer_core.Orders.Moves.{IsPaced, moves, rank_in, rank_of}
use peer_core.Orders.Moves.Made.{transition-IsPaced, cancel-IsPaced, checkout-IsPaced}
use peer_core.Orders.State.Diagram.{rank-le}
use peer_core.Orders.Notify.{accept, reject, advance}
use peer_core.Orders.History.{
  OrderCall, run, perform, check_out, accept_order, reject_order, cancel_order, advance_order,
}
use peer_core.Orders.Services.{OrderWorld, Services}
use peer_core.Orders.State.{accepted, rejected}
use peer_core.Orders.Transition.{Money}
use peer_core.Orders.Tables.{
  Order, CatalogItem-scoped, MenuAvailability-scoped, Branch-scoped, Promotion-scoped, Order-scoped,
  OrderItem-scoped, OrderEvent-scoped, LoyaltyAccount-scoped,
}
use peer_core.Tenancy.{Uuid}
use peer_core.Tenancy.Rows.{select_one}
use peer_core.Orders.Keys.{with_id}

rank_of-le : (o : Option Order) → rank_of o ≤ 6
rank_of-le none = omega arith
rank_of-le (some o) = rank-le o.status

module _ (s : Services) (uuid_text : Uuid → String) (t k : Uuid) where
  perform-IsPaced :
      (c : OrderCall) (w : OrderWorld s)
      → IsPaced t k w.db
      → IsPaced t k (perform s uuid_text c w).db
  unfolding perform accept reject advance
  perform-IsPaced (check_out tenant input d) = (checkout-IsPaced t k s tenant input d).at
  perform-IsPaced (accept_order tenant id) =
      (transition-IsPaced t k s uuid_text tenant id accepted (some Money.capture)).at
  perform-IsPaced (reject_order tenant id) =
      (transition-IsPaced t k s uuid_text tenant id rejected (some Money.void)).at
  perform-IsPaced (cancel_order tenant id) = (cancel-IsPaced t k s uuid_text tenant id).at
  perform-IsPaced (advance_order tenant id to) =
      (transition-IsPaced t k s uuid_text tenant id to none).at

  run-IsPaced :
      (cs : List OrderCall) (w : OrderWorld s)
      → IsPaced t k w.db
      → IsPaced t k (run s uuid_text cs w).db
  unfolding run
  run-IsPaced [] w h = h
  run-IsPaced (c ∷ cs) w h = run-IsPaced cs (perform s uuid_text c w) (perform-IsPaced c w h)

  -- Take the rank of a status in the diagram (NEW 0, ACCEPTED 1, up to 6 for COMPLETE,
  -- REJECTED and CANCELLED). Where the table of order events has no more transitions of an
  -- order than the rank of its status, this is so after any sequence of calls of checkout,
  -- accept, reject, cancel and advance, of any tenants, to any statuses, whether each returns
  -- or throws; and the transitions of the order that the table then has are at most six.
  pub run-moves :
      (cs : List OrderCall) (w : OrderWorld s)
      → moves t k w.db.order_events ≤ rank_in t k w.db.orders
      → (let db = (run s uuid_text cs w).db in
          (moves t k db.order_events ≤ rank_in t k db.orders) × (moves t k db.order_events ≤ 6))
  run-moves cs w h =
      let paced = run-IsPaced cs w h in
      let top = rank_of-le (select_one t (with_id k) (run s uuid_text cs w).db.orders) in
      (paced, omega (arith, paced, top))
