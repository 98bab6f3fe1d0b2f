-- ===== src/Orders/History.antt =====
-- Any sequence of the calls of OrderService that write (src/vertical/restaurants/order.service.ts).
use peer_core.Orders.Notify.Spares.{cancel-IsSpared, transition-IsSpared}
use peer_core.Orders.Checkout.Spares.{checkout-IsSpared}
use peer_core.Orders.Isolation.{others}
use peer_core.Orders.Notify.Settles.{
  advance-IsConsistent, cancel-IsConsistent, reject-IsConsistent, accept-IsConsistent,
}
use peer_core.Orders.Checkout.Settles.{checkout-IsConsistent}
use peer_core.Tenancy.{uuid_of, Uuid}
use peer_core.Payments.Laws.{IsTwoPhase}
use peer_core.Orders.Invariant.{IsConsistent, IsFulfilment}
use peer_core.Orders.Services.{OrderWorld, Services}
use peer_core.Base.{◌∙◌, ◌≡◌, All, List, String, [], ◌∷◌, none, some, refl}
use peer_core.Orders.Checkout.{Draws, CheckoutInput, checkout}
use peer_core.Orders.State.{OrderStatus, accepted, rejected}
use peer_core.Orders.Transition.{Money}
use peer_core.Orders.Notify.{accept, reject, cancel, advance}

pub data OrderCall : Type 0 where
  check_out : String → CheckoutInput → Draws → OrderCall
  accept_order reject_order cancel_order : String → Uuid → OrderCall
  advance_order : String → Uuid → OrderStatus → OrderCall

module _ (s : Services) (uuid_text : Uuid → String) where
  unfoldable pub perform : OrderCall → OrderWorld s → OrderWorld s
  perform (check_out tenant input d) w = (checkout s tenant input d w).1
  perform (accept_order tenant id) w = (accept s uuid_text tenant id w).1
  perform (reject_order tenant id) w = (reject s uuid_text tenant id w).1
  perform (cancel_order tenant id) w = (cancel s uuid_text tenant id w).1
  perform (advance_order tenant id to) w = (advance s uuid_text tenant id to w).1

  -- One call after the other, whether each returns or throws.
  unfoldable pub run : List OrderCall → OrderWorld s → OrderWorld s
  run [] w = w
  run (c ∷ cs) w = run cs (perform c w)

-- `advance` is asked for a fulfilment status.
abbrev pub IsProper : OrderCall → Type 0
IsProper (advance_order tenant id to) = IsFulfilment to
IsProper _ = Unit

abbrev pub tenant_of_call : OrderCall → String
tenant_of_call (check_out tenant input d) = tenant
tenant_of_call (accept_order tenant id) = tenant
tenant_of_call (reject_order tenant id) = tenant
tenant_of_call (cancel_order tenant id) = tenant
tenant_of_call (advance_order tenant id to) = tenant

module _ (s : Services) (two : IsTwoPhase s.payments) (uuid_text : Uuid → String) where
  perform-IsConsistent :
      (c : OrderCall) (w : OrderWorld s)
      → IsProper c
      → IsConsistent w.db
      → IsConsistent (perform s uuid_text c w).db
  unfolding perform
  perform-IsConsistent (check_out tenant input d) w fits = checkout-IsConsistent s tenant input d w
  perform-IsConsistent (accept_order tenant id) w fits =
      accept-IsConsistent s two uuid_text tenant id w
  perform-IsConsistent (reject_order tenant id) w fits =
      reject-IsConsistent s two uuid_text tenant id w
  perform-IsConsistent (cancel_order tenant id) w fits =
      cancel-IsConsistent s two uuid_text tenant id w
  perform-IsConsistent (advance_order tenant id to) w fits =
      advance-IsConsistent s two uuid_text tenant id to w fits

  -- With a payment provider whose calls, when they succeed, leave an intent at the status
  -- they are named for, consistent tables (ids of orders are unique, and the payment status
  -- of an order with a payment reference is one that its status allows) are consistent after
  -- any sequence of calls of checkout, accept, reject, cancel and advance to a fulfilment
  -- status, of any tenants, whether each returns or throws.
  pub run-IsConsistent :
      (cs : List OrderCall) (w : OrderWorld s)
      → All IsProper cs
      → IsConsistent w.db
      → IsConsistent (run s uuid_text cs w).db
  unfolding run
  run-IsConsistent [] w fits h = h
  run-IsConsistent (c ∷ cs) w fits h =
      run-IsConsistent cs (perform s uuid_text c w) fits.1 (perform-IsConsistent c w fits.0 h)

module _ (s : Services) (uuid_text : Uuid → String) (t : Uuid) where
  perform-IsSpared :
      (c : OrderCall) (w : OrderWorld s)
      → uuid_of (tenant_of_call c) ≡ some t
      → others t (perform s uuid_text c w).db ≡ others t w.db
  unfolding perform accept reject advance
  perform-IsSpared (check_out tenant input d) w e = checkout-IsSpared s input d tenant t w e
  perform-IsSpared (accept_order tenant id) w e =
      transition-IsSpared s uuid_text t tenant e id accepted (some Money.capture) w
  perform-IsSpared (reject_order tenant id) w e =
      transition-IsSpared s uuid_text t tenant e id rejected (some Money.void) w
  perform-IsSpared (cancel_order tenant id) w e = cancel-IsSpared s uuid_text t tenant e id w
  perform-IsSpared (advance_order tenant id to) w e =
      transition-IsSpared s uuid_text t tenant e id to none w

  -- Any sequence of calls of checkout, accept, reject, cancel and advance for tenant ids that
  -- read as one UUID, whether each returns or throws, leaves the rows of every other tenant
  -- as they were in each table that the service writes.
  pub run-IsSpared :
      (cs : List OrderCall) (w : OrderWorld s)
      → All (λ c. uuid_of (tenant_of_call c) ≡ some t) cs
      → others t (run s uuid_text cs w).db ≡ others t w.db
  unfolding run
  run-IsSpared [] w own = refl
  run-IsSpared (c ∷ cs) w own =
      run-IsSpared cs (perform s uuid_text c w) own.1 ∙ perform-IsSpared c w own.0
