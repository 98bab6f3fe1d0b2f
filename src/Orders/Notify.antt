-- ===== src/Orders/Notify.antt =====
-- The public transitions of src/vertical/restaurants/order.service.ts: the transaction, then the
-- message to the diner.
pub mod Keeps
pub mod Settles
pub mod Spares
use peer_core.Base.{none, some, Option, str_append, truthy, String}
use peer_core.Orders.Tables.{
  CatalogItem-scoped, MenuAvailability-scoped, Branch-scoped, Promotion-scoped, Order-scoped,
  OrderItem-scoped, OrderEvent-scoped, LoyaltyAccount-scoped, Order,
}
use peer_core.Orders.Transition.{cancel_in, transition_in, Money}
use peer_core.Tenancy.{with_tenant, Uuid}
use peer_core.Orders.State.{
  cancelled, complete, picked_up, delivered, out_for_delivery, ready, rejected, preparing, accepted,
  new, OrderStatus,
}
use peer_core.Orders.Services.{on_notes, whatsapp, OrderAction, NotifyInput, Services}
use peer_core.Action.{call, ◌>>◌, pure, ◌>>=◌}

notify_on : OrderStatus → Option String
notify_on accepted = some "Your order is confirmed and being prepared."
notify_on ready = some "Your order is ready."
notify_on out_for_delivery = some "Your order is on the way."
notify_on delivered = some "Your order has been delivered. Enjoy!"
notify_on rejected =
    some "Sorry — the restaurant could not accept your order; you have not been charged."
notify_on cancelled = some "Your order was cancelled."
notify_on _ = none

-- A status as the text that the table holds.
pub status_text : OrderStatus → String
status_text new = "NEW"
status_text accepted = "ACCEPTED"
status_text preparing = "PREPARING"
status_text ready = "READY"
status_text out_for_delivery = "OUT_FOR_DELIVERY"
status_text picked_up = "PICKED_UP"
status_text delivered = "DELIVERED"
status_text complete = "COMPLETE"
status_text rejected = "REJECTED"
status_text cancelled = "CANCELLED"

module _ (s : Services) (uuid_text : Uuid → String) where
  -- What is sent, to whom: a body for the status and the diner's phone.
  message : Order → Option NotifyInput
  unfolding notify_on status_text
  message order = elim (notify_on order.status) [
    | none ↦ none
    | some body ↦ elim (truthy order.diner_phone) [
      | none ↦ none
      | some phone ↦ some (record {
        recipient = phone;
        channel = whatsapp;
        event = str_append "order_" (status_text order.status);
        body = body;
        dedupe_key =
            some (str_append (uuid_text order.id) (str_append ":" (status_text order.status)));
      })
    ]
  ]

  abbrev pub deliver : String → Option NotifyInput → OrderAction s (Unit {0})
  deliver tenant_id none = pure tt
  deliver tenant_id (some input) = elim s.notifier [
    | none ↦ pure tt
    | some notify ↦ call (on_notes (notify tenant_id input))
  ]

  pub maybe_notify : String → Order → OrderAction s (Unit {0})
  unfolding message
  maybe_notify tenant_id order = deliver tenant_id (message order)

  unfoldable pub transition : String → Uuid → OrderStatus → Option Money → OrderAction s Order
  unfolding maybe_notify
  transition tenant_id order_id to money = do
    updated ← with_tenant tenant_id (λ t. transition_in s t order_id to money)
    maybe_notify tenant_id updated
    pure updated

  unfoldable pub accept : String → Uuid → OrderAction s Order
  unfolding transition
  accept tenant_id order_id = transition tenant_id order_id accepted (some Money.capture)

  unfoldable pub reject : String → Uuid → OrderAction s Order
  unfolding transition
  reject tenant_id order_id = transition tenant_id order_id rejected (some Money.void)

  unfoldable pub cancel : String → Uuid → OrderAction s Order
  unfolding maybe_notify
  cancel tenant_id order_id = do
    updated ← with_tenant tenant_id (λ t. cancel_in s t order_id)
    maybe_notify tenant_id updated
    pure updated

  unfoldable pub advance : String → Uuid → OrderStatus → OrderAction s Order
  unfolding transition
  advance tenant_id order_id to = transition tenant_id order_id to none
