-- ===== src/Orders/Notify/Spares.antt =====
-- The public transitions of src/vertical/restaurants/order.service.ts and the rows of other
-- tenants.
use peer_core.Orders.Services.{OrderWorld, Services}
use peer_core.Orders.Isolation.{others, apply_transition-IsSpared, IsSpared}
use peer_core.Base.{refl, Option-cases, ◌≡◌, String, none, some, inl, inr, Option}
use peer_core.Orders.State.{cancelled}
use peer_core.Tenancy.Keeps.{Keeps-with_tenant_at}
use peer_core.Orders.Transition.{order_money, load, transition_in, cancel_in}
use peer_core.Action.Keeps.{Keeps-consult, Keeps-bind, Keeps-call, Keeps-lift, Keeps}
use peer_core.Tenancy.{uuid_of}
use peer_core.Orders.Notify.{
  on_notes, with_tenant, Money, OrderStatus, OrderAction, transition, cancel, deliver, Order,
  NotifyInput, Uuid, maybe_notify,
}
use peer_core.Orders.Tables.{
  Tables, CatalogItem-scoped, MenuAvailability-scoped, Branch-scoped, Promotion-scoped,
  Order-scoped, OrderItem-scoped, OrderEvent-scoped, LoyaltyAccount-scoped,
}
use peer_core.Action.{consult, pure, ◌>>◌, ◌>>=◌, ok}

deliver-Keeps :
    {P : Tables → Type 0} (s : Services) (uuid_text : Uuid → String) (tenant_id : String)
    (m : Option NotifyInput)
    → Keeps P (deliver s uuid_text tenant_id m)
deliver-Keeps s uuid_text tenant_id none = Keeps-lift (ok tt)
deliver-Keeps s uuid_text tenant_id (some input) = elim (Option-cases s.notifier) [
  | inl e ↦ rw e (Keeps-lift (ok tt))
  | inr (notify, e) ↦ rw e (Keeps-call (on_notes (notify tenant_id input)))
]

-- The message writes to no table.
pub maybe_notify-Keeps :
    {P : Tables → Type 0} (s : Services) (uuid_text : Uuid → String) (tenant_id : String)
    (order : Order)
    → Keeps P (maybe_notify s uuid_text tenant_id order)
unfolding maybe_notify
maybe_notify-Keeps s uuid_text tenant_id order = deliver-Keeps s uuid_text tenant_id _

module _ (s : Services) (uuid_text : Uuid → String) (t : Uuid) (tenant_id : String)
    (e : uuid_of tenant_id ≡ some t) where
  told-IsSpared :
      (first : Tables) (fn : Uuid → OrderAction s Order)
      → Keeps (IsSpared t first) (fn t)
      → Keeps (IsSpared t first) (do
        updated ← with_tenant tenant_id fn
        maybe_notify s uuid_text tenant_id updated
        pure updated)
  told-IsSpared first fn k =
      Keeps-bind (with_tenant tenant_id fn) _ (Keeps-with_tenant_at tenant_id t fn e k) (λ o.
        Keeps-bind (maybe_notify s uuid_text tenant_id o) _
          (maybe_notify-Keeps s uuid_text tenant_id o) (λ _. Keeps-lift (ok o)))

  transition_in-IsSpared :
      (first : Tables) (order_id : Uuid) (to : OrderStatus) (money : Option Money)
      → Keeps (IsSpared t first) (transition_in s t order_id to money)
  unfolding transition_in
  transition_in-IsSpared first order_id to money =
      Keeps-bind (consult (load t order_id)) _ (Keeps-consult (load t order_id))
        (λ order. apply_transition-IsSpared t first s order to money)

  cancel_in-IsSpared :
      (first : Tables) (order_id : Uuid) → Keeps (IsSpared t first) (cancel_in s t order_id)
  unfolding cancel_in
  cancel_in-IsSpared first order_id =
      Keeps-bind (consult (load t order_id)) _ (Keeps-consult (load t order_id)) (λ order.
        apply_transition-IsSpared t first s order cancelled
          (some (order_money order.payment_status)))

  -- `accept`, `reject` and `advance` of a tenant, all of which are a `transition`, leave the rows of
  -- every other tenant as they were in each table, whether they return or throw.
  pub transition-IsSpared :
      (order_id : Uuid) (to : OrderStatus) (money : Option Money) (w : OrderWorld s)
      → others t (transition s uuid_text tenant_id order_id to money w).1.db ≡ others t w.db
  unfolding transition
  transition-IsSpared order_id to money w =
      (told-IsSpared w.db _ (transition_in-IsSpared w.db order_id to money)).at w refl

  -- `cancel` of a tenant leaves the rows of every other tenant as they were in each table, whether it
  -- returns or throws.
  pub cancel-IsSpared :
      (order_id : Uuid) (w : OrderWorld s)
      → others t (cancel s uuid_text tenant_id order_id w).1.db ≡ others t w.db
  unfolding cancel
  cancel-IsSpared order_id w = (told-IsSpared w.db _ (cancel_in-IsSpared w.db order_id)).at w refl
