-- ===== src/Orders/Notify/Keeps.antt =====
-- A way to prove that a public transition of src/vertical/restaurants/order.service.ts keeps a
-- property of the tables: its transaction does, whenever it returns.
use peer_core.Base.{
  none, some, inl, inr, Option, ap, ◌∙◌, ==_iff, sym, subst, Option-cases, arith, ◌≡◌, String,
}
use peer_core.Action.{ok, pure, ◌>>=◌, ◌>>◌, World}
use peer_core.Orders.Services.{Outside, Services}
use peer_core.Orders.Tables.{
  Tables, Order, CatalogItem-scoped, MenuAvailability-scoped, Branch-scoped, Promotion-scoped,
  Order-scoped, OrderItem-scoped, OrderEvent-scoped, LoyaltyAccount-scoped,
}
use peer_core.Tenancy.Isolation.{select_one-own}
use peer_core.Orders.Keys.{with_id}
use peer_core.Tenancy.Rows.{select_one}
use peer_core.Tenancy.Keeps.{Keeps-with_tenant}
use peer_core.Action.Keeps.{Keeps-call, Keeps-lift, Keeps-bind, Keeps}
use peer_core.Orders.Notify.{on_notes, deliver, NotifyInput, with_tenant, OrderAction, maybe_notify}
use peer_core.Tenancy.{Uuid}
use peer_core.Orders.Transition.{load}

-- A query by id finds the row with that id.
pub load-select :
    (t order_id : Uuid) (db : Tables) (order : Order)
    → load t order_id db ≡ ok order
    → select_one t (with_id order.id) db.orders ≡ some order
unfolding load
load-select t order_id db order h =
    elim (Option-cases (select_one t (with_id order_id) db.orders)) [
      | inl e ↦ absurd (ground arith)
      | inr (o, e) ↦
          let own = (select_one-own t (with_id order_id) db.orders e).1 in
          let same : o ≡ order = ground arith in
          let id : order_id ≡ order.id =
            subst (λ x. order_id ≡ x.id) same (sym ((==_iff o.id order_id).0 own)) in
          subst (λ k. select_one t (with_id k) db.orders ≡ some order) id (e ∙ ap some same)
    ]

module _ (s : Services) (uuid_text : Uuid → String) (P : Tables → Type 0) where
  deliver-Keeps :
      (tenant_id : String) (m : Option NotifyInput) → Keeps P (deliver s uuid_text tenant_id m)
  deliver-Keeps tenant_id none = Keeps-lift (ok tt)
  deliver-Keeps tenant_id (some input) = elim (Option-cases s.notifier) [
    | inl e ↦ rw e (Keeps-lift (ok tt))
    | inr (notify, e) ↦ rw e (Keeps-call (on_notes (notify tenant_id input)))
  ]

  maybe_notify-Keeps :
      (tenant_id : String) (order : Order) → Keeps P (maybe_notify s uuid_text tenant_id order)
  unfolding maybe_notify
  maybe_notify-Keeps tenant_id order = deliver-Keeps tenant_id _

  -- The transaction of a transition, and then the message.
  pub told :
      (tenant_id : String) (fn : Uuid → OrderAction s Order)
      → ((t : Uuid) (w w' : World Tables (Outside s.payments.State s.NotifierState)) (o : Order)
          → P w.db
          → fn t w ≡ (ok o, w')
          → P w'.db)
      → Keeps P (do
        updated ← with_tenant tenant_id fn
        maybe_notify s uuid_text tenant_id updated
        pure updated)
  told tenant_id fn k =
      Keeps-bind (with_tenant tenant_id fn) _ (Keeps-with_tenant tenant_id fn k) (λ o.
        Keeps-bind (maybe_notify s uuid_text tenant_id o) _ (maybe_notify-Keeps tenant_id o)
          (λ _. Keeps-lift (ok o)))
