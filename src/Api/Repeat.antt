-- ===== src/Api/Repeat.antt =====
-- Orders that a diner sends twice (src/vertical/restaurants/diner.controller.ts).
use peer_core.Base.{some, refl, inl, inr, ap, ◌≡◌, ◌∙◌, arith, truthy, Option-cases, String}
use peer_core.Action.{ok, World}
use peer_core.Api.{on_base, Site}
use peer_core.Api.Diners.{place_order, resolve_slug, order_of, OrderBody}
use peer_core.Orders.Checkout.{checkout, Draws}
use peer_core.Orders.Checkout.Repeat.{checkout-repeat}
use peer_core.Orders.Services.{Services, Outside}
use peer_core.Orders.Tables.{Order}
use peer_core.Platform.{by_slug}
use peer_core.Tenancy.{Uuid}

-- With a key and a known slug, placing an order is a checkout.
place_order-checkout :
    (s : Services) (uuid_text : Uuid → String) (slug : String) (body : OrderBody) (d : Draws)
    (w : World Site (Outside s.payments.State s.NotifierState)) (k t : String)
    → truthy body.idempotency_key ≡ some k
    → by_slug uuid_text slug w.db.tenants ≡ some t
    → place_order s uuid_text slug body d w ≡ on_base (checkout s t (order_of body) d) w
unfolding place_order resolve_slug
place_order-checkout s uuid_text slug body d w k t f g = ground (arith, f, g)

-- After an order that a diner placed over HTTP was answered, a request with the same slug and
-- idempotency key, whatever else is in it, is answered with the same order and leaves the
-- database and all outside it as they are.
pub place_order-repeat :
    (s : Services) (uuid_text : Uuid → String) (slug : String) (first second : OrderBody)
    (d e : Draws) (w w' : World Site (Outside s.payments.State s.NotifierState)) (o : Order)
    → second.idempotency_key ≡ first.idempotency_key
    → place_order s uuid_text slug first d w ≡ (ok o, w')
    → place_order s uuid_text slug second e w' ≡ (ok o, w')
unfolding place_order resolve_slug
place_order-repeat s uuid_text slug first second d e w w' o same h =
    elim (Option-cases (truthy first.idempotency_key)) [
      | inl f ↦ absurd (ground arith)
      | inr (k, f) ↦ elim (Option-cases (by_slug uuid_text slug w.db.tenants)) [
        | inl g ↦ absurd (ground (arith, f, g))
        | inr (t, g) ↦
            let before : World _ _ = record { db = w.db.base; outside = w.outside } in
            let after : World _ _ = record { db = w'.db.base; outside = w'.outside } in
            let body : checkout s t (order_of first) d before ≡ (ok o, after) =
              ground (arith, f, g, h) in
            let again =
              checkout-repeat s t (order_of first) (order_of second) d e k before after o f same
                body in
            let tenants : w'.db.tenants ≡ w.db.tenants = ground (arith, f, g, h) in
            place_order-checkout s uuid_text slug second e w' k t (ap truthy same ∙ f)
              (ap (by_slug uuid_text slug) tenants ∙ g)
            ∙ rw again refl
      ]
    ]
