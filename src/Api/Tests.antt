-- ===== src/Api/Tests.antt =====
-- Requests of staff and diners on the sample database.
use peer_core.Base.{
  arith, Bool-cases, ◌≢◌, [], ◌∷◌, none, some, true, refl, ◌≡◌, ◌⊎◌, any, String, str_eq, subst,
  eq_iff,
}
use peer_core.Action.{ok, err, World}
use peer_core.Base.Int.{pos, ◌+ℤ◌}
use peer_core.Orders.Transition.{apply_transition, transition_in}
use peer_core.Orders.Notify.{transition, accept}
use peer_core.Orders.Lines.{resolve_lines}
use peer_core.Identity.{authorize_tenant}
use peer_core.Tenancy.Rows.{update, select_one}
use peer_core.Api.{inr, inl, Site, Stamp}
use peer_core.Api.Authority.{as_staff-memberships, IsRefusal}
use peer_core.Api.Diners.{place_order, resolve_slug, OrderBody}
use peer_core.Api.Repeat.{place_order-repeat}
use peer_core.Api.Staff.{
  managing, handle, as_staff, manage, serve, post_accept, post_delivery, staff_tenant, order,
  LedgerRequest,
}
use peer_core.Api.Strangers.{strangers}
use peer_core.Api.Strangers.Managed.{manage-strangers}
use peer_core.Api.Strangers.Served.{serve-strangers}
use peer_core.Errors.{http_error, Error}
use peer_core.Identity.Access.{grants}
use peer_core.Identity.Crypto.{hash_token, Node}
use peer_core.Identity.Guards.{admin_guard, auth_guard, passed}
use peer_core.Identity.Tables.{is_admin, AuthContext, owner, staff}
use peer_core.Orders.Checkout.{checkout, checkout_in, existing_order, insert_order}
use peer_core.Orders.Pricing.{integer, compute_totals}
use peer_core.Orders.Samples.{tables, tenant, services, world, draws, order_at}
use peer_core.Orders.Services.{Outside}
use peer_core.Orders.State.{can_transition, new, accepted}
use peer_core.Orders.Tables.{dinein, Order}
use peer_core.Payments.{authorized, captured}
use peer_core.Payments.Fake
use peer_core.Deliveries.{DeliveryStatus}
use peer_core.Api.Admins.{as_admin, administer, post_tenant_status, as_admin-platform_admins}
use peer_core.Api.Isolated.{own, as_staff-own}
use peer_core.Platform.{active}
use peer_core.Tenancy.{Uuid, uuid_of, with_tenant}

-- Buffers are texts, and hashes are the texts themselves.
abbrev plain_node : Node
plain_node = record {
  Buffer = String;
  buffer_length = λ b. 0;
  to_hex = λ b. b;
  of_hex = λ s. s;
  scrypt = λ secret salt n. secret;
  timing_safe_equal = str_eq;
  sha256 = λ token. token;
}

abbrev uuid_text : Uuid → String
uuid_text k = tenant

abbrev site : Site
site = record {
  tenants =
      record { id = 7; slug = "kabsa-house"; name = "Kabsa"; status = active; created_at = 0 } ∷ [];
  accounts = record {
    users = record { id = 1; phone = "+966500000001" } ∷ [];
    memberships = record { user_id = 1; tenant_id = tenant; role = "staff" } ∷ [];
    platform_admins = [];
    otp_challenges = [];
    sessions =
        record { user_id = 1; token_hash = "secret"; expires_at = 100; revoked_at = none } ∷ [];
  };
  base = tables;
  bookings = record { restaurant_tables = []; reservations = [] };
  complaints = [];
  reviews = [];
  carts = [];
  cart_items = [];
  ledger = record {
    deliveries =
        record {
          id = 50;
          tenant_id = 8;
          order_id = 3;
          driver_name = "Omar";
          driver_phone = "+966500000009";
          status = DeliveryStatus.picked_up;
        }
        ∷ [];
    driver_earnings = [];
  };
  listings = [];
}

abbrev online : World Site (Outside services.payments.State services.NotifierState)
online = record { db = site; outside = world.outside }

abbrev stamp : Stamp
stamp = record { id = 60; now = 5 }

found : uuid_of tenant ≡ some 7
unfolding uuid_of
found = refl

as_staff-memberships_example :
    let handler = manage services uuid_text (post_accept 1) stamp in
    ((e : Error) × (as_staff plain_node (some "Bearer secret") 5 handler online ≡ (err e, online))
      × IsRefusal e)
    ⊎ ((ctx : AuthContext) × (t : String) × (auth_guard plain_node
            (some "Bearer secret")
            5
            site.accounts
          ≡ passed ctx)
        × (any (grants ctx.user_id t (owner ∷ staff ∷ [])) site.accounts.memberships ≡ true)
        × (as_staff plain_node (some "Bearer secret") 5 handler online ≡ handler t online))
as_staff-memberships_example =
    as_staff-memberships plain_node (some "Bearer secret") 5
      (manage services uuid_text (post_accept 1) stamp) online

-- A signed-in member of the staff accepts an order.
accepted_over_http :
    (as_staff plain_node
      (some "Bearer secret")
      5
      (manage services uuid_text (post_accept 1) stamp)
      online).0
    ≡ ok (order (order_at 7 1 accepted captured))
unfolding as_staff staff_tenant auth_guard hash_token authorize_tenant manage accept transition
    with_tenant uuid_of transition_in apply_transition select_one can_transition Fake.capture update
accepted_over_http = refl

manage-strangers_example :
    strangers 7 (manage services uuid_text (post_accept 1) stamp tenant online).1.db
    ≡ strangers 7 site
manage-strangers_example =
    manage-strangers services uuid_text stamp tenant 7 (post_accept 1) online found

abbrev handover : LedgerRequest
handover = post_delivery 1 (record { name = "Ali"; phone = "+966500000008" }) (integer (pos 500))

serve-strangers_example :
    strangers 7 (serve str_eq handover stamp tenant online).1.db ≡ strangers 7 site
serve-strangers_example = serve-strangers str_eq stamp tenant 7 handover online found

abbrev body : OrderBody
body = record {
  branch_id = 20;
  order_type = none;
  lines = record { item_id = 30; quantity = integer (pos 2); modifiers = none } ∷ [];
  diner_phone = none;
  idempotency_key = some "fresh";
}

abbrev sold : Order
sold = record (order_at 7 4 new authorized) {
  subtotal_minor = 4000;
  vat_minor = 600;
  total_minor = pos 4600;
  payment_ref = some "auth_u2";
  idempotency_key = some "fresh";
}

abbrev after : World Site (Outside services.payments.State services.NotifierState)
after = (place_order services uuid_text "kabsa-house" body draws online).1

placed : place_order services uuid_text "kabsa-house" body draws online ≡ (ok sold, after)
unfolding place_order resolve_slug checkout with_tenant uuid_of checkout_in select_one resolve_lines
    compute_totals Fake.authorize insert_order existing_order ◌+ℤ◌
placed = refl

place_order-repeat_example :
    place_order services uuid_text "kabsa-house"
      (record body { lines = []; order_type = some dinein })
      (record draws { order_id = 9 })
      after
    ≡ (ok sold, after)
place_order-repeat_example =
    place_order-repeat services uuid_text "kabsa-house" body
      (record body { lines = []; order_type = some dinein }) draws (record draws { order_id = 9 })
      online after sold refl placed

as_admin-platform_admins_example :
    let handler = administer uuid_text none (post_tenant_status 7 (some "suspended")) in
    (as_admin plain_node (some "Bearer secret") 5 handler online ≡ (err (http_error 401), online))
    ⊎ (as_admin plain_node (some "Bearer secret") 5 handler online ≡ (err (http_error 403), online))
    ⊎ ((ctx : AuthContext) × (auth_guard plain_node (some "Bearer secret") 5 site.accounts
          ≡ passed ctx)
        × (is_admin ctx.user_id site.accounts ≡ true)
        × (as_admin plain_node (some "Bearer secret") 5 handler online ≡ handler online))
as_admin-platform_admins_example =
    as_admin-platform_admins plain_node (some "Bearer secret") 5
      (administer uuid_text none (post_tenant_status 7 (some "suspended"))) online

-- The staff of a restaurant are no admins.
not_admin :
    as_admin plain_node
      (some "Bearer secret")
      5
      (administer uuid_text none (post_tenant_status 7 (some "suspended")))
      online
    ≡ (err (http_error 403), online)
unfolding as_admin admin_guard hash_token
not_admin = refl

elsewhere :
    (ctx : AuthContext) (tenant_id : String)
    → auth_guard plain_node (some "Bearer secret") 5 site.accounts ≡ passed ctx
    → any (grants ctx.user_id tenant_id (owner ∷ staff ∷ [])) site.accounts.memberships ≡ true
    → (t : Uuid) × (uuid_of tenant_id ≡ some t) × (8 ≢ t)
elsewhere ctx tenant_id known granted = elim (Bool-cases (str_eq tenant tenant_id)) [
  | inl e ↦ (
    7,
    subst (λ x. uuid_of x ≡ some 7) ((eq_iff tenant tenant_id).0 e) found,
    λ h. absurd (omega arith),
  )
  | inr e ↦ absurd (ground (arith, e))
]

as_staff-own_example :
    own 8
      (as_staff plain_node
        (some "Bearer secret")
        5
        (handle services uuid_text str_eq (managing (post_accept 1)) stamp)
        online).1.db
    ≡ own 8 site
as_staff-own_example =
    as_staff-own services uuid_text str_eq stamp plain_node (some "Bearer secret") 5 8
      (managing (post_accept 1)) online elsewhere
