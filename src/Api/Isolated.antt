-- ===== src/Api/Isolated.antt =====
-- Requests of the staff (src/vertical/restaurants/staff.controller.ts) and a tenant that the user is
-- no staff of.
use peer_core.Base.{
  [], ◌∷◌, some, true, inl, inr, Option, ap, ◌≡◌, ◌≢◌, ◌∙◌, sym, any, Bool, String, ℕ, List,
}
use peer_core.Api.{Site, Stamp}
use peer_core.Api.Authority.{as_staff-memberships}
use peer_core.Api.Staff.{as_staff, handle, StaffRequest, managing, serving}
use peer_core.Api.Strangers.{strangers, without}
use peer_core.Api.Strangers.Managed.{manage-strangers}
use peer_core.Api.Strangers.Served.{serve-strangers}
use peer_core.Action.{World}
use peer_core.Identity.Access.{grants}
use peer_core.Identity.Crypto.{Node}
use peer_core.Identity.Guards.{auth_guard, passed}
use peer_core.Identity.Tables.{AuthContext, owner, staff}
use peer_core.Orders.Isolation.{others, Payment-scoped, LoyaltyEntry-scoped}
use peer_core.Orders.Services.{Services, Outside}
use peer_core.Orders.Tables.{
  CatalogItem-scoped, Branch-scoped, Promotion-scoped, Order-scoped, OrderItem-scoped,
  OrderEvent-scoped, LoyaltyAccount-scoped,
}
use peer_core.Tenancy.{uuid_of, Uuid}
use peer_core.Tenancy.Isolation.{foreign, select-foreign}
use peer_core.Tenancy.Rows.{select, Scoped}
use peer_core.Complaints.{Complaint-scoped}
use peer_core.Deliveries.{Delivery-scoped, DriverEarning-scoped}
use peer_core.Discovery.{DriverListing-scoped}

-- The rows of `u`.
abbrev rows_of : {A : Type 0} → ⦃s : Scoped A⦄ → Uuid → List A → List A
rows_of u rows = select u (λ r. true) rows

-- With the rows of `u` alone in the tables that a route of the staff may write; the other tables
-- whole.
unfoldable pub own : Uuid → Site → Site
own u x = record x {
  base = record x.base {
    catalog_items = rows_of u x.base.catalog_items;
    branches = rows_of u x.base.branches;
    promotions = rows_of u x.base.promotions;
    orders = rows_of u x.base.orders;
    order_items = rows_of u x.base.order_items;
    order_events = rows_of u x.base.order_events;
    payments = rows_of u x.base.payments;
    loyalty_accounts = rows_of u x.base.loyalty_accounts;
    loyalty_ledger = rows_of u x.base.loyalty_ledger;
  };
  complaints = rows_of u x.complaints;
  ledger = record x.ledger {
    deliveries = rows_of u x.ledger.deliveries;
    driver_earnings = rows_of u x.ledger.driver_earnings;
  };
  listings = rows_of u x.listings;
}

rows_of-foreign :
    {A : Type 0}
    → ⦃s : Scoped A⦄ → (u t : Uuid) (rows : List A) → u ≢ t
    → rows_of u (foreign t rows) ≡ rows_of u rows
rows_of-foreign u t rows h = select-foreign t u (λ r. true) rows h

own-strangers : (u t : Uuid) (x : Site) → u ≢ t → own u (strangers t x) ≡ own u x
unfolding own strangers without others
own-strangers u t x h = λ i. record x {
  base = record x.base {
    catalog_items = rows_of-foreign u t x.base.catalog_items h i;
    branches = rows_of-foreign u t x.base.branches h i;
    promotions = rows_of-foreign u t x.base.promotions h i;
    orders = rows_of-foreign u t x.base.orders h i;
    order_items = rows_of-foreign u t x.base.order_items h i;
    order_events = rows_of-foreign u t x.base.order_events h i;
    payments = rows_of-foreign u t x.base.payments h i;
    loyalty_accounts = rows_of-foreign u t x.base.loyalty_accounts h i;
    loyalty_ledger = rows_of-foreign u t x.base.loyalty_ledger h i;
  };
  complaints = rows_of-foreign u t x.complaints h i;
  ledger = record x.ledger {
    deliveries = rows_of-foreign u t x.ledger.deliveries h i;
    driver_earnings = rows_of-foreign u t x.ledger.driver_earnings h i;
  };
  listings = rows_of-foreign u t x.listings h i;
}

module _ (s : Services) (uuid_text : Uuid → String) (ilike : String → String → Bool)
    (d : Stamp) where
  handle-own :
      (tenant_id : String) (t u : Uuid) (r : StaffRequest)
      (w : World Site (Outside s.payments.State s.NotifierState))
      → uuid_of tenant_id ≡ some t
      → u ≢ t
      → own u (handle s uuid_text ilike r d tenant_id w).1.db ≡ own u w.db
  unfolding handle
  handle-own tenant_id t u r w e h =
      sym (own-strangers u t (handle s uuid_text ilike r d tenant_id w).1.db h)
      ∙ ap (own u) (kept r)
      ∙ own-strangers u t w.db h
    where
      kept :
          (r : StaffRequest)
          → strangers t (handle s uuid_text ilike r d tenant_id w).1.db ≡ strangers t w.db
      kept (managing r) = manage-strangers s uuid_text d tenant_id t r w e
      kept (serving r) = serve-strangers ilike d tenant_id t r w e

  -- A request of the staff over HTTP, whatever its token and its content, leaves the rows of
  -- a tenant `u` as they are in every table that the routes of the staff write, and the other
  -- tables whole: where every tenant in which the table of memberships makes the user of the
  -- token an owner or staff has a UUID other than `u` for its id.
  pub as_staff-own :
      (node : Node) (header : Option String) (now : ℕ) (u : Uuid) (r : StaffRequest)
      (w : World Site (Outside s.payments.State s.NotifierState))
      → ((ctx : AuthContext) (tenant_id : String)
          → auth_guard node header now w.db.accounts ≡ passed ctx
          → any (grants ctx.user_id tenant_id (owner ∷ staff ∷ [])) w.db.accounts.memberships ≡ true
          → (t : Uuid) × (uuid_of tenant_id ≡ some t) × (u ≢ t))
      → own u (as_staff node header now (handle s uuid_text ilike r d) w).1.db ≡ own u w.db
  as_staff-own node header now u r w elsewhere =
      elim (as_staff-memberships node header now (handle s uuid_text ilike r d) w) [
        | inl (e, refused, _) ↦ ap (λ x. own u x.1.db) refused
        | inr (ctx, tenant_id, known, granted, same) ↦
            let (t, reads, other) = elsewhere ctx tenant_id known granted in
            ap (λ x. own u x.1.db) same ∙ handle-own tenant_id t u r w reads other
      ]
