-- ===== src/Api/Strangers.antt =====
-- Requests of the staff of one tenant (src/vertical/restaurants/staff.controller.ts) and the rows of
-- the other tenants.
pub mod Managed
pub mod Served
use peer_core.Base.{
  ◌&&◌, if◌then◌else◌, [], ◌∷◌, none, some, true, false, refl, zero, suc, inl, inr, Option, find,
  ap, ◌≡◌,
}
use peer_core.Action.{ok, err, Action}
use peer_core.Base.Int.{pos, negsuc}
use peer_core.Api.{on_base, Site}
use peer_core.Action.Keeps.{Keeps, Keeps-zoom}
use peer_core.Orders.Isolation.{others}
use peer_core.Orders.Tables.{Tables, CatalogItem-scoped, Branch-scoped}
use peer_core.Tenancy.{Uuid}
use peer_core.Tenancy.Isolation.{foreign}
use peer_core.Complaints.{Complaint-scoped}
use peer_core.Deliveries.{Delivery-scoped, DriverEarning-scoped}
use peer_core.Discovery.{DriverListing-scoped}

-- Without the rows of `t` in the tables that OrderService, MenuService, RestaurantService and
-- PromotionService write.
unfoldable pub without : Uuid → Tables → Tables
without t db =
    let rest = others t db in
    record rest { catalog_items = foreign t rest.catalog_items; branches = foreign t rest.branches }

-- Without the rows of `t` in every table that a route of the staff writes.
unfoldable pub strangers : Uuid → Site → Site
unfolding without
strangers t x = record x {
  base = without t x.base;
  complaints = foreign t x.complaints;
  ledger = record x.ledger {
    deliveries = foreign t x.ledger.deliveries;
    driver_earnings = foreign t x.ledger.driver_earnings;
  };
  listings = foreign t x.listings;
}

module _ (t : Uuid) (first : Site) where
  -- What is not of `t` is as in `first`.
  abbrev pub IsApart : Site → Type 0
  IsApart x = strangers t x ≡ strangers t first

  -- So are the tables of OrderService.
  abbrev pub IsApartBase : Tables → Type 0
  IsApartBase db = without t db ≡ without t first.base

  pub on_base-IsApart :
      {X A : Type 0} (m : Action Tables X A) → Keeps IsApartBase m → Keeps IsApart (on_base m)
  unfolding strangers
  on_base-IsApart m k =
      Keeps-zoom (λ x. x.base) (λ d x. record x { base = d }) m (λ x h. ap (λ y. y.base) h)
        (λ d x q h i. record (h i) { base = q i }) k
