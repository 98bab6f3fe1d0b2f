-- ===== src/Api.antt =====
-- What requests over HTTP act on: the tables of all services in one database, and the view that each
-- service has of them. The handlers are in Api/Staff, Api/Diners, Api/Admins and Api/Login
-- (src/vertical/restaurants and src/modules/identity).
pub mod Staff
pub mod Diners
pub mod Login
pub mod Admins
pub mod Authority
pub mod Strangers
pub mod Isolated
pub mod Repeat
mod Tests
use peer_core.Base.{
  ◌&&◌, if◌then◌else◌, [], ◌∷◌, none, some, true, false, refl, zero, suc, inl, inr, Option, find,
  ap, ℕ, List,
}
use peer_core.Action.{ok, err, Action, zoom}
use peer_core.Base.Int.{pos, negsuc}
use peer_core.Tenancy.{Uuid}
use peer_core.Identity.Tables.{Accounts}
use peer_core.Orders.Tables.{Tables}
use peer_core.Orders.Services.{Services, Outside}
use peer_core.Platform.{Tenant, Platform}
use peer_core.Reservations.{Book}
use peer_core.Complaints.{Complaint, Desk}
use peer_core.Reviews.{Review, Feedback}
use peer_core.Carts.{Cart, CartItem, Shop}
use peer_core.Deliveries.{DeliveryTables}
use peer_core.Discovery.{DriverListing}

pub record Site : Type 0 where
  pub tenants : List Tenant
  pub accounts : Accounts
  pub base : Tables
  pub bookings : Book
  pub complaints : List Complaint
  pub reviews : List Review
  pub carts : List Cart
  pub cart_items : List CartItem
  pub ledger : DeliveryTables
  pub listings : List DriverListing

-- What Postgres and the clock give one request.
pub record Stamp : Type 0 where
  pub id : Uuid
  pub now : ℕ

abbrev pub SiteAction : Services → Type 0 → Type 0
SiteAction s A = Action Site (Outside s.payments.State s.NotifierState) A

module _ {X A : Type 0} where
  abbrev pub on_base : Action Tables X A → Action Site X A
  on_base = zoom (λ x. x.base) (λ d x. record x { base = d })

  abbrev pub on_accounts : Action Accounts X A → Action Site X A
  on_accounts = zoom (λ x. x.accounts) (λ d x. record x { accounts = d })

  abbrev pub on_platform : Action Platform X A → Action Site X A
  on_platform =
      zoom (λ x. record { tenants = x.tenants; accounts = x.accounts; base = x.base })
        (λ d x. record x { tenants = d.tenants; accounts = d.accounts; base = d.base })

  abbrev pub on_bookings : Action Book X A → Action Site X A
  on_bookings = zoom (λ x. x.bookings) (λ d x. record x { bookings = d })

  abbrev pub on_desk : Action Desk X A → Action Site X A
  on_desk =
      zoom (λ x. record { base = x.base; complaints = x.complaints })
        (λ d x. record x { base = d.base; complaints = d.complaints })

  abbrev pub on_feedback : Action Feedback X A → Action Site X A
  on_feedback =
      zoom (λ x. record { base = x.base; reviews = x.reviews })
        (λ d x. record x { base = d.base; reviews = d.reviews })

  abbrev pub on_shop : Action Shop X A → Action Site X A
  on_shop =
      zoom (λ x. record { base = x.base; carts = x.carts; cart_items = x.cart_items })
        (λ d x. record x { base = d.base; carts = d.carts; cart_items = d.cart_items })

  abbrev pub on_ledger : Action DeliveryTables X A → Action Site X A
  on_ledger = zoom (λ x. x.ledger) (λ d x. record x { ledger = d })

  abbrev pub on_listings : Action (List DriverListing) X A → Action Site X A
  on_listings = zoom (λ x. x.listings) (λ d x. record x { listings = d })
