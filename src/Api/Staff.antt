-- ===== src/Api/Staff.antt =====
-- src/vertical/restaurants/staff.controller.ts: each route behind AuthGuard, in the tenant of the first
-- membership of the user. `menu/sync` and the pages of the console are left out.
use peer_core.Orders.Pricing.{Number}
use peer_core.Api.{on_listings, on_ledger, on_desk, on_feedback, on_base, Site, SiteAction, Stamp}
use peer_core.Orders.Tables.{LoyaltyEntry, Promotion, CatalogItem, Branch, Order}
use peer_core.Orders.State.{OrderStatus}
use peer_core.Tenancy.{Uuid}
use peer_core.Base.{Bool, ℕ, String, List, [], ◌∷◌, some, Option}
use peer_core.Action.{◌>>=◌, ◌>>◌, ok, err, lift, pure, Action, Result}
use peer_core.Errors.{http_error}
use peer_core.Identity.{authorize_tenant}
use peer_core.Identity.Crypto.{Node}
use peer_core.Identity.Guards.{Verdict, auth_guard, passed, unauthorized, forbidden}
use peer_core.Identity.Tables.{AuthContext, Membership, owner, staff}
use peer_core.Orders.Services.{Services}
use peer_core.Orders.Notify.{accept, reject, advance}
use peer_core.Orders.Reads.{queue}
use peer_core.Restaurants.{create_branch, list_branches, update_branch, NewBranch, BranchPatch}
use peer_core.Menu.{create_item, set_sold_out, NewMenuItem}
use peer_core.Promotions.{
  create_promotion, list_promotions, deactivate, balance, history, NewPromotion,
}
use peer_core.Reviews.{summary, Summary}
use peer_core.Complaints.{list_open, Complaint, ComplaintStatus}
use peer_core.Complaints
use peer_core.Deliveries
use peer_core.Deliveries.{assign, owed, settle, Driver, DeliveryStatus, Delivery}
use peer_core.Discovery.{add_driver, list_drivers, NewDriver, DriverListing}

-- The routes on orders, branches and the menu.
pub data ManageRequest : Type 0 where
  get_queue : ManageRequest
  post_accept post_reject : Uuid → ManageRequest
  post_advance : Uuid → OrderStatus → ManageRequest
  get_branches : ManageRequest
  post_branch : NewBranch → ManageRequest
  patch_branch : Uuid → BranchPatch → ManageRequest
  post_item : NewMenuItem → ManageRequest
  post_sold_out : Uuid → Bool → ManageRequest

-- The routes on promotions, loyalty, reviews, complaints, deliveries and drivers.
pub data LedgerRequest : Type 0 where
  get_promotions : LedgerRequest
  post_promotion : NewPromotion → LedgerRequest
  post_deactivate : Uuid → LedgerRequest
  get_loyalty : String → LedgerRequest
  get_reviews : LedgerRequest
  get_complaints : LedgerRequest
  post_complaint_status : Uuid → ComplaintStatus → LedgerRequest
  post_delivery : Uuid → Driver → Number → LedgerRequest
  post_delivery_status : Uuid → DeliveryStatus → LedgerRequest
  get_owed : String → LedgerRequest
  post_settle : String → LedgerRequest
  get_directory : Option String → LedgerRequest
  post_directory : NewDriver → LedgerRequest

-- The answers, by their content.
pub data Reply : Type 0 where
  orders : List Order → Reply
  order : Order → Reply
  branches : List Branch → Reply
  branch : Option Branch → Reply
  item : Option CatalogItem → Reply
  promotions : List Promotion → Reply
  promotion : Promotion → Reply
  loyalty : ℕ → List LoyaltyEntry → Reply
  rated : Summary → Reply
  complaints : List Complaint → Reply
  complaint : Option Complaint → Reply
  delivery : Option Delivery → Reply
  amount : ℕ → Reply
  listings : List DriverListing → Reply
  done : Reply

-- What a guard leaves of a request.
abbrev pub admitted : Verdict → Result AuthContext
admitted (passed ctx) = ok ctx
admitted unauthorized = err (http_error 401)
admitted forbidden = err (http_error 403)

abbrev pub first_tenant : AuthContext → List Membership → Result String
first_tenant ctx [] = err (http_error 403)
first_tenant ctx (m ∷ ms) = authorize_tenant ctx m.tenant_id (owner ∷ staff ∷ [])

-- `tenantOf`
unfoldable pub staff_tenant : AuthContext → Result String
staff_tenant ctx = first_tenant ctx ctx.memberships

module _ {X A : Type 0} (node : Node) where
  -- A handler behind AuthGuard, given `this.tenantOf(req)`.
  unfoldable pub as_staff : Option String → ℕ → (String → Action Site X A) → Action Site X A
  unfolding staff_tenant
  as_staff header now handler w =
      (lift (admitted (auth_guard node header now w.db.accounts)) >>= λ ctx.
      lift (staff_tenant ctx) >>= handler)
        w

module _ (s : Services) (uuid_text : Uuid → String) where
  unfoldable pub manage : ManageRequest → Stamp → String → SiteAction s Reply
  manage get_queue d t = on_base (queue s t) >>= λ r. pure (orders r)
  manage (post_accept id) d t = on_base (accept s uuid_text t id) >>= λ r. pure (order r)
  manage (post_reject id) d t = on_base (reject s uuid_text t id) >>= λ r. pure (order r)
  manage (post_advance id to) d t = on_base (advance s uuid_text t id to) >>= λ r. pure (order r)
  manage get_branches d t = on_base (list_branches t) >>= λ r. pure (branches r)
  manage (post_branch body) d t =
      on_base (create_branch t d.id body) >>= λ r. pure (branch (some r))
  manage (patch_branch id body) d t = on_base (update_branch t id body) >>= λ r. pure (branch r)
  manage (post_item body) d t = on_base (create_item t d.id body) >>= λ r. pure (item (some r))
  manage (post_sold_out id is_out) d t = on_base (set_sold_out t id is_out) >>= λ r. pure (item r)

module _ {X : Type 0} (ilike : String → String → Bool) where
  unfoldable pub serve : LedgerRequest → Stamp → String → Action Site X Reply
  serve get_promotions d t = on_base (list_promotions t) >>= λ r. pure (promotions r)
  serve (post_promotion body) d t =
      on_base (create_promotion t d.id body) >>= λ r. pure (promotion r)
  serve (post_deactivate id) d t = on_base (deactivate t id) >> pure done
  serve (get_loyalty phone) d t = do
    points ← on_base (balance t phone)
    entries ← on_base (history t phone)
    pure (loyalty points entries)
  serve get_reviews d t = on_feedback (summary t) >>= λ r. pure (rated r)
  serve get_complaints d t = on_desk (list_open t) >>= λ r. pure (complaints r)
  serve (post_complaint_status id status) d t =
      on_desk (Complaints.set_status t id status) >>= λ r. pure (complaint r)
  serve (post_delivery id driver earning) d t =
      on_ledger (assign t d.id id driver earning) >>= λ r. pure (delivery (some r))
  serve (post_delivery_status id status) d t =
      on_ledger (Deliveries.set_status t id status) >>= λ r. pure (delivery r)
  serve (get_owed phone) d t = on_ledger (owed t phone) >>= λ r. pure (amount r)
  serve (post_settle phone) d t = on_ledger (settle t phone d.now) >> pure done
  serve (get_directory area) d t =
      on_listings (list_drivers ilike t area) >>= λ r. pure (listings r)
  serve (post_directory body) d t =
      on_listings (add_driver t d.id body) >>= λ r. pure (listings (r ∷ []))

-- Any of the routes.
pub data StaffRequest : Type 0 where
  managing : ManageRequest → StaffRequest
  serving : LedgerRequest → StaffRequest

unfoldable pub handle :
    (s : Services)
    → (Uuid → String)
    → (String → String → Bool)
    → StaffRequest
    → Stamp
    → String
    → SiteAction s Reply
unfolding manage serve
handle s uuid_text ilike (managing r) d tenant = manage s uuid_text r d tenant
handle s uuid_text ilike (serving r) d tenant = serve ilike r d tenant
