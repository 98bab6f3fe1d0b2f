-- ===== src/Api/Diners.antt =====
-- src/vertical/restaurants/diner.controller.ts: each route in the tenant that the slug of its path
-- resolves to. The page of the widget is left out. Dates and numbers of a body are read as such.
use peer_core.Orders.Lines.{CheckoutLine}
use peer_core.Orders.Pricing.{OrderTotals, Number}
use peer_core.Api.{on_feedback, on_desk, on_base, on_shop, List, on_bookings, Site, SiteAction}
use peer_core.Orders.Services.{Services}
use peer_core.Tenancy.{Uuid}
use peer_core.Base.{Bool, ℕ, String, none, some, Option, truthy, or_default}
use peer_core.Action.{◌>>=◌, pure, throw, or_err, Action}
use peer_core.Base.Int.{ℤ}
use peer_core.Errors.{http_error}
use peer_core.Platform.{by_slug}
use peer_core.Discovery.{search_menu, item_facts, MenuMatch, ItemFacts}
use peer_core.Restaurants.{branch_info, BranchInfo}
use peer_core.Reservations.{book, find_available_table, BookInput, Reservation, RestaurantTable}
use peer_core.Orders.Checkout.{checkout, CheckoutInput, Draws}
use peer_core.Orders.Reads.{get_order, Tracking}
use peer_core.Complaints.{capture, NewComplaint, Complaint}
use peer_core.Reviews.{submit, Review}
use peer_core.Carts.{create_cart, add_item, quote_cart, checkout_cart, CartCheckout, Cart, CartItem}
use peer_core.Orders.Tables.{Order, OrderType, pickup}

pub record BookBody : Type 0 where
  pub branch_id : Uuid
  pub party_size : ℕ
  pub starts_at : ℕ
  pub duration_min : Option ℕ
  pub diner_name : Option String
  pub diner_phone : Option String

-- The body of `placeOrder`.
pub record OrderBody : Type 0 where
  pub branch_id : Uuid
  pub order_type : Option OrderType
  pub lines : List CheckoutLine
  pub diner_phone : Option String
  pub idempotency_key : Option String

-- The body of `checkoutCart`.
pub record CartBody : Type 0 where
  pub branch_id : Uuid
  pub order_type : Option OrderType
  pub diner_phone : Option String
  pub idempotency_key : Option String
  pub delivery_fee_minor : Option ℤ

abbrev booking_of : BookBody → Uuid → BookInput
booking_of body table = record {
  branch_id = body.branch_id;
  table_id = table;
  party_size = body.party_size;
  starts_at = body.starts_at;
  duration_min = or_default body.duration_min 90;
  diner_name = body.diner_name;
  diner_phone = body.diner_phone;
  notes = none;
}

-- A fee, a promotion and a time cannot be asked for.
abbrev pub order_of : OrderBody → CheckoutInput
order_of body = record {
  branch_id = body.branch_id;
  order_type = or_default body.order_type pickup;
  lines = body.lines;
  delivery_fee_minor = none;
  idempotency_key = body.idempotency_key;
  diner_phone = body.diner_phone;
  promo_code = none;
  scheduled_for = none;
}

abbrev cart_of : CartBody → CartCheckout
cart_of body = record {
  branch_id = body.branch_id;
  order_type = or_default body.order_type pickup;
  diner_phone = body.diner_phone;
  idempotency_key = body.idempotency_key;
  delivery_fee_minor = body.delivery_fee_minor;
}

-- `null` is not found.
abbrev or_missing : {D X A : Type 0} → Option A → Action D X A
or_missing none = throw (http_error 404)
or_missing (some a) = pure a

-- `if (!value) throw new BadRequestException(…)`
abbrev pub given : {D X A : Type 0} → Option A → Action D X A
given none = throw (http_error 400)
given (some a) = pure a

module _ {X : Type 0} (uuid_text : Uuid → String) where
  -- `resolve`; an empty id, which no tenant has, would be unknown as well.
  unfoldable pub resolve_slug : String → Action Site X String
  resolve_slug slug w = (or_err (by_slug uuid_text slug w.db.tenants) (http_error 404), w)

  unfoldable pub get_menu :
      (String → String → Bool) → String → Option String → Action Site X (List MenuMatch)
  unfolding resolve_slug
  get_menu ilike slug q =
      resolve_slug slug >>= λ t. on_base (search_menu ilike t (or_default q "") 5)

  unfoldable pub get_item : String → Uuid → Action Site X ItemFacts
  unfolding resolve_slug
  get_item slug id = resolve_slug slug >>= λ t. on_base (item_facts t id) >>= or_missing

  unfoldable pub get_branch_info : String → Uuid → Action Site X BranchInfo
  unfolding resolve_slug
  get_branch_info slug id = resolve_slug slug >>= λ t. on_base (branch_info t id) >>= or_missing

  abbrev book_table : Uuid → BookBody → String → Option RestaurantTable → Action Site X Reservation
  book_table id body t none = throw (http_error 409)
  book_table id body t (some table) = on_bookings (book t id (booking_of body table.id))

  unfoldable pub post_reservation : String → Uuid → BookBody → Action Site X Reservation
  unfolding resolve_slug
  post_reservation slug id body = do
    t ← resolve_slug slug
    table ← on_bookings (
        find_available_table t body.branch_id body.party_size body.starts_at
          (or_default body.duration_min 90))
    book_table id body t table

  unfoldable pub post_complaint : String → Uuid → NewComplaint → Action Site X Complaint
  unfolding resolve_slug
  post_complaint slug id body = do
    _ ← given (truthy (some body.subject))
    _ ← given (truthy (some body.body))
    t ← resolve_slug slug
    on_desk (capture t id body)

  unfoldable pub post_review : String → Uuid → Option Uuid → Number → Action Site X Review
  unfolding resolve_slug
  post_review slug id order_id rating = do
    order ← given order_id
    t ← resolve_slug slug
    on_feedback (submit t id order rating)

  unfoldable pub post_cart : String → Uuid → Option Uuid → Action Site X Cart
  unfolding resolve_slug
  post_cart slug id branch_id = do
    branch ← given branch_id
    t ← resolve_slug slug
    on_shop (create_cart t id branch)

  unfoldable pub post_cart_item : String → Uuid → CheckoutLine → Action Site X CartItem
  unfolding resolve_slug
  post_cart_item slug cart line = resolve_slug slug >>= λ t. on_shop (add_item t cart line)

module _ (s : Services) (uuid_text : Uuid → String) where
  unfoldable pub place_order : String → OrderBody → Draws → SiteAction s Order
  unfolding resolve_slug
  place_order slug body d = do
    _ ← given (truthy body.idempotency_key)
    t ← resolve_slug uuid_text slug
    on_base (checkout s t (order_of body) d)

  unfoldable pub track_order : String → Uuid → SiteAction s Tracking
  unfolding resolve_slug
  track_order slug id =
      resolve_slug uuid_text slug >>= λ t. on_base (get_order s t id) >>= or_missing

  unfoldable pub cart_quote : String → Uuid → ℤ → SiteAction s OrderTotals
  unfolding resolve_slug
  cart_quote slug cart fee = resolve_slug uuid_text slug >>= λ t. on_shop (quote_cart s t cart fee)

  unfoldable pub post_cart_checkout : String → Uuid → CartBody → Draws → SiteAction s Order
  unfolding resolve_slug
  post_cart_checkout slug cart body d = do
    _ ← given (truthy body.idempotency_key)
    t ← resolve_slug uuid_text slug
    on_shop (checkout_cart s t cart (cart_of body) d)
