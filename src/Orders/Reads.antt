-- ===== src/Orders/Reads.antt =====
-- The queries of src/vertical/restaurants/order.service.ts: `getOrder`, `queue`, `listForBranch` and
-- `quote`. None of them writes.
pub mod Queue
mod Tests
use peer_core.Orders.Pricing.{compute_totals, OrderTotals}
use peer_core.Tenancy.Rows.{select, select_one}
use peer_core.Orders.State.{
  out_for_delivery, ready, preparing, includes, accepted, new, OrderStatus,
}
use peer_core.Orders.Lines.{resolve_lines, CheckoutLine, Selection, Resolved}
use peer_core.Orders.Services.{OrderAction, Services}
use peer_core.Tenancy.{with_tenant, Uuid}
use peer_core.Base.{
  ◌==◌, leb, keep, if◌then◌else◌, String, List, [], ◌∷◌, none, some, true, false, refl, zero, suc,
  inl, inr, Option, find, ap,
}
use peer_core.Orders.Tables.{
  OrderEvent, OrderItem, Tables, Order, CatalogItem-scoped, MenuAvailability-scoped, Branch-scoped,
  Promotion-scoped, Order-scoped, OrderItem-scoped, OrderEvent-scoped, LoyaltyAccount-scoped,
}
use peer_core.Action.{consult, query, Result, ok, err}
use peer_core.Base.Int.{ℤ, pos, negsuc}

pub record Tracking : Type 0 where
  pub order : Order
  pub items : List OrderItem
  pub events : List OrderEvent

-- `OPEN`
abbrev pub open_statuses : List OrderStatus
open_statuses = new ∷ accepted ∷ preparing ∷ ready ∷ out_for_delivery ∷ []

-- `sort((a, b) => a.createdAt - b.createdAt)`, which is stable.
pub insert_order_by_age : Order → List Order → List Order
insert_order_by_age o [] = o ∷ []
insert_order_by_age o (x ∷ xs) =
    if leb o.created_at x.created_at then o ∷ x ∷ xs else x ∷ insert_order_by_age o xs

unfoldable pub oldest_first : List Order → List Order
unfolding insert_order_by_age
oldest_first [] = []
oldest_first (o ∷ os) = insert_order_by_age o (oldest_first os)

pub queue_rows : Uuid → Tables → List Order
unfolding oldest_first
queue_rows t db =
    oldest_first (keep (λ o. includes open_statuses o.status) (select t (λ o. true) db.orders))

abbrev track : Uuid → Uuid → Tables → Option Tracking
track t order_id db = elim (select_one t (λ o. o.id == order_id) db.orders) [
  | none ↦ none
  | some order ↦ some (record {
    order = order;
    items = select t (λ i. i.order_id == order_id) db.order_items;
    events = select t (λ e. e.order_id == order_id) db.order_events;
  })
]

-- A missing filter keeps every row.
abbrev by_status : Option (List OrderStatus) → List Order → List Order
by_status none rows = rows
by_status (some statuses) rows = keep (λ o. includes statuses o.status) rows

abbrev quote_of : Result Resolved → ℤ → Result OrderTotals
quote_of (err e) fee = err e
quote_of (ok resolved) fee = compute_totals resolved.price_lines fee (pos 0)

module _ (s : Services) where
  unfoldable pub get_order : String → Uuid → OrderAction s (Option Tracking)
  get_order tenant_id order_id = with_tenant tenant_id (λ t. query (track t order_id))

  unfoldable pub queue : String → OrderAction s (List Order)
  unfolding queue_rows
  queue tenant_id = with_tenant tenant_id (λ t. query (queue_rows t))

  unfoldable pub list_for_branch :
      String → Uuid → Option (List OrderStatus) → OrderAction s (List Order)
  list_for_branch tenant_id branch_id statuses =
      with_tenant tenant_id
        (λ t. query (λ db. by_status statuses (select t (λ o. o.branch_id == branch_id) db.orders)))

  -- Without a branch, so the availability at a branch is not looked at.
  unfoldable pub quote : String → List CheckoutLine → ℤ → OrderAction s OrderTotals
  quote tenant_id lines fee =
      with_tenant tenant_id (λ t. consult (λ db. quote_of (resolve_lines t db none lines) fee))
