-- ===== src/Orders/Lines.antt =====
-- `resolveLines` of src/vertical/restaurants/order.service.ts: catalog prices and modifier deltas
-- for the lines of a request. It writes nothing.
pub mod ItemPrice
use peer_core.Base.{
  String, [], ◌∷◌, none, some, true, false, Option, find, ◌+◌, ◌&&◌, ◌==◌, insert, max, lookup,
  length, str_eq, ltb, not, if◌then◌else◌, or_default, ℕ, Bool, List, Map,
}
use peer_core.Tenancy.Rows.{select_one}
use peer_core.Errors.{order_error, OrderCode}
use peer_core.Orders.Pricing.{PricedModifier, Number, PriceLineInput}
use peer_core.Orders.Tables.{
  available, sold_out, hidden, CatalogItem-scoped, MenuAvailability-scoped, ModifierOption, Tables,
  MenuAvailability, ModifierGroup, ItemStatus,
}
use peer_core.Action.{or_err, err, ok, Result}
use peer_core.Tenancy.{Uuid}

pub record Selection : Type 0 where
  pub group : String
  pub option : String

pub record CheckoutLine : Type 0 where
  pub item_id : Uuid
  pub quantity : Number
  pub modifiers : Option (List Selection)

pub record Snapshot : Type 0 where
  pub item_id : Uuid
  pub name : String

-- `priceLines` and `snapshots`, which the source fills side by side.
pub record Resolved : Type 0 where
  pub price_lines : List PriceLineInput
  pub snapshots : List Snapshot

infixl 5 ◌>>=◌ ◌>>◌
abbrev ◌>>=◌ : {A B : Type 0} → Result A → (A → Result B) → Result B
ok a >>= f = f a
err e >>= f = err e

abbrev ◌>>◌ : {B : Type 0} → Result (Unit {0}) → Result B → Result B
m >> k = m >>= λ _. k

abbrev throw_if : Bool → OrderCode → Result (Unit {0})
throw_if b c = if b then err (order_error c) else ok tt

abbrev pub is_available : ItemStatus → Bool
is_available available = true
is_available sold_out = false
is_available hidden = false

-- `override && !override.available`
abbrev is_gated : Option MenuAvailability → Bool
is_gated none = false
is_gated (some o) = not o.available

-- Without a branch id there is no per-branch test (`if (branchId)`).
abbrev gated_at : Uuid → Tables → Uuid → Option Uuid → Bool
gated_at t db item none = false
gated_at t db item (some branch) =
    is_gated
      (select_one t (λ r. (r.item_id == item) && (r.branch_id == branch)) db.menu_availability)

-- `group?.options.find(…)`
abbrev option_of : Option ModifierGroup → String → Option ModifierOption
option_of none name = none
option_of (some g) name = find (λ o. str_eq o.name name) g.options

abbrev find_option : List ModifierGroup → Selection → Option ModifierOption
find_option groups sel = option_of (find (λ g. str_eq g.name sel.group) groups) sel.option

-- `countByGroup.get(name) ?? 0`
abbrev count_of : String → Map ℕ → ℕ
count_of name counts = or_default (lookup name counts) 0

-- The callback of `(line.modifiers ?? []).map`, with the counts that it has made so far.
select_modifiers :
    List ModifierGroup → Map ℕ → List Selection → Result (List PricedModifier × Map ℕ)
select_modifiers groups counts [] = ok ([], counts)
select_modifiers groups counts (sel ∷ sels) = do
  option ← or_err (find_option groups sel) (order_error OrderCode.bad_modifier)
  (priced, counts') ←
      select_modifiers groups (insert sel.group (count_of sel.group counts + 1) counts) sels
  ok (record { name = option.name; price_delta_minor = option.price_delta_minor } ∷ priced, counts')

abbrev pub min_of : ModifierGroup → ℕ
min_of g = if g.required then max 1 (or_default g.min_select 0) else or_default g.min_select 0

abbrev pub max_of : ModifierGroup → ℕ
max_of g = or_default g.max_select (length g.options)

-- The loop `for (const g of groups)`.
check_groups : Map ℕ → List ModifierGroup → Result (Unit {0})
check_groups counts [] = ok tt
check_groups counts (g ∷ gs) = do
  throw_if (ltb (count_of g.name counts) (min_of g)) OrderCode.bad_modifier
  throw_if (ltb (max_of g) (count_of g.name counts)) OrderCode.bad_modifier
  check_groups counts gs

-- One round of the loop over the lines.
unfoldable pub resolve_line :
    Uuid → Tables → Option Uuid → CheckoutLine → Result (PriceLineInput × Snapshot)
unfolding select_modifiers check_groups
resolve_line t db branch line = do
  item ←
      or_err (select_one t (λ r. r.id == line.item_id) db.catalog_items)
        (order_error OrderCode.bad_item)
  throw_if (not (is_available item.status)) OrderCode.unavailable
  throw_if (gated_at t db line.item_id branch) OrderCode.unavailable
  (modifiers, counts) ←
      select_modifiers (or_default item.modifier_groups []) [] (or_default line.modifiers [])
  check_groups counts (or_default item.modifier_groups [])
  ok (
    record { unit_price_minor = item.price_minor; quantity = line.quantity; modifiers = modifiers },
    record { item_id = item.id; name = item.name },
  )

unfoldable pub resolve_lines : Uuid → Tables → Option Uuid → List CheckoutLine → Result Resolved
unfolding resolve_line
resolve_lines t db branch [] = ok (record { price_lines = []; snapshots = [] })
resolve_lines t db branch (line ∷ lines) = do
  (priced, snapshot) ← resolve_line t db branch line
  rest ← resolve_lines t db branch lines
  ok (record { price_lines = priced ∷ rest.price_lines; snapshots = snapshot ∷ rest.snapshots })
