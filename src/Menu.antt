-- ===== src/Menu.antt =====
-- src/vertical/restaurants/menu.service.ts and src/modules/catalog/catalog.service.ts, on the tables of
-- Orders/Tables. The columns of an item that no operation reads are left out.
pub mod Validation
pub mod SoldOut
mod Tests
use peer_core.Tenancy.Rows.{update_returning, select, update, select_one}
use peer_core.Tenancy.{with_tenant, Uuid}
use peer_core.Base.{
  or_default, length, ◌++◌, is_truthy, ◌==◌, ltb, ℕ, not, ◌||◌, map, String, List, Bool, ◌&&◌,
  if◌then◌else◌, [], ◌∷◌, none, some, true, false, refl, zero, suc, inl, inr, Option, find, ap,
}
use peer_core.Action.{◌>>◌, query, lift, throw, statement, Action, Result, ok, err}
use peer_core.Base.Int.{ℤ, pos, negsuc}
use peer_core.Errors.{bad_modifier, validation_error, plain, database, insufficient_privilege}
use peer_core.Orders.Tables.{
  CatalogItem, Tables, ItemStatus, ModifierGroup, MenuAvailability, ModifierOption,
  CatalogItem-scoped, MenuAvailability-scoped, available, sold_out, hidden,
}
use peer_core.Orders.Pricing.{Number, integer, other}

-- `ModifierOption` and `ModifierGroup` as a caller gives them, with any numbers.
pub record NewOption : Type 0 where
  pub name : String
  pub price_delta_minor : Number

pub record NewGroup : Type 0 where
  pub name : String
  pub min_select : Number
  pub max_select : Number
  pub required : Bool
  pub options : List NewOption

pub record NewMenuItem : Type 0 where
  pub name : String
  pub description : Option String
  pub price_minor : Number
  pub currency : Option String
  pub allergens : Option (List String)
  pub modifier_groups : Option (List NewGroup)

-- `Number.isInteger`
abbrev pub is_integer : Number → Bool
is_integer (integer z) = true
is_integer other = false

-- The test `Number.isInteger(n) && n >= 0`, with the value.
abbrev pub natural_of : Number → Option ℕ
natural_of (integer (pos n)) = some n
natural_of (integer (negsuc n)) = none
natural_of other = none

-- `a < b` on integers.
abbrev pub below : ℤ → ℤ → Bool
below (pos a) (pos b) = ltb a b
below (pos a) (negsuc b) = false
below (negsuc a) (pos b) = true
below (negsuc a) (negsuc b) = ltb b a

abbrev refuse : Bool → Result (Unit {0}) → Result (Unit {0})
refuse b next = if b then err (validation_error bad_modifier) else next

abbrev check_options : List NewOption → Result (Unit {0})
check_options [] = ok tt
check_options (o ∷ os) = refuse (not (is_integer o.price_delta_minor)) (check_options os)

-- The tests on `minSelect` and `maxSelect`, once both are integers.
abbrev check_limits : NewGroup → Number → Number → Result (Unit {0})
check_limits g (integer low) (integer high) = refuse (below low (pos 0) || below high low) (
    refuse (below (pos (length g.options)) high)
      (refuse (g.required && below low (pos 1)) (check_options g.options)))
check_limits g _ _ = err (validation_error bad_modifier)

abbrev check_group : NewGroup → Result (Unit {0})
check_group g = refuse (not (is_truthy g.name)) (check_limits g g.min_select g.max_select)

abbrev and_then : Result (Unit {0}) → Result (Unit {0}) → Result (Unit {0})
and_then (ok u) next = next
and_then (err e) next = err e

-- `validateModifierGroups`
unfoldable pub validate_modifier_groups : List NewGroup → Result (Unit {0})
validate_modifier_groups [] = ok tt
validate_modifier_groups (g ∷ gs) = and_then (check_group g) (validate_modifier_groups gs)

abbrev pub validate_given : Option (List NewGroup) → Result (Unit {0})
validate_given none = ok tt
validate_given (some gs) = validate_modifier_groups gs

-- What the JSON of `attributes` reads as, where the numbers are integers.
abbrev stored_option : NewOption → ModifierOption
stored_option o = record { name = o.name; price_delta_minor = delta o.price_delta_minor }
  where
    delta : Number → ℤ
    delta (integer z) = z
    delta other = pos 0

abbrev pub stored_group : NewGroup → ModifierGroup
stored_group g = record {
  name = g.name;
  min_select = natural_of g.min_select;
  max_select = natural_of g.max_select;
  required = g.required;
  options = map stored_option g.options;
}

abbrev new_item : Uuid → Uuid → NewMenuItem → ℕ → CatalogItem
new_item id t input price = record {
  id = id;
  tenant_id = t;
  name = input.name;
  description = input.description;
  price_minor = price;
  currency = or_default input.currency "SAR";
  modifier_groups = some (map stored_group (or_default input.modifier_groups []));
  allergens = input.allergens;
  status = available;
}

abbrev pub has_pair : Uuid → Uuid → MenuAvailability → Bool
has_pair item branch r = (r.item_id == item) && (r.branch_id == branch)

-- uq_menu_availability spans the tenants, and row-level security refuses to update another's row.
abbrev upsert_availability : MenuAvailability → Tables → Result (Unit {0}) × Tables
upsert_availability new db = elim (find (has_pair new.item_id new.branch_id) db.menu_availability) [
  | none ↦ (ok tt, record db { menu_availability = db.menu_availability ++ new ∷ [] })
  | some r ↦
      if r.tenant_id == new.tenant_id
      then (
        ok tt,
        record db {
          menu_availability =
              update new.tenant_id (has_pair new.item_id new.branch_id)
                (λ x. record x { available = new.available }) db.menu_availability;
        },
      )
      else (err (database insufficient_privilege), db)
]

abbrev pub is_orderable : ItemStatus → Bool
is_orderable available = true
is_orderable _ = false

abbrev pub available_at : Uuid → Tables → Uuid → Uuid → Bool
available_at t db item branch = elim (select_one t (λ r. r.id == item) db.catalog_items) [
  | none ↦ false
  | some i ↦
      if is_orderable i.status
      then elim (select_one t (has_pair item branch) db.menu_availability) [
        | none ↦ true
        | some o ↦ o.available
      ]
      else false
]

module _ {X : Type 0} where
  -- `CatalogService.createItem`; `id` is what Postgres draws.
  unfoldable pub create_catalog_item : String → Uuid → NewMenuItem → Action Tables X CatalogItem
  create_catalog_item tenant_id id input = elim (natural_of input.price_minor) [
    | none ↦ throw plain
    | some price ↦ with_tenant tenant_id (λ t. statement (λ db.
        let item = new_item id t input price in
        (ok item, record db { catalog_items = db.catalog_items ++ item ∷ [] })))
  ]

  -- `MenuService.createItem`
  unfoldable pub create_item : String → Uuid → NewMenuItem → Action Tables X CatalogItem
  unfolding create_catalog_item
  create_item tenant_id id input =
      lift (validate_given input.modifier_groups) >> create_catalog_item tenant_id id input

  unfoldable pub list_items : String → Action Tables X (List CatalogItem)
  list_items tenant_id =
      with_tenant tenant_id (λ t. query (λ db. select t (λ r. true) db.catalog_items))

  unfoldable pub set_item_status : String → Uuid → ItemStatus → Action Tables X (Option CatalogItem)
  set_item_status tenant_id item status = with_tenant tenant_id (λ t. statement (λ db.
      let (row, rows) =
        update_returning t (λ r. r.id == item) (λ r. record r { status = status })
          db.catalog_items in
      (ok row, record db { catalog_items = rows })))

  unfoldable pub set_sold_out : String → Uuid → Bool → Action Tables X (Option CatalogItem)
  unfolding set_item_status
  set_sold_out tenant_id item is_out =
      set_item_status tenant_id item (if is_out then sold_out else available)

  unfoldable pub set_branch_availability : String → Uuid → Uuid → Bool → Action Tables X (Unit {0})
  set_branch_availability tenant_id item branch is_on = with_tenant tenant_id (λ t. statement (
      upsert_availability
        (record { tenant_id = t; item_id = item; branch_id = branch; available = is_on })))

  unfoldable pub is_available_at_branch : String → Uuid → Uuid → Action Tables X Bool
  is_available_at_branch tenant_id item branch =
      with_tenant tenant_id (λ t. query (λ db. available_at t db item branch))
