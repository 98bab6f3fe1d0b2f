-- ===== src/Menu/Tests.antt =====
-- Groups that are accepted and refused, and an item that sells out.
use peer_core.Menu.SoldOut.{set_sold_out-resolve_lines}
use peer_core.Tenancy.Rows.{select_one}
use peer_core.Tenancy.{with_tenant, uuid_of}
use peer_core.Base.{ℕ, List, ◌≡◌, String, [], ◌∷◌, none, some, true, false, refl}
use peer_core.Action.{World, ok, err}
use peer_core.Base.Int.{pos}
use peer_core.Menu.{NewGroup, set_sold_out, is_available_at_branch, validate_modifier_groups}
use peer_core.Orders.Pricing.{integer}
use peer_core.Orders.Tables.{
  Tables, CatalogItem, available, CatalogItem-scoped, MenuAvailability-scoped,
}
use peer_core.Orders.Lines.{resolve_lines, CheckoutLine}
use peer_core.Errors.{validation_error, bad_modifier, Error}

abbrev size : NewGroup
size = record {
  name = "Size";
  min_select = integer (pos 1);
  max_select = integer (pos 1);
  required = true;
  options = record { name = "Large"; price_delta_minor = integer (pos 300) } ∷ [];
}

accepted_group : validate_modifier_groups (size ∷ []) ≡ ok tt
unfolding validate_modifier_groups
accepted_group = refl

too_many :
    validate_modifier_groups (record size { max_select = integer (pos 2) } ∷ [])
    ≡ err (validation_error bad_modifier)
unfolding validate_modifier_groups
too_many = refl

abbrev pizza : CatalogItem
pizza = record {
  id = 3;
  tenant_id = 7;
  name = "Pizza";
  price_minor = 4000;
  description = none;
  currency = "SAR";
  allergens = none;
  modifier_groups = none;
  status = available;
}

abbrev tables : Tables
tables = record {
  catalog_items = pizza ∷ [];
  menu_availability = [];
  branches = [];
  promotions = [];
  orders = [];
  order_items = [];
  order_events = [];
  payments = [];
  loyalty_accounts = [];
  loyalty_ledger = [];
}

abbrev world : World Tables ℕ
world = record { db = tables; outside = 0 }

abbrev tenant : String
tenant = "00000000-0000-0000-0000-000000000007"

tenant_read : uuid_of tenant ≡ some 7
unfolding uuid_of
tenant_read = refl

on_sale : (is_available_at_branch tenant 3 1 world).0 ≡ ok true
unfolding is_available_at_branch with_tenant uuid_of select_one
on_sale = refl

abbrev lines : List CheckoutLine
lines = record { item_id = 3; quantity = integer (pos 1); modifiers = none } ∷ []

set_sold_out-resolve_lines_example :
    let w' = (set_sold_out tenant 3 true world).1 in
    ((is_available_at_branch tenant 3 1 w').0 ≡ ok false)
    × (e : Error) × (resolve_lines 7 w'.db (some 1) lines ≡ err e)
set_sold_out-resolve_lines_example =
    set_sold_out-resolve_lines tenant 7 3 1 lines world tenant_read refl
