-- ===== src/Restaurants.antt =====
-- src/vertical/restaurants: restaurant.service.ts and faq.service.ts, on the tables of Orders/Tables and
-- of Reservations. A branch is asked for with a minimum that is a whole number from 0 on; coordinates
-- and the names of tables are left out.
pub mod Minimum
mod Tests
use mathlib.Core.Option
use peer_core.Base.{
  ◌&&◌, if◌then◌else◌, [], ◌∷◌, none, some, true, false, refl, zero, suc, inl, inr, Option, find,
  ap, ◌++◌, ◌==◌, any, or_default, lookup, List, String, ℕ, Map,
}
use peer_core.Action.{pure, ◌>>=◌, ok, err, statement, query, throw, zoom, Action, Result}
use peer_core.Base.Int.{pos, negsuc}
use peer_core.Tenancy.Rows.{select, select_one, update, update_returning}
use peer_core.Tenancy.{with_tenant, Uuid}
use peer_core.Orders.Tables.{Branch, Tables, Branch-scoped}
use peer_core.Orders.Pricing.{Number, integer, other}
use peer_core.Orders.Hours.{Hours, Text}
use peer_core.Menu.{natural_of}
use peer_core.Errors.{
  validation_error, invalid_input, database, unique_violation, foreign_key_violation,
}
use peer_core.Reservations.{RestaurantTable, RestaurantTable-scoped, Book}

pub record NewBranch : Type 0 where
  pub name : String
  pub address : Option String
  pub hours : Option Hours
  pub phone : Option String
  pub min_order_minor : Option ℕ

-- A missing field leaves the column as it is; a call gives one of them at least.
pub record BranchPatch : Type 0 where
  pub name : Option String
  pub address : Option String
  pub phone : Option String
  pub hours : Option Hours
  pub min_order_minor : Option Number

pub record NewTable : Type 0 where
  pub branch_id : Uuid
  pub capacity : Number

pub record BranchInfo : Type 0 where
  pub name : String
  pub address : Option String
  pub phone : Option String
  pub hours : Hours

-- The tables of the service.
pub record Venue : Type 0 where
  pub base : Tables
  pub book : Book

abbrev pub branch_of : Uuid → Uuid → NewBranch → Branch
branch_of id t input = record {
  id = id;
  tenant_id = t;
  name = input.name;
  address = input.address;
  phone = input.phone;
  hours = or_default input.hours [];
  min_order_minor = or_default input.min_order_minor 0;
}

-- The primary key is checked.
abbrev pub insert_branch : Branch → Tables → Result Branch × Tables
insert_branch row db =
    if any (λ b. b.id == row.id) db.branches
    then (err (database unique_violation), db)
    else (ok row, record db { branches = db.branches ++ row ∷ [] })

abbrev or_kept : {A : Type 0} → Option A → Option A → Option A
or_kept none old = old
or_kept (some new) old = some new

-- What `set` writes, the minimum apart from the patch once it is checked.
abbrev pub patched : BranchPatch → Option ℕ → Branch → Branch
patched patch minimum b = record b {
  name = or_default patch.name b.name;
  address = or_kept patch.address b.address;
  phone = or_kept patch.phone b.phone;
  hours = or_default patch.hours b.hours;
  min_order_minor = or_default minimum b.min_order_minor;
}

abbrev pub change_branch :
    Uuid → Uuid → BranchPatch → Option ℕ → Tables → Result (Option Branch) × Tables
change_branch t branch_id patch minimum db =
    let (row, rows) =
      update_returning t (λ b. b.id == branch_id) (patched patch minimum) db.branches in
    (ok row, record db { branches = rows })

abbrev table_of : Uuid → Uuid → Uuid → ℕ → RestaurantTable
table_of id t branch_id capacity = record {
  id = id;
  tenant_id = t;
  branch_id = branch_id;
  capacity = capacity;
}

-- The primary key, and the reference to a branch.
abbrev insert_table : RestaurantTable → Venue → Result RestaurantTable × Venue
insert_table row db =
    if any (λ x. x.id == row.id) db.book.restaurant_tables
    then (err (database unique_violation), db)
    else if any (λ b. b.id == row.branch_id) db.base.branches
    then (
      ok row,
      record db {
        book = record db.book { restaurant_tables = db.book.restaurant_tables ++ row ∷ [] };
      },
    )
    else (err (database foreign_key_violation), db)

-- A number above 0.
abbrev pub capacity_of : Number → Option ℕ
capacity_of (integer (pos (suc n))) = some (suc n)
capacity_of _ = none

abbrev pub info_of : Branch → BranchInfo
info_of b = record { name = b.name; address = b.address; phone = b.phone; hours = b.hours }

abbrev pub branch_info_in : Uuid → Uuid → Tables → Option BranchInfo
branch_info_in t branch_id db =
    Option.map info_of (select_one t (λ b. b.id == branch_id) db.branches)

abbrev windows_on : String → Option BranchInfo → List (Text × Text)
windows_on day none = []
windows_on day (some info) = or_default (lookup day info.hours) []

module _ {X : Type 0} where
  -- `id` is what Postgres draws.
  unfoldable pub create_branch : String → Uuid → NewBranch → Action Tables X Branch
  create_branch tenant_id id input =
      with_tenant tenant_id (λ t. statement (insert_branch (branch_of id t input)))

  unfoldable pub list_branches : String → Action Tables X (List Branch)
  list_branches tenant_id =
      with_tenant tenant_id (λ t. query (λ db. select t (λ b. true) db.branches))

  abbrev pub change : String → Uuid → BranchPatch → Option ℕ → Action Tables X (Option Branch)
  change tenant_id branch_id patch minimum =
      with_tenant tenant_id (λ t. statement (change_branch t branch_id patch minimum))

  -- The row changed, none if the tenant has none with the id.
  unfoldable pub update_branch : String → Uuid → BranchPatch → Action Tables X (Option Branch)
  update_branch tenant_id branch_id patch = elim patch.min_order_minor [
    | none ↦ change tenant_id branch_id patch none
    | some n ↦ elim (natural_of n) [
      | none ↦ throw (validation_error invalid_input)
      | some minimum ↦ change tenant_id branch_id patch (some minimum)
    ]
  ]

  unfoldable pub add_table : String → Uuid → NewTable → Action Venue X RestaurantTable
  add_table tenant_id id input = elim (capacity_of input.capacity) [
    | none ↦ throw (validation_error invalid_input)
    | some capacity ↦
        with_tenant tenant_id
          (λ t. statement (insert_table (table_of id t input.branch_id capacity)))
  ]

  unfoldable pub list_tables : String → Uuid → Action Book X (List RestaurantTable)
  list_tables tenant_id branch_id =
      with_tenant tenant_id
        (λ t. query (λ db. select t (λ x. x.branch_id == branch_id) db.restaurant_tables))

  -- `FaqService.branchInfo`
  unfoldable pub branch_info : String → Uuid → Action Tables X (Option BranchInfo)
  branch_info tenant_id branch_id = with_tenant tenant_id (λ t. query (branch_info_in t branch_id))

  -- `FaqService.hoursForDay`, for a weekday in lower case.
  unfoldable pub hours_for_day : String → Uuid → String → Action Tables X (List (Text × Text))
  unfolding branch_info
  hours_for_day tenant_id branch_id day =
      branch_info tenant_id branch_id >>= λ info. pure (windows_on day info)
