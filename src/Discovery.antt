-- ===== src/Discovery.antt =====
-- src/vertical/restaurants: diner-agent.service.ts, whose `ask` is `reply` of Knowledge, and
-- driver-directory.service.ts. `ilike` is the test of Postgres that a column contains a text.
pub mod Priced
mod Tests
use peer_core.Base.{
  ◌&&◌, if◌then◌else◌, [], ◌∷◌, none, some, true, false, refl, zero, suc, inl, inr, Option, find,
  ap, ◌++◌, ◌==◌, any, map, truthy, List, String, ℕ, Bool,
}
use peer_core.Action.{ok, err, statement, query, execute, Action, Result}
use peer_core.Base.Int.{pos, negsuc}
use peer_core.Base.Sorting.{take}
use peer_core.Tenancy.Rows.{select, select_one, update, Scoped}
use peer_core.Tenancy.{with_tenant, Uuid}
use peer_core.Orders.Tables.{CatalogItem, Tables, CatalogItem-scoped}
use peer_core.Orders.Lines.{is_available}
use peer_core.Errors.{database, unique_violation}

pub record MenuMatch : Type 0 where
  pub id : Uuid
  pub name : String
  pub price_minor : ℕ
  pub currency : String

pub record ItemFacts : Type 0 where
  pub id : Uuid
  pub name : String
  pub price_minor : ℕ
  pub currency : String
  pub allergens : Option (List String)
  pub advise_confirm_allergens : Bool
  pub available : Bool

-- An empty list is as good as none.
abbrev pub declared : Option (List String) → Option (List String)
declared none = none
declared (some []) = none
declared (some (a ∷ rest)) = some (a ∷ rest)

abbrev is_none : {A : Type 0} → Option A → Bool
is_none none = true
is_none (some a) = false

abbrev match_of : CatalogItem → MenuMatch
match_of r = record { id = r.id; name = r.name; price_minor = r.price_minor; currency = r.currency }

abbrev pub facts_of : CatalogItem → ItemFacts
facts_of r = record {
  id = r.id;
  name = r.name;
  price_minor = r.price_minor;
  currency = r.currency;
  allergens = declared r.allergens;
  advise_confirm_allergens = is_none (declared r.allergens);
  available = is_available r.status;
}

pub record DriverListing : Type 0 where
  pub id : Uuid
  pub tenant_id : Uuid
  pub name : String
  pub phone : String
  pub areas : Option String
  pub vehicle_type : Option String
  pub rate_note : Option String
  pub verified : Bool

instance abbrev pub DriverListing-scoped : Scoped DriverListing
DriverListing-scoped = record { tenant_of = λ r. r.tenant_id }

-- The input of `add`.
pub record NewDriver : Type 0 where
  pub name : String
  pub phone : String
  pub areas : Option String
  pub vehicle_type : Option String
  pub rate_note : Option String

abbrev pub listing_of : Uuid → Uuid → NewDriver → DriverListing
listing_of id t input = record {
  id = id;
  tenant_id = t;
  name = input.name;
  phone = input.phone;
  areas = input.areas;
  vehicle_type = input.vehicle_type;
  rate_note = input.rate_note;
  verified = false;
}

-- The primary key is checked.
abbrev pub insert_listing :
    DriverListing → List DriverListing → Result DriverListing × List DriverListing
insert_listing row rows =
    if any (λ r. r.id == row.id) rows
    then (err (database unique_violation), rows)
    else (ok row, rows ++ row ∷ [])

abbrev covers : (String → String → Bool) → String → DriverListing → Bool
covers ilike area r = elim r.areas [ none ↦ false | some areas ↦ ilike areas area ]

module _ {X : Type 0} (ilike : String → String → Bool) where
  unfoldable pub search_menu : String → String → ℕ → Action Tables X (List MenuMatch)
  search_menu tenant_id text k = with_tenant tenant_id (λ t. query (λ db.
      map match_of
        (take k (select t (λ r. is_available r.status && ilike r.name text) db.catalog_items))))

  -- An empty area is none.
  unfoldable pub list_drivers :
      String → Option String → Action (List DriverListing) X (List DriverListing)
  list_drivers tenant_id area = with_tenant tenant_id (λ t. query (λ rows. elim (truthy area) [
    | none ↦ select t (λ r. true) rows
    | some text ↦ select t (covers ilike text) rows
  ]))

module _ {X : Type 0} where
  unfoldable pub item_facts : String → Uuid → Action Tables X (Option ItemFacts)
  item_facts tenant_id item_id = with_tenant tenant_id (λ t. query (λ db.
      elim (select_one t (λ r. r.id == item_id) db.catalog_items) [
        | none ↦ none
        | some r ↦ some (facts_of r)
      ]))

  -- `id` is what Postgres draws.
  unfoldable pub add_driver :
      String → Uuid → NewDriver → Action (List DriverListing) X DriverListing
  add_driver tenant_id id input =
      with_tenant tenant_id (λ t. statement (insert_listing (listing_of id t input)))

  unfoldable pub verify_driver : String → Uuid → Action (List DriverListing) X (Unit {0})
  verify_driver tenant_id id =
      with_tenant tenant_id
        (λ t. execute (update t (λ r. r.id == id) (λ r. record r { verified = true })))
