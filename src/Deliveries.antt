-- ===== src/Deliveries.antt =====
-- src/vertical/restaurants/delivery.service.ts: deliveries, and the ledger of what drivers are owed.
-- The order that a delivery names exists, and amounts fit their column.
pub mod Isolation
pub mod Settled
pub mod Owed
mod Tests
use peer_core.Orders.Pricing.{integer, Number}
use peer_core.Tenancy.{with_tenant, Uuid}
use peer_core.Tenancy.Rows.{select, update_returning, update, Scoped}
use peer_core.Base.{
  not, ◌&&◌, ◌+◌, str_eq, ◌==◌, ℕ, ◌++◌, Bool, String, List, if◌then◌else◌, [], ◌∷◌, none, some,
  true, false, refl, zero, suc, inl, inr, Option, find, ap,
}
use peer_core.Action.{pure, ◌>>◌, query, ◌>>=◌, execute, throw, statement, Action, Result, ok, err}
use peer_core.Base.Int.{pos, negsuc}
use peer_core.Errors.{insufficient_privilege, validation_error, invalid_input, database}

pub data DeliveryStatus : Type 0 where
  assigned picked_up delivered failed : DeliveryStatus

pub record Delivery : Type 0 where
  pub id : Uuid
  pub tenant_id : Uuid
  pub order_id : Uuid
  pub driver_name : String
  pub driver_phone : String
  pub status : DeliveryStatus

-- `order_id` is null once the order is deleted.
pub record DriverEarning : Type 0 where
  pub tenant_id : Uuid
  pub driver_phone : String
  pub order_id : Option Uuid
  pub amount_minor : ℕ
  pub settled : Bool
  pub settled_at : Option ℕ

pub record DeliveryTables : Type 0 where
  pub deliveries : List Delivery
  pub driver_earnings : List DriverEarning

pub record Driver : Type 0 where
  pub name : String
  pub phone : String

instance abbrev pub Delivery-scoped : Scoped Delivery
Delivery-scoped = record { tenant_of = λ r. r.tenant_id }

instance abbrev pub DriverEarning-scoped : Scoped DriverEarning
DriverEarning-scoped = record { tenant_of = λ r. r.tenant_id }

abbrev pub for_order : Uuid → DriverEarning → Bool
for_order order e = elim e.order_id [ none ↦ false | some o ↦ o == order ]

abbrev new_delivery : Uuid → Uuid → Uuid → Driver → Delivery
new_delivery id t order driver = record {
  id = id;
  tenant_id = t;
  order_id = order;
  driver_name = driver.name;
  driver_phone = driver.phone;
  status = assigned;
}

-- uq_deliveries_order spans the tenants, and row-level security refuses to update another's row.
abbrev upsert_delivery : Delivery → DeliveryTables → Result Delivery × DeliveryTables
upsert_delivery new db = elim (find (λ d. d.order_id == new.order_id) db.deliveries) [
  | none ↦ (ok new, record db { deliveries = db.deliveries ++ new ∷ [] })
  | some d ↦
      if d.tenant_id == new.tenant_id
      then (
        ok (record new { id = d.id }),
        record db {
          deliveries =
              update new.tenant_id (λ x. x.order_id == new.order_id)
                (λ x. record x {
                  driver_name = new.driver_name;
                  driver_phone = new.driver_phone;
                  status = assigned;
                })
                db.deliveries;
        },
      )
      else (err (database insufficient_privilege), db)
]

abbrev new_earning : Uuid → Uuid → Driver → ℕ → DriverEarning
new_earning t order driver amount = record {
  tenant_id = t;
  driver_phone = driver.phone;
  order_id = some order;
  amount_minor = amount;
  settled = false;
  settled_at = none;
}

abbrev pub is_open : Uuid → DriverEarning → Bool
is_open order e = for_order order e && not e.settled

abbrev reassign : Uuid → DriverEarning → List DriverEarning → List DriverEarning
reassign order new rows =
    update new.tenant_id (is_open order)
      (λ e. record e { driver_phone = new.driver_phone; amount_minor = new.amount_minor }) rows

-- uq_driver_earnings_order likewise.
abbrev upsert_earning : Uuid → DriverEarning → DeliveryTables → Result (Unit {0}) × DeliveryTables
upsert_earning order new db = elim (find (for_order order) db.driver_earnings) [
  | none ↦ (ok tt, record db { driver_earnings = db.driver_earnings ++ new ∷ [] })
  | some e ↦
      if e.tenant_id == new.tenant_id
      then (ok tt, record db { driver_earnings = reassign order new db.driver_earnings })
      else (err (database insufficient_privilege), db)
]

abbrev pub is_due : String → DriverEarning → Bool
is_due phone e = str_eq e.driver_phone phone && not e.settled

abbrev pub sum_amounts : List DriverEarning → ℕ
sum_amounts [] = 0
sum_amounts (e ∷ es) = e.amount_minor + sum_amounts es

abbrev pub close_due : Uuid → String → ℕ → List DriverEarning → List DriverEarning
close_due t phone at rows =
    update t (is_due phone) (λ e. record e { settled = true; settled_at = some at }) rows

-- A number that is an integer and not negative.
abbrev amount_of : Number → Option ℕ
amount_of (integer (pos n)) = some n
amount_of _ = none

module _ {X : Type 0} where
  abbrev assign_in : Uuid → Uuid → Driver → ℕ → Uuid → Action DeliveryTables X Delivery
  assign_in id order driver amount t =
      statement (upsert_delivery (new_delivery id t order driver)) >>= λ d.
      statement (upsert_earning order (new_earning t order driver amount)) >> pure d

  -- `id` is what Postgres draws for the delivery.
  unfoldable pub assign : String → Uuid → Uuid → Driver → Number → Action DeliveryTables X Delivery
  assign tenant_id id order driver earning = elim (amount_of earning) [
    | none ↦ throw (validation_error invalid_input)
    | some amount ↦ with_tenant tenant_id (assign_in id order driver amount)
  ]

  unfoldable pub set_status :
      String → Uuid → DeliveryStatus → Action DeliveryTables X (Option Delivery)
  set_status tenant_id id status = with_tenant tenant_id (λ t. statement (λ db.
      let (row, rows) =
        update_returning t (λ d. d.id == id) (λ d. record d { status = status }) db.deliveries in
      (ok row, record db { deliveries = rows })))

  unfoldable pub owed : String → String → Action DeliveryTables X ℕ
  owed tenant_id phone =
      with_tenant tenant_id
        (λ t. query (λ db. sum_amounts (select t (is_due phone) db.driver_earnings)))

  unfoldable pub settle : String → String → ℕ → Action DeliveryTables X (Unit {0})
  settle tenant_id phone at =
      with_tenant tenant_id (λ t.
        execute (λ db. record db { driver_earnings = close_due t phone at db.driver_earnings }))
