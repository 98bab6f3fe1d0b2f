-- ===== src/Reservations.antt =====
-- src/vertical/restaurants/reservation.service.ts. Instants are milliseconds; a duration is at least
-- 0, as a negative one fails the same check of the table as 0 does. The constraints of
-- drizzle/0007_reservations.sql are checks of each statement on the row that it writes.
pub mod Overlap
pub mod History
pub mod Free
pub mod Offered
pub mod Tabled
pub mod Seated
mod Tests
use peer_core.Base.{
  [], ◌∷◌, none, some, true, false, refl, zero, suc, inl, inr, Option, find, ap, or_default, ◌*◌,
  not, leb, ltb, ◌&&◌, ◌==◌, ◌++◌, keep, ◌+◌, any, if◌then◌else◌, String, ℕ, Bool, List,
}
use peer_core.Orders.Tables.{
  CatalogItem-scoped, MenuAvailability-scoped, Branch-scoped, Promotion-scoped, Order-scoped,
  OrderItem-scoped, OrderEvent-scoped, LoyaltyAccount-scoped,
}
use peer_core.Action.{
  ok, err, throw_if, consult, lift, ◌>>=◌, ◌>>◌, statement, query, throw, or_err, Action, Result,
}
use peer_core.Base.Int.{pos, negsuc}
use peer_core.Errors.{
  unique_violation, exclusion_violation, check_violation, ReservationCode, reservation_error,
  database, Error,
}
use peer_core.Tenancy.{with_tenant, Uuid}
use peer_core.Tenancy.Rows.{select, update, select_one, Scoped}

pub data ReservationStatus : Type 0 where
  requested confirmed seated completed cancelled no_show waitlisted : ReservationStatus

pub record RestaurantTable : Type 0 where
  pub id : Uuid
  pub tenant_id : Uuid
  pub branch_id : Uuid
  pub capacity : ℕ

pub record Reservation : Type 0 where
  pub id : Uuid
  pub tenant_id : Uuid
  pub branch_id : Uuid
  pub table_id : Option Uuid
  pub party_size : ℕ
  pub starts_at : ℕ
  pub ends_at : ℕ
  pub status : ReservationStatus
  pub diner_name : Option String
  pub diner_phone : Option String
  pub notes : Option String

pub record Book : Type 0 where
  pub restaurant_tables : List RestaurantTable
  pub reservations : List Reservation

instance abbrev pub RestaurantTable-scoped : Scoped RestaurantTable
RestaurantTable-scoped = record { tenant_of = λ r. r.tenant_id }

instance abbrev pub Reservation-scoped : Scoped Reservation
Reservation-scoped = record { tenant_of = λ r. r.tenant_id }

-- `TERMINAL_STATUS.includes(status)`
abbrev pub is_terminal : ReservationStatus → Bool
is_terminal seated = true
is_terminal completed = true
is_terminal no_show = true
is_terminal cancelled = true
is_terminal _ = false

-- `addToWaitlist` takes the same fields but the table.
pub record BookInput : Type 0 where
  pub branch_id : Uuid
  pub table_id : Uuid
  pub party_size : ℕ
  pub starts_at : ℕ
  pub duration_min : ℕ
  pub diner_name : Option String
  pub diner_phone : Option String
  pub notes : Option String

abbrev pub ends_at : ℕ → ℕ → ℕ
ends_at starts_at duration_min = starts_at + duration_min * 60000

-- The statuses that hold a table: `IN ('confirmed', 'seated')`.
abbrev pub is_active : ReservationStatus → Bool
is_active confirmed = true
is_active seated = true
is_active _ = false

abbrev pub ranges_overlap : ℕ → ℕ → ℕ → ℕ → Bool
ranges_overlap a_starts a_ends b_starts b_ends = ltb a_starts b_ends && ltb b_starts a_ends

-- `table_id WITH =`; a null equals nothing.
abbrev pub same_table : Option Uuid → Option Uuid → Bool
same_table (some a) (some b) = a == b
same_table _ _ = false

-- What ex_reservations_no_overlap forbids of two rows.
pub conflicts : Reservation → Reservation → Bool
conflicts a b =
    is_active a.status
    && is_active b.status
    && same_table a.table_id b.table_id
    && ranges_overlap a.starts_at a.ends_at b.starts_at b.ends_at

-- ck_reservations_party and ck_reservations_window.
abbrev pub is_well_formed : Reservation → Bool
is_well_formed r = ltb 0 r.party_size && ltb r.starts_at r.ends_at

-- The constraints on a row that is written, beside the other rows.
check_row : Reservation → List Reservation → Result (Unit {0})
unfolding conflicts
check_row row others =
    if not (is_well_formed row)
    then err (database check_violation)
    else if any (conflicts row) others
    then err (database exclusion_violation)
    else ok tt

abbrev put : Result (Unit {0}) → Reservation → Book → List Reservation → Result Reservation × Book
put (err e) row db rows = (err e, db)
put (ok u) row db rows = (ok row, record db { reservations = rows })

-- The primary key is checked too.
check_insert : Reservation → List Reservation → Result (Unit {0})
check_insert row rows =
    if any (λ r. r.id == row.id) rows then err (database unique_violation) else check_row row rows

pub insert_reservation : Reservation → Book → Result Reservation × Book
unfolding check_insert check_row
insert_reservation row db =
    put (check_insert row db.reservations) row db (db.reservations ++ row ∷ [])

abbrev other_than : Uuid → List Reservation → List Reservation
other_than k rows = keep (λ r. not (r.id == k)) rows

-- `update … where id = … returning`, in the context of tenant `t`.
pub update_reservation :
    Uuid → Uuid → (Reservation → Reservation) → Book → Result (Option Reservation) × Book
unfolding check_row
update_reservation t k f db = elim (select_one t (λ r. r.id == k) db.reservations) [
  | none ↦ (ok none, db)
  | some row ↦ elim (check_row (f row) (other_than k db.reservations)) [
    | err e ↦ (err e, db)
    | ok u ↦ (
      ok (some (f row)),
      record db { reservations = update t (λ r. r.id == k) f db.reservations },
    )
  ]
]

-- `catch (e)`: an exclusion violation becomes `slot_taken`.
abbrev pub slot_taken_of : Error → Error
slot_taken_of (database exclusion_violation) = reservation_error ReservationCode.slot_taken
slot_taken_of e = e

abbrev pub rescue : {A : Type 0} → Result A → Result A
rescue (ok a) = ok a
rescue (err e) = err (slot_taken_of e)

abbrev pub row_of : Uuid → Uuid → BookInput → Option Uuid → ReservationStatus → Reservation
row_of t id input table st = record {
  id = id;
  tenant_id = t;
  branch_id = input.branch_id;
  table_id = table;
  party_size = input.party_size;
  starts_at = input.starts_at;
  ends_at = ends_at input.starts_at input.duration_min;
  status = st;
  diner_name = input.diner_name;
  diner_phone = input.diner_phone;
  notes = input.notes;
}

abbrev pub found_row : Option Reservation → Result Reservation
found_row row = or_err row (reservation_error ReservationCode.not_found)

-- The tables of a branch that seat the party.
abbrev pub fitting : Uuid → Uuid → ℕ → RestaurantTable → Bool
fitting t branch_id party_size r = (r.branch_id == branch_id) && leb party_size r.capacity

-- `sort((a, b) => a.capacity - b.capacity)`, which is stable.
unfoldable pub insert_table : RestaurantTable → List RestaurantTable → List RestaurantTable
insert_table r [] = r ∷ []
insert_table r (x ∷ xs) = if leb r.capacity x.capacity then r ∷ x ∷ xs else x ∷ insert_table r xs

unfoldable pub sort_tables : List RestaurantTable → List RestaurantTable
unfolding insert_table
sort_tables [] = []
sort_tables (x ∷ xs) = insert_table x (sort_tables xs)

abbrev pub is_taken : ℕ → ℕ → List Reservation → RestaurantTable → Bool
is_taken starts ends active table =
    any
      (λ r.
        same_table r.table_id (some table.id) && ranges_overlap r.starts_at r.ends_at starts ends)
      active

module _ {X : Type 0} where
  -- `id` is what Postgres draws for the row.
  unfoldable pub book : String → Uuid → BookInput → Action Book X Reservation
  unfolding insert_reservation
  book tenant_id id input = with_tenant tenant_id (λ t. do
    table ← consult (λ db.
        or_err (select_one t (λ r. r.id == input.table_id) db.restaurant_tables)
          (reservation_error ReservationCode.no_table))
    throw_if (ltb table.capacity input.party_size) (reservation_error ReservationCode.over_capacity)
    statement (λ db.
        let (r, db') = insert_reservation (row_of t id input (some input.table_id) confirmed) db in
        (rescue r, db')))

  unfoldable pub find_available_table :
      String → Uuid → ℕ → ℕ → ℕ → Action Book X (Option RestaurantTable)
  unfolding sort_tables
  find_available_table tenant_id branch_id party_size starts_at duration_min =
      with_tenant tenant_id (λ t. query (λ db.
        let active =
          select t (λ r. (r.branch_id == branch_id) && is_active r.status) db.reservations in
        find (λ table. not (is_taken starts_at (ends_at starts_at duration_min) active table))
          (sort_tables (select t (fitting t branch_id party_size) db.restaurant_tables))))

  -- `setStatus`, given a status of `TERMINAL_STATUS` or another.
  unfoldable pub set_status : String → Uuid → ReservationStatus → Action Book X Reservation
  unfolding update_reservation
  set_status tenant_id id st = elim (is_terminal st) [
    | false ↦ throw (reservation_error ReservationCode.bad_status)
    | true ↦ with_tenant tenant_id (λ t. do
      row ← statement (update_reservation t id (λ r. record r { status = st }))
      lift (found_row row))
  ]

  unfoldable pub cancel : String → Uuid → Action Book X Reservation
  cancel tenant_id id = set_status tenant_id id cancelled

  -- A missing party size leaves the row's own.
  unfoldable pub modify : String → Uuid → ℕ → ℕ → Option ℕ → Action Book X Reservation
  unfolding update_reservation
  modify tenant_id id starts_at duration_min party_size = with_tenant tenant_id (λ t. do
    row ← statement (λ db.
        let (r, db') =
          update_reservation t id
            (λ r. record r {
              starts_at = starts_at;
              ends_at = ends_at starts_at duration_min;
              party_size = or_default party_size r.party_size;
            })
            db in
        (rescue r, db'))
    lift (found_row row))

  unfoldable pub add_to_waitlist : String → Uuid → BookInput → Action Book X Reservation
  unfolding insert_reservation
  add_to_waitlist tenant_id id input =
      with_tenant tenant_id
        (λ t. statement (insert_reservation (row_of t id input none waitlisted)))

  unfoldable pub promote_from_waitlist : String → Uuid → Uuid → Action Book X Reservation
  unfolding update_reservation
  promote_from_waitlist tenant_id id table_id = with_tenant tenant_id (λ t. do
    row ← statement (λ db.
        let (r, db') =
          update_reservation t id (λ r. record r { table_id = some table_id; status = confirmed })
            db in
        (rescue r, db'))
    lift (found_row row))

  unfoldable pub list_reservations : String → Uuid → Action Book X (List Reservation)
  list_reservations tenant_id branch_id =
      with_tenant tenant_id
        (λ t. query (λ db. select t (λ r. r.branch_id == branch_id) db.reservations))
