-- ===== src/Reservations/Tests.antt =====
-- Reservations of one branch with two tables.
use peer_core.Tenancy.Rows.{select_one, select}
use peer_core.Reservations.Overlap.{IsBooked}
use peer_core.Tenancy.{with_tenant, Uuid, uuid_of}
use peer_core.Action.{err, ok, World}
use peer_core.Reservations
use peer_core.Reservations.History.{Request, run}
use peer_core.Tenancy.Keys.{Unique}
use peer_core.Reservations.Offered.{find_available_table-book}
use peer_core.Reservations.Seated.{run-holders, holders}
use peer_core.Reservations.Tabled.{IsTabled}
use peer_core.Reservations.{
  is_active, conflicts, check_row, confirmed, is_taken, check_insert, row_of, insert_table,
  sort_tables, RestaurantTable, insert_reservation, Book, fitting, find_available_table,
  Reservation-scoped, RestaurantTable-scoped, BookInput,
}
use peer_core.Errors.{reservation_error, ReservationCode}
use peer_core.Base.{All, ◌≤◌, arith, [], none, some, ℕ, ◌∷◌, ◌≡◌, List, String, refl}

abbrev tenant : String
tenant = "00000000-0000-0000-0000-000000000007"

abbrev table_of : Uuid → ℕ → RestaurantTable
table_of k capacity = record { id = k; tenant_id = 7; branch_id = 20; capacity = capacity }

abbrev request : Uuid → ℕ → BookInput
request table starts = record {
  branch_id = 20;
  table_id = table;
  party_size = 4;
  starts_at = starts;
  duration_min = 90;
  diner_name = none;
  diner_phone = none;
  notes = none;
}

-- A reservation of table 31 from 0 to 90 minutes.
abbrev start : World Book ℕ
start = record {
  db = record {
    restaurant_tables = table_of 30 6 ∷ table_of 31 4 ∷ [];
    reservations = row_of 7 1 (request 31 0) (some 31) confirmed ∷ [];
  };
  outside = 0;
}

start-IsBooked : IsBooked start.db
start-IsBooked = record { keys = (tt, tt); apart = (tt, tt) }

-- The first books over the one that is there, and fails.
abbrev requests : List Request
requests =
    Request.book tenant 2 (request 31 1000)
    ∷ Request.book tenant 3 (request 31 5400000)
    ∷ Request.cancel tenant 1
    ∷ Request.add_to_waitlist tenant 4 (request 31 0)
    ∷ Request.promote_from_waitlist tenant 4 31
    ∷ []

taken :
    (Reservations.book tenant 2 (request 31 1000) start).0
    ≡ err (reservation_error ReservationCode.slot_taken)
unfolding Reservations.book uuid_of with_tenant insert_reservation check_insert check_row conflicts
    select_one
taken = refl

found : uuid_of tenant ≡ some 7
unfolding uuid_of
found = refl

larger : (find_available_table tenant 20 3 0 60 start).0 ≡ ok (some (table_of 30 6))
unfolding find_available_table with_tenant uuid_of sort_tables insert_table select
larger = refl

offered : (find_available_table tenant 20 4 0 90 start).0 ≡ ok (some (table_of 30 6))
unfolding find_available_table with_tenant uuid_of sort_tables insert_table select
offered = refl

distinct_tables : Unique (λ r. r.id) start.db.restaurant_tables
distinct_tables = ((ground arith, tt), (tt, tt))

find_available_table-book_example :
    (Reservations.book tenant 5 (request 30 0) start).0
    ≡ ok (row_of 7 5 (request 30 0) (some 30) confirmed)
find_available_table-book_example =
    find_available_table-book tenant 7 5 (request 30 0) start (table_of 30 6) found distinct_tables
      (refl, tt) refl refl refl refl offered

-- A reservation that names another branch than its table's keeps the table from being booked, though
-- it is offered.
abbrev misplaced : World Book ℕ
misplaced = record {
  db = record {
    restaurant_tables = table_of 30 6 ∷ [];
    reservations = row_of 7 1 (record (request 30 0) { branch_id = 21 }) (some 30) confirmed ∷ [];
  };
  outside = 0;
}

still_offered : (find_available_table tenant 20 4 0 90 misplaced).0 ≡ ok (some (table_of 30 6))
unfolding find_available_table with_tenant uuid_of sort_tables insert_table select
still_offered = refl

not_booked :
    (Reservations.book tenant 5 (request 30 0) misplaced).0
    ≡ err (reservation_error ReservationCode.slot_taken)
unfolding Reservations.book uuid_of with_tenant insert_reservation check_insert check_row conflicts
    select_one
not_booked = refl

-- Tables, and no reservations.
abbrev opened : World Book ℕ
opened = record start { db = record start.db { reservations = [] } }

run-holders_example :
    (holders 31 1000 (run (Request.book tenant 1 (request 31 0) ∷ requests) opened).db.reservations
      ≤ 1)
    × All IsTabled (run (Request.book tenant 1 (request 31 0) ∷ requests) opened).db.reservations
run-holders_example =
    run-holders (Request.book tenant 1 (request 31 0) ∷ requests) opened 31 1000 refl

held : holders 31 1000 start.db.reservations ≡ 1
held = refl
