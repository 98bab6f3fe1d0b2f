-- ===== src/Reservations/Tabled.antt =====
-- Reservations with and without a table (src/vertical/restaurants/reservation.service.ts).
use peer_core.Base.{
  [], ◌∷◌, none, some, true, false, refl, inl, inr, Option, ◌≡◌, ◌==◌, arith, Bool, Bool-cases,
  Option-cases, List, All, All-concat, String, ltb, or_default,
}
use peer_core.Action.{err, World, Result, Result-cases, statement, lift, ◌>>=◌, or_err}
use peer_core.Reservations.History.{
  Request, run, perform, book, set_status, cancel, modify, add_to_waitlist, promote_from_waitlist,
}
use peer_core.Reservations
use peer_core.Reservations.{
  conflicts, Reservation, ReservationStatus, Book, requested, confirmed, seated, completed,
  cancelled, no_show, waitlisted, check_insert, check_row, insert_reservation, update_reservation,
  other_than, found_row, row_of, rescue, ends_at, is_terminal, is_active, same_table,
  ranges_overlap, BookInput, Reservation-scoped, RestaurantTable-scoped,
}
use peer_core.Tenancy.Rows.{sees, select_one, update}
use peer_core.Tenancy.Keeps.{Keeps-with_tenant_all}
use peer_core.Tenancy.{Uuid}
use peer_core.Action.Keeps.{Keeps, Keeps-statement, Keeps-lift, Keeps-consult, Keeps-throw_if, ◌▹◌}
use peer_core.Errors.{reservation_error, ReservationCode}

-- Who is confirmed has a table, and who waits has none.
abbrev tabled : ReservationStatus → Option Uuid → Bool
tabled confirmed none = false
tabled waitlisted (some k) = false
tabled st k = true

abbrev pub IsTabled : Reservation → Type 0
IsTabled r = tabled r.status r.table_id ≡ true

abbrev pub AllTabled : Book → Type 0
AllTabled db = All IsTabled db.reservations

insert-AllTabled :
    (row : Reservation) (db : Book)
    → IsTabled row
    → AllTabled db
    → AllTabled (insert_reservation row db).1
unfolding insert_reservation
insert-AllTabled row db p h = elim (Result-cases (check_insert row db.reservations)) [
  | inl (u, e) ↦ rw (insert_reservation, e) (All-concat IsTabled db.reservations row h p)
  | inr (x, e) ↦ rw (insert_reservation, e) h
]

module _ (t k : Uuid) (f : Reservation → Reservation)
    (fits : (r : Reservation) → IsTabled r → IsTabled (f r)) where
  rows-AllTabled :
      (p : Reservation → Bool) (rs : List Reservation)
      → All IsTabled rs
      → All IsTabled (update t p f rs)
  unfolding update
  rows-AllTabled p [] h = tt
  rows-AllTabled p (r ∷ rs) h = elim (Bool-cases (sees t p r)) [
    | inl e ↦ rw e (fits r h.0, rows-AllTabled p rs h.1)
    | inr e ↦ rw e (h.0, rows-AllTabled p rs h.1)
  ]

  update-AllTabled : (db : Book) → AllTabled db → AllTabled (update_reservation t k f db).1
  unfolding update_reservation
  update-AllTabled db h = elim (Option-cases (select_one t (λ r. r.id == k) db.reservations)) [
    | inl e ↦ rw (update_reservation, e) h
    | inr (row, e) ↦ elim (Result-cases (check_row (f row) (other_than k db.reservations))) [
      | inl (u, c) ↦
          rw (update_reservation, e, c) (rows-AllTabled (λ r. r.id == k) db.reservations h)
      | inr (x, c) ↦ rw (update_reservation, e, c) h
    ]
  ]

terminal-tabled :
    (st : ReservationStatus) (k : Option Uuid) → is_terminal st ≡ true → tabled st k ≡ true
terminal-tabled st k h = ground arith

module _ {X : Type 0} where
  inserted :
      {A : Type 0} (row : Reservation) (g : Result Reservation → Result A)
      → IsTabled row
      → Keeps {X = X} AllTabled
          (statement (λ db. let (r, db') = insert_reservation row db in (g r, db')))
  inserted row g p = Keeps-statement _ (λ db. insert-AllTabled row db p)

  updated :
      (t k : Uuid) (f : Reservation → Reservation)
      (g : Result (Option Reservation) → Result (Option Reservation))
      → ((r : Reservation) → IsTabled r → IsTabled (f r))
      → Keeps {X = X} AllTabled (do
        row ← statement (λ db. let (r, db') = update_reservation t k f db in (g r, db'))
        lift (found_row row))
  updated t k f g fits =
      Keeps-statement (λ db. let (r, db') = update_reservation t k f db in (g r, db'))
        (update-AllTabled t k f fits)
      ▹ λ row. Keeps-lift (found_row row)

  set_status-AllTabled :
      (tenant_id : String) (id : Uuid) (st : ReservationStatus)
      → Keeps {X = X} AllTabled (Reservations.set_status tenant_id id st)
  unfolding Reservations.set_status
  set_status-AllTabled tenant_id id st = elim (Bool-cases (is_terminal st)) [
    | inl e ↦
        rw (Reservations.set_status, e)
          (Keeps-with_tenant_all tenant_id _ (λ t.
            updated t id (λ r. record r { status = st }) (λ r. r)
              (λ r h. terminal-tabled st r.table_id e)))
    | inr e ↦
        rw (Reservations.set_status, e)
          (Keeps-lift (err (reservation_error ReservationCode.bad_status)))
  ]

  perform-AllTabled : (r : Request) → Keeps {X = X} AllTabled (perform r)
  unfolding perform Reservations.book Reservations.modify Reservations.cancel
      Reservations.add_to_waitlist Reservations.promote_from_waitlist
  perform-AllTabled (book tenant_id id input) = Keeps-with_tenant_all tenant_id _ (λ t.
      Keeps-consult (λ db.
        or_err (select_one t (λ r. r.id == input.table_id) db.restaurant_tables)
          (reservation_error ReservationCode.no_table))
      ▹ λ table.
          Keeps-throw_if (ltb table.capacity input.party_size)
            (reservation_error ReservationCode.over_capacity)
          ▹ λ _. inserted (row_of t id input (some input.table_id) confirmed) rescue refl)
  perform-AllTabled (set_status tenant_id id st) = set_status-AllTabled tenant_id id st
  perform-AllTabled (cancel tenant_id id) = set_status-AllTabled tenant_id id cancelled
  perform-AllTabled (modify tenant_id id starts_at duration_min party_size) =
      Keeps-with_tenant_all tenant_id _ (λ t.
        updated t id
          (λ r. record r {
            starts_at = starts_at;
            ends_at = ends_at starts_at duration_min;
            party_size = or_default party_size r.party_size;
          })
          rescue (λ r h. h))
  perform-AllTabled (add_to_waitlist tenant_id id input) =
      Keeps-with_tenant_all tenant_id _
        (λ t. inserted (row_of t id input none waitlisted) (λ r. r) refl)
  perform-AllTabled (promote_from_waitlist tenant_id id table_id) =
      Keeps-with_tenant_all tenant_id _ (λ t.
        updated t id (λ r. record r { table_id = some table_id; status = confirmed }) rescue
          (λ r h. refl))

  pub run-AllTabled :
      (rs : List Request) (w : World Book X) → AllTabled w.db → AllTabled (run rs w).db
  unfolding run
  run-AllTabled [] w h = h
  run-AllTabled (r ∷ rs) w h = run-AllTabled rs (perform r w).1 ((perform-AllTabled r).at w h)
