-- ===== src/Reservations/History.antt =====
-- Any sequence of requests to ReservationService (src/vertical/restaurants/reservation.service.ts).
use peer_core.Base.{
  refl, ltb, ◌==◌, some, inr, none, or_default, inl, ◌≡◌, Bool-cases, ◌∷◌, ℕ, Option, List, String,
}
use peer_core.Errors.{ReservationCode, reservation_error}
use peer_core.Tenancy.Rows.{select_one}
use peer_core.Tenancy.Keeps.{Keeps-with_tenant_all}
use Reservations.{[]}
use peer_core.Reservations.Overlap.{update-IsBooked, insert-IsBooked, IsBooked}
use peer_core.Tenancy.{Uuid}
use peer_core.Action.Keeps.{Keeps-throw_if, ◌▹◌, Keeps-lift, Keeps-consult, Keeps-statement, Keeps}
use peer_core.Reservations
use peer_core.Reservations.{
  BookInput, ReservationStatus, Book, Reservation, Reservation-scoped, RestaurantTable-scoped,
  insert_reservation, update_reservation, found_row, row_of, rescue, ends_at, is_terminal,
  confirmed, waitlisted, cancelled,
}
use peer_core.Action.{err, or_err, lift, ◌>>=◌, statement, Result, World, Action}

pub data Request : Type 0 where
  book : String → Uuid → BookInput → Request
  set_status : String → Uuid → ReservationStatus → Request
  cancel : String → Uuid → Request
  modify : String → Uuid → ℕ → ℕ → Option ℕ → Request
  add_to_waitlist : String → Uuid → BookInput → Request
  promote_from_waitlist : String → Uuid → Uuid → Request

module _ {X : Type 0} where
  unfoldable pub perform : Request → Action Book X Reservation
  perform (book tenant_id id input) = Reservations.book tenant_id id input
  perform (set_status tenant_id id st) = Reservations.set_status tenant_id id st
  perform (cancel tenant_id id) = Reservations.cancel tenant_id id
  perform (modify tenant_id id starts_at duration_min party_size) =
      Reservations.modify tenant_id id starts_at duration_min party_size
  perform (add_to_waitlist tenant_id id input) = Reservations.add_to_waitlist tenant_id id input
  perform (promote_from_waitlist tenant_id id table_id) =
      Reservations.promote_from_waitlist tenant_id id table_id

  -- One request after the other, whether each returns or throws.
  unfoldable pub run : List Request → World Book X → World Book X
  unfolding perform
  run [] w = w
  run (r ∷ rs) w = run rs (perform r w).1

  inserted :
      {A : Type 0} (row : Reservation) (g : Result Reservation → Result A)
      → Keeps {X = X} IsBooked
          (statement (λ db. let (r, db') = insert_reservation row db in (g r, db')))
  inserted row g = Keeps-statement _ (λ db. insert-IsBooked row db)

  updated :
      (t k : Uuid) (f : Reservation → Reservation)
      (g : Result (Option Reservation) → Result (Option Reservation))
      → ((r : Reservation) → (f r).id ≡ r.id)
      → Keeps {X = X} IsBooked (do
        row ← statement (λ db. let (r, db') = update_reservation t k f db in (g r, db'))
        lift (found_row row))
  updated t k f g keep_id =
      Keeps-statement (λ db. let (r, db') = update_reservation t k f db in (g r, db'))
        (λ db. update-IsBooked t k f db keep_id)
      ▹ λ row. Keeps-lift (found_row row)

  book-IsBooked :
      (tenant_id : String) (id : Uuid) (input : BookInput)
      → Keeps {X = X} IsBooked (Reservations.book tenant_id id input)
  unfolding Reservations.book
  book-IsBooked tenant_id id input = Keeps-with_tenant_all tenant_id _ (λ t.
      Keeps-consult (λ db.
        or_err (select_one t (λ r. r.id == input.table_id) db.restaurant_tables)
          (reservation_error ReservationCode.no_table))
      ▹ λ table.
          Keeps-throw_if (ltb table.capacity input.party_size)
            (reservation_error ReservationCode.over_capacity)
          ▹ λ _. inserted (row_of t id input (some input.table_id) confirmed) rescue)

  set_status-IsBooked :
      (tenant_id : String) (id : Uuid) (st : ReservationStatus)
      → Keeps {X = X} IsBooked (Reservations.set_status tenant_id id st)
  unfolding Reservations.set_status
  set_status-IsBooked tenant_id id st = elim (Bool-cases (is_terminal st)) [
    | inl e ↦
        rw (Reservations.set_status, e)
          (Keeps-with_tenant_all tenant_id _
            (λ t. updated t id (λ r. record r { status = st }) (λ r. r) (λ r. refl)))
    | inr e ↦
        rw (Reservations.set_status, e)
          (Keeps-lift (err (reservation_error ReservationCode.bad_status)))
  ]

  perform-IsBooked : (r : Request) → Keeps {X = X} IsBooked (perform r)
  unfolding perform Reservations.modify Reservations.cancel Reservations.add_to_waitlist
      Reservations.promote_from_waitlist
  perform-IsBooked (book tenant_id id input) = book-IsBooked tenant_id id input
  perform-IsBooked (set_status tenant_id id st) = set_status-IsBooked tenant_id id st
  perform-IsBooked (cancel tenant_id id) = set_status-IsBooked tenant_id id cancelled
  perform-IsBooked (modify tenant_id id starts_at duration_min party_size) =
      Keeps-with_tenant_all tenant_id _ (λ t.
        updated t id
          (λ r. record r {
            starts_at = starts_at;
            ends_at = ends_at starts_at duration_min;
            party_size = or_default party_size r.party_size;
          })
          rescue (λ r. refl))
  perform-IsBooked (add_to_waitlist tenant_id id input) =
      Keeps-with_tenant_all tenant_id _ (λ t. inserted (row_of t id input none waitlisted) (λ r. r))
  perform-IsBooked (promote_from_waitlist tenant_id id table_id) =
      Keeps-with_tenant_all tenant_id _ (λ t.
        updated t id (λ r. record r { table_id = some table_id; status = confirmed }) rescue
          (λ r. refl))

  -- Where ids are unique and no two active reservations of one table overlap in time, this is so after
  -- any sequence of requests to book, set a status, cancel, modify, join the waitlist or be promoted
  -- from it, of any tenants, whether each returns or throws.
  pub run-IsBooked : (rs : List Request) (w : World Book X) → IsBooked w.db → IsBooked (run rs w).db
  unfolding run
  run-IsBooked [] w h = h
  run-IsBooked (r ∷ rs) w h = run-IsBooked rs (perform r w).1 ((perform-IsBooked r).at w h)
