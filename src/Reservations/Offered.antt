-- ===== src/Reservations/Offered.antt =====
-- `book` of a table that `findAvailableTable` offered
-- (src/vertical/restaurants/reservation.service.ts).
use peer_core.Base.{
  ◌&&◌, [], ◌∷◌, none, some, true, false, refl, inl, inr, Option, String, ◌≢◌, ltb, Bool-cases, not,
  ◌||◌, ◌==◌, arith, ◌≡◌, All, List, Bool, any,
}
use peer_core.Action.{ok, World}
use peer_core.Reservations.Free.{find_available_table-All, find_available_table-free}
use peer_core.Tenancy.Keys.{Unique}
use peer_core.Tenancy.Rows.{select_one, sees, select}
use peer_core.Tenancy.{uuid_of, with_tenant, Uuid}
use peer_core.Reservations.{
  ends_at, fitting, confirmed, row_of, find_available_table, Book, BookInput, check_row,
  check_insert, insert_reservation, book, ranges_overlap, is_active, is_taken, RestaurantTable,
  Reservation, conflicts, same_table, Reservation-scoped, RestaurantTable-scoped,
}

-- A reservation that holds the table is one of the tenant, in the branch.
abbrev pub is_placed : Uuid → Uuid → Uuid → Reservation → Bool
is_placed t branch_id table_id r =
    not (same_table (some table_id) r.table_id)
    || ((r.tenant_id == t) && (r.branch_id == branch_id))

same_table-sym : (a b : Option Uuid) → same_table a b ≡ same_table b a
same_table-sym none none = refl
same_table-sym none (some b) = refl
same_table-sym (some a) none = refl
same_table-sym (some a) (some b) = ground arith

-- What is not selected as active, or is selected and leaves the table free, is no conflict.
apart :
    (m tn b a o1 o2 c : Bool)
    → (not m || (tn && b)) ≡ true
    → ((tn && (b && a)) && (m && (o1 && o2))) ≡ false
    → (c && a && m && (o2 && o1)) ≡ false
apart m tn b a o1 o2 c p h = ground arith

unor : {a b : Bool} → (a || b) ≡ false → (a ≡ false) × (b ≡ false)
unor h = ground arith

or_false : {a b : Bool} → a ≡ false → b ≡ false → (a || b) ≡ false
or_false p q = ground arith

module _ (t : Uuid) (row : Reservation) (table : RestaurantTable)
    (holds : row.table_id ≡ some table.id) where
  abbrev active : Reservation → Bool
  active r = (r.branch_id == row.branch_id) && is_active r.status

  abbrev takes : Reservation → Bool
  takes r =
      same_table r.table_id (some table.id)
      && ranges_overlap r.starts_at r.ends_at row.starts_at row.ends_at

  free-conflicts_one :
      (r : Reservation)
      → is_placed t row.branch_id table.id r ≡ true
      → (sees t active r && takes r) ≡ false
      → conflicts row r ≡ false
  unfolding conflicts
  free-conflicts_one r p h = rw holds (
      apart (same_table (some table.id) r.table_id) (r.tenant_id == t)
        (r.branch_id == row.branch_id) (is_active r.status) (ltb r.starts_at row.ends_at)
        (ltb row.starts_at r.ends_at) (is_active row.status) p
        (rw (same_table-sym (some table.id) r.table_id) h))

  free-conflicts :
      (rs : List Reservation)
      → All (λ r. is_placed t row.branch_id table.id r ≡ true) rs
      → is_taken row.starts_at row.ends_at (select t active rs) table ≡ false
      → any (conflicts row) rs ≡ false
  unfolding select
  free-conflicts [] p h = refl
  free-conflicts (r ∷ rs) p h = elim (Bool-cases (sees t active r)) [
    | inl e ↦
        let (one, rest) = unor (rw e at h) in
        or_false (free-conflicts_one r p.0 (rw e one)) (free-conflicts rs p.1 rest)
    | inr e ↦ or_false (free-conflicts_one r p.0 (rw e refl)) (free-conflicts rs p.1 (rw e at h))
  ]

module _ (t k : Uuid) where
  absent-All :
      (p : RestaurantTable → Bool) (rs : List RestaurantTable)
      → All (λ x. x.id ≢ k) rs
      → All (λ x. x.id ≢ k) (select t p rs)
  unfolding select
  absent-All p [] h = tt
  absent-All p (r ∷ rs) h = ground (arith, absent-All p rs h.1)

-- A table that is selected is found again by its id.
selected-found :
    (t : Uuid) (p : RestaurantTable → Bool) (rs : List RestaurantTable)
    → Unique (λ r. r.id) rs
    → All (λ x. select_one t (λ r. r.id == x.id) rs ≡ some x) (select t p rs)
unfolding select select_one
selected-found t p [] u = tt
selected-found t p (r ∷ rs) u =
    let rest = later (select t p rs) (absent-All t r.id p rs u.0) (selected-found t p rs u.1) in
    elim (Bool-cases (sees t p r)) [
      | inl e ↦ rw (select, e) (ground arith, rest)
      | inr e ↦ rw (select, e) rest
    ]
  where
    later :
        (xs : List RestaurantTable)
        → All (λ x. x.id ≢ r.id) xs
        → All (λ x. select_one t (λ y. y.id == x.id) rs ≡ some x) xs
        → All (λ x. select_one t (λ y. y.id == x.id) (r ∷ rs) ≡ some x) xs
    later [] a h = tt
    later (x ∷ xs) a h = (ground (arith, a.0, h.0), later xs a.1 h.1)

-- For a tenant id that is a UUID, a table that findAvailableTable returns is booked when it is
-- asked for with the same branch, party and time: book returns the confirmed reservation. The
-- ids of tables are unique, the party and the duration are at least 1, the id drawn for the
-- reservation is new, and every reservation that holds the table is one of the tenant in that
-- branch.
pub find_available_table-book :
    {X : Type 0} (tenant_id : String) (t id : Uuid) (input : BookInput) (w : World Book X)
    (table : RestaurantTable)
    → uuid_of tenant_id ≡ some t
    → Unique (λ r. r.id) w.db.restaurant_tables
    → All (λ r. is_placed t input.branch_id table.id r ≡ true) w.db.reservations
    → any (λ r. r.id == id) w.db.reservations ≡ false
    → ltb 0 input.party_size ≡ true
    → ltb 0 input.duration_min ≡ true
    → input.table_id ≡ table.id
    → (find_available_table tenant_id input.branch_id input.party_size input.starts_at
        input.duration_min w).0
      ≡ ok (some table)
    → (book tenant_id id input w).0 ≡ ok (row_of t id input (some table.id) confirmed)
unfolding book with_tenant insert_reservation check_insert check_row
find_available_table-book tenant_id t id input w table e keys placed fresh seats lasts same h =
    let row = row_of t id input (some table.id) confirmed in
    let (_, fit, _) =
      find_available_table-free tenant_id t input.branch_id input.party_size input.starts_at
        input.duration_min w table e h in
    let (found, free) =
      find_available_table-All
        (λ x. select_one t (λ r. r.id == x.id) w.db.restaurant_tables ≡ some x) tenant_id t
        input.branch_id input.party_size input.starts_at input.duration_min w table e
        (selected-found t (fitting t input.branch_id input.party_size) w.db.restaurant_tables keys)
        h in
    let clear = free-conflicts t row table refl w.db.reservations placed free in
    let window : ltb input.starts_at (ends_at input.starts_at input.duration_min) ≡ true =
      ground arith in
    let roomy : ltb table.capacity input.party_size ≡ false = ground arith in
    rw
      (
        book, with_tenant, e, same, found, roomy, insert_reservation, check_insert, fresh,
        check_row, seats, window, clear,
      )
      refl
