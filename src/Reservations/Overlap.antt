-- ===== src/Reservations/Overlap.antt =====
-- The promise of src/vertical/restaurants/reservation.service.ts: no two active reservations hold one
-- table at one time.
use peer_core.Reservations.{
  check_insert, update_reservation, Reservation-scoped, RestaurantTable-scoped, other_than,
  insert_reservation, Reservation, Book, check_row, conflicts,
}
use peer_core.Tenancy.Rows.{sees, update, select_one}
use peer_core.Tenancy.Keys.{update-Unique, update-All, absent-select, absent-update, at_key, Unique}
use peer_core.Tenancy.{Uuid}
use peer_core.Base.{
  Option-cases, ==_iff, subst, sym, All-concat, ◌≢◌, ◌++◌, ◌==◌, ◌≡◌, arith, Bool-cases, any, All,
  ℕ, List, [], ◌∷◌, some, false, refl, inl, inr,
}
use peer_core.Orders.Tables.{
  CatalogItem-scoped, MenuAvailability-scoped, Branch-scoped, Promotion-scoped, Order-scoped,
  OrderItem-scoped, OrderEvent-scoped, LoyaltyAccount-scoped,
}
use peer_core.Action.{Result-cases, ok}

abbrev key_of : Reservation → ℕ
key_of r = r.id

-- Two reservations that do not conflict.
abbrev pub Apart : Reservation → Reservation → Type 0
Apart a b = conflicts a b ≡ false

abbrev pub NoOverlap : List Reservation → Type 0
NoOverlap [] = Unit {0}
NoOverlap (r ∷ rs) = All (Apart r) rs × NoOverlap rs

pub record IsBooked (db : Book) : Type 0 where
  pub keys : Unique key_of db.reservations
  pub apart : NoOverlap db.reservations

Apart-sym : (a b : Reservation) → Apart a b → Apart b a
unfolding conflicts
Apart-sym a b h = ground arith

any-Apart :
    (r : Reservation) (rs : List Reservation) → any (conflicts r) rs ≡ false → All (Apart r) rs
any-Apart r [] h = tt
any-Apart r (x ∷ rs) h = ground (arith, any-Apart r rs)

concat-NoOverlap :
    (rs : List Reservation) (r : Reservation)
    → NoOverlap rs
    → All (Apart r) rs
    → NoOverlap (rs ++ r ∷ [])
concat-NoOverlap [] r n h = (tt, tt)
concat-NoOverlap (x ∷ rs) r n h =
    (All-concat (Apart x) rs r n.0 (Apart-sym r x h.0), concat-NoOverlap rs r n.1 h.1)

any-keys :
    (r : Reservation) (rs : List Reservation)
    → any (λ x. x.id == r.id) rs ≡ false
    → All (λ x. x.id ≢ r.id) rs
any-keys r [] h = tt
any-keys r (x ∷ rs) h = ground (arith, any-keys r rs)

concat-Unique :
    (rs : List Reservation) (r : Reservation)
    → Unique key_of rs
    → All (λ x. x.id ≢ r.id) rs
    → Unique key_of (rs ++ r ∷ [])
concat-Unique [] r u h = (tt, tt)
concat-Unique (x ∷ rs) r u h =
    (All-concat (λ y. y.id ≢ x.id) rs r u.0 (λ e. h.0 (sym e)), concat-Unique rs r u.1 h.1)

-- A row that passes the check is apart from the others.
check_row-Apart :
    (row : Reservation) (others : List Reservation)
    → check_row row others ≡ ok tt
    → All (Apart row) others
unfolding check_row
check_row-Apart row others h = any-Apart row others (ground arith)

check_insert-keys :
    (row : Reservation) (rows : List Reservation)
    → check_insert row rows ≡ ok tt
    → All (λ x. x.id ≢ row.id) rows × All (Apart row) rows
unfolding check_insert
check_insert-keys row rows h =
    let fresh : any (λ r. r.id == row.id) rows ≡ false = ground arith in
    (any-keys row rows fresh, check_row-Apart row rows (ground arith))

pub insert-IsBooked :
    (row : Reservation) (db : Book) → IsBooked db → IsBooked (insert_reservation row db).1
unfolding insert_reservation
insert-IsBooked row db h = elim (Result-cases (check_insert row db.reservations)) [
  | inr (x, e) ↦ rw (insert_reservation, e) h
  | inl (u, e) ↦
      let (fresh, apart) = check_insert-keys row db.reservations e in
      rw (insert_reservation, e)
        (record {
          keys = concat-Unique db.reservations row h.keys fresh;
          apart = concat-NoOverlap db.reservations row h.apart apart;
        })
]

keep-absent : (k : Uuid) (rs : List Reservation) → All (λ x. x.id ≢ k) rs → other_than k rs ≡ rs
keep-absent k [] h = refl
keep-absent k (r ∷ rs) h = ground (arith, keep-absent k rs h.1)

module _ (t k : Uuid) (f : Reservation → Reservation) (row : Reservation) where
  hit_rest :
      (r : Reservation) (rs : List Reservation)
      → r.id ≡ k
      → All (λ x. x.id ≢ k) rs
      → other_than k (r ∷ rs) ≡ rs
  hit_rest r rs here absent = ground (arith, keep-absent k rs absent)

  miss_rest :
      (r : Reservation) (rs : List Reservation)
      → (r.id == k) ≡ false
      → other_than k (r ∷ rs) ≡ r ∷ other_than k rs
  miss_rest r rs there = ground arith

  update-NoOverlap :
      (rs : List Reservation)
      → Unique key_of rs
      → select_one t (at_key key_of k) rs ≡ some row
      → All (Apart (f row)) (other_than k rs)
      → NoOverlap rs
      → NoOverlap (update t (at_key key_of k) f rs)
  unfolding select_one update
  update-NoOverlap [] u e a n = tt
  update-NoOverlap (r ∷ rs) u e a n = elim (Bool-cases (sees t (at_key key_of k) r)) [
    | inl hit ↦
        let same : r ≡ row = ground arith in
        let here : r.id ≡ k = ground arith in
        let absent = subst (λ x. All (λ y. y.id ≢ x) rs) here u.0 in
        let others : All (Apart (f row)) rs =
          subst (All (Apart (f row))) (hit_rest r rs here absent) a in
        rw (hit, absent-update key_of t k f rs absent)
          (subst (λ x. All (Apart (f x)) rs) (sym same) others, n.1)
    | inr miss ↦
        let rest : select_one t (at_key key_of k) rs ≡ some row = ground arith in
        elim (Bool-cases (r.id == k)) [
          | inl here ↦
              let none_left =
                absent-select key_of t k rs
                  (subst (λ x. All (λ y. y.id ≢ x) rs) ((==_iff r.id k).0 here) u.0) in
              absurd (ground arith)
          | inr there ↦
              let a' : All (Apart (f row)) (r ∷ other_than k rs) =
                subst (All (Apart (f row))) (miss_rest r rs there) a in
              rw miss (
                update-All key_of t k f row (Apart r) rs u.1 rest n.0 (Apart-sym (f row) r a'.0),
                update-NoOverlap rs u.1 rest a'.1 n.1,
              )
        ]
  ]

-- An update by id that the constraints let through, or do not.
pub update-IsBooked :
    (t k : Uuid) (f : Reservation → Reservation) (db : Book)
    → ((r : Reservation) → (f r).id ≡ r.id)
    → IsBooked db
    → IsBooked (update_reservation t k f db).1
unfolding update_reservation
update-IsBooked t k f db keep_id h =
    elim (Option-cases (select_one t (at_key key_of k) db.reservations)) [
      | inl e ↦ rw (update_reservation, e) h
      | inr (row, e) ↦ elim (Result-cases (check_row (f row) (other_than k db.reservations))) [
        | inr (x, c) ↦ rw (update_reservation, e, c) h
        | inl (u, c) ↦
            rw (update_reservation, e, c)
              (record {
                keys = update-Unique key_of t (at_key key_of k) f keep_id db.reservations h.keys;
                apart =
                    update-NoOverlap t k f row db.reservations h.keys e
                      (check_row-Apart (f row) (other_than k db.reservations) c) h.apart;
              })
      ]
    ]
