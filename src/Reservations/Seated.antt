-- ===== src/Reservations/Seated.antt =====
-- What any sequence of requests to src/vertical/restaurants/reservation.service.ts makes of an empty
-- book: who holds a table at an instant, told without the test of the constraint.
use peer_core.Base.{
  ◌&&◌, if◌then◌else◌, [], ◌∷◌, none, some, true, false, refl, suc, inl, inr, Option, ℕ, ◌≤◌, ◌≡◌,
  ◌==◌, arith, Bool, Bool-cases, List, All, leb, ltb,
}
use peer_core.Reservations.Overlap.{IsBooked, NoOverlap, Apart}
use peer_core.Reservations.History.{Request, run, run-IsBooked}
use peer_core.Reservations.{
  conflicts, Reservation, ReservationStatus, Book, confirmed, seated, is_active, same_table,
  ranges_overlap, Reservation-scoped, RestaurantTable-scoped,
}
use peer_core.Tenancy.{Uuid}
use peer_core.Action.{World}
use peer_core.Reservations.Tabled.{IsTabled, run-AllTabled}

-- A reservation that is confirmed or seated holds its table from its start until its end.
abbrev stands : ReservationStatus → Bool
stands confirmed = true
stands seated = true
stands _ = false

abbrev is_at : Uuid → Option Uuid → Bool
is_at k none = false
is_at k (some t) = t == k

abbrev holds : Uuid → ℕ → Reservation → Bool
holds k at r = stands r.status && is_at k r.table_id && leb r.starts_at at && ltb at r.ends_at

-- How many reservations hold table `k` at the instant.
abbrev pub holders : Uuid → ℕ → List Reservation → ℕ
holders k at [] = 0
holders k at (r ∷ rs) = if holds k at r then suc (holders k at rs) else holders k at rs

stands-is_active : (st : ReservationStatus) → stands st ≡ true → is_active st ≡ true
stands-is_active st h = ground arith

at-same_table :
    (k : Uuid) (x y : Option Uuid) → is_at k x ≡ true → is_at k y ≡ true → same_table x y ≡ true
at-same_table k none y h g = absurd (ground arith)
at-same_table k (some a) none h g = absurd (ground arith)
at-same_table k (some a) (some b) h g = ground arith

parts :
    (a b c d : Bool) → (a && b && c && d) ≡ true → (a ≡ true) × (b ≡ true) × (c ≡ true) × (d ≡ true)
parts a b c d h = ground arith

both_overlap :
    (at a_starts a_ends b_starts b_ends : ℕ)
    → leb a_starts at ≡ true
    → ltb at a_ends ≡ true
    → leb b_starts at ≡ true
    → ltb at b_ends ≡ true
    → ranges_overlap a_starts a_ends b_starts b_ends ≡ true
both_overlap at a_starts a_ends b_starts b_ends h g h' g' = ground arith

-- Two reservations that hold one table at one instant conflict.
both_hold :
    (k at : ℕ) (a b : Reservation)
    → holds k at a ≡ true
    → holds k at b ≡ true
    → conflicts a b ≡ true
unfolding conflicts
both_hold k at a b h g =
    let (sa, ta, la, ua) = parts (stands a.status) (is_at k a.table_id) _ _ h in
    let (sb, tb, lb, ub) = parts (stands b.status) (is_at k b.table_id) _ _ g in
    rw
      (
        stands-is_active a.status sa,
        stands-is_active b.status sb,
        at-same_table k a.table_id b.table_id ta tb,
        both_overlap at a.starts_at a.ends_at b.starts_at b.ends_at la ua lb ub,
      )
      refl

none_beside :
    (k at : ℕ) (r : Reservation) (rs : List Reservation)
    → holds k at r ≡ true
    → All (Apart r) rs
    → holders k at rs ≡ 0
none_beside k at r [] h a = refl
none_beside k at r (x ∷ rs) h a = elim (Bool-cases (holds k at x)) [
  | inl g ↦ let clash = both_hold k at r x h g in absurd (ground (arith, a.0))
  | inr g ↦ rw g (none_beside k at r rs h a.1)
]

NoOverlap-holders : (k at : ℕ) (rs : List Reservation) → NoOverlap rs → holders k at rs ≤ 1
NoOverlap-holders k at [] n = omega arith
NoOverlap-holders k at (r ∷ rs) n = elim (Bool-cases (holds k at r)) [
  | inl h ↦ rw (h, none_beside k at r rs h n.0) (omega arith)
  | inr h ↦ rw h (NoOverlap-holders k at rs n.1)
]

module _ {X : Type 0} where
  -- From tables without reservations, after any sequence of requests to the reservation
  -- service, of any tenants, whether each returns or throws, a table is held at any instant
  -- by at most one reservation that is confirmed or seated and whose window has the instant
  -- in it, its end left out; every confirmed reservation has a table, and no waitlisted one
  -- has.
  pub run-holders :
      (rs : List Request) (w : World Book X) (k at : ℕ)
      → w.db.reservations ≡ []
      → (holders k at (run rs w).db.reservations ≤ 1) × All IsTabled (run rs w).db.reservations
  run-holders rs w k at empty =
      let fresh : IsBooked w.db = record { keys = rw empty tt; apart = rw empty tt } in
      (
        NoOverlap-holders k at (run rs w).db.reservations (run-IsBooked rs w fresh).apart,
        run-AllTabled rs w (rw empty tt),
      )
