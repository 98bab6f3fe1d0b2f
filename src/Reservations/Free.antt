-- ===== src/Reservations/Free.antt =====
-- `findAvailableTable` of src/vertical/restaurants/reservation.service.ts.
use peer_core.Tenancy.Isolation.{select-own}
use peer_core.Base.{
  not, false, true, refl, sym, ◌∙◌, ◌&&◌, ◌==◌, subst, arith, inr, inl, some, leb, ◌≡◌, Bool-cases,
  [], ℕ, ◌∷◌, find, String, All, List, Bool,
}
use peer_core.Tenancy.Rows.{select}
use peer_core.Action.{ok, World}
use peer_core.Tenancy.{uuid_of, Uuid, with_tenant}
use peer_core.Reservations.{
  is_active, ends_at, is_taken, fitting, Book, sort_tables, insert_table, RestaurantTable,
  find_available_table, Reservation-scoped, RestaurantTable-scoped,
}

find-All :
    {A : Type 0} (P : A → Type 0) (p : A → Bool) (xs : List A) {x : A}
    → All P xs
    → find p xs ≡ some x
    → P x × (p x ≡ true)
find-All P p [] h e = absurd (ground arith)
find-All P p (y ∷ xs) {x} h e = elim (Bool-cases (p y)) [
  | inl hit ↦
      let same : y ≡ x = ground arith in (subst P same h.0, subst (λ z. p z ≡ true) same hit)
  | inr miss ↦ find-All P p xs h.1 (ground arith)
]

module _ (P : RestaurantTable → Type 0) where
  insert_table-All :
      (r : RestaurantTable) (xs : List RestaurantTable) → P r → All P xs → All P (insert_table r xs)
  unfolding insert_table
  insert_table-All r [] p h = (p, tt)
  insert_table-All r (x ∷ xs) p h = elim (Bool-cases (leb r.capacity x.capacity)) [
    | inl le ↦ rw (insert_table, le) (p, h)
    | inr gt ↦ rw (insert_table, gt) (h.0, insert_table-All r xs p h.1)
  ]

  sort_tables-All : (xs : List RestaurantTable) → All P xs → All P (sort_tables xs)
  unfolding sort_tables
  sort_tables-All [] h = tt
  sort_tables-All (x ∷ xs) h = insert_table-All x (sort_tables xs) h.0 (sort_tables-All xs h.1)

unwrap : {A : Type 0} {a b : A} → ok a ≡ ok b → a ≡ b
unwrap e = ground arith

unnot : {b : Bool} → not b ≡ true → b ≡ false
unnot h = ground arith

-- What holds of every table that seats the party holds of the one returned, which is free.
pub find_available_table-All :
    {X : Type 0} (P : RestaurantTable → Type 0) (tenant_id : String) (t branch_id : Uuid)
    (party_size starts_at duration_min : ℕ) (w : World Book X) (table : RestaurantTable)
    → uuid_of tenant_id ≡ some t
    → All P (select t (fitting t branch_id party_size) w.db.restaurant_tables)
    → (find_available_table tenant_id branch_id party_size starts_at duration_min w).0
      ≡ ok (some table)
    → P table
      × (is_taken starts_at
            (ends_at starts_at duration_min)
            (select t (λ r. (r.branch_id == branch_id) && is_active r.status) w.db.reservations)
            table
          ≡ false)
unfolding find_available_table with_tenant
find_available_table-All P tenant_id t branch_id party_size starts_at duration_min w table e own h =
    let tables = select t (fitting t branch_id party_size) w.db.restaurant_tables in
    let active =
      select t (λ r. (r.branch_id == branch_id) && is_active r.status) w.db.reservations in
    let free =
      λ (x : RestaurantTable). not (is_taken starts_at (ends_at starts_at duration_min) active x) in
    let ran : (find_available_table tenant_id branch_id party_size starts_at duration_min w).0
        ≡ ok (find free (sort_tables tables)) =
      rw (find_available_table, with_tenant, e) refl in
    let found : find free (sort_tables tables) ≡ some table = unwrap (sym ran ∙ h) in
    let (p, f) = find-All P free (sort_tables tables) (sort_tables-All P tables own) found in
    (p, unnot f)

-- A table that `findAvailableTable` returns is a table of the tenant in that branch, seats the party,
-- and no reservation of the branch that is confirmed or seated holds it in the time asked for.
pub find_available_table-free :
    {X : Type 0} (tenant_id : String) (t branch_id : Uuid) (party_size starts_at duration_min : ℕ)
    (w : World Book X) (table : RestaurantTable)
    → uuid_of tenant_id ≡ some t
    → (find_available_table tenant_id branch_id party_size starts_at duration_min w).0
      ≡ ok (some table)
    → (table.tenant_id ≡ t)
      × (fitting t branch_id party_size table ≡ true)
      × (is_taken starts_at
            (ends_at starts_at duration_min)
            (select t (λ r. (r.branch_id == branch_id) && is_active r.status) w.db.reservations)
            table
          ≡ false)
find_available_table-free tenant_id t branch_id party_size starts_at duration_min w table e h =
    let own = select-own t (fitting t branch_id party_size) w.db.restaurant_tables in
    let ((mine, fits), free) =
      find_available_table-All (λ r. (r.tenant_id ≡ t) × (fitting t branch_id party_size r ≡ true))
        tenant_id t branch_id party_size starts_at duration_min w table e own h in
    (mine, fits, free)
