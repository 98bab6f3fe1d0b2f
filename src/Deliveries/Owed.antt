-- ===== src/Deliveries/Owed.antt =====
-- Settling with a driver (src/vertical/restaurants/delivery.service.ts).
use peer_core.Tenancy.{uuid_of, Uuid, with_tenant}
use peer_core.Tenancy.Rows.{update, select}
use peer_core.Base.{eq_iff, arith, ◌≡◌, ◌≢◌, List, ℕ, String, [], ◌∷◌, some, refl}
use peer_core.Action.{World, ok}
use peer_core.Deliveries.{
  close_due, is_due, sum_amounts, DeliveryTables, DriverEarning, owed, settle, DriverEarning-scoped,
}

paid :
    (t : Uuid) (phone : String) (at : ℕ) (rows : List DriverEarning)
    → sum_amounts (select t (is_due phone) (close_due t phone at rows)) ≡ 0
unfolding select update
paid t phone at [] = refl
paid t phone at (e ∷ rows) = ground (arith, paid t phone at rows)

unpaid :
    (t : Uuid) (phone other : String) (at : ℕ) (rows : List DriverEarning)
    → phone ≢ other
    → sum_amounts (select t (is_due other) (close_due t phone at rows))
      ≡ sum_amounts (select t (is_due other) rows)
unfolding select update
unpaid t phone other at [] h = refl
unpaid t phone other at (e ∷ rows) h = ground (
  arith,
  eq_iff e.driver_phone phone,
  eq_iff e.driver_phone other,
  unpaid t phone other at rows h,
)

module _ {X : Type 0} where
  -- For a tenant id that is a UUID, after settle with a driver nothing is owed to that
  -- driver, and what is owed to a driver with another phone is as before.
  settle-owed :
      (tenant_id phone other : String) (t : Uuid) (at : ℕ) (w : World DeliveryTables X)
      → uuid_of tenant_id ≡ some t
      → phone ≢ other
      → let w' = (settle tenant_id phone at w).1 in
        (owed tenant_id phone w' ≡ (ok 0, w'))
        × ((owed tenant_id other w').0 ≡ (owed tenant_id other w).0)
  unfolding settle owed with_tenant
  settle-owed tenant_id phone other t at w e apart = (
    rw (owed, settle, with_tenant, e, paid t phone at w.db.driver_earnings) refl,
    rw (owed, settle, with_tenant, e, unpaid t phone other at w.db.driver_earnings apart) refl,
  )
