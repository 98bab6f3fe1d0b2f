-- ===== src/Deliveries/Isolation.antt =====
-- The writes of src/vertical/restaurants/delivery.service.ts under row-level security: rows of other
-- tenants stay as they are.
use peer_core.Base.{
  [], ◌∷◌, some, refl, inl, inr, find, List, ◌≡◌, ◌∙◌, Bool-cases, Option-cases, ◌==◌, String, ℕ,
}
use peer_core.Action.{ok}
use peer_core.Deliveries.{
  Delivery, DriverEarning, DeliveryTables, Driver, DeliveryStatus, Delivery-scoped,
  DriverEarning-scoped, assign, assign_in, amount_of, set_status, settle, upsert_delivery,
  upsert_earning, new_delivery, new_earning, for_order,
}
use peer_core.Action.Keeps.{Keeps, ◌▹◌, Keeps-lift, Keeps-statement, Keeps-execute}
use peer_core.Tenancy.{uuid_of, Uuid}
use peer_core.Tenancy.Isolation.{foreign, foreign-append, foreign-update}
use peer_core.Tenancy.Keeps.{Keeps-with_tenant_at}
use peer_core.Orders.Pricing.{Number}

-- The tables without the rows of `t`.
abbrev pub others : Uuid → DeliveryTables → DeliveryTables
others t db = record {
  deliveries = foreign t db.deliveries;
  driver_earnings = foreign t db.driver_earnings;
}

module _ (t : Uuid) (first : DeliveryTables) where
  abbrev pub IsSpared : DeliveryTables → Type 0
  IsSpared db = others t db ≡ others t first

  deliveries-IsSpared :
      (db : DeliveryTables) (rows : List Delivery)
      → foreign t rows ≡ foreign t db.deliveries
      → IsSpared db
      → IsSpared (record db { deliveries = rows })
  deliveries-IsSpared db rows e h = (λ i. record (others t db) { deliveries = e i }) ∙ h

  earnings-IsSpared :
      (db : DeliveryTables) (rows : List DriverEarning)
      → foreign t rows ≡ foreign t db.driver_earnings
      → IsSpared db
      → IsSpared (record db { driver_earnings = rows })
  earnings-IsSpared db rows e h = (λ i. record (others t db) { driver_earnings = e i }) ∙ h

  upsert_delivery-IsSpared :
      (new : Delivery) (db : DeliveryTables)
      → new.tenant_id ≡ t
      → IsSpared db
      → IsSpared (upsert_delivery new db).1
  upsert_delivery-IsSpared new db own h =
      elim (Option-cases (find (λ d. d.order_id == new.order_id) db.deliveries)) [
        | inl e ↦
            rw (upsert_delivery, e)
              (deliveries-IsSpared db _ (foreign-append t db.deliveries (new ∷ []) (own, tt)) h)
        | inr (d, e) ↦ elim (Bool-cases (d.tenant_id == new.tenant_id)) [
          | inl f ↦
              rw (upsert_delivery, e, f, own)
                (deliveries-IsSpared db _ (foreign-update t _ _ db.deliveries (λ r. refl)) h)
          | inr f ↦ rw (upsert_delivery, e, f) h
        ]
      ]

  upsert_earning-IsSpared :
      (order : Uuid) (new : DriverEarning) (db : DeliveryTables)
      → new.tenant_id ≡ t
      → IsSpared db
      → IsSpared (upsert_earning order new db).1
  upsert_earning-IsSpared order new db own h =
      elim (Option-cases (find (for_order order) db.driver_earnings)) [
        | inl e ↦
            rw (upsert_earning, e)
              (earnings-IsSpared db _ (foreign-append t db.driver_earnings (new ∷ []) (own, tt)) h)
        | inr (d, e) ↦ elim (Bool-cases (d.tenant_id == new.tenant_id)) [
          | inl f ↦
              rw (upsert_earning, e, f, own)
                (earnings-IsSpared db _ (foreign-update t _ _ db.driver_earnings (λ r. refl)) h)
          | inr f ↦ rw (upsert_earning, e, f) h
        ]
      ]

  module _ {X : Type 0} (tenant_id : String) (e : uuid_of tenant_id ≡ some t) where
    pub assign-IsSpared :
        (id order : Uuid) (driver : Driver) (earning : Number)
        → Keeps {X = X} IsSpared (assign tenant_id id order driver earning)
    unfolding assign
    assign-IsSpared id order driver earning = elim (Option-cases (amount_of earning)) [
      | inl f ↦ rw (assign, f) (Keeps-lift _)
      | inr (amount, f) ↦
          rw (assign, f)
            (Keeps-with_tenant_at tenant_id t (assign_in id order driver amount) e (
              Keeps-statement (upsert_delivery (new_delivery id t order driver))
                (λ db. upsert_delivery-IsSpared (new_delivery id t order driver) db refl)
              ▹ λ d.
                  Keeps-statement (upsert_earning order (new_earning t order driver amount)) (λ db.
                    upsert_earning-IsSpared order (new_earning t order driver amount) db refl)
                  ▹ λ _. Keeps-lift (ok d)))
    ]

    pub set_status-IsSpared :
        (id : Uuid) (status : DeliveryStatus)
        → Keeps {X = X} IsSpared (set_status tenant_id id status)
    unfolding set_status
    set_status-IsSpared id status = Keeps-with_tenant_at tenant_id t _ e (
        Keeps-statement _
          (λ db. deliveries-IsSpared db _ (foreign-update t _ _ db.deliveries (λ r. refl))))

    pub settle-IsSpared :
        (phone : String) (at : ℕ) → Keeps {X = X} IsSpared (settle tenant_id phone at)
    unfolding settle
    settle-IsSpared phone at = Keeps-with_tenant_at tenant_id t _ e (
        Keeps-execute _
          (λ db. earnings-IsSpared db _ (foreign-update t _ _ db.driver_earnings (λ r. refl))))
