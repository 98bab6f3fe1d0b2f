-- ===== src/Tenancy/Keeps.antt =====
-- Invariants of a method that runs in the context of a tenant (src/modules/tenancy).
use peer_core.Errors.{Error}
use peer_core.Base.{arith, some, inl, inr, Option-cases, ◌≡◌, String}
use peer_core.Orders.Tables.{
  CatalogItem-scoped, MenuAvailability-scoped, Branch-scoped, Promotion-scoped, Order-scoped,
  OrderItem-scoped, OrderEvent-scoped, LoyaltyAccount-scoped,
}
use peer_core.Action.{Result-cases, err, ok, World, Action}
use peer_core.Action.Keeps.{Keeps-transaction, Keeps, Keeps-transaction_ok}
use peer_core.Tenancy.{uuid_of, Uuid, with_tenant}

pub Keeps-with_tenant :
    {D X A : Type 0} {P : D → Type 0} (tenant_id : String) (fn : Uuid → Action D X A)
    → ((t : Uuid) (w w' : World D X) (a : A) → P w.db → fn t w ≡ (ok a, w') → P w'.db)
    → Keeps P (with_tenant tenant_id fn)
unfolding with_tenant
Keeps-with_tenant {P} tenant_id fn k = elim (Option-cases (uuid_of tenant_id)) [
  | inl e ↦ rw (with_tenant, e) (record { at = λ w h. h })
  | inr (t, e) ↦ rw (with_tenant, e) (Keeps-transaction_ok (fn t) (k t))
]

-- With the context known, what the body keeps is kept.
pub Keeps-with_tenant_at :
    {D X A : Type 0} {P : D → Type 0} (tenant_id : String) (t : Uuid) (fn : Uuid → Action D X A)
    → uuid_of tenant_id ≡ some t
    → Keeps P (fn t)
    → Keeps P (with_tenant tenant_id fn)
unfolding with_tenant
Keeps-with_tenant_at tenant_id t fn e k = rw (with_tenant, e) (Keeps-transaction (fn t) k)

-- Whatever the context is.
pub Keeps-with_tenant_all :
    {D X A : Type 0} {P : D → Type 0} (tenant_id : String) (fn : Uuid → Action D X A)
    → ((t : Uuid) → Keeps P (fn t))
    → Keeps P (with_tenant tenant_id fn)
unfolding with_tenant
Keeps-with_tenant_all {P} tenant_id fn k = elim (Option-cases (uuid_of tenant_id)) [
  | inl e ↦ rw (with_tenant, e) (record { at = λ w h. h })
  | inr (t, e) ↦ rw (with_tenant, e) (Keeps-transaction (fn t) (k t))
]

-- A method that throws leaves the tables as they were, and so does one whose tenant id is no UUID,
-- which throws; what the method did outside the database stays done.
pub with_tenant-atomic :
    {D X A : Type 0} (tenant_id : String) (fn : Uuid → Action D X A) (w w' : World D X) (x : Error)
    → with_tenant tenant_id fn w ≡ (err x, w')
    → w'.db ≡ w.db
unfolding with_tenant
with_tenant-atomic tenant_id fn w w' x h = elim (Option-cases (uuid_of tenant_id)) [
  | inl e ↦ ground arith
  | inr (t, e) ↦ elim (Result-cases (fn t w).0) [
    | inl (a, r) ↦ absurd (ground arith)
    | inr (y, r) ↦ ground arith
  ]
]
