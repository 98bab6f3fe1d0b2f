-- ===== src/Platform/Suspended.antt =====
-- What the status of a tenant has an effect on (src/vertical/restaurants: admin.controller.ts,
-- tenant-resolver.ts).
use peer_core.Platform.{status_of, mark, Tenant, by_slug, Platform, TenantStatus, set_tenant_status}
use peer_core.Tenancy.{Uuid}
use peer_core.Base.{
  Option-cases, arith, ◌≡◌, List, String, [], ◌∷◌, none, some, refl, inl, inr, Option,
}
use peer_core.Action.{World}

by_slug-mark :
    (uuid_text : Uuid → String) (slug : String) (id : Uuid) (status : TenantStatus)
    (ts : List Tenant)
    → by_slug uuid_text slug (mark id status ts) ≡ by_slug uuid_text slug ts
by_slug-mark uuid_text slug id status [] = refl
by_slug-mark uuid_text slug id status (t ∷ ts) =
    ground (arith, by_slug-mark uuid_text slug id status ts)

module _ {X : Type 0} where
  -- A call of setTenantStatus, whatever the status, changes the tenant that no slug resolves
  -- to, no user, session or membership, and no row of a tenant.
  set_tenant_status-by_slug :
      (uuid_text : Uuid → String) (slug : String) (id : Uuid) (text : Option String)
      (w : World Platform X)
      → let w' = (set_tenant_status id text w).1 in
        (by_slug uuid_text slug w'.db.tenants ≡ by_slug uuid_text slug w.db.tenants)
        × (w'.db.accounts ≡ w.db.accounts)
        × (w'.db.base ≡ w.db.base)
  unfolding set_tenant_status
  set_tenant_status-by_slug uuid_text slug id none w = (refl, refl, refl)
  set_tenant_status-by_slug uuid_text slug id (some text) w = elim (Option-cases (status_of text)) [
    | inl e ↦ rw (set_tenant_status, e) (refl, refl, refl)
    | inr (status, e) ↦
        rw (set_tenant_status, e) (by_slug-mark uuid_text slug id status w.db.tenants, refl, refl)
  ]
