-- ===== src/Api/Admins.antt =====
-- The routes of src/vertical/restaurants/admin.controller.ts behind AdminGuard
-- (src/modules/identity/admin.guard.ts). The page of the console is left out.
use peer_core.Base.{true, refl, inl, inr, Option, ◌≡◌, ◌⊎◌, ℕ, String, List}
use peer_core.Action.{err, Action, World, lift, pure, ◌>>=◌}
use peer_core.Api.{on_platform, Site}
use peer_core.Api.Staff.{admitted}
use peer_core.Errors.{http_error}
use peer_core.Identity.Access.{admin_guard-passed_iff}
use peer_core.Identity.Crypto.{Node}
use peer_core.Identity.Guards.{admin_guard, auth_guard, Verdict, passed, unauthorized, forbidden}
use peer_core.Identity.Tables.{AuthContext, is_admin}
use peer_core.Platform.{
  overview, list_tenants, create_tenant, set_tenant_status, Fresh, TenantBody, Tenant, TenantStatus,
  Overview, OnboardResult,
}
use peer_core.Tenancy.{Uuid}

pub data AdminRequest : Type 0 where
  get_overview get_tenants : AdminRequest
  post_tenant : Fresh → TenantBody → AdminRequest
  post_tenant_status : Uuid → Option String → AdminRequest

-- The answers, by their content.
pub data AdminReply : Type 0 where
  overviewed : Overview → AdminReply
  tenants : List Tenant → AdminReply
  onboarded : OnboardResult → AdminReply
  marked : Uuid → TenantStatus → AdminReply

-- `key` is MOYASAR_SECRET_KEY of the environment.
unfoldable pub administer :
    {X : Type 0} → (Uuid → String) → Option String → AdminRequest → Action Site X AdminReply
administer uuid_text key get_overview = on_platform (overview key) >>= λ r. pure (overviewed r)
administer uuid_text key get_tenants = on_platform list_tenants >>= λ r. pure (tenants r)
administer uuid_text key (post_tenant d body) =
    on_platform (create_tenant uuid_text d body) >>= λ r. pure (onboarded r)
administer uuid_text key (post_tenant_status id status) =
    on_platform (set_tenant_status id status) >>= λ (id, status). pure (marked id status)

-- A handler behind AdminGuard.
unfoldable pub as_admin :
    {X A : Type 0} → Node → Option String → ℕ → Action Site X A → Action Site X A
as_admin node header now handler w =
    (lift (admitted (admin_guard node header now w.db.accounts)) >>= λ ctx. handler) w

Verdict-cases :
    (v : Verdict) → ((ctx : AuthContext) × (v ≡ passed ctx)) ⊎ (v ≡ unauthorized) ⊎ (v ≡ forbidden)
Verdict-cases (passed ctx) = inl (ctx, refl)
Verdict-cases unauthorized = inr (inl refl)
Verdict-cases forbidden = inr (inr refl)

module _ {X A : Type 0} (node : Node) (header : Option String) (now : ℕ) (handler : Action Site X A)
    (w : World Site X) where
  -- A request to a route of the admins changes nothing and is refused with 401 or 403, or
  -- AuthGuard lets it pass, its user is in the table of platform admins, and it is handled.
  pub as_admin-platform_admins :
      (as_admin node header now handler w ≡ (err (http_error 401), w))
      ⊎ (as_admin node header now handler w ≡ (err (http_error 403), w))
      ⊎ ((ctx : AuthContext) × (auth_guard node header now w.db.accounts ≡ passed ctx)
          × (is_admin ctx.user_id w.db.accounts ≡ true)
          × (as_admin node header now handler w ≡ handler w))
  unfolding as_admin
  as_admin-platform_admins = elim (Verdict-cases (admin_guard node header now w.db.accounts)) [
    | inl (ctx, e) ↦
        let (known, listed) = (admin_guard-passed_iff node header now w.db.accounts ctx).0 e in
        inr (inr (ctx, known, listed, rw (as_admin, e) refl))
    | inr (inl e) ↦ inl (rw (as_admin, e) refl)
    | inr (inr e) ↦ inr (inl (rw (as_admin, e) refl))
  ]
