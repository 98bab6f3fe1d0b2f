-- ===== src/Identity/Access.antt =====
-- Authority comes from the tables alone (src/modules/identity: auth.service.ts and the guards).
use peer_core.Errors.{forbidden, auth_error}
use peer_core.Identity.Tables.{
  is_live, context_of, User, resolve, same_role, role_of, is_admin, memberships_of, is_allowed,
  MembershipRow, AuthContext, Accounts, Role,
}
use peer_core.Identity.Guards.{bearer, passed, auth_guard, admin_guard}
use peer_core.Tenancy.{Uuid}
use peer_core.Identity.Crypto.{hash_token, Node}
use peer_core.Base.{
  sym, Option-cases, subst, arith, str_eq, ◌&&◌, ◌↔◌, ◌==◌, ◌≡◌, Bool, any, List, ℕ, String,
  if◌then◌else◌, [], ◌∷◌, none, some, true, false, refl, inl, inr, Option, find, ap,
}
use peer_core.Action.{Result-cases, World, ok, err}
use peer_core.Identity.{authenticate, authorize_tenant}

-- A row that gives the user one of the roles in the tenant.
abbrev pub grants : Uuid → String → List Role → MembershipRow → Bool
grants user tenant allowed r =
    (r.user_id == user)
    && str_eq r.tenant_id tenant
    && elim (role_of r.role) [ none ↦ false | some role ↦ any (same_role role) allowed ]

pub any-memberships_of :
    (user : Uuid) (tenant : String) (allowed : List Role) (rs : List MembershipRow)
    → any (is_allowed tenant allowed) (memberships_of user rs) ≡ any (grants user tenant allowed) rs
any-memberships_of user tenant allowed [] = refl
any-memberships_of user tenant allowed (r ∷ rs) =
    ground (arith, any-memberships_of user tenant allowed rs)

pub context-resolve :
    (node : Node) (token : String) (now : ℕ) (db : Accounts) (ctx : AuthContext)
    → resolve node token now db ≡ ok ctx
    → (u : User) × (ctx ≡ context_of db u)
context-resolve node token now db ctx h =
    elim (Option-cases (find (is_live (hash_token node token) now) db.sessions)) [
      | inl e ↦ absurd (ground arith)
      | inr (s, e) ↦ elim (Option-cases (find (λ u. u.id == s.user_id) db.users)) [
        | inl f ↦ absurd (ground arith)
        | inr (u, f) ↦ (u, ground arith)
      ]
    ]

module _ {X : Type 0} (node : Node) where
  -- For the context of a session that authenticates, authorizeTenant returns the tenant if
  -- the table of memberships has a row of the user in that tenant with a role that is
  -- allowed, and throws `forbidden` otherwise.
  pub authorize_tenant-memberships :
      (token tenant : String) (now : ℕ) (allowed : List Role) (ctx : AuthContext)
      (w w' : World Accounts X)
      → authenticate node token now w ≡ (ok ctx, w')
      → authorize_tenant ctx tenant allowed ≡ (
          if any (grants ctx.user_id tenant allowed) w.db.memberships
          then ok tenant
          else err (auth_error forbidden))
  unfolding authenticate authorize_tenant
  authorize_tenant-memberships token tenant now allowed ctx w w' h =
      let (u, same) = context-resolve node token now w.db ctx (ap (λ r. r.0) h) in
      let P = λ (c : AuthContext).
        any (is_allowed tenant allowed) c.memberships
        ≡ any (grants c.user_id tenant allowed) w.db.memberships in
      let e = subst P (sym same) (any-memberships_of u.id tenant allowed w.db.memberships) in
      rw e refl

module _ (node : Node) where
  -- AdminGuard lets a request pass with a context exactly when AuthGuard does and the user of
  -- the context is in the table of platform admins.
  pub admin_guard-passed_iff :
      (header : Option String) (now : ℕ) (db : Accounts) (ctx : AuthContext)
      → (admin_guard node header now db ≡ passed ctx)
        ↔ ((auth_guard node header now db ≡ passed ctx) × (is_admin ctx.user_id db ≡ true))
  unfolding admin_guard auth_guard
  admin_guard-passed_iff header now db ctx = elim (Option-cases (bearer header)) [
    | inl e ↦ rw (admin_guard, auth_guard, e) (ground arith)
    | inr (token, e) ↦ elim (Result-cases (resolve node token now db)) [
      | inr (x, f) ↦ rw (admin_guard, auth_guard, e, f) (ground arith)
      | inl (c, f) ↦
          let (u, same) = context-resolve node token now db c f in
          let honest : c.is_platform_admin ≡ is_admin c.user_id db =
            subst (λ x. x.is_platform_admin ≡ is_admin x.user_id db) (sym same) refl in
          rw (admin_guard, auth_guard, e, f) (ground arith)
    ]
  ]
