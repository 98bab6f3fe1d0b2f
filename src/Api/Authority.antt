-- ===== src/Api/Authority.antt =====
-- Who reaches a route of the staff (src/vertical/restaurants/staff.controller.ts).
use peer_core.Base.{
  [], ◌∷◌, true, refl, inl, inr, Option, ◌≡◌, ◌⊎◌, ◌∙◌, sym, subst, any, Bool-cases, Option-cases,
  ℕ, String, List,
}
use peer_core.Action.{ok, err, Action, World, Result-cases}
use peer_core.Api.{Site}
use peer_core.Api.Staff.{as_staff, staff_tenant, first_tenant}
use peer_core.Identity.{authorize_tenant}
use peer_core.Identity.Access.{any-memberships_of, context-resolve, grants}
use peer_core.Identity.Crypto.{Node}
use peer_core.Identity.Guards.{auth_guard, bearer, passed}
use peer_core.Identity.Tables.{is_allowed, resolve, AuthContext, Membership, owner, staff}
use peer_core.Errors.{auth_error, http_error, Error, forbidden}

-- The request is refused with an answer for the client.
abbrev pub IsRefusal : Error → Type 0
IsRefusal e = (e ≡ http_error 401) ⊎ (e ≡ http_error 403) ⊎ (e ≡ auth_error forbidden)

-- What `tenantOf` gives is a tenant with a membership in one of the roles of the staff.
first_tenant-allowed :
    (ctx : AuthContext) (ms : List Membership)
    → ((e : Error) × (first_tenant ctx ms ≡ err e) × IsRefusal e)
      ⊎ ((t : String) × (first_tenant ctx ms ≡ ok t)
          × (any (is_allowed t (owner ∷ staff ∷ [])) ctx.memberships ≡ true))
unfolding authorize_tenant
first_tenant-allowed ctx [] = inl (http_error 403, refl, inr (inl refl))
first_tenant-allowed ctx (m ∷ ms) =
    elim (Bool-cases (any (is_allowed m.tenant_id (owner ∷ staff ∷ [])) ctx.memberships)) [
      | inl has ↦ inr (m.tenant_id, rw (authorize_tenant, has) refl, has)
      | inr lacks ↦ inl (auth_error forbidden, rw (authorize_tenant, lacks) refl, inr (inr refl))
    ]

module _ {X A : Type 0} (node : Node) (header : Option String) (now : ℕ)
    (handler : String → Action Site X A) (w : World Site X) where
  -- A request of the staff over HTTP changes nothing and is refused with 401, 403 or
  -- `forbidden`, or it is handled in a tenant for which the table of memberships has a row of
  -- the user of its token with the role owner or staff.
  pub as_staff-memberships :
      ((e : Error) × (as_staff node header now handler w ≡ (err e, w)) × IsRefusal e)
      ⊎ ((ctx : AuthContext) × (t : String) × (auth_guard node header now w.db.accounts
            ≡ passed ctx)
          × (any (grants ctx.user_id t (owner ∷ staff ∷ [])) w.db.accounts.memberships ≡ true)
          × (as_staff node header now handler w ≡ handler t w))
  unfolding as_staff auth_guard staff_tenant
  as_staff-memberships = elim (Option-cases (bearer header)) [
    | inl e ↦ inl (http_error 401, rw (as_staff, auth_guard, e) refl, inl refl)
    | inr (token, e) ↦ elim (Result-cases (resolve node token now w.db.accounts)) [
      | inr (x, f) ↦ inl (http_error 401, rw (as_staff, auth_guard, e, f) refl, inl refl)
      | inl (ctx, f) ↦ elim (first_tenant-allowed ctx ctx.memberships) [
        | inl (x, g, r) ↦ inl (x, rw (as_staff, auth_guard, staff_tenant, e, f, g) refl, r)
        | inr (t, g, has) ↦
            let (u, same) = context-resolve node token now w.db.accounts ctx f in
            let stored = any-memberships_of u.id t (owner ∷ staff ∷ []) w.db.accounts.memberships in
            let P = λ (c : AuthContext).
              any (is_allowed t (owner ∷ staff ∷ [])) c.memberships
              ≡ any (grants c.user_id t (owner ∷ staff ∷ [])) w.db.accounts.memberships in
            inr (
              ctx,
              t,
              rw (auth_guard, e, f) refl,
              sym (subst P (sym same) stored) ∙ has,
              rw (as_staff, auth_guard, staff_tenant, e, f, g) refl,
            )
      ]
    ]
  ]
