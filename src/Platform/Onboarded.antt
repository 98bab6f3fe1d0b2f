-- ===== src/Platform/Onboarded.antt =====
-- What a restaurant has once it is onboarded (src/vertical/restaurants: onboarding.service.ts,
-- tenant-resolver.ts).
use peer_core.Identity.Access.{grants, any-memberships_of}
use peer_core.Identity.{authorize_tenant}
use peer_core.Restaurants.{branch_of, create_branch}
use peer_core.Platform.{
  by_slug, first_branch, owner_row, tenant_of, Platform, OnboardResult, Onboarding, Fresh, onboard,
}
use peer_core.Base.{
  ◌∙◌, find-concat_last, any-narrow, eq_iff, any-concat_last, find-any, Option-cases, ◌++◌, str_eq,
  ◌||◌, ◌==◌, Bool-cases, any, arith, ◌≡◌, String, ◌&&◌, [], ◌∷◌, some, true, false, refl, inl, inr,
  find, ap,
}
use peer_core.Action.{Result-cases, World, ok}
use peer_core.Tenancy.{with_tenant, Uuid, uuid_of}
use peer_core.Identity.Tables.{context_of, User, upsert_user, Accounts, owner, staff}

-- What a call of `onboard` that returned did.
record Onboarded {X : Type 0} (uuid_text : Uuid → String) (d : Fresh) (input : Onboarding)
    (r : OnboardResult) (w w' : World Platform X) : Type 0 where
  slug : any (λ t. (t.id == d.tenant_id) || str_eq t.slug input.slug) w.db.tenants ≡ false
  tenants : w'.db.tenants ≡ w.db.tenants ++ tenant_of d input ∷ []
  named : r.tenant_id ≡ uuid_text d.tenant_id
  user : (upsert_user d.user_id input.owner_phone w.db.accounts).0 ≡ ok r.owner_user_id
  accounts : w'.db.accounts ≡ record (upsert_user d.user_id input.owner_phone w.db.accounts).1 {
    memberships =
        (upsert_user d.user_id input.owner_phone w.db.accounts).1.memberships
        ++ owner_row r.owner_user_id (uuid_text d.tenant_id) ∷ [];
  }
  tenant : Uuid
  uuid : uuid_of (uuid_text d.tenant_id) ≡ some tenant
  branch : r.branch_id ≡ d.branch_id
  branches :
      w'.db.base.branches
      ≡ w.db.base.branches ++ branch_of d.branch_id tenant (first_branch input.branch_name) ∷ []

module _ {X : Type 0} (uuid_text : Uuid → String) where
  onboarded :
      (d : Fresh) (input : Onboarding) (r : OnboardResult) (w w' : World Platform X)
      → onboard uuid_text d input w ≡ (ok r, w')
      → Onboarded uuid_text d input r w w'
  unfolding onboard create_branch with_tenant
  onboarded d input r w w' h =
      elim (Bool-cases
        (any (λ t. (t.id == d.tenant_id) || str_eq t.slug input.slug) w.db.tenants)) [
          | inl e ↦ absurd (ground (arith, e))
          | inr e ↦ elim (Result-cases (upsert_user d.user_id input.owner_phone w.db.accounts).0) [
            | inr (x, f) ↦ absurd (ground (arith, e, f))
            | inl (user, f) ↦
                elim (Bool-cases (
                  any (λ m. (m.user_id == user) && str_eq m.tenant_id (uuid_text d.tenant_id))
                    (upsert_user d.user_id input.owner_phone w.db.accounts).1.memberships)) [
                      | inl g ↦ absurd (ground (arith, e, f, g))
                      | inr g ↦ elim (Option-cases (uuid_of (uuid_text d.tenant_id))) [
                        | inl k ↦ absurd (ground (arith, e, f, g, k))
                        | inr (t, k) ↦
                            elim (Bool-cases (any (λ b. b.id == d.branch_id) w.db.base.branches)) [
                              | inl l ↦ absurd (ground (arith, e, f, g, k, l))
                              | inr l ↦ record {
                                slug = e;
                                tenants = ground (arith, e, f, g, k, l);
                                named = ground (arith, e, f, g, k, l);
                                user = ground (arith, e, f, g, k, l);
                                accounts = ground (arith, e, f, g, k, l);
                                tenant = t;
                                uuid = k;
                                branch = ground (arith, e, f, g, k, l);
                                branches = ground (arith, e, f, g, k, l);
                              }
                            ]
                      ]
                    ]
          ]
        ]

any_user :
    (fresh : Uuid) (phone : String) (db : Accounts) (user : Uuid)
    → (upsert_user fresh phone db).0 ≡ ok user
    → any (λ u. (u.id == user) && str_eq u.phone phone) (upsert_user fresh phone db).1.users ≡ true
any_user fresh phone db user h = elim (Option-cases (find (λ u. str_eq u.phone phone) db.users)) [
  | inr (u, e) ↦
      let same : u.id ≡ user = ground (arith, e) in
      rw (upsert_user, e)
        (find-any (λ x. str_eq x.phone phone) (λ x. (x.id == user) && str_eq x.phone phone) db.users
          u e (λ hit. ground (arith, hit, same)))
  | inl e ↦ elim (Bool-cases (any (λ u. u.id == fresh) db.users)) [
    | inl f ↦ absurd (ground (arith, e, f))
    | inr f ↦
        let same : fresh ≡ user = ground (arith, e, f) in
        rw (upsert_user, e, f)
          (any-concat_last (λ u. (u.id == user) && str_eq u.phone phone) db.users _
            (ground (arith, eq_iff phone phone)))
  ]
]

module _ {X : Type 0} (uuid_text : Uuid → String) where
  -- After onboard returned, the slug resolves to the tenant that it made, the phone of the
  -- owner belongs to the user that it names, authorizeTenant lets that user, by the
  -- memberships in the tables, into the tenant for the roles owner and staff, and the branch
  -- that it names is there with its name.
  pub onboard-access :
      (d : Fresh) (input : Onboarding) (r : OnboardResult) (w w' : World Platform X)
      → onboard uuid_text d input w ≡ (ok r, w')
      → (by_slug uuid_text input.slug w'.db.tenants ≡ some r.tenant_id)
        × (any
              (λ u. (u.id == r.owner_user_id) && str_eq u.phone input.owner_phone)
              w'.db.accounts.users
            ≡ true)
        × ((u : User)
            → u.id ≡ r.owner_user_id
            → authorize_tenant (context_of w'.db.accounts u) r.tenant_id (owner ∷ staff ∷ [])
              ≡ ok r.tenant_id)
        × (any (λ b. (b.id == r.branch_id) && str_eq b.name input.branch_name) w'.db.base.branches
            ≡ true)
  unfolding authorize_tenant
  onboard-access d input r w w' h =
      let o = onboarded uuid_text d input r w w' h in
      let fresh =
        any-narrow (λ t. (t.id == d.tenant_id) || str_eq t.slug input.slug)
          (λ t. str_eq t.slug input.slug) w.db.tenants (λ t hit. ground (arith, hit)) o.slug in
      let found =
        find-concat_last (λ t. str_eq t.slug input.slug) w.db.tenants (tenant_of d input) fresh
          (ground (arith, eq_iff input.slug input.slug)) in
      (
        rw (o.tenants, by_slug, found, o.named) refl,
        rw o.accounts (any_user d.user_id input.owner_phone w.db.accounts r.owner_user_id o.user),
        λ u same.
            let given =
              any-memberships_of u.id r.tenant_id (owner ∷ staff ∷ []) w'.db.accounts.memberships
              ∙ ap (λ db. any (grants u.id r.tenant_id (owner ∷ staff ∷ [])) db.memberships)
                  o.accounts
              ∙ any-concat_last (grants u.id r.tenant_id (owner ∷ staff ∷ [])) _
                  (owner_row r.owner_user_id (uuid_text d.tenant_id))
                  (ground (arith, same, o.named, eq_iff (uuid_text d.tenant_id) r.tenant_id)) in
            rw given refl,
        rw (o.branches, o.branch)
            (any-concat_last (λ b. (b.id == d.branch_id) && str_eq b.name input.branch_name)
              w.db.base.branches _ (ground (arith, eq_iff input.branch_name input.branch_name))),
      )
