-- ===== src/Platform.antt =====
-- The plane above the tenants, src/vertical/restaurants: onboarding.service.ts, tenant-resolver.ts and
-- admin.controller.ts behind its guard. Its statements run one by one, in no transaction. `uuid_text` is
-- how Postgres prints an id.
pub mod Onboarded
pub mod Suspended
mod Tests
use peer_core.Base.{
  ◌||◌, or_default, Bool, ◌&&◌, if◌then◌else◌, [], ◌∷◌, none, some, true, false, refl, zero, suc,
  inl, inr, Option, find, ap, ◌++◌, ◌==◌, any, str_eq, leb, List, String, ℕ, is_truthy, truthy,
  length,
}
use peer_core.Action.{
  ◌>>◌, ◌>>=◌, ok, err, statement, query, throw, zoom, call, execute, pure, Action, Result,
}
use peer_core.Base.Int.{pos, negsuc}
use peer_core.Tenancy.{Uuid}
use peer_core.Identity.Tables.{Accounts, MembershipRow, upsert_user}
use peer_core.Orders.Tables.{Branch, Tables}
use peer_core.Restaurants.{create_branch, NewBranch}
use peer_core.Errors.{database, unique_violation, http_error}

pub data TenantStatus : Type 0 where
  active suspended : TenantStatus

pub record Tenant : Type 0 where
  pub id : Uuid
  pub slug : String
  pub name : String
  pub status : TenantStatus
  pub created_at : ℕ

pub record Platform : Type 0 where
  pub tenants : List Tenant
  pub accounts : Accounts
  pub base : Tables

pub record Onboarding : Type 0 where
  pub name : String
  pub slug : String
  pub owner_phone : String
  pub branch_name : String

pub record OnboardResult : Type 0 where
  pub tenant_id : String
  pub owner_user_id : Uuid
  pub branch_id : Uuid

-- What Postgres draws for one call.
pub record Fresh : Type 0 where
  pub tenant_id : Uuid
  pub user_id : Uuid
  pub branch_id : Uuid
  pub created_at : ℕ

abbrev pub tenant_of : Fresh → Onboarding → Tenant
tenant_of d input = record {
  id = d.tenant_id;
  slug = input.slug;
  name = input.name;
  status = active;
  created_at = d.created_at;
}

-- The primary key, and the slug.
abbrev pub insert_tenant : Tenant → Platform → Result (Unit {0}) × Platform
insert_tenant row db =
    if any (λ t. (t.id == row.id) || str_eq t.slug row.slug) db.tenants
    then (err (database unique_violation), db)
    else (ok tt, record db { tenants = db.tenants ++ row ∷ [] })

-- uq_memberships_user_tenant.
abbrev pub insert_membership : MembershipRow → Accounts → Result (Unit {0}) × Accounts
insert_membership row db =
    if any (λ m. (m.user_id == row.user_id) && str_eq m.tenant_id row.tenant_id) db.memberships
    then (err (database unique_violation), db)
    else (ok tt, record db { memberships = db.memberships ++ row ∷ [] })

abbrev pub first_branch : String → NewBranch
first_branch name = record {
  name = name;
  address = none;
  hours = none;
  phone = none;
  min_order_minor = none;
}

abbrev pub owner_row : Uuid → String → MembershipRow
owner_row user tenant = record { user_id = user; tenant_id = tenant; role = "owner" }

-- `orderBy(desc(createdAt))`
abbrev insert_newest : Tenant → List Tenant → List Tenant
insert_newest t [] = t ∷ []
insert_newest t (x ∷ xs) =
    if leb x.created_at t.created_at then t ∷ x ∷ xs else x ∷ insert_newest t xs

abbrev newest_first : List Tenant → List Tenant
newest_first [] = []
newest_first (t ∷ ts) = insert_newest t (newest_first ts)

abbrev pub status_of : String → Option TenantStatus
status_of s =
    if str_eq s "active" then some active else if str_eq s "suspended" then some suspended else none

abbrev pub mark : Uuid → TenantStatus → List Tenant → List Tenant
mark id status [] = []
mark id status (t ∷ ts) =
    (if t.id == id then record t { status = status } else t) ∷ mark id status ts

pub record Overview : Type 0 where
  pub payment_provider : String
  pub payment_configured : Bool
  pub tenant_count : ℕ

-- The body of `createTenant`.
pub record TenantBody : Type 0 where
  pub name : Option String
  pub slug : Option String
  pub owner_phone : Option String
  pub branch_name : Option String

-- The input, if the three texts that are asked for are not empty.
abbrev pub onboarding_of : TenantBody → Option Onboarding
onboarding_of body = elim (truthy body.name) [
  | none ↦ none
  | some name ↦ elim (truthy body.slug) [
    | none ↦ none
    | some slug ↦ elim (truthy body.owner_phone) [
      | none ↦ none
      | some phone ↦ some (record {
        name = name;
        slug = slug;
        owner_phone = phone;
        branch_name = or_default body.branch_name "Main";
      })
    ]
  ]
]

-- `TenantResolver.bySlug`
abbrev pub by_slug : (Uuid → String) → String → List Tenant → Option String
by_slug uuid_text slug tenants = elim (find (λ t. str_eq t.slug slug) tenants) [
  | none ↦ none
  | some t ↦ some (uuid_text t.id)
]

module _ {X A : Type 0} where
  abbrev pub on_accounts : Action Accounts X A → Action Platform X A
  on_accounts = zoom (λ p. p.accounts) (λ a p. record p { accounts = a })

  abbrev pub on_tables : Action Tables X A → Action Platform X A
  on_tables = zoom (λ p. p.base) (λ b p. record p { base = b })

module _ {X : Type 0} (uuid_text : Uuid → String) where
  unfoldable pub onboard : Fresh → Onboarding → Action Platform X OnboardResult
  onboard d input = do
    statement (insert_tenant (tenant_of d input))
    owner ← on_accounts (statement (upsert_user d.user_id input.owner_phone))
    on_accounts (statement (insert_membership (owner_row owner (uuid_text d.tenant_id))))
    branch ←
        on_tables
          (create_branch (uuid_text d.tenant_id) d.branch_id (first_branch input.branch_name))
    pure
        (record { tenant_id = uuid_text d.tenant_id; owner_user_id = owner; branch_id = branch.id })

  -- The handlers of AdminController, once its guard let the request pass.
  unfoldable pub create_tenant : Fresh → TenantBody → Action Platform X OnboardResult
  create_tenant d body = elim (onboarding_of body) [
    | none ↦ throw (http_error 400)
    | some input ↦ onboard d input
  ]

module _ {X : Type 0} where
  -- `key` is MOYASAR_SECRET_KEY of the environment.
  unfoldable pub overview : Option String → Action Platform X Overview
  overview key = query (λ db. record {
    payment_provider = elim (truthy key) [ none ↦ "fake" | some k ↦ "moyasar" ];
    payment_configured = elim (truthy key) [ none ↦ false | some k ↦ true ];
    tenant_count = length db.tenants;
  })

  unfoldable pub list_tenants : Action Platform X (List Tenant)
  list_tenants = query (λ db. newest_first db.tenants)

  -- What is answered is the id and the status, whether there is such a tenant or not.
  unfoldable pub set_tenant_status : Uuid → Option String → Action Platform X (Uuid × TenantStatus)
  set_tenant_status id none = throw (http_error 400)
  set_tenant_status id (some text) = elim (status_of text) [
    | none ↦ throw (http_error 400)
    | some status ↦
        execute (λ db. record db { tenants = mark id status db.tenants }) >> pure (id, status)
  ]
