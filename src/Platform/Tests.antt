-- ===== src/Platform/Tests.antt =====
-- One restaurant is onboarded, and suspended.
use peer_core.Platform.Onboarded.{onboard-access}
use peer_core.Identity.{authorize_tenant}
use peer_core.Errors.{http_error}
use peer_core.Restaurants.{create_branch}
use peer_core.Platform.{
  Platform, create_tenant, Onboarding, overview, by_slug, Fresh, OnboardResult, onboard,
}
use peer_core.Base.{str_eq, ◌==◌, any, ℕ, String, ◌≡◌, ◌&&◌, [], ◌∷◌, none, some, true, false, refl}
use peer_core.Action.{World, ok, err}
use peer_core.Tenancy.{Uuid, uuid_of, with_tenant}
use peer_core.Orders.Samples.{tables, tenant}
use peer_core.Identity.Tables.{context_of, User, owner, staff}

abbrev start : World Platform ℕ
start = record {
  db = record {
    tenants = [];
    accounts = record {
      users = [];
      memberships = [];
      platform_admins = [];
      otp_challenges = [];
      sessions = [];
    };
    base = tables;
  };
  outside = 0;
}

-- The ids of the run print as one text.
abbrev uuid_text : Uuid → String
uuid_text k = tenant

abbrev fresh : Fresh
fresh = record { tenant_id = 7; user_id = 1; branch_id = 21; created_at = 5 }

abbrev grill : Onboarding
grill = record { name = "Grill"; slug = "grill"; owner_phone = "+966"; branch_name = "Main" }

abbrev result : OnboardResult
result = record { tenant_id = tenant; owner_user_id = 1; branch_id = 21 }

abbrev after : World Platform ℕ
after = (onboard uuid_text fresh grill start).1

stood_up : onboard uuid_text fresh grill start ≡ (ok result, after)
unfolding onboard create_branch with_tenant uuid_of
stood_up = refl

onboard-access_example :
    (by_slug uuid_text "grill" after.db.tenants ≡ some tenant)
    × (any (λ u. (u.id == 1) && str_eq u.phone "+966") after.db.accounts.users ≡ true)
    × ((u : User)
        → u.id ≡ 1
        → authorize_tenant (context_of after.db.accounts u) tenant (owner ∷ staff ∷ []) ≡ ok tenant)
    × (any (λ b. (b.id == 21) && str_eq b.name "Main") after.db.base.branches ≡ true)
onboard-access_example = onboard-access uuid_text fresh grill result start after stood_up

incomplete :
    (create_tenant uuid_text fresh
      (record { name = some "Grill"; slug = some ""; owner_phone = none; branch_name = none })
      start).0
    ≡ err (http_error 400)
unfolding create_tenant
incomplete = refl

seen :
    (overview none after).0
    ≡ ok (record { payment_provider = "fake"; payment_configured = false; tenant_count = 1 })
unfolding overview onboard create_branch with_tenant uuid_of
seen = refl
