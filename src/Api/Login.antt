-- ===== src/Api/Login.antt =====
-- src/modules/identity/auth.controller.ts: the login over HTTP. Its page is left out.
use peer_core.Base.{
  [], ◌∷◌, some, refl, Option, ap, ◌≡◌, ◌<◌, ◌∙◌, sym, truthy, Bool, ℕ, String, List, ◌+◌,
}
use peer_core.Action.{ok, Action, World, Result, pure, ◌>>=◌}
use peer_core.Api.{on_accounts, Site}
use peer_core.Api.Diners.{given}
use peer_core.Identity.{request_otp, verify_otp, authenticate}
use peer_core.Identity.Access.{context-resolve}
use peer_core.Identity.Crypto.{Node}
use peer_core.Identity.Sessions.{verify_otp-authenticate}
use peer_core.Tenancy.Keys.{Unique}
use peer_core.Identity.Tables.{
  resolve, VerifyResult, session_ttl_ms, Accounts, AuthContext, Attempt, Issue, Membership, Role,
  is_admin, memberships_of,
}
use peer_core.Tenancy.{Uuid}

-- The answer of `verifyOtp`.
pub record LoggedIn : Type 0 where
  pub token : String
  pub user_id : Uuid
  pub is_platform_admin : Bool
  pub roles : List Role

abbrev roles_of : List Membership → List Role
roles_of [] = []
roles_of (m ∷ ms) = m.role ∷ roles_of ms

abbrev logged_in : String → AuthContext → LoggedIn
logged_in token ctx = record {
  token = token;
  user_id = ctx.user_id;
  is_platform_admin = ctx.is_platform_admin;
  roles = roles_of ctx.memberships;
}

module _ {X : Type 0} (node : Node) where
  unfoldable pub post_request_otp :
      (String → String → X → Result (Unit {0}) × X)
      → Issue node.Buffer
      → Option String
      → Action Site X (Unit {0})
  post_request_otp send i body_phone = do
    phone ← given (truthy body_phone)
    on_accounts (request_otp node send i phone)

  -- `now` is when the token is looked up.
  unfoldable pub post_verify_otp :
      Attempt → ℕ → Option String → Option String → Action Site X LoggedIn
  post_verify_otp a now body_phone body_code = do
    phone ← given (truthy body_phone)
    code ← given (truthy body_code)
    v ← on_accounts (verify_otp node a phone code)
    ctx ← on_accounts (authenticate node v.token now)
    pure (logged_in v.token ctx)

  -- Where the ids of users are unique, a login whose verifyOtp returns is answered, if its
  -- token is looked up within thirty days: with the token and the user of verifyOtp, and with
  -- whether that user is an admin and the roles that they have by the tables that verifyOtp
  -- left, which the login leaves as they are.
  pub post_verify_otp-verify_otp :
      (a : Attempt) (now : ℕ) (phone code : String) (body_phone body_code : Option String)
      (w : World Site X) (w' : World Accounts X) (v : VerifyResult)
      → truthy body_phone ≡ some phone
      → truthy body_code ≡ some code
      → Unique (λ u. u.id) w.db.accounts.users
      → now < a.opened_at + session_ttl_ms
      → verify_otp node a phone code (record { db = w.db.accounts; outside = w.outside })
        ≡ (ok v, w')
      → post_verify_otp a now body_phone body_code w ≡ (
        ok (record {
          token = v.token;
          user_id = v.user_id;
          is_platform_admin = is_admin v.user_id w'.db;
          roles = roles_of (memberships_of v.user_id w'.db.memberships);
        }),
        record { db = record w.db { accounts = w'.db }; outside = w'.outside },
      )
  unfolding post_verify_otp authenticate
  post_verify_otp-verify_otp a now phone code body_phone body_code w w' v p c unique early h =
      let (ctx, seen, owns, _) =
        verify_otp-authenticate node a phone code
          (record { db = w.db.accounts; outside = w.outside }) w' v now unique h early in
      let (u, same) = context-resolve node v.token now w'.db ctx (ap (λ r. r.0) seen) in
      let known : u.id ≡ v.user_id = ap (λ x. x.user_id) (sym same) ∙ owns in
      let found : resolve node v.token now w'.db ≡ ok ctx = ap (λ r. r.0) seen in
      rw (post_verify_otp, p, c, h, authenticate, found, same, known) refl
