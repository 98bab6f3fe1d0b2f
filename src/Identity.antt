-- ===== src/Identity.antt =====
-- src/modules/identity/auth.service.ts: the methods, on the tables of Tables. The advisory locks
-- take the calls for one phone one after the other, as the model does. A call is given what it
-- draws and the instants that it reads off the clock, in the order of its reads.
pub mod Crypto
pub mod Tables
pub mod RoundTrip
pub mod History
pub mod Bounds
pub mod Limits
pub mod Spent
pub mod Logins
pub mod Guards
pub mod Access
mod Tests
pub mod Users
pub mod Sessions
use peer_core.Errors.{otp_locked, invalid_phone, forbidden, invalid_otp, auth_error}
use peer_core.Tenancy.{Uuid}
use peer_core.Identity.Crypto.{verify_secret, hash_token, Node}
use peer_core.Identity.Tables.{
  add_admin, insert_challenge, accepted, consume, challenge_of, bad_code, count_attempt,
  otp_max_requests, is_admin, locked, otp_max_attempts, session_of, revoke_all, latest, no_code,
  resolve, upsert_user, insert_session, is_allowed, recent, is_e164, VerifyResult, Accounts,
  OtpChallenge, Role, Outcome, Issue, Attempt, AuthContext,
}
use peer_core.Base.{
  length, ◌++◌, leb, any, if◌then◌else◌, List, ℕ, String, [], ◌∷◌, none, some, true, false, refl,
  zero, suc, inl, inr, Option, find, ap,
}
use peer_core.Action.{
  throw_if, call, ◌>>=◌, ◌>>◌, throw, transaction, query, statement, consult, pure, execute, Action,
  Result, ok, err,
}
use peer_core.Base.Int.{pos, negsuc}

-- `authorizeTenant`
unfoldable pub authorize_tenant : AuthContext → String → List Role → Result String
authorize_tenant ctx tenant allowed =
    if any (is_allowed tenant allowed) ctx.memberships
    then ok tenant
    else err (auth_error forbidden)

module _ {X : Type 0} where
  -- `grantPlatformAdmin`
  unfoldable pub grant_platform_admin : String → Uuid → Action Accounts X (Unit {0})
  grant_platform_admin phone fresh =
      statement (upsert_user fresh phone) >>= λ user. execute (add_admin user)

module _ {X : Type 0} (node : Node) where
  -- The transaction of `requestOtp`.
  unfoldable pub issue : Issue node.Buffer → String → Action Accounts X (Unit {0})
  issue i phone = query (recent phone i.asked_at) >>= λ rows.
      throw_if (leb otp_max_requests (length rows)) (auth_error otp_locked)
      >> statement (insert_challenge (challenge_of node i phone))

  unfoldable pub request_otp :
      (String → String → X → Result (Unit {0}) × X)
      → Issue node.Buffer
      → String
      → Action Accounts X (Unit {0})
  request_otp send i phone =
      if is_e164 phone
      then transaction (issue i phone) >> call (send phone i.code)
      else throw (auth_error invalid_phone)

  -- The code is right and the challenge is used up, or it is wrong.
  abbrev try_code : Attempt → String → OtpChallenge → Action Accounts X Outcome
  try_code a code c =
      if verify_secret node code c.code_hash
      then execute (consume c a.consumed_at) >> pure accepted
      else pure bad_code

  abbrev check_code : Attempt → String → OtpChallenge → Action Accounts X Outcome
  check_code a code c =
      if leb c.expires_at a.checked_at
      then pure no_code
      else if leb otp_max_attempts c.attempts
      then pure locked
      else execute (count_attempt c) >> try_code a code c

  abbrev decide_on : Attempt → String → Option OtpChallenge → Action Accounts X Outcome
  decide_on a code none = pure no_code
  decide_on a code (some c) = check_code a code c

  -- The transaction of `verifyOtp`.
  unfoldable pub decide : Attempt → String → String → Action Accounts X Outcome
  decide a phone code = query (λ db. latest phone db.otp_challenges) >>= decide_on a code

  abbrev open_session : Attempt → Uuid → Action Accounts X VerifyResult
  open_session a user =
      statement (insert_session (session_of node a user))
      >> pure (record { token = a.token; user_id = user })

  -- What follows the transaction of `verifyOtp`.
  abbrev conclude : Attempt → String → Outcome → Action Accounts X VerifyResult
  conclude a phone no_code = throw (auth_error invalid_otp)
  conclude a phone locked = throw (auth_error otp_locked)
  conclude a phone bad_code = throw (auth_error invalid_otp)
  conclude a phone accepted = statement (upsert_user a.user_id phone) >>= open_session a

  unfoldable pub verify_otp : Attempt → String → String → Action Accounts X VerifyResult
  verify_otp a phone code = transaction (decide a phone code) >>= conclude a phone

  -- The queries of `authenticate` see one state of the tables.
  unfoldable pub authenticate : String → ℕ → Action Accounts X AuthContext
  authenticate token now = consult (resolve node token now)

  unfoldable pub revoke_session : String → ℕ → Action Accounts X (Unit {0})
  revoke_session token now =
      execute (λ db. record db { sessions = revoke_all (hash_token node token) now db.sessions })
