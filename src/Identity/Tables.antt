-- ===== src/Identity/Tables.antt =====
-- src/modules/identity: the tables of the auth plane, and what the statements of auth.service.ts
-- do to them.
use peer_core.Errors.{unauthenticated, unique_violation, database, auth_error}
use peer_core.Tenancy.{Uuid}
use peer_core.Identity.Crypto.{hash_token, hash_secret, Node}
use peer_core.Base.{
  ◌++◌, length, ◌-◌, ltb, any, codes, str_eq, keep, ◌==◌, ◌&&◌, leb, ◌*◌, ◌+◌, List, ℕ, String,
  if◌then◌else◌, Bool, [], ◌∷◌, none, some, true, false, Option, find,
}
use peer_core.Action.{or_err, Result, ok, err}

pub record User : Type 0 where
  pub id : Uuid
  pub phone : String

-- `tenant_id` is the text of the uuid that Postgres prints.
pub record MembershipRow : Type 0 where
  pub user_id : Uuid
  pub tenant_id : String
  pub role : String

pub record PlatformAdmin : Type 0 where
  pub user_id : Uuid

pub record OtpChallenge : Type 0 where
  pub id : Uuid
  pub phone : String
  pub code_hash : String
  pub expires_at : ℕ
  pub consumed_at : Option ℕ
  pub attempts : ℕ
  pub created_at : ℕ

pub record Session : Type 0 where
  pub user_id : Uuid
  pub token_hash : String
  pub expires_at : ℕ
  pub revoked_at : Option ℕ

pub record Accounts : Type 0 where
  pub users : List User
  pub memberships : List MembershipRow
  pub platform_admins : List PlatformAdmin
  pub otp_challenges : List OtpChallenge
  pub sessions : List Session

pub data Role : Type 0 where
  owner staff : Role

pub record Membership : Type 0 where
  pub tenant_id : String
  pub role : Role

pub record AuthContext : Type 0 where
  pub user_id : Uuid
  pub phone : String
  pub memberships : List Membership
  pub is_platform_admin : Bool

pub record VerifyResult : Type 0 where
  pub token : String
  pub user_id : Uuid

-- What the transaction of `verifyOtp` decides; `accepted` is its 'ok'.
pub data Outcome : Type 0 where
  no_code locked bad_code accepted : Outcome

-- Times are in milliseconds.
abbrev pub otp_ttl_ms : ℕ
otp_ttl_ms = 5 * 60 * 1000

abbrev pub otp_max_attempts : ℕ
otp_max_attempts = 5

abbrev pub otp_request_window_ms : ℕ
otp_request_window_ms = 10 * 60 * 1000

abbrev pub otp_max_requests : ℕ
otp_max_requests = 3

abbrev pub session_ttl_ms : ℕ
session_ttl_ms = 30 * 24 * 60 * 60 * 1000

abbrev all_digits : List ℕ → Bool
all_digits [] = true
all_digits (c ∷ cs) = (leb b'0' c && leb c b'9') && all_digits cs

abbrev e164_codes : List ℕ → Bool
e164_codes (p ∷ d ∷ ds) =
    (p == b'+')
    && (leb b'1' d && leb d b'9')
    && all_digits ds
    && leb 6 (length ds)
    && leb (length ds) 14
e164_codes _ = false

-- `E164.test(phone)`
unfoldable pub is_e164 : String → Bool
is_e164 phone = e164_codes (codes phone)

-- What one call of `requestOtp` draws and reads: `created_at` is the `now()` of Postgres.
pub record Issue (Buffer : Type 0) : Type 0 where
  pub id : Uuid
  pub code : String
  pub salt : Buffer
  pub asked_at : ℕ
  pub issued_at : ℕ
  pub created_at : ℕ

abbrev pub is_recent : String → ℕ → OtpChallenge → Bool
is_recent phone start c = str_eq c.phone phone && leb start c.created_at

abbrev pub recent : String → ℕ → Accounts → List OtpChallenge
recent phone asked_at db =
    keep (is_recent phone (asked_at - otp_request_window_ms)) db.otp_challenges

abbrev pub is_pending : String → OtpChallenge → Bool
is_pending phone c = str_eq c.phone phone && elim c.consumed_at [ none ↦ true | some t ↦ false ]

abbrev newest : OtpChallenge → Option OtpChallenge → Option OtpChallenge
newest c none = some c
newest c (some d) = if leb d.created_at c.created_at then some c else some d

-- `orderBy(desc(createdAt)).limit(1)` on the pending challenges of a phone.
unfoldable pub latest : String → List OtpChallenge → Option OtpChallenge
latest phone [] = none
latest phone (c ∷ cs) =
    let rest = latest phone cs in if is_pending phone c then newest c rest else rest

abbrev pub set_challenge :
    Uuid → (OtpChallenge → OtpChallenge) → List OtpChallenge → List OtpChallenge
set_challenge id f [] = []
set_challenge id f (c ∷ cs) = (if c.id == id then f c else c) ∷ set_challenge id f cs

abbrev pub count_attempt : OtpChallenge → Accounts → Accounts
count_attempt c db = record db {
  otp_challenges =
      set_challenge c.id (λ x. record x { attempts = c.attempts + 1 }) db.otp_challenges;
}

abbrev pub consume : OtpChallenge → ℕ → Accounts → Accounts
consume c now db = record db {
  otp_challenges = set_challenge c.id (λ x. record x { consumed_at = some now }) db.otp_challenges;
}

-- `insert … on conflict (phone) do update set phone … returning id`; the primary key is checked.
abbrev pub upsert_user : Uuid → String → Accounts → Result Uuid × Accounts
upsert_user fresh phone db = elim (find (λ u. str_eq u.phone phone) db.users) [
  | some u ↦ (ok u.id, db)
  | none ↦
      if any (λ u. u.id == fresh) db.users
      then (err (database unique_violation), db)
      else (ok fresh, record db { users = db.users ++ record { id = fresh; phone = phone } ∷ [] })
]

-- The primary key is checked.
abbrev pub insert_challenge : OtpChallenge → Accounts → Result (Unit {0}) × Accounts
insert_challenge c db =
    if any (λ x. x.id == c.id) db.otp_challenges
    then (err (database unique_violation), db)
    else (ok tt, record db { otp_challenges = db.otp_challenges ++ c ∷ [] })

-- What one call of `verifyOtp` draws and reads.
pub record Attempt : Type 0 where
  pub user_id : Uuid
  pub token : String
  pub checked_at : ℕ
  pub consumed_at : ℕ
  pub opened_at : ℕ

abbrev pub has_hash : String → Session → Bool
has_hash hash s = str_eq s.token_hash hash

-- sessions.token_hash is unique.
abbrev pub insert_session : Session → Accounts → Result (Unit {0}) × Accounts
insert_session s db =
    if any (has_hash s.token_hash) db.sessions
    then (err (database unique_violation), db)
    else (ok tt, record db { sessions = db.sessions ++ s ∷ [] })

abbrev pub is_live : String → ℕ → Session → Bool
is_live hash now s =
    has_hash hash s && elim s.revoked_at [ none ↦ ltb now s.expires_at | some t ↦ false ]

abbrev pub role_of : String → Option Role
role_of s = if str_eq s "owner" then some owner else if str_eq s "staff" then some staff else none

-- The memberships of a user whose role is one of `ROLES`.
abbrev pub memberships_of : Uuid → List MembershipRow → List Membership
memberships_of user [] = []
memberships_of user (r ∷ rs) =
    let rest = memberships_of user rs in
    if r.user_id == user
    then elim (role_of r.role) [
      | none ↦ rest
      | some role ↦ record { tenant_id = r.tenant_id; role = role } ∷ rest
    ]
    else rest

abbrev pub is_admin : Uuid → Accounts → Bool
is_admin user db = any (λ a. a.user_id == user) db.platform_admins

-- `insert … on conflict (user_id) do nothing`.
abbrev pub add_admin : Uuid → Accounts → Accounts
add_admin user db =
    if is_admin user db
    then db
    else record db { platform_admins = db.platform_admins ++ record { user_id = user } ∷ [] }

abbrev pub context_of : Accounts → User → AuthContext
context_of db u = record {
  user_id = u.id;
  phone = u.phone;
  memberships = memberships_of u.id db.memberships;
  is_platform_admin = is_admin u.id db;
}

abbrev user_of : Accounts → Session → Result User
user_of db s = or_err (find (λ u. u.id == s.user_id) db.users) (auth_error unauthenticated)

abbrev pub same_role : Role → Role → Bool
same_role owner owner = true
same_role staff staff = true
same_role _ _ = false

abbrev pub is_allowed : String → List Role → Membership → Bool
is_allowed tenant allowed m = str_eq m.tenant_id tenant && any (same_role m.role) allowed

abbrev pub revoke_all : String → ℕ → List Session → List Session
revoke_all hash now [] = []
revoke_all hash now (s ∷ ss) =
    (if has_hash hash s then record s { revoked_at = some now } else s) ∷ revoke_all hash now ss

module _ (node : Node) where
  abbrev pub challenge_of : Issue node.Buffer → String → OtpChallenge
  challenge_of i phone = record {
    id = i.id;
    phone = phone;
    code_hash = hash_secret node i.salt i.code;
    expires_at = i.issued_at + otp_ttl_ms;
    consumed_at = none;
    attempts = 0;
    created_at = i.created_at;
  }

  abbrev pub session_of : Attempt → Uuid → Session
  session_of a user = record {
    user_id = user;
    token_hash = hash_token node a.token;
    expires_at = a.opened_at + session_ttl_ms;
    revoked_at = none;
  }

  abbrev pub resolve : String → ℕ → Accounts → Result AuthContext
  resolve token now db = elim (find (is_live (hash_token node token) now) db.sessions) [
    | none ↦ err (auth_error unauthenticated)
    | some s ↦ elim (user_of db s) [ err e ↦ err e | ok u ↦ ok (context_of db u) ]
  ]
