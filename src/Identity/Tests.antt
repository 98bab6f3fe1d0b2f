-- ===== src/Identity/Tests.antt =====
-- Codes, sessions and guards, with bits for buffers.
use peer_core.Identity.Limits.{run-IsBounded}
use peer_core.Identity.Bounds.{IsBounded}
use peer_core.Identity.Spent.{pending}
use peer_core.Api.{Site}
use peer_core.Api.Login.{post_verify_otp-verify_otp, post_verify_otp}
use Prim.Native.Char.{code}
use peer_core.Identity.RoundTrip.{verify_secret-hash_secret, IsPlain}
use peer_core.Errors.{unauthenticated, auth_error}
use peer_core.Identity.History.{verify, request, run, AuthCall}
use peer_core.Identity.Sessions.{revoke_session-authenticate, verify_otp-authenticate}
use peer_core.Identity.Logins.{logins-requests, requests, logins}
use peer_core.Identity.Guards.{passed, auth_guard}
use peer_core.Identity.Crypto.{hash_secret, Node, verify_secret, hash_token}
use peer_core.Base.{
  str_eq, ◌==◌, arith, ◌+◌, length, Bool, ◌≢◌, ◌≤◌, ℕ, ◌≡◌, String, List, [], ◌∷◌, none, some, true,
  false, refl, zero, suc, ap,
}
use peer_core.Action.{Result, World, ok, err}
use peer_core.Identity.{issue, request_otp, authenticate, verify_otp, revoke_session, decide}
use peer_core.Identity.Tables.{
  is_e164, session_of, Attempt, Issue, AuthContext, Accounts, latest, OtpChallenge, owner,
}

abbrev fill : ℕ → Bool → List Bool
fill zero b = []
fill (suc n) b = b ∷ fill n b

abbrev to_digits : List Bool → String
to_digits [] = String.[]
to_digits (true ∷ bs) = String.◌∷◌ "1" (to_digits bs)
to_digits (false ∷ bs) = String.◌∷◌ "0" (to_digits bs)

abbrev of_digits : String → List Bool
of_digits String.[] = []
of_digits (String.◌∷◌ c s) = (code c == b'1') ∷ of_digits s

abbrev same_bits : List Bool → List Bool → Bool
same_bits [] [] = true
same_bits (true ∷ xs) (true ∷ bs) = same_bits xs bs
same_bits (false ∷ xs) (false ∷ bs) = same_bits xs bs
same_bits _ _ = false

abbrev bits : Node
bits = record {
  Buffer = List Bool;
  buffer_length = length;
  to_hex = to_digits;
  of_hex = of_digits;
  scrypt = λ secret salt n. fill n (str_eq secret "123456");
  timing_safe_equal = same_bits;
  sha256 = λ token. str_eq token "secret" ∷ true ∷ [];
}

digits-IsPlain : (bs : List Bool) → IsPlain (to_digits bs)
digits-IsPlain [] = refl
digits-IsPlain (true ∷ bs) = digits-IsPlain bs
digits-IsPlain (false ∷ bs) = digits-IsPlain bs

of_digits-to_digits : (bs : List Bool) → of_digits (to_digits bs) ≡ bs
of_digits-to_digits [] = refl
of_digits-to_digits (true ∷ bs) = ap (λ x. true ∷ x) (of_digits-to_digits bs)
of_digits-to_digits (false ∷ bs) = ap (λ x. false ∷ x) (of_digits-to_digits bs)

same_bits_self : (bs : List Bool) → same_bits bs bs ≡ true
same_bits_self [] = refl
same_bits_self (true ∷ bs) = same_bits_self bs
same_bits_self (false ∷ bs) = same_bits_self bs

length-fill : (n : ℕ) (b : Bool) → length (fill n b) ≡ n
length-fill zero b = refl
length-fill (suc n) b = ap suc (length-fill n b)

verify_secret-hash_secret_example :
    verify_secret bits "123456" (hash_secret bits (true ∷ false ∷ []) "123456") ≡ true
verify_secret-hash_secret_example =
    verify_secret-hash_secret bits (true ∷ false ∷ []) "123456" digits-IsPlain of_digits-to_digits
      same_bits_self (λ s b n. length-fill n (str_eq s "123456")) refl refl

wrong_code : verify_secret bits "000000" (hash_secret bits (true ∷ false ∷ []) "123456") ≡ false
unfolding verify_secret hash_secret
wrong_code = refl

abbrev phone : String
phone = "+966512345678"

abbrev made : OtpChallenge
made = record {
  id = 1;
  phone = phone;
  code_hash = hash_secret bits (true ∷ []) "123456";
  expires_at = 301000;
  consumed_at = none;
  attempts = 4;
  created_at = 1000;
}

abbrev empty : Accounts
empty = record {
  users = [];
  memberships = record { user_id = 8; tenant_id = "t"; role = "owner" } ∷ [];
  platform_admins = [];
  otp_challenges = [];
  sessions = [];
}

abbrev start : World Accounts ℕ
start = record { db = record empty { otp_challenges = made ∷ [] }; outside = 0 }

abbrev attempt : Attempt
attempt = record {
  user_id = 8;
  token = "secret";
  checked_at = 2000;
  consumed_at = 2001;
  opened_at = 2002;
}

abbrev after : World Accounts ℕ
after = record {
  db = record empty {
    users = record { id = 8; phone = phone } ∷ [];
    otp_challenges = record made { consumed_at = some 2001; attempts = 5 } ∷ [];
    sessions = session_of bits attempt 8 ∷ [];
  };
  outside = 0;
}

verified :
    verify_otp bits attempt phone "123456" start
    ≡ (ok (record { token = "secret"; user_id = 8 }), after)
unfolding verify_otp decide latest verify_secret hash_secret hash_token
verified = refl

verify_otp-authenticate_example :
    (ctx : AuthContext) × (authenticate bits "secret" 3000 after ≡ (ok ctx, after))
    × (ctx.user_id ≡ 8)
    × (ctx.phone ≡ phone)
verify_otp-authenticate_example =
    verify_otp-authenticate bits attempt phone "123456" start after
      (record { token = "secret"; user_id = 8 }) 3000 tt verified (omega arith)

abbrev counting : String → String → ℕ → Result (Unit {0}) × ℕ
counting to code n = (ok tt, n + 1)

abbrev issued : Issue (List Bool)
issued = record {
  id = 2;
  code = "123456";
  salt = true ∷ [];
  asked_at = 1500;
  issued_at = 1500;
  created_at = 1500;
}

abbrev calls : List (AuthCall (List Bool))
calls = request issued phone ∷ verify attempt phone "123456" ∷ verify attempt phone "123456" ∷ []

run-IsBounded_example : IsBounded (run bits counting calls (record { db = empty; outside = 0 })).db
run-IsBounded_example =
    run-IsBounded bits counting calls (record { db = empty; outside = 0 }) (refl, (tt, (tt, tt)))
      (record { spans = λ p n. omega arith; guesses = tt })

logins-requests_example :
    logins bits counting phone calls start ≤ pending phone start.db + requests phone calls
logins-requests_example = logins-requests bits counting phone calls start

one_login : logins bits counting phone calls start ≡ 1
unfolding verify_otp decide latest verify_secret hash_secret hash_token request_otp issue is_e164
one_login = refl

apart : hash_token bits "secret" ≢ hash_token bits "other"
unfolding hash_token
apart h = absurd (ground (arith, ap (λ s. str_eq s "11") h))

revoke_session-authenticate_example :
    let w' = (revoke_session bits "secret" 5 after).1 in
    (authenticate bits "secret" 3000 w' ≡ (err (auth_error unauthenticated), w'))
    × ((authenticate bits "other" 3000 w').0 ≡ (authenticate bits "other" 3000 after).0)
revoke_session-authenticate_example =
    revoke_session-authenticate bits "secret" "other" 5 3000 after apart

abbrev known : AuthContext
known = record {
  user_id = 8;
  phone = phone;
  memberships = record { tenant_id = "t"; role = owner } ∷ [];
  is_platform_admin = false;
}

authenticated : authenticate bits "secret" 3000 after ≡ (ok known, after)
unfolding authenticate hash_token
authenticated = refl

guarded : auth_guard bits (some "Bearer secret") 3000 after.db ≡ passed known
unfolding auth_guard hash_token
guarded = refl

-- A site with nothing but accounts.
abbrev site_of : Accounts → Site
site_of accounts = record {
  tenants = [];
  accounts = accounts;
  base = record {
    catalog_items = [];
    menu_availability = [];
    branches = [];
    promotions = [];
    orders = [];
    order_items = [];
    order_events = [];
    payments = [];
    loyalty_accounts = [];
    loyalty_ledger = [];
  };
  bookings = record { restaurant_tables = []; reservations = [] };
  complaints = [];
  reviews = [];
  carts = [];
  cart_items = [];
  ledger = record { deliveries = []; driver_earnings = [] };
  listings = [];
}

abbrev signing_in : World Site ℕ
signing_in = record { db = site_of start.db; outside = 0 }

abbrev signed_in : World Site ℕ
signed_in = record { db = site_of after.db; outside = 0 }

post_verify_otp-verify_otp_example :
    post_verify_otp bits attempt 3000 (some phone) (some "123456") signing_in ≡ (
      ok (record { token = "secret"; user_id = 8; is_platform_admin = false; roles = owner ∷ [] }),
      signed_in,
    )
post_verify_otp-verify_otp_example =
    post_verify_otp-verify_otp bits attempt 3000 phone "123456" (some phone) (some "123456")
      signing_in after (record { token = "secret"; user_id = 8 }) refl refl tt (omega arith)
      verified
