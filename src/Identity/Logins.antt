-- ===== src/Identity/Logins.antt =====
-- Sessions opened against codes asked for (src/modules/identity/auth.service.ts).
use peer_core.Identity.History.{grant, revoke, request, perform, verify, AuthCall}
use peer_core.Identity.Bounds.{add_admin-challenges, upsert_user-challenges}
use peer_core.Identity.Spent.{gain, decide-pending, pending}
use peer_core.Tenancy.{Uuid}
use peer_core.Identity.Crypto.{hash_token, Node}
use peer_core.Base.{
  length-keep_concat, ◌∙◌, ◌==◌, leb, keep, List, ◌≡◌, length, any, arith, Bool-cases, ◌≤◌, str_eq,
  ◌+◌, if◌then◌else◌, ℕ, String, [], ◌∷◌, inl, inr, ap,
}
use peer_core.Action.{Result-cases, World, Result, ok, err}
use peer_core.Identity.Tables.{
  is_e164, challenge_of, recent, otp_max_requests, Issue, has_hash, upsert_user, is_pending,
  Accounts, VerifyResult, Attempt, accepted, no_code, locked, bad_code,
}
use peer_core.Identity.{
  conclude, open_session, Outcome, issue, decide, request_otp, verify_otp, revoke_session,
  grant_platform_admin,
}

-- One, if the answer to a code for `asked` is a session for `phone`.
abbrev pub opened_of : String → String → Result VerifyResult → ℕ
opened_of phone asked (ok v) = if◌then◌else◌ (str_eq asked phone) 1 0
opened_of phone asked (err e) = 0

-- One, if the call asks for a code for the phone.
abbrev asks : {Buffer : Type 0} → String → AuthCall Buffer → ℕ
asks phone (request i asked) = if◌then◌else◌ (str_eq asked phone) 1 0
asks phone _ = 0

abbrev pub requests : {Buffer : Type 0} → String → List (AuthCall Buffer) → ℕ
requests phone [] = 0
requests phone (c ∷ cs) = asks phone c + requests phone cs

module _ {X : Type 0} (node : Node) (phone : String) where
  open_session-pending :
      (a : Attempt) (asked : String) (u : Uuid) (w : World Accounts X)
      → pending phone (open_session node a u w).1.db
          + opened_of phone asked (open_session node a u w).0
        ≤ pending phone w.db + gain phone asked accepted
  open_session-pending a asked u w =
      elim (Bool-cases (any (has_hash (hash_token node a.token)) w.db.sessions)) [
        | inl e ↦ rw e (ground arith)
        | inr e ↦ rw e (ground arith)
      ]

  conclude-pending :
      (a : Attempt) (asked : String) (o : Outcome) (w : World Accounts X)
      → pending phone (conclude node a asked o w).1.db
          + opened_of phone asked (conclude node a asked o w).0
        ≤ pending phone w.db + gain phone asked o
  conclude-pending a asked no_code w = ground arith
  conclude-pending a asked locked w = ground arith
  conclude-pending a asked bad_code w = ground arith
  conclude-pending a asked accepted w =
      let same = upsert_user-challenges a.user_id asked w.db in
      let w' = record w { db = (upsert_user a.user_id asked w.db).1 } in
      elim (Result-cases (upsert_user a.user_id asked w.db).0) [
        | inl (u, e) ↦
            let le = open_session-pending a asked u w' in
            let eq = ap (λ cs. length (keep (is_pending phone) cs)) same in rw e (ground arith)
        | inr (x, e) ↦
            let eq = ap (λ cs. length (keep (is_pending phone) cs)) same in rw e (ground arith)
      ]

  verify_otp-pending :
      (a : Attempt) (asked code : String) (w : World Accounts X)
      → pending phone (verify_otp node a asked code w).1.db
          + opened_of phone asked (verify_otp node a asked code w).0
        ≤ pending phone w.db
  unfolding verify_otp
  verify_otp-pending a asked code w =
      let d = decide node a asked code w in
      let le = decide-pending node phone a asked code w in
      elim (Result-cases d.0) [
        | inl (o, e) ↦
            let next = conclude-pending a asked o d.1 in
            let won = rw e at le in rw (verify_otp, e) (ground arith)
        | inr (x, e) ↦ rw (verify_otp, e) (ground arith)
      ]

  issue-pending :
      (i : Issue node.Buffer) (asked : String) (w : World Accounts X)
      → pending phone (issue node i asked w).1.db
        ≤ pending phone w.db + if◌then◌else◌ (str_eq asked phone) 1 0
  unfolding issue
  issue-pending i asked w =
      elim (Bool-cases (leb otp_max_requests (length (recent asked i.asked_at w.db)))) [
        | inl e ↦ rw (issue, e) (ground arith)
        | inr e ↦ elim (Bool-cases (any (λ x. x.id == i.id) w.db.otp_challenges)) [
          | inl f ↦ rw (issue, e, f) (ground arith)
          | inr f ↦
              rw (issue, e, f)
                (ground (
                  arith,
                  length-keep_concat (is_pending phone) w.db.otp_challenges
                      (challenge_of node i asked),
                ))
        ]
      ]

  grant-pending :
      (asked : String) (fresh : Uuid) (w : World Accounts X)
      → pending phone (grant_platform_admin asked fresh w).1.db ≡ pending phone w.db
  unfolding grant_platform_admin
  grant-pending asked fresh w =
      let eq =
        ap (λ cs. length (keep (is_pending phone) cs)) (upsert_user-challenges fresh asked w.db) in
      elim (Result-cases (upsert_user fresh asked w.db).0) [
        | inl (u, e) ↦
            let d = (upsert_user fresh asked w.db).1 in
            rw (grant_platform_admin, e)
              (ap (λ cs. length (keep (is_pending phone) cs)) (add_admin-challenges u d) ∙ eq)
        | inr (x, e) ↦ rw (grant_platform_admin, e) eq
      ]

  request_otp-pending :
      (send : String → String → X → Result (Unit {0}) × X) (i : Issue node.Buffer) (asked : String)
      (w : World Accounts X)
      → pending phone (request_otp node send i asked w).1.db
        ≤ pending phone w.db + if◌then◌else◌ (str_eq asked phone) 1 0
  unfolding request_otp
  request_otp-pending send i asked w = elim (Bool-cases (is_e164 asked)) [
    | inr e ↦ rw (request_otp, e) (ground arith)
    | inl e ↦ elim (Result-cases (issue node i asked w).0) [
      | inr (x, f) ↦ rw (request_otp, e, f) (ground arith)
      | inl (u, f) ↦ rw (request_otp, e, f) (issue-pending i asked w)
    ]
  ]

module _ {X : Type 0} (node : Node) (send : String → String → X → Result (Unit {0}) × X)
    (phone : String) where
  -- The sessions that a call opens for the phone.
  abbrev login : AuthCall node.Buffer → World Accounts X → ℕ
  login (verify a asked code) w = opened_of phone asked (verify_otp node a asked code w).0
  login _ w = 0

  -- The sessions that the calls open for the phone.
  abbrev pub logins : List (AuthCall node.Buffer) → World Accounts X → ℕ
  logins [] w = 0
  logins (c ∷ cs) w = login c w + logins cs (perform node send c w)

  perform-pending :
      (c : AuthCall node.Buffer) (w : World Accounts X)
      → pending phone (perform node send c w).db + login c w ≤ pending phone w.db + asks phone c
  unfolding revoke_session
  perform-pending (request i asked) w =
      ground (arith, request_otp-pending node phone send i asked w)
  perform-pending (verify a asked code) w =
      ground (arith, verify_otp-pending node phone a asked code w)
  perform-pending (revoke token now) w = ground arith
  perform-pending (grant asked fresh) w = ground (arith, grant-pending node phone asked fresh w)

  -- In any sequence of calls of requestOtp, verifyOtp, revokeSession and grantPlatformAdmin,
  -- the calls of verifyOtp that return a session for a phone are at most as many as its
  -- challenges that were not used up at the start and the calls of requestOtp for it
  -- together.
  pub logins-requests :
      (cs : List (AuthCall node.Buffer)) (w : World Accounts X)
      → logins cs w ≤ pending phone w.db + requests phone cs
  logins-requests [] w = ground arith
  logins-requests (c ∷ cs) w =
      ground (arith, perform-pending c w, logins-requests cs (perform node send c w))
