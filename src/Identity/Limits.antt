-- ===== src/Identity/Limits.antt =====
-- The limits on codes and guesses (src/modules/identity/auth.service.ts).
use peer_core.Identity.Bounds.{
  add_admin-challenges, insert_session-challenges, upsert_user-challenges, IsBounded-challenges,
  set_challenge-IsBounded, concat-IsBounded, IsBounded,
}
use peer_core.Identity.History.{grant, revoke, verify, request, perform, run, AuthCall}
use peer_core.Action.Keeps.{
  Keeps-statement, Keeps-call, Keeps-if, Keeps-query, Keeps-transaction, ◌▹◌, Keeps-execute,
  Keeps-lift, Keeps,
}
use peer_core.Tenancy.{Uuid}
use peer_core.Identity.Crypto.{verify_secret, Node}
use peer_core.Identity.Tables.{
  add_admin, session_of, accepted, insert_session, is_e164, upsert_user, consume, count_attempt,
  challenge_of, otp_max_attempts, recent, otp_max_requests, Attempt, Issue, latest, Accounts,
  OtpChallenge,
}
use peer_core.Base.{
  any, ◌+◌, ◌==◌, leb, arith, Bool-cases, All, ◌≡◌, length, List, String, [], ◌∷◌, none, some, refl,
  inl, inr,
}
use peer_core.Action.{Result, World, ok}
use peer_core.Identity.{
  try_code, conclude, decide_on, check_code, issue, decide, request_otp, verify_otp, revoke_session,
  grant_platform_admin,
}

-- In a request the clock of the service and that of Postgres tell one time.
abbrev pub IsInStep : {Buffer : Type 0} → AuthCall Buffer → Type 0
IsInStep (request i phone) = i.created_at ≡ i.asked_at
IsInStep _ = Unit

module _ {X : Type 0} (node : Node) where
  issue-IsBounded :
      (i : Issue node.Buffer) (phone : String) (w : World Accounts X)
      → i.created_at ≡ i.asked_at
      → IsBounded w.db
      → IsBounded (issue node i phone w).1.db
  unfolding issue
  issue-IsBounded i phone w same h =
      elim (Bool-cases (leb otp_max_requests (length (recent phone i.asked_at w.db)))) [
        | inl e ↦ rw (issue, e) h
        | inr e ↦ elim (Bool-cases (any (λ x. x.id == i.id) w.db.otp_challenges)) [
          | inl f ↦ rw (issue, e, f) h
          | inr f ↦
              rw (issue, e, f)
                (concat-IsBounded (challenge_of node i phone) w.db (rw same e) refl h)
        ]
      ]

  try_code-IsBounded :
      (a : Attempt) (code : String) (c : OtpChallenge)
      → Keeps {X = X} IsBounded (try_code node a code c)
  try_code-IsBounded a code c =
      Keeps-if (verify_secret node code c.code_hash)
        (λ _.
          Keeps-execute (consume c a.consumed_at) (λ d.
            set_challenge-IsBounded c.id (λ x. record x { consumed_at = some a.consumed_at }) d
              (λ _. refl) (λ _. refl) (λ _ k. k))
          ▹ λ _. Keeps-lift (ok accepted))
        (λ _. Keeps-lift _)

  check_code-IsBounded :
      (a : Attempt) (code : String) (c : OtpChallenge)
      → Keeps {X = X} IsBounded (check_code node a code c)
  check_code-IsBounded a code c =
      Keeps-if (leb c.expires_at a.checked_at) (λ _. Keeps-lift _)
        (λ _.
          Keeps-if (leb otp_max_attempts c.attempts) (λ _. Keeps-lift _)
            (λ few.
              Keeps-execute (count_attempt c) (λ d.
                set_challenge-IsBounded c.id (λ x. record x { attempts = c.attempts + 1 }) d
                  (λ _. refl) (λ _. refl) (λ _ _. ground arith))
              ▹ λ _. try_code-IsBounded a code c))

  decide-IsBounded :
      (a : Attempt) (phone code : String) → Keeps {X = X} IsBounded (decide node a phone code)
  unfolding decide
  decide-IsBounded a phone code = Keeps-query (λ db. latest phone db.otp_challenges) ▹ λ o.
      elim o as (λ o. Keeps {X = X} IsBounded (decide_on node a code o)) [
        | none ↦ Keeps-lift _
        | some c ↦ check_code-IsBounded a code c
      ]

  grant-IsBounded :
      (phone : String) (fresh : Uuid) → Keeps {X = X} IsBounded (grant_platform_admin phone fresh)
  unfolding grant_platform_admin
  grant-IsBounded phone fresh =
      Keeps-statement (upsert_user fresh phone) (λ d.
        IsBounded-challenges d (upsert_user fresh phone d).1 (upsert_user-challenges fresh phone d))
      ▹ λ u.
          Keeps-execute (add_admin u)
            (λ d. IsBounded-challenges d (add_admin u d) (add_admin-challenges u d))

  verify_otp-IsBounded :
      (a : Attempt) (phone code : String) → Keeps {X = X} IsBounded (verify_otp node a phone code)
  unfolding verify_otp
  verify_otp-IsBounded a phone code = Keeps-transaction _ (decide-IsBounded a phone code) ▹ λ o.
      elim o as (λ o. Keeps {X = X} IsBounded (conclude node a phone o)) [
        | accepted ↦
            Keeps-statement (upsert_user a.user_id phone) (λ d.
              IsBounded-challenges d (upsert_user a.user_id phone d).1
                (upsert_user-challenges a.user_id phone d))
            ▹ λ u.
                Keeps-statement (insert_session (session_of node a u)) (λ d.
                  IsBounded-challenges d (insert_session (session_of node a u) d).1
                    (insert_session-challenges (session_of node a u) d))
                ▹ λ _. Keeps-lift _
        | _ ↦ Keeps-lift _
      ]

  request_otp-IsBounded :
      (send : String → String → X → Result (Unit {0}) × X) (i : Issue node.Buffer) (phone : String)
      → i.created_at ≡ i.asked_at
      → Keeps {X = X} IsBounded (request_otp node send i phone)
  unfolding request_otp
  request_otp-IsBounded send i phone same =
      Keeps-if (is_e164 phone)
        (λ _. Keeps-transaction _ (record { at = λ w. issue-IsBounded i phone w same }) ▹ λ _.
          Keeps-call (send phone i.code))
        (λ _. Keeps-lift _)

module _ {X : Type 0} (node : Node) (send : String → String → X → Result (Unit {0}) × X) where
  perform-IsBounded :
      (c : AuthCall node.Buffer) (w : World Accounts X)
      → IsInStep c
      → IsBounded w.db
      → IsBounded (perform node send c w).db
  unfolding revoke_session grant_platform_admin
  perform-IsBounded (request i phone) w same h =
      (request_otp-IsBounded node send i phone same).at w h
  perform-IsBounded (verify a phone code) w same h = (verify_otp-IsBounded node a phone code).at w h
  perform-IsBounded (revoke token now) w same h = record { spans = h.spans; guesses = h.guesses }
  perform-IsBounded (grant phone fresh) w same h = (grant-IsBounded node phone fresh).at w h

  -- Where no phone has more than three challenges in any span of ten minutes and no challenge
  -- has more than five attempts, this is so after any sequence of calls of requestOtp,
  -- verifyOtp, revokeSession and grantPlatformAdmin, whether each returns or throws, if in
  -- each request the time that Postgres stamps on the row is the time that the service reads
  -- for the window.
  pub run-IsBounded :
      (cs : List (AuthCall node.Buffer)) (w : World Accounts X)
      → All IsInStep cs
      → IsBounded w.db
      → IsBounded (run node send cs w).db
  run-IsBounded [] w steps h = h
  run-IsBounded (c ∷ cs) w steps h =
      run-IsBounded cs (perform node send c w) steps.1 (perform-IsBounded c w steps.0 h)
