-- ===== src/Identity/Sessions.antt =====
-- What a session lets its holder do (src/modules/identity/auth.service.ts).
use peer_core.Identity.Users.{
  any_weaken, find_hit, upsert_user-sessions, find_concat, upsert_user-found,
}
use peer_core.Action.Keeps.{Keeps-execute, Keeps-if, Keeps-lift, ◌▹◌, Keeps-query, Keeps}
use peer_core.Errors.{unauthenticated, auth_error}
use peer_core.Identity.Crypto.{verify_secret, hash_token, Node}
use peer_core.Tenancy.Keys.{Unique}
use peer_core.Tenancy.{Uuid}
use peer_core.Base.{
  leb, sym, none, ◌+◌, ◌<◌, ◌∙◌, eq_iff, ◌≢◌, subst, ℕ, Bool-cases, ◌==◌, ◌++◌, arith, ◌≡◌, any,
  List, String, [], ◌∷◌, some, false, refl, inl, inr, find, ap,
}
use peer_core.Action.{err, Result-cases, World, ok}
use peer_core.Identity.Tables.{
  consume, count_attempt, otp_max_attempts, latest, AuthContext, session_ttl_ms, context_of,
  revoke_all, resolve, is_live, Session, session_of, has_hash, VerifyResult, Attempt, upsert_user,
  User, Accounts, accepted, no_code, locked, bad_code,
}
use peer_core.Identity.{
  decide_on, revoke_session, authenticate, conclude, Outcome, decide, verify_otp,
}

module _ (node : Node) where
  -- No session has the hash of the token: the one that is opened is the one found.
  found_live :
      (a : Attempt) (user : Uuid) (now : ℕ) (ss : List Session)
      → any (has_hash (hash_token node a.token)) ss ≡ false
      → now < a.opened_at + session_ttl_ms
      → find (is_live (hash_token node a.token) now) (ss ++ session_of node a user ∷ [])
        ≡ some (session_of node a user)
  found_live a user now ss h early =
      let hash = hash_token node a.token in
      find_concat (is_live hash now) ss (session_of node a user)
        (any_weaken (has_hash hash) (is_live hash now) ss (λ x k. ground arith) h)
        (ground (arith, eq_iff hash hash))

  resolved :
      (token : String) (now : ℕ) (db : Accounts) (s : Session) (u : User)
      → find (is_live (hash_token node token) now) db.sessions ≡ some s
      → find (λ x. x.id == s.user_id) db.users ≡ some u
      → resolve node token now db ≡ ok (context_of db u)
  resolved token now db s u h k = rw (resolve, h, k) refl

  revoked :
      (hash : String) (at now : ℕ) (ss : List Session)
      → find (is_live hash now) (revoke_all hash at ss) ≡ none
  revoked hash at now [] = refl
  revoked hash at now (s ∷ ss) = ground (arith, revoked hash at now ss)

  kept_live :
      (hash other : String) (at now : ℕ) (ss : List Session)
      → hash ≢ other
      → find (is_live other now) (revoke_all hash at ss) ≡ find (is_live other now) ss
  kept_live hash other at now [] h = refl
  kept_live hash other at now (s ∷ ss) h =
      ground (
        arith,
        eq_iff s.token_hash hash,
        eq_iff s.token_hash other,
        kept_live hash other at now ss h,
      )

module _ {X : Type 0} (node : Node) where
  -- The user `u` is the one of the phone, and the session is new.
  abbrev Opened : Attempt → String → World Accounts X → World Accounts X → VerifyResult → Type 0
  Opened a phone d w' v =
      ((upsert_user a.user_id phone d.db).0 ≡ ok v.user_id)
      × (any (has_hash (hash_token node a.token)) d.db.sessions ≡ false)
      × (v.token ≡ a.token)
      × (w'.db ≡ record (upsert_user a.user_id phone d.db).1 {
        sessions = d.db.sessions ++ session_of node a v.user_id ∷ [];
      })

  conclude-Opened :
      (a : Attempt) (phone : String) (d w' : World Accounts X) (v : VerifyResult) (o : Outcome)
      → conclude node a phone o d ≡ (ok v, w')
      → (o ≡ accepted) × Opened a phone d w' v
  conclude-Opened a phone d w' v no_code h = absurd (ground arith)
  conclude-Opened a phone d w' v locked h = absurd (ground arith)
  conclude-Opened a phone d w' v bad_code h = absurd (ground arith)
  conclude-Opened a phone d w' v accepted h =
      let same = upsert_user-sessions a.user_id phone d.db in
      elim (Result-cases (upsert_user a.user_id phone d.db).0) [
        | inr (x, e) ↦ absurd (ground arith)
        | inl (u, e) ↦ elim (Bool-cases (any (has_hash (hash_token node a.token)) d.db.sessions)) [
          | inl f ↦
              let f' = ap (any (has_hash (hash_token node a.token))) same ∙ f in
              absurd (ground arith)
          | inr f ↦
              let f' = ap (any (has_hash (hash_token node a.token))) same ∙ f in
              (refl, (ground arith, f, ground arith, ground arith))
        ]
      ]

  -- What a call of `verifyOtp` that returns has done.
  verify_otp-Opened :
      (a : Attempt) (phone code : String) (w w' : World Accounts X) (v : VerifyResult)
      → verify_otp node a phone code w ≡ (ok v, w')
      → let (r, d) = decide node a phone code w in (r ≡ ok accepted) × Opened a phone d w' v
  unfolding verify_otp
  verify_otp-Opened a phone code w w' v h = elim (Result-cases (decide node a phone code w).0) [
    | inr (x, e) ↦ absurd (ground arith)
    | inl (o, e) ↦
        let (f, g) = conclude-Opened a phone (decide node a phone code w).1 w' v o (rw e at h) in
        (e ∙ ap ok f, g)
  ]

  decide-users :
      (a : Attempt) (phone code : String) (us : List User)
      → Keeps {X = X} (λ d. d.users ≡ us) (decide node a phone code)
  unfolding decide
  decide-users a phone code us = Keeps-query (λ db. latest phone db.otp_challenges) ▹ λ o.
      elim o as (λ o. Keeps {X = X} (λ d. d.users ≡ us) (decide_on node a code o)) [
        | none ↦ Keeps-lift _
        | some c ↦
            Keeps-if (leb c.expires_at a.checked_at) (λ _. Keeps-lift _)
              (λ _.
                Keeps-if (leb otp_max_attempts c.attempts) (λ _. Keeps-lift _)
                  (λ _. Keeps-execute (count_attempt c) (λ d e. e) ▹ λ _.
                    Keeps-if (verify_secret node code c.code_hash)
                      (λ _. Keeps-execute (consume c a.consumed_at) (λ d e. e) ▹ λ _.
                        Keeps-lift (ok accepted))
                      (λ _. Keeps-lift (ok bad_code))))
      ]

  -- Where the ids of users are unique, after a call of verifyOtp that returns, its token
  -- authenticates at any time before thirty days from the opening of the session are over, as
  -- the user that verifyOtp names and with the phone that was verified.
  pub verify_otp-authenticate :
      (a : Attempt) (phone code : String) (w w' : World Accounts X) (v : VerifyResult) (now : ℕ)
      → Unique (λ u. u.id) w.db.users
      → verify_otp node a phone code w ≡ (ok v, w')
      → now < a.opened_at + session_ttl_ms
      → (ctx : AuthContext) × (authenticate node v.token now w' ≡ (ok ctx, w'))
        × (ctx.user_id ≡ v.user_id)
        × (ctx.phone ≡ phone)
  unfolding authenticate
  verify_otp-authenticate a phone code w w' v now unique h early =
      let d = (decide node a phone code w).1 in
      let (e, (k, fresh, told, made)) = verify_otp-Opened a phone code w w' v h in
      let same = (decide-users a phone code w.db.users).at w refl in
      let (u, found, has) =
        upsert_user-found a.user_id v.user_id phone d.db
          (subst (Unique (λ u. u.id)) (sym same) unique) k in
      let db = record (upsert_user a.user_id phone d.db).1 {
        sessions = d.db.sessions ++ session_of node a v.user_id ∷ [];
      } in
      let answer =
        resolved node a.token now db (session_of node a v.user_id) u
          (found_live node a v.user_id now d.db.sessions fresh early) found in
      let known =
        find_hit (λ x. x.id == v.user_id) (upsert_user a.user_id phone d.db).1.users u found in
      (
        context_of db u,
        ap (λ r. (r, w'))
            (ap (λ t. resolve node t now w'.db) told ∙ ap (resolve node a.token now) made ∙ answer),
        ground arith,
        has,
      )

  -- After revokeSession of a token, authenticate of that token throws `unauthenticated` at
  -- any time, and a token with another hash authenticates as before.
  pub revoke_session-authenticate :
      (token other : String) (at now : ℕ) (w : World Accounts X)
      → hash_token node token ≢ hash_token node other
      → let w' = (revoke_session node token at w).1 in
        (authenticate node token now w' ≡ (err (auth_error unauthenticated), w'))
        × ((authenticate node other now w').0 ≡ (authenticate node other now w).0)
  unfolding authenticate revoke_session
  revoke_session-authenticate token other at now w apart = (
    rw (authenticate, resolve, revoked node (hash_token node token) at now w.db.sessions) refl,
    rw
        (
          authenticate,
          resolve,
          kept_live node (hash_token node token) (hash_token node other) at now w.db.sessions apart,
        )
        refl,
  )
