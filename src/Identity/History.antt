-- ===== src/Identity/History.antt =====
-- Sequences of the calls that change the tables (src/modules/identity/auth.service.ts).
use peer_core.Tenancy.{Uuid}
use peer_core.Identity.Crypto.{Node}
use peer_core.Identity.Tables.{Accounts, Attempt, Issue}
use peer_core.Base.{ℕ, List, String, [], ◌∷◌}
use peer_core.Action.{World, Result}
use peer_core.Identity.{request_otp, verify_otp, revoke_session, grant_platform_admin}

pub data AuthCall (Buffer : Type 0) : Type 0 where
  request : Issue Buffer → String → AuthCall Buffer
  verify : Attempt → String → String → AuthCall Buffer
  revoke : String → ℕ → AuthCall Buffer
  grant : String → Uuid → AuthCall Buffer

module _ {X : Type 0} (node : Node) (send : String → String → X → Result (Unit {0}) × X) where
  abbrev pub perform : AuthCall node.Buffer → World Accounts X → World Accounts X
  perform (request i phone) w = (request_otp node send i phone w).1
  perform (verify a phone code) w = (verify_otp node a phone code w).1
  perform (revoke token now) w = (revoke_session node token now w).1
  perform (grant phone fresh) w = (grant_platform_admin phone fresh w).1

  -- The calls one after the other, whether each returns or throws.
  abbrev pub run : List (AuthCall node.Buffer) → World Accounts X → World Accounts X
  run [] w = w
  run (c ∷ cs) w = run cs (perform c w)
