-- ===== src/Identity/Guards.antt =====
-- src/modules/identity/auth.guard.ts and src/modules/identity/admin.guard.ts: who a request comes
-- from, by its `authorization` header.
use Prim.Native.Char.{code}
use peer_core.Identity.Tables.{resolve, Accounts, AuthContext}
use peer_core.Identity.Crypto.{Node}
use peer_core.Base.{◌==◌, if◌then◌else◌, ℕ, truthy, String, none, some, Option}
use peer_core.Action.{Result, ok, err}

-- The answer of a guard: the identity for the request, or the HTTP exception.
pub data Verdict : Type 0 where
  passed : AuthContext → Verdict
  unauthorized forbidden : Verdict

-- The text after the prefix, if it starts so.
abbrev pub after_prefix : String → String → Option String
after_prefix String.[] s = some s
after_prefix (String.◌∷◌ a p) String.[] = none
after_prefix (String.◌∷◌ a p) (String.◌∷◌ c s) =
    let rest = after_prefix p s in if code a == code c then rest else none

-- The token of a header that starts with `Bearer `, if it is not empty.
abbrev pub bearer : Option String → Option String
bearer none = none
bearer (some header) = truthy (after_prefix "Bearer " header)

module _ (node : Node) where
  abbrev admit : Result AuthContext → Verdict
  admit (ok ctx) = passed ctx
  admit (err e) = unauthorized

  -- `AuthGuard.canActivate`
  unfoldable pub auth_guard : Option String → ℕ → Accounts → Verdict
  auth_guard header now db = elim (bearer header) [
    | none ↦ unauthorized
    | some token ↦ admit (resolve node token now db)
  ]

  abbrev only_admin : Verdict → Verdict
  only_admin (passed ctx) = if ctx.is_platform_admin then passed ctx else forbidden
  only_admin v = v

  -- `AdminGuard.canActivate`
  unfoldable pub admin_guard : Option String → ℕ → Accounts → Verdict
  admin_guard header now db = elim (bearer header) [
    | none ↦ unauthorized
    | some token ↦ only_admin (admit (resolve node token now db))
  ]
