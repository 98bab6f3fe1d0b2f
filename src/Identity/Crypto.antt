-- ===== src/Identity/Crypto.antt =====
-- src/modules/identity/crypto.ts. What `node:crypto` and `Buffer` do is a parameter.
use peer_core.Base.{
  str_append, truthy, ℕ, String, Option, none, some, Bool, false, ◌&&◌, ◌==◌, if◌then◌else◌,
}
use Prim.Native.Char.{code}

-- Buffers with their hex digits, `scryptSync`, `timingSafeEqual` and the digest of `sha256`.
pub record Node : Type 1 where
  pub Buffer : Type 0
  pub buffer_length : Buffer → ℕ
  pub to_hex : Buffer → String
  pub of_hex : String → Buffer
  pub scrypt : String → Buffer → ℕ → Buffer
  pub timing_safe_equal : Buffer → Buffer → Bool
  pub sha256 : String → Buffer

-- The text before the first colon.
abbrev pub until_colon : String → String
until_colon String.[] = String.[]
until_colon (String.◌∷◌ c s) =
    let rest = until_colon s in if code c == b':' then String.[] else String.◌∷◌ c rest

-- The text after the first colon.
abbrev pub after_colon : String → Option String
after_colon String.[] = none
after_colon (String.◌∷◌ c s) = let rest = after_colon s in if code c == b':' then some s else rest

-- `stored.split(':')[1]`
abbrev pub second_part : String → Option String
second_part s = elim (after_colon s) [ none ↦ none | some rest ↦ some (until_colon rest) ]

module _ (node : Node) where
  -- `salt` is what `randomBytes(16)` draws.
  unfoldable pub hash_secret : node.Buffer → String → String
  hash_secret salt secret =
      str_append (node.to_hex salt) (str_append ":" (node.to_hex (node.scrypt secret salt 32)))

  -- `expected`, with the length of `actual` asked for by the call.
  abbrev pub same_key : String → String → String → Bool
  same_key secret salt_hex dk_hex =
      let expected = node.of_hex dk_hex in
      let actual = node.scrypt secret (node.of_hex salt_hex) (node.buffer_length expected) in
      (node.buffer_length expected == node.buffer_length actual)
      && node.timing_safe_equal expected actual

  unfoldable pub verify_secret : String → String → Bool
  verify_secret secret stored = elim (truthy (some (until_colon stored))) [
    | none ↦ false
    | some salt_hex ↦ elim (truthy (second_part stored)) [
      | none ↦ false
      | some dk_hex ↦ same_key secret salt_hex dk_hex
    ]
  ]

  unfoldable pub hash_token : String → String
  hash_token token = node.to_hex (node.sha256 token)
