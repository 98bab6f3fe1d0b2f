-- ===== src/Identity/RoundTrip.antt =====
-- A hashed secret verifies (src/modules/identity/crypto.ts).
use Prim.Native.Char.{code}
use text.Mathlib.TextLemmas.{nil-append, cons-append}
use peer_core.Identity.Crypto.{
  same_key, second_part, hash_secret, after_colon, until_colon, verify_secret, Node,
}
use peer_core.Base.{
  ◌∙◌, arith, ◌==◌, Bool-cases, is_truthy, ℕ, ◌≡◌, str_append, String, none, some, true, refl, inl,
  inr, ap,
}

-- No character of the text is a colon.
abbrev pub IsPlain : String → Type 0
IsPlain s = after_colon s ≡ none

colon-cons : (b : String) → str_append ":" b ≡ String.◌∷◌ ":" b
colon-cons b = cons-append ":" "" b ∙ ap (λ x. String.◌∷◌ ":" x) (nil-append b)

after-colon : (b : String) → after_colon (str_append ":" b) ≡ some b
after-colon b = ap after_colon (colon-cons b)

until-colon : (b : String) → until_colon (str_append ":" b) ≡ ""
until-colon b = ap until_colon (colon-cons b)

parts_until :
    (a b : String)
    → IsPlain a
    → (until_colon (str_append a (str_append ":" b)) ≡ a)
      × (after_colon (str_append a (str_append ":" b)) ≡ some b)
parts_until String.[] b h = rw nil-append (until-colon b, after-colon b)
parts_until (String.◌∷◌ c s) b h = rw cons-append (elim (Bool-cases (code c == b':')) [
  | inl e ↦ absurd (ground arith)
  | inr e ↦ let (f, g) = parts_until s b (ground arith) in rw (e, f) (refl, g)
])

plain_until : (s : String) → IsPlain s → until_colon s ≡ s
plain_until String.[] h = refl
plain_until (String.◌∷◌ c s) h = elim (Bool-cases (code c == b':')) [
  | inl e ↦ absurd (ground arith)
  | inr e ↦ let f = plain_until s (ground arith) in rw (e, f) refl
]

module _ (node : Node) where
  verify-parts :
      (secret stored salt_hex dk_hex : String)
      → until_colon stored ≡ salt_hex
      → second_part stored ≡ some dk_hex
      → is_truthy salt_hex ≡ true
      → is_truthy dk_hex ≡ true
      → verify_secret node secret stored ≡ same_key node secret salt_hex dk_hex
  unfolding verify_secret
  verify-parts secret stored salt_hex dk_hex e f g h = rw (verify_secret, e, g, f, h) refl

  same_key_self :
      (salt : node.Buffer) (secret : String)
      → ((b : node.Buffer) → node.of_hex (node.to_hex b) ≡ b)
      → ((b : node.Buffer) → node.timing_safe_equal b b ≡ true)
      → ((s : String) (b : node.Buffer) (n : ℕ) → node.buffer_length (node.scrypt s b n) ≡ n)
      → same_key node secret (node.to_hex salt) (node.to_hex (node.scrypt secret salt 32)) ≡ true
  same_key_self salt secret round same sized =
      rw
        (
          round salt,
          round (node.scrypt secret salt 32),
          sized secret salt 32,
          same (node.scrypt secret salt 32),
        )
        (rw (sized secret salt 32) refl)

  -- For the salt drawn and for the derived key, whose hex digits are not empty, hold no colon and
  -- read back as the same buffer: a secret verifies against its own hash, if scrypt gives the
  -- length that it is asked for and a buffer is equal to itself.
  pub verify_secret-hash_secret :
      (salt : node.Buffer) (secret : String)
      → ((b : node.Buffer) → IsPlain (node.to_hex b))
      → ((b : node.Buffer) → node.of_hex (node.to_hex b) ≡ b)
      → ((b : node.Buffer) → node.timing_safe_equal b b ≡ true)
      → ((s : String) (b : node.Buffer) (n : ℕ) → node.buffer_length (node.scrypt s b n) ≡ n)
      → is_truthy (node.to_hex salt) ≡ true
      → is_truthy (node.to_hex (node.scrypt secret salt 32)) ≡ true
      → verify_secret node secret (hash_secret node salt secret) ≡ true
  unfolding verify_secret hash_secret
  verify_secret-hash_secret salt secret plain round same sized full full' =
      let dk = node.scrypt secret salt 32 in
      let (e, f) = parts_until (node.to_hex salt) (node.to_hex dk) (plain salt) in
      let part =
        ap (λ o. elim o [ none ↦ none | some rest ↦ some (until_colon rest) ]) f
        ∙ ap some (plain_until (node.to_hex dk) (plain dk)) in
      verify-parts secret (hash_secret node salt secret) (node.to_hex salt) (node.to_hex dk) e part
        full full'
      ∙ same_key_self salt secret round same sized
