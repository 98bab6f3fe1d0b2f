-- ===== src/Identity/Spent.antt =====
-- A code opens at most one session (src/modules/identity/auth.service.ts).
use peer_core.Base.{
  [], ◌∷◌, some, true, refl, inl, inr, ap, if◌then◌else◌, subst, eq_iff, str_eq, ◌∙◌, leb,
  Option-cases, Bool-cases, ◌≤◌, ◌+◌, keep, arith, ◌&&◌, any, length, ◌==◌, ◌≡◌, List, Bool, ℕ,
  String,
}
use peer_core.Action.{ok, err, World, Result}
use peer_core.Identity.Bounds.{keep-set_challenge}
use peer_core.Identity.Crypto.{verify_secret, Node}
use peer_core.Tenancy.{Uuid}
use peer_core.Identity.Tables.{
  otp_max_attempts, consume, Attempt, count_attempt, is_pending, set_challenge, Accounts, latest,
  OtpChallenge, accepted,
}
use peer_core.Identity.{Outcome, decide}

-- The challenges of a phone that are not used up.
abbrev pub pending : String → Accounts → ℕ
pending phone db = length (keep (is_pending phone) db.otp_challenges)

abbrev open_at : Uuid → String → OtpChallenge → Bool
open_at id phone c = (c.id == id) && is_pending phone c

found_here :
    (phone : String) (x c : OtpChallenge)
    → x ≡ c
    → is_pending phone x ≡ true
    → open_at c.id phone x ≡ true
found_here phone x c e h = subst (λ y. open_at y.id phone x ≡ true) e (ground arith)

latest-any :
    (phone : String) (cs : List OtpChallenge) (c : OtpChallenge)
    → latest phone cs ≡ some c
    → any (open_at c.id phone) cs ≡ true
unfolding latest
latest-any phone [] c h = absurd (ground arith)
latest-any phone (x ∷ cs) c h = elim (Bool-cases (is_pending phone x)) [
  | inr out ↦ let ih = latest-any phone cs c (ground arith) in rw (ih) (ground arith)
  | inl here ↦ elim (Option-cases (latest phone cs)) [
    | inl e ↦ rw (found_here phone x c (ground arith) here) refl
    | inr (d, e) ↦ elim (Bool-cases (leb d.created_at x.created_at)) [
      | inl f ↦ rw (found_here phone x c (ground arith) here) refl
      | inr f ↦
          let same : d ≡ c = ground arith in
          let ih = latest-any phone cs c (e ∙ ap some same) in rw ih (ground arith)
    ]
  ]
]

any-set_challenge :
    (p : OtpChallenge → Bool) (id : Uuid) (f : OtpChallenge → OtpChallenge) (cs : List OtpChallenge)
    → ((c : OtpChallenge) → p (f c) ≡ p c)
    → any p (set_challenge id f cs) ≡ any p cs
any-set_challenge p id f [] h = refl
any-set_challenge p id f (c ∷ cs) h = ground (arith, h c, any-set_challenge p id f cs h)

module _ (id : Uuid) (now : ℕ) (phone : String) where
  abbrev used : OtpChallenge → OtpChallenge
  used c = record c { consumed_at = some now }

  used-le :
      (cs : List OtpChallenge)
      → length (keep (is_pending phone) (set_challenge id used cs))
        ≤ length (keep (is_pending phone) cs)
  used-le [] = ground arith
  used-le (c ∷ cs) = ground (arith, used-le cs)

  used-lt :
      (cs : List OtpChallenge)
      → any (open_at id phone) cs ≡ true
      → length (keep (is_pending phone) (set_challenge id used cs)) + 1
        ≤ length (keep (is_pending phone) cs)
  used-lt [] h = absurd (ground arith)
  used-lt (c ∷ cs) h = elim (Bool-cases (open_at id phone c)) [
    | inl e ↦ ground (arith, used-le cs)
    | inr e ↦ ground (arith, used-lt cs (ground arith))
  ]

-- The sessions that a decision on a code for `asked` opens for `phone`.
abbrev pub gain : String → String → Outcome → ℕ
gain phone asked accepted = if◌then◌else◌ (str_eq asked phone) 1 0
gain phone asked _ = 0

abbrev pub gain_of : String → String → Result Outcome → ℕ
gain_of phone asked (ok o) = gain phone asked o
gain_of phone asked (err e) = 0

module _ (phone : String) where
  counted :
      (c : OtpChallenge) (db : Accounts) → pending phone (count_attempt c db) ≡ pending phone db
  counted c db =
      keep-set_challenge (is_pending phone) c.id (λ x. record x { attempts = c.attempts + 1 })
        db.otp_challenges (λ _. refl)

  consumed :
      (asked : String) (c : OtpChallenge) (now : ℕ) (db : Accounts)
      → latest asked db.otp_challenges ≡ some c
      → pending phone (consume c now (count_attempt c db)) + gain phone asked accepted
        ≤ pending phone db
  consumed asked c now db h = elim (Bool-cases (str_eq asked phone)) [
    | inr other ↦
        let le = used-le c.id now phone (count_attempt c db).otp_challenges in
        let e = counted c db in ground arith
    | inl same ↦
        let hit = latest-any asked db.otp_challenges c h in
        let eq : asked ≡ phone = ground (arith, eq_iff asked phone) in
        let lt = used-lt c.id now phone (count_attempt c db).otp_challenges (
          any-set_challenge (open_at c.id phone) c.id (λ x. record x { attempts = c.attempts + 1 })
            db.otp_challenges (λ _. refl)
          ∙ subst (λ p. any (open_at c.id p) db.otp_challenges ≡ true) eq hit) in
        let e = counted c db in ground arith
  ]

module _ {X : Type 0} (node : Node) (phone : String) where
  pub decide-pending :
      (a : Attempt) (asked code : String) (w : World Accounts X)
      → pending phone (decide node a asked code w).1.db
          + gain_of phone asked (decide node a asked code w).0
        ≤ pending phone w.db
  unfolding decide
  decide-pending a asked code w = elim (Option-cases (latest asked w.db.otp_challenges)) [
    | inl e ↦ rw (decide, e) (ground arith)
    | inr (c, e) ↦ elim (Bool-cases (leb c.expires_at a.checked_at)) [
      | inl f ↦ rw (decide, e, f) (ground arith)
      | inr f ↦ elim (Bool-cases (leb otp_max_attempts c.attempts)) [
        | inl g ↦ rw (decide, e, f, g) (ground arith)
        | inr g ↦ elim (Bool-cases (verify_secret node code c.code_hash)) [
          | inl k ↦ rw (decide, e, f, g, k) (consumed phone asked c a.consumed_at w.db e)
          | inr k ↦ rw (decide, e, f, g, k) (ground (arith, counted phone c w.db))
        ]
      ]
    ]
  ]
