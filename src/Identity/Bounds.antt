-- ===== src/Identity/Bounds.antt =====
-- The bounds on challenges, statement by statement (src/modules/identity/auth.service.ts).
use peer_core.Tenancy.{Uuid}
use peer_core.Identity.Tables.{
  add_admin, insert_session, Session, upsert_user, is_recent, otp_max_attempts, recent,
  otp_request_window_ms, otp_max_requests, set_challenge, Accounts, OtpChallenge,
}
use peer_core.Base.{
  length-keep_mono, length-keep_concat, sym, subst, All-concat, eq_iff, ◌-◌, ◌+◌, ◌==◌, leb, ◌≤◌,
  ◌++◌, arith, Bool-cases, keep, ◌&&◌, All, str_eq, ◌≡◌, length, ℕ, List, Bool, String, [], ◌∷◌,
  false, refl, inl, inr,
}

-- The challenge was made for the phone within the ten minutes from `start` on.
abbrev pub in_span : String → ℕ → OtpChallenge → Bool
in_span phone start c =
    str_eq c.phone phone
    && leb start c.created_at
    && leb c.created_at (start + otp_request_window_ms)

-- No phone has more than three challenges in any ten minutes, and no challenge more than five
-- attempts.
pub record IsBounded (db : Accounts) : Type 0 where
  pub spans :
      (phone : String) (start : ℕ)
      → length (keep (in_span phone start) db.otp_challenges) ≤ otp_max_requests
  pub guesses : All (λ c. c.attempts ≤ otp_max_attempts) db.otp_challenges

-- A change of one challenge that keeps its answer to `p` keeps the number of those that pass.
pub keep-set_challenge :
    (p : OtpChallenge → Bool) (id : Uuid) (f : OtpChallenge → OtpChallenge) (cs : List OtpChallenge)
    → ((c : OtpChallenge) → p (f c) ≡ p c)
    → length (keep p (set_challenge id f cs)) ≡ length (keep p cs)
keep-set_challenge p id f [] h = refl
keep-set_challenge p id f (c ∷ cs) h = ground (arith, h c, keep-set_challenge p id f cs h)

All-set_challenge :
    (P : OtpChallenge → Type 0) (id : Uuid) (f : OtpChallenge → OtpChallenge)
    (cs : List OtpChallenge)
    → ((c : OtpChallenge) → P c → P (f c))
    → All P cs
    → All P (set_challenge id f cs)
All-set_challenge P id f [] h k = tt
All-set_challenge P id f (c ∷ cs) h k = elim (Bool-cases (c.id == id)) [
  | inl e ↦ rw e (h c k.0, All-set_challenge P id f cs h k.1)
  | inr e ↦ rw e (k.0, All-set_challenge P id f cs h k.1)
]

-- A challenge after less than three recent ones.
pub concat-IsBounded :
    (c : OtpChallenge) (db : Accounts)
    → leb otp_max_requests (length (recent c.phone c.created_at db)) ≡ false
    → c.attempts ≡ 0
    → IsBounded db
    → IsBounded (record db { otp_challenges = db.otp_challenges ++ c ∷ [] })
concat-IsBounded c db few fresh h = record {
  spans = λ phone start.
      let old = db.otp_challenges in
      let counted = length-keep_concat (in_span phone start) old c in
      let before = h.spans phone start in
      elim (Bool-cases (in_span phone start c)) [
        | inr out ↦ ground arith
        | inl here ↦
            let limited =
              length-keep_mono (in_span phone start)
                (is_recent c.phone (c.created_at - otp_request_window_ms)) old
                (λ x k. ground (arith, eq_iff c.phone phone)) in
            ground arith
      ];
  guesses =
      All-concat (λ x. x.attempts ≤ otp_max_attempts) db.otp_challenges c h.guesses (ground arith);
}

pub set_challenge-IsBounded :
    (id : Uuid) (f : OtpChallenge → OtpChallenge) (db : Accounts)
    → ((c : OtpChallenge) → (f c).phone ≡ c.phone)
    → ((c : OtpChallenge) → (f c).created_at ≡ c.created_at)
    → ((c : OtpChallenge) → c.attempts ≤ otp_max_attempts → (f c).attempts ≤ otp_max_attempts)
    → IsBounded db
    → IsBounded (record db { otp_challenges = set_challenge id f db.otp_challenges })
set_challenge-IsBounded id f db phones times few h = record {
  spans = λ phone start.
      let e =
        keep-set_challenge (in_span phone start) id f db.otp_challenges
          (λ c. rw (phones c, times c) refl) in
      ground (arith, h.spans phone start);
  guesses =
      All-set_challenge (λ c. c.attempts ≤ otp_max_attempts) id f db.otp_challenges few h.guesses;
}

-- The other tables do not matter.
pub IsBounded-challenges :
    (d e : Accounts) → e.otp_challenges ≡ d.otp_challenges → IsBounded d → IsBounded e
IsBounded-challenges d e same h = record {
  spans = λ phone start.
      subst (λ cs. length (keep (in_span phone start) cs) ≤ otp_max_requests) (sym same)
        (h.spans phone start);
  guesses = subst (All (λ c. c.attempts ≤ otp_max_attempts)) (sym same) h.guesses;
}

pub upsert_user-challenges :
    (fresh : Uuid) (phone : String) (db : Accounts)
    → (upsert_user fresh phone db).1.otp_challenges ≡ db.otp_challenges
upsert_user-challenges fresh phone db = ground arith

pub add_admin-challenges :
    (user : Uuid) (db : Accounts) → (add_admin user db).otp_challenges ≡ db.otp_challenges
add_admin-challenges user db = ground arith

pub insert_session-challenges :
    (s : Session) (db : Accounts) → (insert_session s db).1.otp_challenges ≡ db.otp_challenges
insert_session-challenges s db = ground arith
