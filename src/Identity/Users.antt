-- ===== src/Identity/Users.antt =====
-- What is found in the tables of users and sessions (src/modules/identity/auth.service.ts).
use peer_core.Tenancy.Keys.{Unique}
use peer_core.Tenancy.{Uuid}
use peer_core.Base.{
  eq_iff, ◌≢◌, All, subst, ℕ, Bool-cases, Option-cases, ◌==◌, ◌++◌, str_eq, arith, ◌≡◌, any, List,
  Bool, String, [], ◌∷◌, some, true, false, refl, inl, inr, find,
}
use peer_core.Action.{ok}
use peer_core.Identity.Tables.{upsert_user, User, Accounts}

-- No session of the list has the hash: one that is added is the one found.
pub find_concat :
    {A : Type 0} (p : A → Bool) (xs : List A) (x : A)
    → any p xs ≡ false
    → p x ≡ true
    → find p (xs ++ x ∷ []) ≡ some x
find_concat p [] x h k = rw k refl
find_concat p (y ∷ xs) x h k = ground (arith, find_concat p xs x (ground arith) k)

pub any_weaken :
    {A : Type 0} (p q : A → Bool) (xs : List A)
    → ((x : A) → q x ≡ true → p x ≡ true)
    → any p xs ≡ false
    → any q xs ≡ false
any_weaken p q [] h k = refl
any_weaken p q (x ∷ xs) h k = ground (arith, h x, any_weaken p q xs h (ground arith))

-- A user found by phone is found by id, since ids are unique.
kept_apart :
    (k : ℕ) (p : User → Bool) (us : List User) (u : User)
    → All (λ x. x.id ≢ k) us
    → find p us ≡ some u
    → u.id ≢ k
kept_apart k p [] u h e = absurd (ground arith)
kept_apart k p (x ∷ us) u h e = elim (Bool-cases (p x)) [
  | inl hit ↦ let same : x ≡ u = ground arith in subst (λ y. y.id ≢ k) same h.0
  | inr miss ↦ kept_apart k p us u h.1 (ground arith)
]

found_by_id :
    (phone : String) (us : List User) (u : User)
    → Unique (λ x. x.id) us
    → find (λ x. str_eq x.phone phone) us ≡ some u
    → find (λ x. x.id == u.id) us ≡ some u
found_by_id phone [] u h k = absurd (ground arith)
found_by_id phone (x ∷ us) u h k = elim (Bool-cases (str_eq x.phone phone)) [
  | inl hit ↦
      let same : x ≡ u = ground arith in
      subst (λ y. find (λ x. x.id == y.id) (x ∷ us) ≡ some y) same (ground arith)
  | inr miss ↦
      let e : find (λ x. str_eq x.phone phone) us ≡ some u = ground arith in
      let apart = kept_apart x.id (λ x. str_eq x.phone phone) us u h.0 e in
      let ih = found_by_id phone us u h.1 e in ground arith
]

pub find_hit : {A : Type 0} (p : A → Bool) (xs : List A) (x : A) → find p xs ≡ some x → p x ≡ true
find_hit p [] x h = absurd (ground arith)
find_hit p (y ∷ xs) x h = elim (Bool-cases (p y)) [
  | inl e ↦ let same : y ≡ x = ground arith in subst (λ z. p z ≡ true) same e
  | inr e ↦ find_hit p xs x (ground arith)
]

-- The user that the upsert answers with is found by that id, and has the phone.
pub upsert_user-found :
    (fresh user : Uuid) (phone : String) (db : Accounts)
    → Unique (λ x. x.id) db.users
    → (upsert_user fresh phone db).0 ≡ ok user
    → (u : User) × (find (λ x. x.id == user) (upsert_user fresh phone db).1.users ≡ some u)
      × (u.phone ≡ phone)
upsert_user-found fresh user phone db h k =
    elim (Option-cases (find (λ u. str_eq u.phone phone) db.users)) [
      | inr (u, e) ↦
          let same : u.id ≡ user = ground arith in
          let has = find_hit (λ u. str_eq u.phone phone) db.users u e in
          (
            u,
            rw (upsert_user, e)
                (subst (λ k. find (λ x. x.id == k) db.users ≡ some u) same
                  (found_by_id phone db.users u h e)),
            ground (arith, eq_iff u.phone phone),
          )
      | inl e ↦ elim (Bool-cases (any (λ u. u.id == fresh) db.users)) [
        | inl f ↦ absurd (ground arith)
        | inr f ↦
            let same : fresh ≡ user = ground arith in
            let made : User = record { id = fresh; phone = phone } in
            (
              made,
              rw (upsert_user, e, f)
                  (subst (λ k. find (λ x. x.id == k) (db.users ++ made ∷ []) ≡ some made) same
                    (find_concat (λ x. x.id == fresh) db.users made f (ground arith))),
              refl,
            )
      ]
    ]

pub upsert_user-sessions :
    (fresh : Uuid) (phone : String) (db : Accounts)
    → (upsert_user fresh phone db).1.sessions ≡ db.sessions
upsert_user-sessions fresh phone db = ground arith
