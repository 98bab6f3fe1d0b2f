-- ===== src/Action.antt =====
-- Asynchronous methods as actions: they change the database and what lies outside it, and
-- return or throw. A throw leaves behind what was written before it; `db.transaction` takes
-- the writes to the database back, and no others.
pub mod Keeps
pub mod Yields
use peer_core.Base.{Option, none, some, Bool, if◌then◌else◌, ◌≡◌, ◌⊎◌, inl, inr, refl}
use peer_core.Errors.{Error}

pub data Result {ℓ} (A : Type ℓ) : Type ℓ where
  ok : A → Result A
  err : Error → Result A

-- `db` is the content of the tables, `outside` the state that no transaction covers.
pub record World (D X : Type 0) : Type 0 where
  pub db : D
  pub outside : X

abbrev pub Action : Type 0 → Type 0 → Type 0 → Type 0
Action D X A = World D X → Result A × World D X

module _ {D X A : Type 0} where
  abbrev pub pure : A → Action D X A
  pure a w = (ok a, w)

  abbrev pub throw : Error → Action D X A
  throw e w = (err e, w)

  -- A computation that may throw and writes nothing.
  abbrev pub lift : Result A → Action D X A
  lift r w = (r, w)

  -- A query.
  abbrev pub query : (D → A) → Action D X A
  query f w = (ok (f w.db), w)

  -- A query whose answer may be an error.
  abbrev pub consult : (D → Result A) → Action D X A
  consult f w = (f w.db, w)

  -- A statement with a `returning` clause: the answer and the new tables.
  abbrev pub statement : (D → Result A × D) → Action D X A
  statement f w = let (r, d) = f w.db in (r, record w { db = d })

  -- A call of what lies outside the database.
  abbrev pub call : (X → Result A × X) → Action D X A
  call f w = let (r, x) = f w.outside in (r, record w { outside = x })

  abbrev settle : Result A → D → World D X → Result A × World D X
  settle (ok a) d w = (ok a, w)
  settle (err e) d w = (err e, record w { db = d })

  -- `db.transaction(fn)`: what `fn` wrote is taken back if it throws.
  abbrev pub transaction : Action D X A → Action D X A
  transaction m w = let (r, w') = m w in settle r w.db w'

module _ {D X : Type 0} where
  abbrev pub execute : (D → D) → Action D X (Unit {0})
  execute f w = (ok tt, record w { db = f w.db })

  abbrev pub throw_if : Bool → Error → Action D X (Unit {0})
  throw_if b e w = (if b then err e else ok tt, w)

abbrev pub or_err {ℓ} : {A : Type ℓ} → Option A → Error → Result A
or_err none e = err e
or_err (some a) e = ok a

-- An action on a part of the tables.
abbrev pub zoom : {D E X A : Type 0} → (E → D) → (D → E → E) → Action D X A → Action E X A
zoom get put m w =
    let (r, v) = m (record { db = get w.db; outside = w.outside }) in
    (r, record { db = put v.db w.db; outside = v.outside })

module _ {D X A B : Type 0} where
  abbrev continue : Result A → (A → Action D X B) → Action D X B
  continue (ok a) f w = f a w
  continue (err e) f w = (err e, w)

  infixl 5 ◌>>=◌ ◌>>◌
  abbrev pub ◌>>=◌ : Action D X A → (A → Action D X B) → Action D X B
  ◌>>=◌ m f w = let (r, w') = m w in continue r f w'

  abbrev pub ◌>>◌ : Action D X A → Action D X B → Action D X B
  m >> k = m >>= λ _. k

pub Result-cases {ℓ} :
    {A : Type ℓ} (r : Result A) → ((a : A) × (r ≡ ok a)) ⊎ ((e : Error) × (r ≡ err e))
Result-cases (ok a) = inl (a, refl)
Result-cases (err e) = inr (e, refl)
