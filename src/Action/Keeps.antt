-- ===== src/Action/Keeps.antt =====
-- Invariants of the tables under an action, one rule for each way to build an action.
use peer_core.Base.{if◌then◌else◌, true, false, false, true, ◌≡◌, refl, Bool}
use peer_core.Errors.{Error}
use peer_core.Action.{
  Result, ok, err, World, Action, lift, query, consult, statement, call, settle, transaction,
  execute, throw_if, ◌>>=◌, zoom, pure,
}

-- `m` keeps `P` of the tables, whether it returns or throws.
pub record Keeps {D X A : Type 0} (P : D → Type 0) (m : Action D X A) : Type 0 where
  pub at : (w : World D X) → P w.db → P (m w).1.db

settle-keeps :
    {D X A : Type 0} (P : D → Type 0) (r : Result A) (d : D) (w : World D X)
    → P d
    → P w.db
    → P (settle r d w).1.db
settle-keeps P (ok a) d w before after = after
settle-keeps P (err e) d w before after = before

module _ {D X A : Type 0} {P : D → Type 0} where
  pub Keeps-lift : (r : Result A) → Keeps {X = X} P (lift r)
  Keeps-lift r = record { at = λ w h. h }

  pub Keeps-query : (f : D → A) → Keeps {X = X} P (query f)
  Keeps-query f = record { at = λ w h. h }

  pub Keeps-consult : (f : D → Result A) → Keeps {X = X} P (consult f)
  Keeps-consult f = record { at = λ w h. h }

  pub Keeps-call : (f : X → Result A × X) → Keeps {D = D} {X = X} {A = A} P (call f)
  Keeps-call f = record { at = λ w h. h }

  pub Keeps-statement :
      (f : D → Result A × D) → ((d : D) → P d → P (f d).1) → Keeps {X = X} P (statement f)
  Keeps-statement f keep = record { at = λ w h. keep w.db h }

  pub Keeps-transaction : (m : Action D X A) → Keeps P m → Keeps P (transaction m)
  Keeps-transaction m k = record {
    at = λ w h. let (r, w') = m w in settle-keeps P r w.db w' h (k.at w h);
  }

-- A branch on a computed test.
pub Keeps-if :
    {D X A : Type 0} {P : D → Type 0} (b : Bool) {m n : Action D X A}
    → (b ≡ true → Keeps P m)
    → (b ≡ false → Keeps P n)
    → Keeps P (if b then m else n)
Keeps-if true km kn = km refl
Keeps-if false km kn = kn refl

settle-keeps_ok :
    {D X A : Type 0} (P : D → Type 0) (r : Result A) (d : D) (w : World D X)
    → P d
    → ((a : A) → r ≡ ok a → P w.db)
    → P (settle r d w).1.db
settle-keeps_ok P (ok a) d w before after = after a refl
settle-keeps_ok P (err e) d w before after = before

-- A transaction keeps what its body keeps whenever it returns.
pub Keeps-transaction_ok :
    {D X A : Type 0} {P : D → Type 0} (m : Action D X A)
    → ((w w' : World D X) (a : A) → P w.db → m w ≡ (ok a, w') → P w'.db)
    → Keeps P (transaction m)
Keeps-transaction_ok {P} m k = record {
  at = λ w h.
      settle-keeps_ok P (m w).0 w.db (m w).1 h (λ a e. k w (m w).1 a h (λ i. (e i, (m w).1)));
}

module _ {D X : Type 0} {P : D → Type 0} where
  pub Keeps-execute : (f : D → D) → ((d : D) → P d → P (f d)) → Keeps {X = X} P (execute f)
  Keeps-execute f keep = record { at = λ w h. keep w.db h }

  pub Keeps-throw_if : (b : Bool) (e : Error) → Keeps {X = X} P (throw_if {D = D} b e)
  Keeps-throw_if b e = record { at = λ w h. h }

module _ {D X A B : Type 0} {P : D → Type 0} where
  pub Keeps-bind-lift :
      (r : Result A) (f : A → Action D X B)
      → ((a : A) → r ≡ ok a → Keeps P (f a))
      → Keeps P (lift r >>= f)
  Keeps-bind-lift (ok a) f kf = kf a refl
  Keeps-bind-lift (err e) f kf = record { at = λ w h. h }

  pub Keeps-bind :
      (m : Action D X A) (f : A → Action D X B)
      → Keeps P m
      → ((a : A) → Keeps P (f a))
      → Keeps P (m >>= f)
  Keeps-bind m f km kf = record {
    at = λ w h. let (r, w') = m w in (Keeps-bind-lift r f (λ a _. kf a)).at w' (km.at w h);
  }

  -- The same rule, to chain the rules of the steps of a `do` block.
  infixr 4 ◌▹◌
  pub ◌▹◌ :
      {m : Action D X A} {f : A → Action D X B}
      → Keeps P m
      → ((a : A) → Keeps P (f a))
      → Keeps P (m >>= f)
  ◌▹◌ {m} {f} km kf = Keeps-bind m f km kf

-- An action on a part of the tables keeps `P` if it keeps what `P` asks of the part.
pub Keeps-zoom :
    {D E X A : Type 0} {P : E → Type 0} {Q : D → Type 0} (get : E → D) (put : D → E → E)
    (m : Action D X A)
    → ((e : E) → P e → Q (get e))
    → ((d : D) (e : E) → Q d → P e → P (put d e))
    → Keeps Q m
    → Keeps P (zoom get put m)
Keeps-zoom get put m into out k = record {
  at = λ w h. out _ w.db (k.at (record { db = get w.db; outside = w.outside }) (into w.db h)) h;
}

-- The answer of an action, turned into another.
pub Keeps-answer :
    {D X A B : Type 0} {P : D → Type 0} (m : Action D X A) (f : A → B)
    → Keeps P m
    → Keeps P (m >>= λ a. pure (f a))
Keeps-answer m f k = Keeps-bind m (λ a. pure (f a)) k (λ a. Keeps-lift (ok (f a)))
