-- ===== src/Deliveries/Settled.antt =====
-- A settled earning is closed history (src/vertical/restaurants/delivery.service.ts).
use peer_core.Tenancy.Keeps.{Keeps-with_tenant_all}
use peer_core.Action.Keeps.{Keeps-lift, ◌▹◌, Keeps-execute, Keeps-statement, Keeps}
use peer_core.Base.{
  sym, subst, ◌==◌, arith, Bool-cases, Option-cases, ◌++◌, ◌&&◌, ℕ, any, ◌≡◌, List, Bool, String,
  [], ◌∷◌, some, true, false, inl, inr, find,
}
use peer_core.Orders.Pricing.{Number}
use peer_core.Tenancy.{Uuid}
use peer_core.Tenancy.Rows.{update}
use peer_core.Action.{World, ok}
use peer_core.Deliveries.{
  is_open, amount_of, is_due, for_order, close_due, Delivery, DeliveryStatus, DeliveryTables,
  Driver, DriverEarning, assign, set_status, settle, upsert_earning, upsert_delivery, new_delivery,
  new_earning, assign_in, DriverEarning-scoped,
}

pub data DeliveryCall : Type 0 where
  assign_driver : String → Uuid → Uuid → Driver → Number → DeliveryCall
  change_status : String → Uuid → DeliveryStatus → DeliveryCall
  settle_driver : String → String → ℕ → DeliveryCall

-- A settled row of the ledger that passes a test.
abbrev pub settled_with : (DriverEarning → Bool) → DriverEarning → Bool
settled_with p e = e.settled && p e

-- Such a row is in the ledger.
pub record HasSettled (p : DriverEarning → Bool) (db : DeliveryTables) : Type 0 where
  pub row : any (settled_with p) db.driver_earnings ≡ true

any-update :
    (p q : DriverEarning → Bool) (t : Uuid) (f : DriverEarning → DriverEarning)
    (rows : List DriverEarning)
    → ((e : DriverEarning) → q e ≡ true → p e ≡ false)
    → any p rows ≡ true
    → any p (update t q f rows) ≡ true
unfolding update
any-update p q t f [] h k = k
any-update p q t f (e ∷ rows) h k = elim (Bool-cases (p e)) [
  | inl here ↦ elim (Bool-cases (q e)) [
    | inl hit ↦ absurd (ground (arith, h e hit))
    | inr miss ↦ ground arith
  ]
  | inr there ↦ let ih = any-update p q t f rows h (ground arith) in rw ih (ground arith)
]

any-concat :
    (p : DriverEarning → Bool) (rows : List DriverEarning) (e : DriverEarning)
    → any p rows ≡ true
    → any p (rows ++ e ∷ []) ≡ true
any-concat p [] e h = absurd (ground arith)
any-concat p (x ∷ rows) e h = elim (Bool-cases (p x)) [
  | inl here ↦ ground arith
  | inr there ↦ ground (arith, any-concat p rows e (ground arith))
]

module _ (p : DriverEarning → Bool) where
  upsert_earning-HasSettled :
      (order : Uuid) (new : DriverEarning) (db : DeliveryTables)
      → HasSettled p db
      → HasSettled p (upsert_earning order new db).1
  upsert_earning-HasSettled order new db h =
      elim (Option-cases (find (for_order order) db.driver_earnings)) [
        | inl e ↦
            rw (upsert_earning, e)
              (record { row = any-concat (settled_with p) db.driver_earnings new h.row })
        | inr (r, e) ↦ elim (Bool-cases (r.tenant_id == new.tenant_id)) [
          | inr f ↦ rw (upsert_earning, e, f) h
          | inl f ↦
              rw (upsert_earning, e, f)
                (record {
                  row =
                      any-update (settled_with p) (is_open order) new.tenant_id
                        (λ e. record e {
                          driver_phone = new.driver_phone;
                          amount_minor = new.amount_minor;
                        })
                        db.driver_earnings (λ x k. ground arith) h.row;
                })
        ]
      ]

  upsert_delivery-earnings :
      (new : Delivery) (db : DeliveryTables)
      → (upsert_delivery new db).1.driver_earnings ≡ db.driver_earnings
  upsert_delivery-earnings new db = ground arith

  close_due-HasSettled :
      (t : Uuid) (phone : String) (at : ℕ) (db : DeliveryTables)
      → HasSettled p db
      → HasSettled p (record db { driver_earnings = close_due t phone at db.driver_earnings })
  close_due-HasSettled t phone at db h = record {
    row =
        any-update (settled_with p) (is_due phone) t
          (λ e. record e { settled = true; settled_at = some at }) db.driver_earnings
          (λ x k. ground arith) h.row;
  }

  module _ {X : Type 0} where
    assign-HasSettled :
        (tenant_id : String) (id order : Uuid) (driver : Driver) (earning : Number)
        → Keeps {X = X} (HasSettled p) (assign tenant_id id order driver earning)
    unfolding assign
    assign-HasSettled tenant_id id order driver earning = elim (Option-cases (amount_of earning)) [
      | inl e ↦ rw (assign, e) (record { at = λ w h. h })
      | inr (amount, e) ↦
          rw (assign, e)
            (Keeps-with_tenant_all tenant_id (assign_in id order driver amount) (λ t.
              Keeps-statement (upsert_delivery (new_delivery id t order driver)) (λ d h. record {
                row =
                    subst (λ rows. any (settled_with p) rows ≡ true)
                      (sym (upsert_delivery-earnings (new_delivery id t order driver) d)) h.row;
              })
              ▹ λ d.
                  Keeps-statement (upsert_earning order (new_earning t order driver amount))
                    (upsert_earning-HasSettled order (new_earning t order driver amount))
                  ▹ λ _. Keeps-lift (ok d)))
    ]

module _ {X : Type 0} where
  abbrev pub perform : DeliveryCall → World DeliveryTables X → World DeliveryTables X
  perform (assign_driver tenant id order driver earning) w =
      (assign tenant id order driver earning w).1
  perform (change_status tenant id status) w = (set_status tenant id status w).1
  perform (settle_driver tenant phone at) w = (settle tenant phone at w).1

  -- The calls one after the other, whether each returns or throws.
  abbrev pub run : List DeliveryCall → World DeliveryTables X → World DeliveryTables X
  run [] w = w
  run (c ∷ cs) w = run cs (perform c w)

  perform-HasSettled :
      (p : DriverEarning → Bool) (c : DeliveryCall) (w : World DeliveryTables X)
      → HasSettled p w.db
      → HasSettled p (perform c w).db
  unfolding set_status settle
  perform-HasSettled p (assign_driver tenant id order driver earning) w h =
      (assign-HasSettled p tenant id order driver earning).at w h
  perform-HasSettled p (change_status tenant id status) w h =
      (Keeps-with_tenant_all {X = X} {P = HasSettled p} tenant _
          (λ t. Keeps-statement _ (λ d k. record { row = k.row }))).at
        w h
  perform-HasSettled p (settle_driver tenant phone at) w h =
      (Keeps-with_tenant_all {X = X} {P = HasSettled p} tenant _
          (λ t. Keeps-execute _ (close_due-HasSettled p t phone at))).at
        w h

  -- Whatever test a settled earning of the ledger passes, a settled earning that passes it is
  -- there after any sequence of calls of assign, setStatus and settle, of any tenants,
  -- whether each returns or throws: a settled earning is never changed or removed.
  pub run-HasSettled :
      (p : DriverEarning → Bool) (cs : List DeliveryCall) (w : World DeliveryTables X)
      → HasSettled p w.db
      → HasSettled p (run cs w).db
  run-HasSettled p [] w h = h
  run-HasSettled p (c ∷ cs) w h = run-HasSettled p cs (perform c w) (perform-HasSettled p c w h)
