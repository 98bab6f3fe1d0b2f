-- ===== src/Reviews/Earned.antt =====
-- Which reviews there can be (src/vertical/restaurants/review.service.ts).
use peer_core.Tenancy.Keeps.{Keeps-with_tenant_all}
use peer_core.Tenancy.Keys.{Unique}
use peer_core.Action.Keeps.{Keeps}
use peer_core.Tenancy.Rows.{sees, select_one}
use peer_core.Tenancy.{Uuid}
use peer_core.Base.{
  sym, subst, ◌≢◌, All-concat, ◌++◌, Bool-cases, arith, Bool, any, ◌==◌, Option-cases, ◌≡◌, List,
  All, leb, String, ℕ, ◌&&◌, [], ◌∷◌, some, true, false, refl, inl, inr,
}
use peer_core.Action.{World}
use peer_core.Base.Int.{pos, negsuc}
use peer_core.Orders.Pricing.{Number, integer, other}
use peer_core.Reviews.{
  review_at, rating_of, Feedback, Review, submit, submit_in, reviewed, Review-scoped,
}
use peer_core.Orders.State.{complete, same_status}
use peer_core.Orders.Tables.{Order, Order-scoped}

-- The order of the review, of the same tenant, and complete.
abbrev pub is_for : Review → Order → Bool
is_for r o = (o.id == r.order_id) && (o.tenant_id == r.tenant_id) && same_status o.status complete

-- Every review rates from 1 to 5 a complete order of its tenant, and no two rate one order.
pub record IsEarned (db : Feedback) : Type 0 where
  pub ratings : All (λ r. (leb 1 r.rating && leb r.rating 5) ≡ true) db.reviews
  pub orders : All (λ r. any (is_for r) db.base.orders ≡ true) db.reviews
  pub once : Unique (λ r. r.order_id) db.reviews

any-select_one :
    (t : Uuid) (order : Uuid) (r : Review) (o : Order) (os : List Order)
    → select_one t (λ x. x.id == order) os ≡ some o
    → same_status o.status complete ≡ true
    → r.order_id ≡ order
    → r.tenant_id ≡ t
    → any (is_for r) os ≡ true
unfolding select_one
any-select_one t order r o [] h k e f = absurd (ground arith)
any-select_one t order r o (x ∷ os) h k e f = elim (Bool-cases (sees t (λ x. x.id == order) x)) [
  | inl hit ↦
      let same : x ≡ o = ground arith in
      let done = subst (λ y. same_status y.status complete ≡ true) (sym same) k in
      let here : is_for r x ≡ true = ground arith in rw here refl
  | inr miss ↦ let ih = any-select_one t order r o os (ground arith) k e f in rw ih (ground arith)
]

Unique-concat :
    {A : Type 0} (key : A → ℕ) (xs : List A) (x : A)
    → any (λ y. key y == key x) xs ≡ false
    → Unique key xs
    → Unique key (xs ++ x ∷ [])
Unique-concat key [] x h u = (tt, tt)
Unique-concat key (y ∷ xs) x h u = (
  All-concat (λ z. key z ≢ key y) xs x u.0 (λ same. absurd (ground arith)),
  Unique-concat key xs x (ground arith) u.1,
)

rating_of-range :
    (rating : Number) (n : ℕ) → rating_of rating ≡ some n → (leb 1 n && leb n 5) ≡ true
rating_of-range (integer (pos m)) n h = ground arith
rating_of-range (integer (negsuc m)) n h = absurd (ground arith)
rating_of-range other n h = absurd (ground arith)

module _ {X : Type 0} where
  submit_in-IsEarned :
      (id order : Uuid) (n : ℕ) (t : Uuid)
      → (leb 1 n && leb n 5) ≡ true
      → Keeps {X = X} IsEarned (submit_in id order n t)
  submit_in-IsEarned id order n t fits = record {
    at = λ w h. elim (Option-cases (select_one t (λ o. o.id == order) w.db.base.orders)) [
      | inl e ↦ rw (submit_in, reviewed, e) h
      | inr (o, e) ↦ elim (Bool-cases (same_status o.status complete)) [
        | inr f ↦ rw (submit_in, reviewed, e, f) h
        | inl f ↦ elim (Bool-cases (any (λ r. r.order_id == order) w.db.reviews)) [
          | inl g ↦ rw (submit_in, reviewed, e, f, g) h
          | inr g ↦
              rw (submit_in, reviewed, e, f, g)
                (record {
                  ratings = All-concat _ w.db.reviews (review_at id t order n) h.ratings fits;
                  orders =
                      All-concat (λ r. any (is_for r) w.db.base.orders ≡ true) w.db.reviews
                        (review_at id t order n) h.orders
                        (any-select_one t order (review_at id t order n) o w.db.base.orders e f refl
                          refl);
                  once =
                      Unique-concat (λ r. r.order_id) w.db.reviews (review_at id t order n) g
                        h.once;
                })
        ]
      ]
    ];
  }

  -- Where every review rates from 1 to 5 an order of its tenant that is COMPLETE and no two
  -- rate one order, this is so after a call of submit, whether it returns or throws.
  pub submit-IsEarned :
      (tenant_id : String) (id order : Uuid) (rating : Number) (w : World Feedback X)
      → IsEarned w.db
      → IsEarned (submit tenant_id id order rating w).1.db
  unfolding submit
  submit-IsEarned tenant_id id order rating w h = elim (Option-cases (rating_of rating)) [
    | inl e ↦ rw (submit, e) h
    | inr (n, e) ↦
        rw (submit, e)
          ((Keeps-with_tenant_all tenant_id (submit_in id order n)
              (λ t. submit_in-IsEarned id order n t (rating_of-range rating n e))).at
            w h)
  ]
