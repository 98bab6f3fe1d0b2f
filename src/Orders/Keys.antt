-- ===== src/Orders/Keys.antt =====
-- The primary key of `orders` (src/db/schema.ts), and what it makes of two updates in a row.
-- No two orders have one id.
use peer_core.Orders.Transition.{unchanged}
use peer_core.Tenancy.Rows.{sees, select_one, update}
use peer_core.Orders.State.{same_status, OrderStatus}
use peer_core.Tenancy.{Uuid}
use peer_core.Base.{
  ◌∙◌, sym, ==_iff, subst, if◌then◌else◌, Bool-cases, arith, ◌==◌, ◌≢◌, ◌≡◌, All, Bool, List, [],
  ◌∷◌, some, true, false, refl, inl, inr,
}
use peer_core.Orders.Tables.{
  Order, CatalogItem-scoped, MenuAvailability-scoped, Branch-scoped, Promotion-scoped, Order-scoped,
  OrderItem-scoped, OrderEvent-scoped, LoyaltyAccount-scoped,
}

abbrev pub UniqueIds : List Order → Type 0
UniqueIds [] = Unit {0}
UniqueIds (o ∷ os) = All (λ r. r.id ≢ o.id) os × UniqueIds os

abbrev pub with_id : Uuid → Order → Bool
with_id k r = r.id == k

-- A change that leaves an order its id and its tenant.
pub record IsLocal (f : Order → Order) : Type 0 where
  pub id : (o : Order) → (f o).id ≡ o.id
  pub tenant : (o : Order) → (f o).tenant_id ≡ o.tenant_id

module _ (t : Uuid) (p : Order → Bool) (f : Order → Order) (keep : IsLocal f) where
  update-All_ids :
      (k : Uuid) (os : List Order) → All (λ r. r.id ≢ k) os → All (λ r. r.id ≢ k) (update t p f os)
  unfolding update
  update-All_ids k [] h = tt
  update-All_ids k (o ∷ os) h = ground (arith, keep.id o, update-All_ids k os h.1)

  id_kept : (b : Bool) (o : Order) → o.id ≡ (if b then f o else o).id
  id_kept true o = sym (keep.id o)
  id_kept false o = refl

  pub update-UniqueIds : (os : List Order) → UniqueIds os → UniqueIds (update t p f os)
  unfolding update
  update-UniqueIds [] h = tt
  update-UniqueIds (o ∷ os) h = (
    subst (λ k. All (λ r. r.id ≢ k) (update t p f os)) (id_kept (sees t p o) o)
        (update-All_ids o.id os h.0),
    update-UniqueIds os h.1,
  )

-- An update by an id that is not there changes nothing.
pub update-absent :
    (t k : Uuid) (p : Order → Bool) (f : Order → Order) (os : List Order)
    → ((r : Order) → p r ≡ true → r.id ≡ k)
    → All (λ r. r.id ≢ k) os
    → update t p f os ≡ os
unfolding update
update-absent t k p f [] only h = refl
update-absent t k p f (o ∷ os) only h = ground (arith, only o, update-absent t k p f os only h.1)

pub same_status_self : (s : OrderStatus) → same_status s s ≡ true
same_status_self s = ground arith

pub unchanged-id : (order r : Order) → unchanged order r ≡ true → r.id ≡ order.id
unchanged-id order r h = ground arith

module _ (t : Uuid) (f g : Order → Order) (keep : IsLocal f) where
  claim_head :
      (o : Order)
      → sees t (with_id o.id) o ≡ true
      → (let o' = if sees t (unchanged o) o then f o else o in
          if sees t (with_id o.id) o' then g o' else o')
        ≡ g (f o)
  claim_head o h = ground (arith, keep.id o, keep.tenant o, same_status_self o.status)

  claim_tail :
      (order : Order) (os : List Order)
      → All (λ r. r.id ≢ order.id) os
      → update t (with_id order.id) g (update t (unchanged order) f os)
        ≡ update t (with_id order.id) (λ r. g (f r)) os
  claim_tail order os h = rw (
    update-absent t order.id (unchanged order) f os (unchanged-id order) h,
    update-absent t order.id (with_id order.id) g os (λ r e. (==_iff r.id order.id).0 e) h,
    update-absent t order.id (with_id order.id) (λ r. g (f r)) os
        (λ r e. (==_iff r.id order.id).0 e) h,
  )

  claim_cons :
      (o : Order) (os : List Order)
      → sees t (with_id o.id) o ≡ true
      → All (λ r. r.id ≢ o.id) os
      → update t (with_id o.id) g (update t (unchanged o) f (o ∷ os))
        ≡ update t (with_id o.id) (λ r. g (f r)) (o ∷ os)
  unfolding update
  claim_cons o os h absent =
      let after : g (f o) ≡ (if sees t (with_id o.id) o then g (f o) else o) = ground arith in
      λ i. (claim_head o h ∙ after) i ∷ claim_tail o os absent i

  -- Where ids are unique, the claim and an update by the loaded order's id hit one row, the order.
  pub update-claim :
      (order : Order) (os : List Order)
      → UniqueIds os
      → select_one t (with_id order.id) os ≡ some order
      → update t (with_id order.id) g (update t (unchanged order) f os)
        ≡ update t (with_id order.id) (λ r. g (f r)) os
  unfolding update select_one
  update-claim order [] u e = refl
  update-claim order (o ∷ os) u e = elim (Bool-cases (sees t (with_id order.id) o)) [
    | inl hit ↦
        let same : o ≡ order = ground arith in
        subst
          (λ x.
            update t (with_id x.id) g (update t (unchanged x) f (o ∷ os))
            ≡ update t (with_id x.id) (λ r. g (f r)) (o ∷ os))
          same (claim_cons o os (ground arith) u.0)
    | inr miss ↦ ground (arith, update-claim order os u.1, unchanged-id order o)
  ]

module _ (P : Order → Type 0) (t : Uuid) where
  -- What holds of every order holds of the one that a query loads.
  pub All-select_one :
      (p : Order → Bool) (os : List Order) (order : Order)
      → All P os
      → select_one t p os ≡ some order
      → P order
  unfolding select_one
  All-select_one p [] order h e = cc
  All-select_one p (o ∷ os) order h e = elim (Bool-cases (sees t p o)) [
    | inl hit ↦ let same : o ≡ order = ground arith in subst P same h.0
    | inr miss ↦ All-select_one p os order h.1 (ground arith)
  ]

  -- An update of the loaded order by its id.
  pub All-update :
      (f : Order → Order) (os : List Order) (order : Order)
      → UniqueIds os
      → select_one t (with_id order.id) os ≡ some order
      → All P os
      → P (f order)
      → All P (update t (with_id order.id) f os)
  unfolding select_one update
  All-update f [] order u e h new = tt
  All-update f (o ∷ os) order u e h new = elim (Bool-cases (sees t (with_id order.id) o)) [
    | inl hit ↦
        let same : o ≡ order = ground arith in
        let rest : update t (with_id order.id) f os ≡ os =
          update-absent t order.id (with_id order.id) f os (λ r i. (==_iff r.id order.id).0 i)
            (subst (λ x. All (λ r. r.id ≢ x.id) os) same u.0) in
        rw (hit, rest) (subst (λ x. P (f x)) (sym same) new, h.1)
    | inr miss ↦ rw miss (h.0, All-update f os order u.1 (ground arith) h.1 new)
  ]

update_self : (t : Uuid) (p : Order → Bool) (os : List Order) → update t p (λ r. r) os ≡ os
unfolding update
update_self t p [] = refl
update_self t p (o ∷ os) = ground (arith, update_self t p os)

-- The claim alone, as an update by the id.
pub update-unchanged :
    (t : Uuid) (f : Order → Order) (order : Order) (os : List Order)
    → IsLocal f
    → UniqueIds os
    → select_one t (with_id order.id) os ≡ some order
    → update t (unchanged order) f os ≡ update t (with_id order.id) f os
update-unchanged t f order os keep u e =
    sym (update_self t (with_id order.id) (update t (unchanged order) f os))
    ∙ update-claim t f (λ r. r) keep order os u e
