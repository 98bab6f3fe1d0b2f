-- ===== src/Orders/Moves.antt =====
-- How far an order has come, and the transitions that the table of order events has of it
-- (src/vertical/restaurants/order.service.ts).
pub mod Made
pub mod Counted
use peer_core.Base.{
  ◌&&◌, if◌then◌else◌, [], ◌∷◌, none, some, true, false, refl, zero, suc, inl, inr, Option, find,
  ap, ℕ, ◌≡◌, ◌≤◌, ◌<◌, ◌==◌, ◌∙◌, ==_iff, sym, arith, subst, Bool, Bool-cases, List, ◌+◌, ◌++◌,
}
use peer_core.Action.{ok, err}
use peer_core.Base.Int.{pos, negsuc}
use peer_core.Orders.State.Diagram.{rank, rank_grows, rank-le}
use peer_core.Orders.State.{OrderStatus, can_transition, same_status}
use peer_core.Orders.Keys.{with_id, same_status_self}
use peer_core.Orders.Transition.{unchanged, with_status, with_payment, moved_event}
use peer_core.Payments.{PaymentStatus}
use peer_core.Orders.Tables.{Tables, Order, Order-scoped, OrderEvent}
use peer_core.Tenancy.Rows.{sees, select_one, update}
use peer_core.Tenancy.{Uuid}

abbrev pub rank_of : Option Order → ℕ
rank_of none = 0
rank_of (some o) = rank o.status

-- The rank of the tenant's order with the id, 0 if there is none.
abbrev pub rank_in : Uuid → Uuid → List Order → ℕ
rank_in u k os = rank_of (select_one u (with_id k) os)

same_status-rank : (a b : OrderStatus) → same_status a b ≡ true → rank a ≡ rank b
same_status-rank a b h = ground arith

module _ (u k : Uuid) where
  claim_cons :
      (b : Bool) (o : Order) (to : OrderStatus) (before after : List Order)
      → (b ≡ true → rank o.status ≤ rank to)
      → rank_in u k before ≤ rank_in u k after
      → rank_in u k (o ∷ before) ≤ rank_in u k ((if b then with_status to o else o) ∷ after)
  unfolding select_one
  claim_cons true o to before after grows rest = elim (Bool-cases (sees u (with_id k) o)) [
    | inl hit ↦ rw hit (grows refl)
    | inr miss ↦ rw miss rest
  ]
  claim_cons false o to before after grows rest = elim (Bool-cases (sees u (with_id k) o)) [
    | inl hit ↦ rw hit (omega arith)
    | inr miss ↦ rw miss rest
  ]

  own_rank :
      (t : Uuid) (order o : Order) (to : OrderStatus)
      → can_transition order.status to ≡ true
      → sees t (unchanged order) o ≡ true
      → rank o.status ≤ rank to
  own_rank t order o to legal own =
      let grows = rank_grows order.status to legal in
      let was = same_status-rank o.status order.status (ground arith) in omega (arith, was, grows)

  -- A claim takes no order back.
  rank-claim :
      (t : Uuid) (order : Order) (to : OrderStatus) (os : List Order)
      → can_transition order.status to ≡ true
      → rank_in u k os ≤ rank_in u k (update t (unchanged order) (with_status to) os)
  unfolding update
  rank-claim t order to [] legal = omega arith
  rank-claim t order to (o ∷ os) legal =
      claim_cons (sees t (unchanged order) o) o to os
        (update t (unchanged order) (with_status to) os) (own_rank t order o to legal)
        (rank-claim t order to os legal)

  payment_cons :
      (b : Bool) (o : Order) (st : PaymentStatus) (before after : List Order)
      → rank_in u k after ≡ rank_in u k before
      → rank_in u k ((if b then with_payment st o else o) ∷ after) ≡ rank_in u k (o ∷ before)
  unfolding select_one
  payment_cons true o st before after rest = elim (Bool-cases (sees u (with_id k) o)) [
    | inl hit ↦ rw hit refl
    | inr miss ↦ rw miss rest
  ]
  payment_cons false o st before after rest = elim (Bool-cases (sees u (with_id k) o)) [
    | inl hit ↦ rw hit refl
    | inr miss ↦ rw miss rest
  ]

  -- Nor does a change of the payment.
  pub rank-payment :
      (t : Uuid) (p : Order → Bool) (st : PaymentStatus) (os : List Order)
      → rank_in u k (update t p (with_payment st) os) ≡ rank_in u k os
  unfolding update
  rank-payment t p st [] = refl
  rank-payment t p st (o ∷ os) =
      payment_cons (sees t p o) o st os (update t p (with_payment st) os) (rank-payment t p st os)

  -- Nor does an insert.
  pub rank-insert : (o : Order) (os : List Order) → rank_in u k os ≤ rank_in u k (os ++ o ∷ [])
  unfolding select_one
  rank-insert o [] = omega arith
  rank-insert o (r ∷ os) = elim (Bool-cases (sees u (with_id k) r)) [
    | inl hit ↦ rw hit (omega arith)
    | inr miss ↦ rw miss (rank-insert o os)
  ]

module _ (t k : Uuid) (to : OrderStatus) where
  found_head :
      (b : Bool) (o : Order) (os : List Order)
      → b ≡ true
      → sees t (with_id k) o ≡ true
      → rank_in t k ((if b then with_status to o else o) ∷ os) ≡ rank to
  unfolding select_one
  found_head true o os own hit = rw hit refl
  found_head false o os own hit = absurd (cc)

  found_tail :
      (b : Bool) (o : Order) (os : List Order)
      → sees t (with_id k) o ≡ false
      → rank_in t k ((if b then with_status to o else o) ∷ os) ≡ rank_in t k os
  unfolding select_one
  found_tail true o os miss = rw miss refl
  found_tail false o os miss = rw miss refl

  -- The order that a query by id finds is claimed.
  rank-claimed :
      (order : Order) (os : List Order)
      → select_one t (with_id k) os ≡ some order
      → rank_in t k (update t (unchanged order) (with_status to) os) ≡ rank to
  unfolding select_one update
  rank-claimed order [] e = absurd (ground arith)
  rank-claimed order (o ∷ os) e = elim (Bool-cases (sees t (with_id k) o)) [
    | inl hit ↦
        let same : o ≡ order = ground arith in
        let own : sees t (unchanged order) o ≡ true =
          subst (λ x. sees t (unchanged x) o ≡ true) same
            (ground (arith, same_status_self o.status, hit)) in
        found_head (sees t (unchanged order) o) o _ own hit
    | inr miss ↦
        found_tail (sees t (unchanged order) o) o _ miss ∙ rank-claimed order os (ground arith)
  ]

-- A transition of the tenant's order; the event of a checkout has no status before it.
abbrev is_move : Uuid → Uuid → OrderEvent → Bool
is_move u k e =
    (e.tenant_id == u) && (e.order_id == k) && elim e.from_status [ none ↦ false | some st ↦ true ]

-- The transitions that are recorded of an order.
abbrev pub moves : Uuid → Uuid → List OrderEvent → ℕ
moves u k [] = 0
moves u k (e ∷ es) = (if is_move u k e then 1 else 0) + moves u k es

pub moves-snoc :
    (u k : Uuid) (e : OrderEvent) (es : List OrderEvent)
    → moves u k (es ++ e ∷ []) ≡ moves u k es + (if is_move u k e then 1 else 0)
moves-snoc u k e [] = omega arith
moves-snoc u k e (x ∷ es) = omega (arith, moves-snoc u k e es)

-- No more transitions are recorded than the order has come far.
abbrev pub IsPaced : Uuid → Uuid → Tables → Type 0
IsPaced u k db = moves u k db.order_events ≤ rank_in u k db.orders

-- A claim of the order that was loaded, with its event.
pub claim-IsPaced :
    (u k t : Uuid) (order : Order) (to : OrderStatus) (db : Tables)
    → select_one t (with_id order.id) db.orders ≡ some order
    → can_transition order.status to ≡ true
    → IsPaced u k db
    → moves u k (db.order_events ++ moved_event t order to ∷ [])
      ≤ rank_in u k (update t (unchanged order) (with_status to) db.orders)
claim-IsPaced u k t order to db found legal h =
    let snoc = moves-snoc u k (moved_event t order to) db.order_events in
    elim (Bool-cases (is_move u k (moved_event t order to))) [
      | inl own ↦
          let t_u : t ≡ u = ground (arith, ==_iff t u) in
          let id_k : order.id ≡ k = ground (arith, ==_iff order.id k) in
          let grows = rank_grows order.status to legal in
          let at_k : select_one u (with_id k) db.orders ≡ some order =
            subst (λ x. select_one x (with_id k) db.orders ≡ some order) t_u
              (subst (λ x. select_one t (with_id x) db.orders ≡ some order) id_k found) in
          let before : rank_in u k db.orders ≡ rank order.status = ap rank_of at_k in
          let after : rank_in u k (update t (unchanged order) (with_status to) db.orders)
              ≡ rank to =
            subst
              (λ x. rank_in u k (update x (unchanged order) (with_status to) db.orders) ≡ rank to)
              (sym t_u) (rank-claimed u k to order db.orders at_k) in
          let counted : moves u k (db.order_events ++ moved_event t order to ∷ [])
              ≡ moves u k db.order_events + 1 =
            snoc ∙ rw own refl in
          omega (arith, counted, h, before, after, grows)
      | inr other ↦
          let kept = rank-claim u k t order to db.orders legal in
          let counted : moves u k (db.order_events ++ moved_event t order to ∷ [])
              ≡ moves u k db.order_events + 0 =
            snoc ∙ rw other refl in
          omega (arith, counted, h, kept)
    ]
