-- ===== src/Reviews.antt =====
-- src/vertical/restaurants/review.service.ts, beside the tables of Orders/Tables. The text of a review is
-- left out.
pub mod Earned
mod Tests
use peer_core.Tenancy.Rows.{select, select_one, Scoped}
use peer_core.Tenancy.{with_tenant, Uuid}
use peer_core.Base.{
  length, ◌++◌, ◌==◌, ◌+◌, leb, any, ℕ, List, String, ◌&&◌, if◌then◌else◌, [], ◌∷◌, none, some,
  true, false, refl, zero, suc, inl, inr, Option, find, ap,
}
use peer_core.Action.{statement, query, ◌>>◌, throw, consult, Action, Result, ok, err}
use peer_core.Base.Int.{pos, negsuc}
use peer_core.Orders.State.{same_status, complete}
use peer_core.Orders.Pricing.{Number, integer, other}
use peer_core.Orders.Tables.{Tables, Order-scoped}
use peer_core.Errors.{
  validation_error, bad_rating, review_error, order_not_complete, ReviewCode, database,
  unique_violation,
}

pub record Review : Type 0 where
  pub id : Uuid
  pub tenant_id : Uuid
  pub order_id : Uuid
  pub rating : ℕ

pub record Feedback : Type 0 where
  pub base : Tables
  pub reviews : List Review

-- The count and the sum of the ratings, whose quotient is the average (0 if there are none).
pub record Summary : Type 0 where
  pub count : ℕ
  pub total : ℕ

instance abbrev pub Review-scoped : Scoped Review
Review-scoped = record { tenant_of = λ r. r.tenant_id }

-- The rating, if it is a whole number from 1 to 5.
abbrev pub rating_of : Number → Option ℕ
rating_of (integer (pos n)) = if leb 1 n && leb n 5 then some n else none
rating_of (integer (negsuc n)) = none
rating_of other = none

-- uq_reviews_order spans the tenants.
abbrev pub insert_review : Review → Feedback → Result Review × Feedback
insert_review row db =
    if any (λ r. r.order_id == row.order_id) db.reviews
    then (err (database unique_violation), db)
    else (ok row, record db { reviews = db.reviews ++ row ∷ [] })

abbrev pub sum_ratings : List Review → ℕ
sum_ratings [] = 0
sum_ratings (r ∷ rs) = r.rating + sum_ratings rs

-- The order is found, and is complete.
abbrev reviewed : Uuid → Uuid → Tables → Result (Unit {0})
reviewed t order db = elim (select_one t (λ o. o.id == order) db.orders) [
  | none ↦ err (review_error ReviewCode.not_found)
  | some o ↦ if same_status o.status complete then ok tt else err (review_error order_not_complete)
]

abbrev pub review_at : Uuid → Uuid → Uuid → ℕ → Review
review_at id t order rating = record { id = id; tenant_id = t; order_id = order; rating = rating }

module _ {X : Type 0} where
  abbrev submit_in : Uuid → Uuid → ℕ → Uuid → Action Feedback X Review
  submit_in id order rating t =
      consult (λ db. reviewed t order db.base)
      >> statement (insert_review (review_at id t order rating))

  -- `id` is what Postgres draws.
  unfoldable pub submit : String → Uuid → Uuid → Number → Action Feedback X Review
  submit tenant_id id order rating = elim (rating_of rating) [
    | none ↦ throw (validation_error bad_rating)
    | some n ↦ with_tenant tenant_id (submit_in id order n)
  ]

  unfoldable pub summary : String → Action Feedback X Summary
  summary tenant_id = with_tenant tenant_id (λ t. query (λ db.
      let rows = select t (λ r. true) db.reviews in
      record { count = length rows; total = sum_ratings rows }))
