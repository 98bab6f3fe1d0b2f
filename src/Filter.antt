-- ===== src/Filter.antt =====
-- src/common/domain-exception.filter.ts: the status and the code that answer an exception. The message
-- is left out.
pub mod Domain
mod Tests
use peer_core.Errors.{Error}
use peer_core.Base.{
  ◌==◌, lookup, str_eq, any, is_truthy, List, or_default, ℕ, String, Map, ◌&&◌, if◌then◌else◌, [],
  ◌∷◌, none, some, true, false, refl, zero, suc, inl, inr, Option, find, ap,
}
use peer_core.Action.{ok, err}
use peer_core.Base.Int.{pos, negsuc}
use peer_core.Errors

-- What is sent.
pub record Envelope : Type 0 where
  pub status : ℕ
  pub code : String

abbrev domain_errors : List String
domain_errors =
    "OrderError" ∷ "PaymentError" ∷ "DispatchError" ∷ "AuthError" ∷ "ReservationError"
    ∷ "ReviewError" ∷ "ValidationError" ∷ []

abbrev status_for : Map ℕ
status_for =
    ("unauthenticated", 401)
    ∷ ("forbidden", 403)
    ∷ ("not_found", 404)
    ∷ ("unknown_tool", 404)
    ∷ ("invalid_phone", 400)
    ∷ ("bad_item", 400)
    ∷ ("bad_modifier", 400)
    ∷ ("bad_promo", 400)
    ∷ ("bad_schedule", 400)
    ∷ ("invalid_otp", 400)
    ∷ ("otp_locked", 429)
    ∷ ("unavailable", 409)
    ∷ ("closed", 409)
    ∷ ("below_minimum", 409)
    ∷ ("slot_taken", 409)
    ∷ ("over_capacity", 409)
    ∷ ("confirmation_required", 409)
    ∷ ("illegal_transition", 409)
    ∷ ("conflict", 409)
    ∷ ("order_not_complete", 409)
    ∷ ("declined", 402)
    ∷ []

abbrev name_for_status : ℕ → Option String
name_for_status n =
    if n == 400
    then some "bad_request"
    else if n == 401
    then some "unauthorized"
    else if n == 402
    then some "payment_required"
    else if n == 403
    then some "forbidden"
    else if n == 404
    then some "not_found"
    else if n == 409
    then some "conflict"
    else if n == 429
    then some "too_many_requests"
    else none

abbrev order_text : Errors.OrderCode → String
order_text Errors.OrderCode.not_found = "not_found"
order_text Errors.bad_item = "bad_item"
order_text Errors.unavailable = "unavailable"
order_text Errors.OrderCode.bad_modifier = "bad_modifier"
order_text Errors.OrderCode.bad_promo = "bad_promo"
order_text Errors.below_minimum = "below_minimum"
order_text Errors.closed = "closed"
order_text Errors.bad_schedule = "bad_schedule"
order_text Errors.conflict = "conflict"
order_text Errors.OrderCode.illegal_transition = "illegal_transition"

abbrev payment_text : Errors.PaymentCode → String
payment_text Errors.declined = "declined"
payment_text Errors.PaymentCode.not_found = "not_found"
payment_text Errors.PaymentCode.illegal_transition = "illegal_transition"

abbrev reservation_text : Errors.ReservationCode → String
reservation_text Errors.no_table = "no_table"
reservation_text Errors.over_capacity = "over_capacity"
reservation_text Errors.slot_taken = "slot_taken"
reservation_text Errors.ReservationCode.not_found = "not_found"
reservation_text Errors.bad_status = "bad_status"

abbrev auth_text : Errors.AuthCode → String
auth_text Errors.unauthenticated = "unauthenticated"
auth_text Errors.AuthCode.forbidden = "forbidden"
auth_text Errors.invalid_otp = "invalid_otp"
auth_text Errors.otp_locked = "otp_locked"
auth_text Errors.invalid_phone = "invalid_phone"

abbrev dispatch_text : Errors.DispatchCode → String
dispatch_text Errors.unknown_tool = "unknown_tool"
dispatch_text Errors.DispatchCode.forbidden = "forbidden"
dispatch_text Errors.confirmation_required = "confirmation_required"

abbrev review_text : Errors.ReviewCode → String
review_text Errors.ReviewCode.not_found = "not_found"
review_text Errors.order_not_complete = "order_not_complete"

abbrev validation_text : Errors.ValidationCode → String
validation_text Errors.invalid_input = "invalid_input"
validation_text Errors.ValidationCode.bad_modifier = "bad_modifier"
validation_text Errors.ValidationCode.bad_promo = "bad_promo"
validation_text Errors.bad_rating = "bad_rating"

-- An error of Postgres has its SQLSTATE for a code.
abbrev sql_text : Errors.SqlState → String
sql_text Errors.unique_violation = "23505"
sql_text Errors.check_violation = "23514"
sql_text Errors.exclusion_violation = "23P01"
sql_text Errors.insufficient_privilege = "42501"
sql_text Errors.foreign_key_violation = "23503"
sql_text Errors.invalid_text_representation = "22P02"

-- The `name` and the `code` of an error.
abbrev pub labels : Error → String × Option String
labels (Errors.order_error c) = ("OrderError", some (order_text c))
labels (Errors.payment_error c) = ("PaymentError", some (payment_text c))
labels (Errors.reservation_error c) = ("ReservationError", some (reservation_text c))
labels (Errors.auth_error c) = ("AuthError", some (auth_text c))
labels (Errors.dispatch_error c) = ("DispatchError", some (dispatch_text c))
labels (Errors.review_error c) = ("ReviewError", some (review_text c))
labels (Errors.validation_error c) = ("ValidationError", some (validation_text c))
labels Errors.plain = ("Error", none)
labels (Errors.database s) = ("error", some (sql_text s))
labels (Errors.http_error status) = ("HttpException", none)

abbrev internal : Envelope
internal = record { status = 500; code = "internal_error" }

abbrev answer : String → Option String → Envelope
answer name none = internal
answer name (some code) =
    if is_truthy code && is_truthy name && any (λ d. str_eq d name) domain_errors
    then record { status = or_default (lookup code status_for) 400; code = code }
    else internal

-- `DomainExceptionFilter.catch`
unfoldable pub catch_exception : Error → Envelope
catch_exception (Errors.http_error status) = record {
  status = status;
  code = or_default (name_for_status status) "error";
}
catch_exception e = let (name, code) = labels e in answer name code
