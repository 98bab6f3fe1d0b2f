-- ===== src/Filter/Domain.antt =====
-- How errors are answered (src/common/domain-exception.filter.ts).
use peer_core.Errors.{Error}
use peer_core.Base.{
  none, Option, inr, ◌⊎◌, ltb, leb, Bool, ◌≡◌, ℕ, ◌&&◌, some, true, false, refl, inl,
}
use peer_core.Errors
use peer_core.Filter.{labels, catch_exception}

-- The error is of a class of the services, and not a bare `Error`, one of Postgres or one of Nest.
abbrev pub is_domain : Error → Bool
is_domain Errors.plain = false
is_domain (Errors.database s) = false
is_domain (Errors.http_error status) = false
is_domain _ = true

abbrev pub http_status : Error → Option ℕ
http_status (Errors.http_error status) = some status
http_status _ = none

-- A status for a fault of the request.
abbrev pub is_client : ℕ → Bool
is_client n = leb 400 n && ltb n 500

-- An HttpException of Nest is answered with its own status; an error of the classes of the
-- services with its own code and a status from 400 to 499; a bare Error and an error of
-- Postgres with status 500 and the code `internal_error`, which tells nothing of them.
pub catch_exception-thrown :
    (e : Error)
    → let a = catch_exception e in
      ((is_domain e ≡ true) × ((labels e).1 ≡ some a.code) × (is_client a.status ≡ true))
      ⊎ (http_status e ≡ some a.status)
      ⊎ ((is_domain e ≡ false) × (a.status ≡ 500) × (a.code ≡ "internal_error"))
unfolding catch_exception
catch_exception-thrown (Errors.order_error Errors.closed) = inl (refl, refl, refl)
catch_exception-thrown (Errors.order_error _) = inl (refl, refl, refl)
catch_exception-thrown (Errors.payment_error Errors.declined) = inl (refl, refl, refl)
catch_exception-thrown (Errors.payment_error _) = inl (refl, refl, refl)
catch_exception-thrown (Errors.reservation_error Errors.no_table) = inl (refl, refl, refl)
catch_exception-thrown (Errors.reservation_error _) = inl (refl, refl, refl)
catch_exception-thrown (Errors.auth_error Errors.otp_locked) = inl (refl, refl, refl)
catch_exception-thrown (Errors.auth_error _) = inl (refl, refl, refl)
catch_exception-thrown (Errors.dispatch_error Errors.unknown_tool) = inl (refl, refl, refl)
catch_exception-thrown (Errors.dispatch_error _) = inl (refl, refl, refl)
catch_exception-thrown (Errors.review_error Errors.order_not_complete) = inl (refl, refl, refl)
catch_exception-thrown (Errors.review_error _) = inl (refl, refl, refl)
catch_exception-thrown (Errors.validation_error Errors.bad_rating) = inl (refl, refl, refl)
catch_exception-thrown (Errors.validation_error _) = inl (refl, refl, refl)
catch_exception-thrown Errors.plain = inr (inr (refl, refl, refl))
catch_exception-thrown (Errors.database Errors.unique_violation) = inr (inr (refl, refl, refl))
catch_exception-thrown (Errors.database _) = inr (inr (refl, refl, refl))
catch_exception-thrown (Errors.http_error status) = inr (inl refl)
