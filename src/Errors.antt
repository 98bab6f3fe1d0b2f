-- ===== src/Errors.antt =====
-- The exceptions of the services, by class and `code`; their message texts are left out.
-- `plain` is a bare `new Error(…)`, `database` an error that Postgres raises, and `http_error` an
-- HttpException of Nest, by its status.
use Prim.Native.Nat.{ℕ}

pub data OrderCode : Type 0 where
  not_found bad_item unavailable bad_modifier bad_promo below_minimum closed bad_schedule conflict
        illegal_transition :
      OrderCode

pub data PaymentCode : Type 0 where
  declined not_found illegal_transition : PaymentCode

pub data ReservationCode : Type 0 where
  no_table over_capacity slot_taken not_found bad_status : ReservationCode

pub data AuthCode : Type 0 where
  unauthenticated forbidden invalid_otp otp_locked invalid_phone : AuthCode

pub data DispatchCode : Type 0 where
  unknown_tool forbidden confirmation_required : DispatchCode

pub data ReviewCode : Type 0 where
  not_found order_not_complete : ReviewCode

-- The codes that are given to a `ValidationError`; the first is its default.
pub data ValidationCode : Type 0 where
  invalid_input bad_modifier bad_promo bad_rating : ValidationCode

-- The SQLSTATE classes that the schema's constraints can raise.
pub data SqlState : Type 0 where
  unique_violation check_violation exclusion_violation insufficient_privilege foreign_key_violation
        invalid_text_representation :
      SqlState

pub data Error : Type 0 where
  order_error : OrderCode → Error
  payment_error : PaymentCode → Error
  reservation_error : ReservationCode → Error
  auth_error : AuthCode → Error
  dispatch_error : DispatchCode → Error
  review_error : ReviewCode → Error
  validation_error : ValidationCode → Error
  plain : Error
  database : SqlState → Error
  http_error : ℕ → Error
