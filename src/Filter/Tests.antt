-- ===== src/Filter/Tests.antt =====
-- One error of the services, one of Postgres, one of Nest.
use peer_core.Filter.Domain.{catch_exception-thrown, is_client}
use peer_core.Base.{none, Option, ℕ, ◌⊎◌, ◌≡◌, some, true, false, refl}
use peer_core.Errors
use peer_core.Filter.{catch_exception}

catch_exception-thrown_example :
    let a = catch_exception (Errors.auth_error Errors.otp_locked) in
    ((true ≡ true) × (some "otp_locked" ≡ some a.code) × (is_client a.status ≡ true))
    ⊎ (◌≡◌ {A = Option ℕ} none (some a.status))
    ⊎ ((true ≡ false) × (a.status ≡ 500) × (a.code ≡ "internal_error"))
catch_exception-thrown_example = catch_exception-thrown (Errors.auth_error Errors.otp_locked)

too_many :
    catch_exception (Errors.auth_error Errors.otp_locked)
    ≡ record { status = 429; code = "otp_locked" }
unfolding catch_exception
too_many = refl

hidden_state :
    catch_exception (Errors.database Errors.unique_violation)
    ≡ record { status = 500; code = "internal_error" }
unfolding catch_exception
hidden_state = refl

from_nest : catch_exception (Errors.http_error 403) ≡ record { status = 403; code = "forbidden" }
unfolding catch_exception
from_nest = refl
