-- ===== src/Complaints/Tests.antt =====
-- A complaint is made, and worked on.
use peer_core.Orders.Samples.{tables, tenant}
use peer_core.Errors.{foreign_key_violation, database}
use peer_core.Tenancy.Rows.{update, select, select_one}
use peer_core.Complaints.{
  Complaint-scoped, closed, Desk, complaint_of, set_status, list_open, NewComplaint, capture,
}
use peer_core.Base.{ℕ, ◌≡◌, [], ◌∷◌, none, some, refl}
use peer_core.Action.{World, ok, err}
use peer_core.Tenancy.{uuid_of, with_tenant}

abbrev cold : NewComplaint
cold = record { subject = "cold"; body = "the soup"; branch_id = none; diner_phone = some "+1" }

abbrev start : World Desk ℕ
start = record {
  db = record { base = tables; complaints = complaint_of 1 8 cold ∷ complaint_of 2 7 cold ∷ [] };
  outside = 0;
}

tenant_read : uuid_of tenant ≡ some 7
unfolding uuid_of
tenant_read = refl

seen : (list_open tenant start).0 ≡ ok (complaint_of 2 7 cold ∷ [])
unfolding list_open with_tenant uuid_of select
seen = refl

-- A branch that is not there.
nowhere :
    (capture tenant 5 (record cold { branch_id = some 4 }) start).0
    ≡ err (database foreign_key_violation)
unfolding capture with_tenant uuid_of
nowhere = refl

-- The complaint of another tenant is not moved.
not_mine : (set_status tenant 1 closed start).0 ≡ ok none
unfolding set_status with_tenant uuid_of select_one update
not_mine = refl
