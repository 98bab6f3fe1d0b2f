-- ===== src/Complaints.antt =====
-- src/vertical/restaurants/complaint.service.ts, on the table `complaints`. The time of a complaint is left
-- out.
pub mod Routed
mod Tests
use peer_core.Errors.{database, unique_violation, foreign_key_violation}
use peer_core.Orders.Tables.{Tables}
use peer_core.Base.{
  ◌&&◌, if◌then◌else◌, [], ◌∷◌, none, some, true, false, refl, zero, suc, inl, inr, Option, find,
  ap, ◌++◌, ◌==◌, any, List, String, Bool,
}
use peer_core.Action.{ok, err, statement, query, Action, Result}
use peer_core.Base.Int.{pos, negsuc}
use peer_core.Tenancy.Rows.{select, update, update_returning, Scoped}
use peer_core.Tenancy.{with_tenant, Uuid}

-- `opened` is the source's 'open', the default of the column.
pub data ComplaintStatus : Type 0 where
  opened : ComplaintStatus
  in_progress : ComplaintStatus
  resolved : ComplaintStatus
  closed : ComplaintStatus

abbrev pub is_opened : ComplaintStatus → Bool
is_opened opened = true
is_opened in_progress = false
is_opened resolved = false
is_opened closed = false

pub record Complaint : Type 0 where
  pub id : Uuid
  pub tenant_id : Uuid
  pub branch_id : Option Uuid
  pub diner_phone : Option String
  pub subject : String
  pub body : String
  pub status : ComplaintStatus

-- The argument of `capture`.
pub record NewComplaint : Type 0 where
  pub subject : String
  pub body : String
  pub branch_id : Option Uuid
  pub diner_phone : Option String

pub record Desk : Type 0 where
  pub base : Tables
  pub complaints : List Complaint

instance abbrev pub Complaint-scoped : Scoped Complaint
Complaint-scoped = record { tenant_of = λ r. r.tenant_id }

-- `complaints.branch_id` refers to a branch, of any tenant.
abbrev pub is_known : Option Uuid → Desk → Bool
is_known none db = true
is_known (some b) db = any (λ x. x.id == b) db.base.branches

abbrev pub complaint_of : Uuid → Uuid → NewComplaint → Complaint
complaint_of id t input = record {
  id = id;
  tenant_id = t;
  branch_id = input.branch_id;
  diner_phone = input.diner_phone;
  subject = input.subject;
  body = input.body;
  status = opened;
}

-- The primary key and the reference to a branch.
abbrev pub insert_complaint : Complaint → Desk → Result Complaint × Desk
insert_complaint row db =
    if any (λ c. c.id == row.id) db.complaints
    then (err (database unique_violation), db)
    else if is_known row.branch_id db
    then (ok row, record db { complaints = db.complaints ++ row ∷ [] })
    else (err (database foreign_key_violation), db)

-- The row changed, none if the tenant has none with the id.
abbrev pub move_complaint : Uuid → Uuid → ComplaintStatus → Desk → Result (Option Complaint) × Desk
move_complaint t complaint_id status db =
    let (row, rows) =
      update_returning t (λ c. c.id == complaint_id) (λ c. record c { status = status })
        db.complaints in
    (ok row, record db { complaints = rows })

module _ {X : Type 0} where
  -- `id` is what Postgres draws.
  unfoldable pub capture : String → Uuid → NewComplaint → Action Desk X Complaint
  capture tenant_id id input =
      with_tenant tenant_id (λ t. statement (insert_complaint (complaint_of id t input)))

  unfoldable pub list_open : String → Action Desk X (List Complaint)
  list_open tenant_id =
      with_tenant tenant_id (λ t. query (λ db. select t (λ c. is_opened c.status) db.complaints))

  unfoldable pub set_status : String → Uuid → ComplaintStatus → Action Desk X (Option Complaint)
  set_status tenant_id complaint_id status =
      with_tenant tenant_id (λ t. statement (move_complaint t complaint_id status))
