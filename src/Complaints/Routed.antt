-- ===== src/Complaints/Routed.antt =====
-- What staff see of a complaint (src/vertical/restaurants/complaint.service.ts).
use peer_core.Complaints.{
  Complaint-scoped, is_known, complaint_of, Desk, is_opened, Complaint, NewComplaint,
  ComplaintStatus, list_open, capture, set_status,
}
use peer_core.Tenancy.Rows.{sees, update, select}
use peer_core.Base.{
  sym, ◌∙◌, Bool-cases, any, arith, ◌≡◌, ◌++◌, ◌==◌, List, String, [], ◌∷◌, some, true, false, refl,
  inl, inr, ap,
}
use peer_core.Action.{World, ok}
use peer_core.Tenancy.{with_tenant, Uuid, uuid_of}

abbrev open_rows : Uuid → List Complaint → List Complaint
open_rows t rows = select t (λ c. is_opened c.status) rows

abbrev moved_rows : Uuid → Uuid → ComplaintStatus → List Complaint → List Complaint
moved_rows t id status rows = update t (λ c. c.id == id) (λ c. record c { status = status }) rows

open_rows-captured :
    (t id : Uuid) (input : NewComplaint) (rows : List Complaint)
    → open_rows t (rows ++ complaint_of id t input ∷ [])
      ≡ open_rows t rows ++ complaint_of id t input ∷ []
unfolding select
open_rows-captured t id input [] = ground arith
open_rows-captured t id input (c ∷ rows) =
    let ih = open_rows-captured t id input rows in
    elim (Bool-cases (sees t (λ x. is_opened x.status) c)) [
      | inl e ↦ rw (e, ih) refl
      | inr e ↦ rw (e, ih) refl
    ]

-- A row whose status is not open is not seen.
open_rows-moved_rows :
    (t id : Uuid) (input : NewComplaint) (s : ComplaintStatus) (rows : List Complaint)
    → is_opened s ≡ false
    → any (λ c. c.id == id) rows ≡ false
    → open_rows t (moved_rows t id s (rows ++ complaint_of id t input ∷ [])) ≡ open_rows t rows
unfolding select update
open_rows-moved_rows t id input s [] h k = ground arith
open_rows-moved_rows t id input s (c ∷ rows) h k =
    let ih = open_rows-moved_rows t id input s rows h (ground arith) in
    let miss : sees t (λ x. x.id == id) c ≡ false = ground arith in rw (miss, ih) refl

module _ {X : Type 0} where
  listed :
      (tenant_id : String) (t : Uuid) (w : World Desk X)
      → uuid_of tenant_id ≡ some t
      → (list_open tenant_id w).0 ≡ ok (open_rows t w.db.complaints)
  unfolding list_open with_tenant
  listed tenant_id t w e = rw (list_open, with_tenant, e) refl

  captured :
      (tenant_id : String) (t id : Uuid) (input : NewComplaint) (w : World Desk X)
      → uuid_of tenant_id ≡ some t
      → any (λ c. c.id == id) w.db.complaints ≡ false
      → is_known input.branch_id w.db ≡ true
      → (capture tenant_id id input w).1.db.complaints
        ≡ w.db.complaints ++ complaint_of id t input ∷ []
  unfolding capture with_tenant
  captured tenant_id t id input w e new known = rw (capture, with_tenant, e, new, known) refl

  moves :
      (tenant_id : String) (t id : Uuid) (s : ComplaintStatus) (w : World Desk X)
      → uuid_of tenant_id ≡ some t
      → (set_status tenant_id id s w).1.db.complaints ≡ moved_rows t id s w.db.complaints
  unfolding set_status with_tenant
  moves tenant_id t id s w e = rw (set_status, with_tenant, e) refl

  -- For a tenant id that is a UUID, a complaint that is captured with an id that no complaint
  -- has, at no branch or one that exists, stands last in listOpen, which is otherwise as
  -- before; after setStatus of it to any other status than open, listOpen is as it was before
  -- the capture.
  capture-set_status :
      (tenant_id : String) (t id : Uuid) (input : NewComplaint) (s : ComplaintStatus)
      (rows : List Complaint) (w : World Desk X)
      → uuid_of tenant_id ≡ some t
      → any (λ c. c.id == id) w.db.complaints ≡ false
      → is_known input.branch_id w.db ≡ true
      → is_opened s ≡ false
      → (list_open tenant_id w).0 ≡ ok rows
      → let w' = (capture tenant_id id input w).1 in
        ((list_open tenant_id w').0 ≡ ok (rows ++ complaint_of id t input ∷ []))
        × ((list_open tenant_id (set_status tenant_id id s w').1).0 ≡ ok rows)
  capture-set_status tenant_id t id input s rows w e new known worked before =
      let w' = (capture tenant_id id input w).1 in
      let w'' = (set_status tenant_id id s w').1 in
      let now = captured tenant_id t id input w e new known in
      let after = moves tenant_id t id s w' e in
      let was : rows ≡ open_rows t w.db.complaints =
        ground (arith, sym before ∙ listed tenant_id t w e) in
      (
        rw was (
            listed tenant_id t w' e
            ∙ ap (λ x. ok (open_rows t x)) now
            ∙ ap ok (open_rows-captured t id input w.db.complaints)),
        listed tenant_id t w'' e
            ∙ ap (λ x. ok (open_rows t x)) (after ∙ ap (moved_rows t id s) now)
            ∙ ap ok (open_rows-moved_rows t id input s w.db.complaints worked new)
            ∙ ap ok (sym was),
      )
