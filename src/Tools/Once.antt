-- ===== src/Tools/Once.antt =====
-- A tool call with a key runs once (src/modules/tool-dispatcher/tool-dispatcher.service.ts).
use peer_core.Base.{
  [], ◌∷◌, some, true, false, refl, inl, inr, Option, ap, ◌⊎◌, truthy-some, ◌∙◌, eq_iff, subst,
  Bool-cases, Option-cases, truthy, arith, ◌++◌, ◌==◌, any, ◌≡◌, List, String,
}
use peer_core.Action.{ok, Result-cases, World}
use peer_core.Tools.Refused.{dispatch-refused, IsPermitted}
use peer_core.Tenancy.{uuid_of, with_tenant, Uuid}
use peer_core.Tools.{
  Jsonb, Returned, stored, loaded, is_completed, ToolRegistry, completed, invocation,
  completed_before, Ledger, ToolDefinition, Proposal, Draw, ToolInvocation-scoped, has_key, clashes,
  ToolInvocation, dispatch, dispatch_in,
}
use peer_core.Tenancy.Rows.{sees, update, select_one}

module _ {J : Type 0} where
  no_clash :
      (row : ToolInvocation J) (k : String) (r : ToolInvocation J)
      → row.idempotency_key ≡ some k
      → clashes row r ≡ false
      → ((r.id == row.id) ≡ false) × (sees row.tenant_id (has_key k) r ≡ false)
  no_clash row k r key free = let free' = rw key at free in (ground arith, ground arith)

  -- Of the rows, none clashes with the new one: it is the one found by the key, after the
  -- update of the row with its id too.
  found_completed :
      (row : ToolInvocation J) (k : String) (f : ToolInvocation J → ToolInvocation J)
      (rows : List (ToolInvocation J))
      → row.idempotency_key ≡ some k
      → any (clashes row) rows ≡ false
      → has_key k (f row) ≡ true
      → (f row).tenant_id ≡ row.tenant_id
      → select_one row.tenant_id
          (has_key k)
          (update row.tenant_id (λ r. r.id == row.id) f (rows ++ row ∷ []))
        ≡ some (f row)
  unfolding select_one update
  found_completed row k f [] key free kept same = ground (arith, kept, same)
  found_completed row k f (r ∷ rows) key free kept same =
      let rest = found_completed row k f rows key (ground arith) kept same in
      let (other, unseen) = no_clash row k r key (ground arith) in
      let untouched : sees row.tenant_id (λ x. x.id == row.id) r ≡ false = ground arith in
      rw (untouched, unseen, rest) refl

  has_key_self :
      (row : ToolInvocation J) (k : String) → row.idempotency_key ≡ some k → has_key k row ≡ true
  has_key_self row k e = ground (arith, eq_iff k k)

  -- The row of an invocation that completed.
  abbrev done : Draw → Option J → ToolInvocation J → ToolInvocation J
  done d result r = record r {
    status = completed;
    result = result;
    completed_at = some d.completed_at;
  }

  completed-key :
      {H : Type 0} (t : Uuid) (key : Option String) (k : String) (db : Ledger J H)
      (row : ToolInvocation J)
      → truthy key ≡ some k
      → select_one t (has_key k) db.invocations ≡ some row
      → is_completed row.status ≡ true
      → completed_before t key db ≡ some row.result
  completed-key t key k db row e f g = rw (completed_before, e, f, g) refl

module _ {J V : Type 0} (jsonb : Jsonb J V) where
  -- The column holds the result, or the result is what the column is read as.
  abbrev pub Matches : Returned V → Option J → Type 0
  Matches result column = (stored jsonb result ≡ ok column) ⊎ (result ≡ loaded jsonb column)

module _ {J V H X : Type 0} (jsonb : Jsonb J V) where
  again :
      (d : Draw) (p : Proposal J) (tool : ToolDefinition J V H X) (t : Uuid) (column : Option J)
      (w : World (Ledger J H) X)
      → completed_before t p.opts.idempotency_key w.db ≡ some column
      → dispatch_in jsonb d p tool t w ≡ (ok (loaded jsonb column), w)
  unfolding dispatch_in
  again d p tool t column w e = rw (dispatch_in, e) refl

  -- What a call with a key that returns leaves: a column with the result is found by the key.
  leaves_result :
      (d : Draw) (p : Proposal J) (tool : ToolDefinition J V H X) (t : Uuid) (k : String)
      (result : Returned V) (w w' : World (Ledger J H) X)
      → truthy p.opts.idempotency_key ≡ some k
      → dispatch_in jsonb d p tool t w ≡ (ok result, w')
      → (column : Option J) × Matches jsonb result column
        × (completed_before t p.opts.idempotency_key w'.db ≡ some column)
  unfolding dispatch_in
  leaves_result d p tool t k result w w' key h =
      elim (Option-cases (completed_before t p.opts.idempotency_key w.db)) [
        | inr (c, e) ↦
            let same : w ≡ w' = ground arith in
            (
              c,
              inr (ground arith),
              subst (λ x. completed_before t p.opts.idempotency_key x.db ≡ some c) same e,
            )
        | inl e ↦ elim (Bool-cases (any (clashes (invocation d p t)) w.db.invocations)) [
          | inl f ↦ absurd (ground arith)
          | inr f ↦
              let inner : World H X = record { db = w.db.rest; outside = w.outside } in
              elim (Result-cases (tool.handler p.args p.ctx p.tenant_id inner).0) [
                | inr (x, g) ↦ absurd (ground arith)
                | inl (r, g) ↦ elim (Result-cases (stored jsonb r)) [
                  | inr (x, c) ↦ absurd (ground (arith, c, g, f, e))
                  | inl (column, c) ↦
                      let eq : r ≡ result = ground (arith, c, g, f, e) in
                      let left : w'.db.invocations
                          ≡ update t (λ r. r.id == d.id) (done d column)
                              (w.db.invocations ++ invocation d p t ∷ []) =
                        ground (arith, c, g, f, e) in
                      (
                        column,
                        inl (subst (λ x. stored jsonb x ≡ ok column) eq c),
                        completed-key t p.opts.idempotency_key k w'.db
                            (done d column (invocation d p t)) key
                            (ap (select_one t (has_key k)) left
                              ∙ found_completed (invocation d p t) k (done d column)
                                  w.db.invocations (truthy-some p.opts.idempotency_key k key) f
                                  (has_key_self (invocation d p t) k
                                    (truthy-some p.opts.idempotency_key k key))
                                  refl)
                            refl,
                      )
                ]
              ]
        ]
      ]

  -- What a permitted call in a tenant's context returns, the dispatch returns.
  permitted :
      (registry : ToolRegistry J V H X) (d : Draw) (p : Proposal J) (tool : ToolDefinition J V H X)
      (t : Uuid) (result : Returned V) (w w' : World (Ledger J H) X)
      → IsPermitted registry p tool
      → uuid_of p.tenant_id ≡ some t
      → dispatch_in jsonb d p tool t w ≡ (ok result, w')
      → dispatch jsonb registry d p w ≡ (ok result, w')
  unfolding dispatch with_tenant
  permitted registry d p tool t result w w' permit e h =
      rw (dispatch, permit.found, permit.authority, permit.confirmed, with_tenant, e, h) refl

  inside :
      (registry : ToolRegistry J V H X) (d : Draw) (p : Proposal J) (result : Returned V)
      (w w' : World (Ledger J H) X)
      → dispatch jsonb registry d p w ≡ (ok result, w')
      → (tool : ToolDefinition J V H X) × (t : Uuid) × IsPermitted registry p tool
        × (uuid_of p.tenant_id ≡ some t)
        × (dispatch_in jsonb d p tool t w ≡ (ok result, w'))
  unfolding with_tenant
  inside registry d p result w w' h = elim (dispatch-refused jsonb registry d p w) [
    | inr (c, e) ↦ absurd (ground arith)
    | inl (tool, permit, e) ↦ elim (Option-cases (uuid_of p.tenant_id)) [
      | inl f ↦ absurd (ground arith)
      | inr (t, f) ↦ elim (Result-cases (dispatch_in jsonb d p tool t w).0) [
        | inr (x, g) ↦ absurd (ground arith)
        | inl (r, g) ↦ (tool, t, permit, f, ground arith)
      ]
    ]
  ]

  -- After a dispatch with a key that is not empty returned a result, there is the content of
  -- a jsonb column that holds the result, or from which the result was itself read; and the
  -- same call, its arguments for the handler apart, returns what that column is read as, and
  -- changes nothing in the tables or outside them.
  pub dispatch-once :
      (registry : ToolRegistry J V H X) (d d' : Draw) (p : Proposal J) (args : J) (k : String)
      (result : Returned V) (w w' : World (Ledger J H) X)
      → truthy p.opts.idempotency_key ≡ some k
      → dispatch jsonb registry d p w ≡ (ok result, w')
      → (column : Option J) × Matches jsonb result column
        × (dispatch jsonb registry d' (record p { args = args }) w'
            ≡ (ok (loaded jsonb column), w'))
  dispatch-once registry d d' p args k result w w' key h =
      let (tool, t, permit, e, inner) = inside registry d p result w w' h in
      let p' = record p { args = args } in
      let (column, matches, left) = leaves_result d p tool t k result w w' key inner in
      (
        column,
        matches,
        permitted registry d' p' tool t (loaded jsonb column) w' w'
            (record {
              found = permit.found;
              authority = permit.authority;
              confirmed = permit.confirmed;
            })
            e (again d' p' tool t column w' left),
      )
