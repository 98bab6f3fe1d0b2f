-- ===== src/Tools.antt =====
-- src/modules/tool-dispatcher: the registry, and the dispatcher that authorizes and runs a tool.
-- Arguments `J` are JSON values and results `V` values of JavaScript, types that are parameters, with
-- what a jsonb column makes of them. A handler works on the other tables of the tenant.
pub mod Refused
pub mod Once
mod Tests
use peer_core.Tenancy.Rows.{select_one, update, Scoped}
use peer_core.Tenancy.{with_tenant, Uuid}
use peer_core.Base.{
  not, ◌++◌, ◌&&◌, or_default, insert, ◌||◌, any, truthy, ℕ, lookup, ◌==◌, str_eq, Map, Bool, List,
  String, if◌then◌else◌, [], ◌∷◌, none, some, true, false, refl, zero, suc, inl, inr, Option, find,
  ap,
}
use peer_core.Action.{
  execute, throw_if, ◌>>=◌, ◌>>◌, throw, pure, lift, query, statement, Result, Action, ok, err,
}
use peer_core.Base.Int.{pos, negsuc}
use peer_core.Identity.Tables.{is_allowed, Role, AuthContext, owner, staff}
use peer_core.Errors.{
  unique_violation, database, unknown_tool, confirmation_required, forbidden, dispatch_error, plain,
}

pub data SideEffect : Type 0 where
  read write : SideEffect

pub data InvocationStatus : Type 0 where
  pending completed failed : InvocationStatus

-- What a handler returns.
pub data Returned (V : Type 0) : Type 0 where
  undefined null : Returned V
  value : V → Returned V

-- What the driver and Postgres make of values in a jsonb column: the JSON text of a value, which may
-- fail (JSON.stringify throws on a cycle), and the value that is parsed of it.
pub record Jsonb (J V : Type 0) : Type 0 where
  pub write : V → Result J
  pub read : J → Returned V

pub record ToolInvocation (J : Type 0) : Type 0 where
  pub id : Uuid
  pub tenant_id : Uuid
  pub tool : String
  pub idempotency_key : Option String
  pub actor_user_id : Uuid
  pub args : J
  pub status : InvocationStatus
  pub result : Option J
  pub completed_at : Option ℕ

instance abbrev pub ToolInvocation-scoped : {J : Type 0} → Scoped (ToolInvocation J)
ToolInvocation-scoped = record { tenant_of = λ r. r.tenant_id }

-- The invocations, and the tables that the handlers work on.
pub record Ledger (J H : Type 0) : Type 0 where
  pub invocations : List (ToolInvocation J)
  pub rest : H

pub record ToolDefinition (J V H X : Type 0) : Type 0 where
  pub name : String
  pub side_effect : SideEffect
  pub required_roles : Option (List Role)
  pub requires_confirmation : Bool
  pub handler : J → AuthContext → String → Action H X (Returned V)

pub record DispatchOptions : Type 0 where
  pub idempotency_key : Option String
  pub confirmed : Bool

-- `ToolRegistry`, its `register`, `get` and `list`.
abbrev pub ToolRegistry : Type 0 → Type 0 → Type 0 → Type 0 → Type 0
ToolRegistry J V H X = Map (ToolDefinition J V H X)

abbrev pub roles : List Role
roles = owner ∷ staff ∷ []

abbrev pub has_key : {J : Type 0} → String → ToolInvocation J → Bool
has_key k r = elim r.idempotency_key [ none ↦ false | some j ↦ str_eq j k ]

-- uq_tool_invocations_idem, and the primary key.
abbrev pub clashes : {J : Type 0} → ToolInvocation J → ToolInvocation J → Bool
clashes new r = (r.id == new.id) || elim new.idempotency_key [
  | none ↦ false
  | some k ↦ (r.tenant_id == new.tenant_id) && has_key k r
]

abbrev pub is_completed : InvocationStatus → Bool
is_completed completed = true
is_completed _ = false

module _ {J V H X : Type 0} where
  unfoldable pub register :
      ToolDefinition J V H X → ToolRegistry J V H X → Result (ToolRegistry J V H X)
  register tool registry = elim (lookup tool.name registry) [
    | some t ↦ err plain
    | none ↦ ok (insert tool.name tool registry)
  ]

  abbrev pub list_tools : ToolRegistry J V H X → List (ToolDefinition J V H X)
  list_tools [] = []
  list_tools ((k, t) ∷ m) = t ∷ list_tools m

  abbrev pub has_authority : AuthContext → String → ToolDefinition J V H X → Bool
  has_authority ctx tenant tool =
      any (is_allowed tenant (or_default tool.required_roles roles)) ctx.memberships

  abbrev authorize : AuthContext → String → ToolDefinition J V H X → Result (Unit {0})
  authorize ctx tenant tool =
      if has_authority ctx tenant tool then ok tt else err (dispatch_error forbidden)

module _ {J H : Type 0} where
  -- The result of an invocation that completed with the key; an empty key is no key.
  abbrev pub completed_before : Uuid → Option String → Ledger J H → Option (Option J)
  completed_before t key db = elim (truthy key) [
    | none ↦ none
    | some k ↦ elim (select_one t (has_key k) db.invocations) [
      | none ↦ none
      | some r ↦ if is_completed r.status then some r.result else none
    ]
  ]

  abbrev pub insert_invocation : ToolInvocation J → Ledger J H → Result (Unit {0}) × Ledger J H
  insert_invocation row db =
      if any (clashes row) db.invocations
      then (err (database unique_violation), db)
      else (ok tt, record db { invocations = db.invocations ++ row ∷ [] })

  abbrev pub complete : Uuid → Uuid → Option J → ℕ → Ledger J H → Ledger J H
  complete t id result now db = record db {
    invocations =
        update t (λ r. r.id == id)
          (λ r. record r { status = completed; result = result; completed_at = some now })
          db.invocations;
  }

-- What one call of `dispatch` draws and reads.
pub record Draw : Type 0 where
  pub id : Uuid
  pub completed_at : ℕ

module _ {J H X A : Type 0} where
  -- The handler's statements on its tables.
  abbrev pub on_rest : Action H X A → Action (Ledger J H) X A
  on_rest m w =
      let (r, v) = m (record { db = w.db.rest; outside = w.outside }) in
      (r, record { db = record w.db { rest = v.db }; outside = v.outside })

-- The arguments of `dispatch`.
pub record Proposal (J : Type 0) : Type 0 where
  pub ctx : AuthContext
  pub tenant_id : String
  pub tool_name : String
  pub args : J
  pub opts : DispatchOptions

abbrev pub invocation : {J : Type 0} → Draw → Proposal J → Uuid → ToolInvocation J
invocation d p t = record {
  id = d.id;
  tenant_id = t;
  tool = p.tool_name;
  idempotency_key = p.opts.idempotency_key;
  actor_user_id = p.ctx.user_id;
  args = p.args;
  status = pending;
  result = none;
  completed_at = none;
}

module _ {J V : Type 0} (jsonb : Jsonb J V) where
  -- `result ?? null` in the column.
  abbrev pub stored : Returned V → Result (Option J)
  stored undefined = ok none
  stored null = ok none
  stored (value v) = elim (jsonb.write v) [ ok j ↦ ok (some j) | err e ↦ err e ]

  -- `existing.result`
  abbrev pub loaded : Option J → Returned V
  loaded none = null
  loaded (some j) = jsonb.read j

module _ {J V H X : Type 0} (jsonb : Jsonb J V) where
  abbrev finish : Draw → Uuid → Returned V → Action (Ledger J H) X (Returned V)
  finish d t result = lift (stored jsonb result) >>= λ column.
      execute (complete t d.id column d.completed_at) >> pure result

  abbrev run_tool :
      Draw → Proposal J → ToolDefinition J V H X → Uuid → Action (Ledger J H) X (Returned V)
  run_tool d p tool t =
      statement (insert_invocation (invocation d p t))
      >> on_rest (tool.handler p.args p.ctx p.tenant_id)
      >>= finish d t

  abbrev unless_completed :
      Draw
      → Proposal J
      → ToolDefinition J V H X
      → Uuid
      → Option (Option J)
      → Action (Ledger J H) X (Returned V)
  unless_completed d p tool t (some column) = pure (loaded jsonb column)
  unless_completed d p tool t none = run_tool d p tool t

  -- The transaction of `dispatch`.
  unfoldable pub dispatch_in :
      Draw → Proposal J → ToolDefinition J V H X → Uuid → Action (Ledger J H) X (Returned V)
  dispatch_in d p tool t =
      query (completed_before t p.opts.idempotency_key) >>= unless_completed d p tool t

  abbrev dispatch_tool :
      Draw → Proposal J → ToolDefinition J V H X → Action (Ledger J H) X (Returned V)
  dispatch_tool d p tool =
      lift (authorize p.ctx p.tenant_id tool)
      >> throw_if (tool.requires_confirmation && not p.opts.confirmed)
          (dispatch_error confirmation_required)
      >> with_tenant p.tenant_id (dispatch_in d p tool)

  unfoldable pub dispatch :
      ToolRegistry J V H X → Draw → Proposal J → Action (Ledger J H) X (Returned V)
  dispatch registry d p = elim (lookup p.tool_name registry) [
    | none ↦ throw (dispatch_error unknown_tool)
    | some tool ↦ dispatch_tool d p tool
  ]
