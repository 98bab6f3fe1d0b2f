-- ===== src/Tools/Refused.antt =====
-- What the dispatcher refuses, and what a dispatch that throws leaves
-- (src/modules/tool-dispatcher/tool-dispatcher.service.ts).
use peer_core.Base.{
  ◌&&◌, not, Bool-cases, ◌∙◌, sym, Option-cases, ◌⊎◌, arith, ◌≡◌, lookup, some, true, false, refl,
  inl, inr,
}
use peer_core.Tenancy.Keeps.{with_tenant-atomic}
use peer_core.Tenancy.{with_tenant}
use peer_core.Action.{World, err}
use peer_core.Errors.{
  unknown_tool, confirmation_required, forbidden, dispatch_error, DispatchCode, Error,
}
use peer_core.Tools.{
  Jsonb, has_authority, Ledger, ToolDefinition, Draw, Proposal, ToolRegistry, dispatch, dispatch_in,
}

-- The tool is registered under the name, a membership of the context in the tenant has a role
-- that the tool asks for, and the call is confirmed if the tool asks for that.
pub record IsPermitted {J V H X : Type 0} (registry : ToolRegistry J V H X) (p : Proposal J)
    (tool : ToolDefinition J V H X) : Type 0 where
  pub found : lookup p.tool_name registry ≡ some tool
  pub authority : has_authority p.ctx p.tenant_id tool ≡ true
  pub confirmed : (tool.requires_confirmation && not p.opts.confirmed) ≡ false

module _ {J V H X : Type 0} (jsonb : Jsonb J V) (registry : ToolRegistry J V H X) (d : Draw)
    (p : Proposal J) where
  pub dispatch-refused :
      (w : World (Ledger J H) X)
      → ((tool : ToolDefinition J V H X) × IsPermitted registry p tool
          × (dispatch jsonb registry d p w
              ≡ with_tenant p.tenant_id (dispatch_in jsonb d p tool) w))
        ⊎ ((c : DispatchCode) × (dispatch jsonb registry d p w ≡ (err (dispatch_error c), w)))
  unfolding dispatch
  dispatch-refused w = elim (Option-cases (lookup p.tool_name registry)) [
    | inl e ↦ inr (unknown_tool, rw (dispatch, e) refl)
    | inr (tool, e) ↦ elim (Bool-cases (has_authority p.ctx p.tenant_id tool)) [
      | inr f ↦ inr (forbidden, rw (dispatch, e, f) refl)
      | inl f ↦ elim (Bool-cases (tool.requires_confirmation && not p.opts.confirmed)) [
        | inl g ↦ inr (confirmation_required, rw (dispatch, e, f, g) refl)
        | inr g ↦
            inl (
              tool,
              record { found = e; authority = f; confirmed = g },
              rw (dispatch, e, f, g) refl,
            )
      ]
    ]
  ]

  -- A dispatch that throws, whatever its handler did before, leaves every table as it was.
  dispatch-atomic :
      (x : Error) (w w' : World (Ledger J H) X)
      → dispatch jsonb registry d p w ≡ (err x, w')
      → w'.db ≡ w.db
  dispatch-atomic x w w' h = elim (dispatch-refused w) [
    | inr (c, e) ↦ ground arith
    | inl (tool, permit, e) ↦
        with_tenant-atomic p.tenant_id (dispatch_in jsonb d p tool) w w' x (sym e ∙ h)
  ]
