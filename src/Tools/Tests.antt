-- ===== src/Tools/Tests.antt =====
-- A tool that counts its runs.
use peer_core.Base.{[], ◌∷◌, none, some, true, false, refl, Option, ◌+◌, ℕ, String, ◌≡◌}
use peer_core.Action.{ok, err, World}
use peer_core.Tenancy.Rows.{update, select_one}
use peer_core.Tools.Once.{dispatch-once, Matches}
use peer_core.Tenancy.{uuid_of, with_tenant}
use peer_core.Errors.{plain, confirmation_required, dispatch_error}
use peer_core.Identity.Tables.{owner}
use peer_core.Tools.{
  Jsonb, value, loaded, invocation, Ledger, ToolRegistry, ToolDefinition, Draw, Proposal, write,
  completed, dispatch, dispatch_in, register, ToolInvocation-scoped,
}

-- A value that is not read as it was written.
abbrev coded : Jsonb ℕ ℕ
coded = record { write = λ n. ok (n + 1000); read = λ j. value j }

abbrev count : ToolDefinition ℕ ℕ ℕ ℕ
count = record {
  name = "count";
  side_effect = write;
  required_roles = some (owner ∷ []);
  requires_confirmation = true;
  handler =
      λ n ctx tenant w. (ok (value (w.db + n)), record { db = w.db + n; outside = w.outside + 1 });
}

abbrev failing : ToolDefinition ℕ ℕ ℕ ℕ
failing = record count {
  name = "fail";
  handler = λ n ctx tenant w. (err plain, record { db = 9; outside = 9 });
}

abbrev registry : ToolRegistry ℕ ℕ ℕ ℕ
registry = ("count", count) ∷ ("fail", failing) ∷ []

registered : register failing (("count", count) ∷ []) ≡ ok registry
unfolding register
registered = refl

abbrev tenant : String
tenant = "00000000-0000-0000-0000-000000000007"

abbrev proposal : Proposal ℕ
proposal = record {
  ctx = record {
    user_id = 8;
    phone = "+966";
    memberships = record { tenant_id = tenant; role = owner } ∷ [];
    is_platform_admin = false;
  };
  tenant_id = tenant;
  tool_name = "count";
  args = 3;
  opts = record { idempotency_key = some "k"; confirmed = true };
}

abbrev draw : Draw
draw = record { id = 1; completed_at = 50 }

abbrev start : World (Ledger ℕ ℕ) ℕ
start = record { db = record { invocations = []; rest = 10 }; outside = 0 }

abbrev after : World (Ledger ℕ ℕ) ℕ
after = record {
  db = record {
    invocations =
        record (invocation draw proposal 7) {
          status = completed;
          result = some 1013;
          completed_at = some 50;
        }
        ∷ [];
    rest = 13;
  };
  outside = 1;
}

first_run : dispatch coded registry draw proposal start ≡ (ok (value 13), after)
unfolding dispatch dispatch_in with_tenant uuid_of select_one update
first_run = refl

dispatch-once_example :
    (column : Option ℕ) × Matches coded (value 13) column
    × (dispatch coded registry
          (record { id = 2; completed_at = 60 })
          (record proposal { args = 4 })
          after
        ≡ (ok (loaded coded column), after))
dispatch-once_example =
    dispatch-once coded registry draw (record { id = 2; completed_at = 60 }) proposal 4 "k"
      (value 13) start after refl first_run

unconfirmed :
    dispatch coded registry draw
      (record proposal { opts = record { idempotency_key = none; confirmed = false } })
      start
    ≡ (err (dispatch_error confirmation_required), start)
unfolding dispatch
unconfirmed = refl

failed_run :
    dispatch coded registry draw (record proposal { tool_name = "fail" }) start
    ≡ (err plain, record start { outside = 9 })
unfolding dispatch dispatch_in with_tenant uuid_of select_one update
failed_run = refl
