-- ===== src/Tools/AccessRequests.antt =====
-- tools/approve_agent_access.go and tools/reject_agent_access.go: the owner decides on an application.
use acp_server.Base.{String, true, false, not, Option, none, some, [], ◌∷◌, ◌++◌, ◌==◌}
use acp_server.Base.Int.{pos}
use acp_server.Store.{
  Text, empty, Entry, Host, Draw, Params, Value, errorf, sprintf, Exec, pure, raise_if, ◌>>=◌, ◌>>◌,
}
use acp_server.Covenant.Access.{
  get_access_request, approve_access_request, reject_access_request, is_pending,
}
use acp_server.Execution.{Context, Tool}
use acp_server.Tools.{text_param}
use acp_server.Tools.ProposePassage.{no_effects}

-- CheckPreconditions of both tools.
unfoldable pub check_request : String → Context → Params → Exec (Unit {0})
check_request owner_only ctx params = do
  raise_if (not ctx.member.is_owner) (errorf owner_only [])
  let request_id = text_param "request_id" params
  raise_if (request_id == empty) (errorf "request_id is required" [])
  req ← get_access_request ctx.covenant.covenant_id request_id
  raise_if (not (is_pending req.status))
      (errorf "access request %q is not pending (current status: %s)" (Value.text request_id ∷ []))

-- The member that the approval has put into the data.
pub record AccessApproval : Type 0 where
  pub request_id : Text
  pub agent_id : Option Text
  pub tier_id : Option Text

unfoldable pub apply_approval : Draw → Context → Entry → AccessApproval → Exec AccessApproval
apply_approval draw ctx entry x = do
  mem ← approve_access_request draw ctx.covenant.covenant_id x.request_id entry.log_id
  pure (record x { agent_id = some mem.agent_id; tier_id = mem.tier_id })

abbrev pub text_extra : String → Option Text → Params
text_extra key none = []
text_extra key (some t) = (key, Value.text t) ∷ []

abbrev pub approve_agent_access : Host → Draw → Tool AccessApproval
approve_agent_access host draw = record {
  tool_name = "approve_agent_access";
  tool_type = "admin";
  check_preconditions = check_request "only covenant owner can approve access requests";
  execute_logic = λ ctx params.
      pure
        (record { request_id = text_param "request_id" params; agent_id = none; tier_id = none });
  calculate_side_effects = λ ctx x params db. no_effects host ctx;
  apply_side_effects = λ ctx entry fx x params. apply_approval draw ctx entry x;
  estimate_cost = λ ctx params. pos 0;
  params_policy = record {
    store_hash_only = false;
    preview_fields = "request_id" ∷ [];
    sensitive_fields = [];
    hash_preview_fields = [];
  };
  detail = λ x. sprintf "Access request %s approved." (Value.text x.request_id ∷ []);
  is_final = λ x. true;
  enrich_receipt = λ x.
      ("status", Value.name "approved") ∷ text_extra "agent_id" x.agent_id
      ++ text_extra "tier_id" x.tier_id;
}

pub record AccessRejection : Type 0 where
  pub request_id : Text
  pub reason : Text

unfoldable pub apply_rejection : Draw → Context → Entry → AccessRejection → Exec AccessRejection
apply_rejection draw ctx entry x = do
  reject_access_request draw ctx.covenant.covenant_id x.request_id x.reason entry.log_id
  pure x

abbrev pub reject_agent_access : Host → Draw → Tool AccessRejection
reject_agent_access host draw = record {
  tool_name = "reject_agent_access";
  tool_type = "admin";
  check_preconditions = check_request "only covenant owner can reject access requests";
  execute_logic = λ ctx params.
      pure (record {
        request_id = text_param "request_id" params;
        reason = text_param "reason" params;
      });
  calculate_side_effects = λ ctx x params db. no_effects host ctx;
  apply_side_effects = λ ctx entry fx x params. apply_rejection draw ctx entry x;
  estimate_cost = λ ctx params. pos 0;
  params_policy = record {
    store_hash_only = false;
    preview_fields = "request_id" ∷ "reason" ∷ [];
    sensitive_fields = [];
    hash_preview_fields = [];
  };
  detail = λ x. sprintf "Access request %s rejected." (Value.text x.request_id ∷ []);
  is_final = λ x. true;
  enrich_receipt = λ x. ("status", Value.name "rejected") ∷ ("reason", Value.text x.reason) ∷ [];
}
