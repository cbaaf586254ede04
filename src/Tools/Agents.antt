-- ===== src/Tools/Agents.antt =====
-- tools/approve_agent.go and tools/reject_agent.go: the owner decides on a pending member.
use acp_server.Base.{String, Bool, true, false, not, [], ◌∷◌, ◌==◌}
use acp_server.Base.Int.{pos}
use acp_server.Base.Sql.{update_where}
use acp_server.Store.{
  Text, empty, Time, Db, Member, MemberStatus, Host, Draw, Params, Value, errorf, wrap, no_rows,
  sprintf, Exec, ok, pure, raise_if, gets, or_raise, ◌>>=◌, ◌>>◌,
}
use acp_server.Covenant.Members.{is_member, member_row}
use acp_server.Execution.{Context, Tool}
use acp_server.Tools.{text_param}
use acp_server.Tools.ProposePassage.{no_effects}

abbrev pub is_waiting : MemberStatus → Bool
is_waiting MemberStatus.pending = true
is_waiting _ = false

-- CheckPreconditions of both tools, which differ in the words for a caller that is not the owner.
unfoldable pub check_pending : String → Context → Params → Exec (Unit {0})
check_pending owner_only ctx params = do
  raise_if (not ctx.member.is_owner) (errorf owner_only [])
  let agent_id = text_param "agent_id" params
  raise_if (agent_id == empty) (errorf "agent_id is required" [])
  found ← gets (member_row ctx.covenant.covenant_id agent_id)
  m ← or_raise found (wrap "agent %q not found in this covenant: %w" no_rows)
  raise_if (not (is_waiting m.status))
      (errorf "agent %q is not pending (current status: %s)" (Value.text agent_id ∷ []))

pub record AgentApproval : Type 0 where
  pub agent_id : Text
  pub approved_at : Time

abbrev pub to_active : Time → Member → Member
to_active now m = record m { status = MemberStatus.active; joined_at = now }

unfoldable pub approve_member : Time → Text → Text → Db → Db
approve_member now covenant_id agent_id db = record db {
  covenant_members =
      update_where (is_member covenant_id agent_id) (to_active now) db.covenant_members;
}

abbrev pub approve_agent : Host → Draw → Tool AgentApproval
approve_agent host draw = record {
  tool_name = "approve_agent";
  tool_type = "admin";
  check_preconditions = check_pending "only covenant owner can approve agents";
  execute_logic = λ ctx params.
      pure (record { agent_id = text_param "agent_id" params; approved_at = draw.now });
  calculate_side_effects = λ ctx x params db. no_effects host ctx;
  apply_side_effects = λ ctx entry fx x params db.
      (ok x, approve_member x.approved_at ctx.covenant.covenant_id x.agent_id db);
  estimate_cost = λ ctx params. pos 0;
  params_policy = record {
    store_hash_only = false;
    preview_fields = "agent_id" ∷ [];
    sensitive_fields = [];
    hash_preview_fields = [];
  };
  detail = λ x. sprintf "Agent %s approved and activated." (Value.text x.agent_id ∷ []);
  is_final = λ x. true;
  enrich_receipt =
      λ x. ("status", Value.name "active") ∷ ("approved_at", Value.int (pos x.approved_at)) ∷ [];
}

pub record AgentRejection : Type 0 where
  pub agent_id : Text
  pub reason : Text

abbrev pub to_refused : Member → Member
to_refused m = record m { status = MemberStatus.rejected }

unfoldable pub reject_member : Text → Text → Db → Db
reject_member covenant_id agent_id db = record db {
  covenant_members = update_where (is_member covenant_id agent_id) to_refused db.covenant_members;
}

abbrev pub reject_agent : Host → Tool AgentRejection
reject_agent host = record {
  tool_name = "reject_agent";
  tool_type = "admin";
  check_preconditions = check_pending "only covenant owner can reject agents";
  execute_logic = λ ctx params.
      pure
        (record { agent_id = text_param "agent_id" params; reason = text_param "reason" params });
  calculate_side_effects = λ ctx x params db. no_effects host ctx;
  apply_side_effects =
      λ ctx entry fx x params db. (ok x, reject_member ctx.covenant.covenant_id x.agent_id db);
  estimate_cost = λ ctx params. pos 0;
  params_policy = record {
    store_hash_only = false;
    preview_fields = "agent_id" ∷ "reason" ∷ [];
    sensitive_fields = [];
    hash_preview_fields = [];
  };
  detail = λ x. sprintf "Agent %s rejected." (Value.text x.agent_id ∷ []);
  is_final = λ x. true;
  enrich_receipt = λ x. ("status", Value.name "rejected") ∷ ("reason", Value.text x.reason) ∷ [];
}
