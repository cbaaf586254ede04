-- ===== src/Tests/Merge.antt =====
-- The witness on the merges of the git twin: the author of a pull request is the guest, and the owner
-- of the covenant approves.
use acp_server.Base.{◌≡◌, refl, true, false, some, [], ◌∷◌, arith, String}
use acp_server.Base.Int.{pos}
use acp_server.Store.{Text, Db, Member, Value}
use acp_server.Execution.{Receipt}
use acp_server.Api.{Reply, json_ok, Headers}
use acp_server.Api.GitTwin.{MergeRequest, MergeReply, idempotent, merged, handle_merge}
use acp_server.Api.GitTwin.Once.{at_once, merging, handle_merge_once}
use acp_server.Base.Sql.{select, first, exists, sum_where, update_where, last_by}
use acp_server.Audit.{
  hash_components, compute_hash, numbered, hashed, last_row, append_row, log_event,
}
use acp_server.Budget.{check_and_reserve, record_spend}
use acp_server.RateLimit.{load_policy, upsert_call, increment, maybe_cleanup, check_and_increment}
use acp_server.RateLimit.Concentration.{report_of, check_concentration}
use acp_server.Tokens.{
  calculate, insert_ledger, confirm_contribution, total_by_agent, create_pending, claim_pending,
}
use acp_server.Tokens.Parse.{parse_rules, rule_for}
use acp_server.Covenant.Members.{find_member_by_platform_id, get_owner_agent_id}
use acp_server.Execution.Engine.{run}
use acp_server.Execution.Policy.{preview_fields_of, apply_params_policy}
use acp_server.Tools.{param, int_param, float_param, text_param, cost_cents}
use acp_server.Tools.ProposePassage.{check as check_proposepassage}
use acp_server.Tools.ApproveDraft.{
  check as check_approvedraft, ratio_of, execute, award, apply_award,
}
use acp_server.Api.GitTwin.{validate_bridge_secret, upsert_event, propose_and_approve}
use acp_server.Base.Int.{◌+ℤ◌, ◌-ℤ◌, add64, sub64}
use acp_server.Tests.Data.{host, draw_of, server, guest}

abbrev owner : Member
owner = record guest { platform_id = 21; agent_id = 10; is_owner = true }

abbrev twin_server : Db
twin_server = record server { covenant_members = owner ∷ guest ∷ [] }

abbrev label : String → Text → Text
label prefix draft_ref = draft_ref

abbrev headers : Headers
headers = record {
  covenant_id = 0;
  agent_id = 0;
  session_token = 0;
  owner_token = 0;
  bridge_secret = 5;
}

abbrev merge : MergeRequest
merge = record {
  covenant_id = 1;
  author_platform_id = 20;
  draft_ref = 80;
  unit_count = pos 3;
  acceptance_ratio = 1;
  content_hash = 81;
  summary = 1 ∷ 2 ∷ [];
}

abbrev after_merge : Reply MergeReply
after_merge = (handle_merge host 5 label (draw_of 1) (draw_of 2) headers (some merge) twin_server).0

abbrev proposal : Receipt
proposal = record {
  receipt_id = 101;
  covenant_id = 1;
  agent_id = 11;
  tool_name = "propose_passage";
  is_pending = true;
  tokens_awarded = pos 0;
  cost_delta = pos 10;
  cost_currency = "USD";
  net_delta = 0;
  timestamp = 1;
  log_hash = 166626123605078567261450;
  extra = ("draft_id", Value.text 701) ∷ [];
}

abbrev approval : Receipt
approval = record {
  receipt_id = 102;
  covenant_id = 1;
  agent_id = 10;
  tool_name = "approve_draft";
  is_pending = false;
  tokens_awarded = pos 3;
  cost_delta = pos 5;
  cost_currency = "USD";
  net_delta = 0;
  timestamp = 2;
  log_hash = 166602493717382992530150;
  extra = [];
}

abbrev merged_server : Db
merged_server =
    (handle_merge host 5 label (draw_of 1) (draw_of 2) headers (some merge) twin_server).1

goes_through :
    handle_merge host 5 label (draw_of 1) (draw_of 2) headers (some merge) twin_server
    ≡ (json_ok (merged proposal approval 11), merged_server)
unfolding handle_merge select first exists sum_where update_where last_by hash_components
    compute_hash numbered hashed last_row append_row log_event check_and_reserve record_spend
    load_policy upsert_call increment maybe_cleanup check_and_increment report_of
    check_concentration calculate insert_ledger confirm_contribution total_by_agent create_pending
    claim_pending parse_rules rule_for find_member_by_platform_id get_owner_agent_id run
    preview_fields_of apply_params_policy param int_param float_param text_param cost_cents
    check_proposepassage check_approvedraft ratio_of execute award apply_award
    validate_bridge_secret upsert_event propose_and_approve ◌+ℤ◌ ◌-ℤ◌ add64 sub64
goes_through = refl

-- The merge of another reference comes next, and the same merge again, for another covenant.
abbrev elsewhere : MergeRequest
elsewhere = record merge { draft_ref = 90 }

abbrev later_server : Db
later_server =
    (handle_merge host 5 label (draw_of 3) (draw_of 4) headers (some elsewhere) merged_server).1

abbrev again : MergeRequest
again = record merge { covenant_id = 2; unit_count = pos 7 }

handle_merge_once_example :
    handle_merge host 5 label (draw_of 5) (draw_of 6) headers (some again) later_server
    ≡ (json_ok (idempotent 166626123605078567261450 166602493717382992530150), later_server)
handle_merge_once_example =
    handle_merge_once host 5 label (draw_of 1) (draw_of 2) headers merge twin_server merged_server
      proposal approval 11 later_server (draw_of 5) (draw_of 6) headers again goes_through
      (merging merged_server merged_server (at_once merged_server) (draw_of 3) (draw_of 4) headers
        (some elsewhere))
      refl refl (λ e. ground (arith, e)) (λ e. ground (arith, e)) (omega arith)
