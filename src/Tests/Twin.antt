-- ===== src/Tests/Twin.antt =====
-- The witnesses on the git twin, the configuration and the routes.
use acp_server.Base.{
  ℕ, String, ◌≡◌, ◌≢◌, refl, Bool, false, ◌&&◌, ◌⊎◌, Option, none, some, List, [], ◌∷◌, arith,
  length, All, eq_of_some, leb, ap, sym,
}
use acp_server.Base.Int.{ℤ, pos}
use acp_server.Base.Sql.{first, exists}
use acp_server.Store.{
  Text, empty, Error, ok, err, Db, Anchor, AnchorStatus, wrap, TokenRule, Covenant, Params, Value,
  Host, State, SettlementOutput,
}
use acp_server.Keys.{same_bytes}
use acp_server.GitTwin.Anchors.{
  ack_anchor, enqueue_anchor, is_anchor, to_written, list_pending_anchors, rollup_snapshot_hash,
  is_output, parse_signing_key, bytes_equal,
}
use acp_server.GitTwin.Anchors.Acked.{IsOther, ack_is_final}
use acp_server.GitTwin.Anchors.Signed.{IsEnqueued, IsNotable, enqueue_anchor-IsEnqueued}
use acp_server.GitTwin.Anchors.{
  insert_anchor, snapshot_hashes, sign_note, canonical_unsigned_anchor,
}
use acp_server.GitTwin.Units.{
  DiffStat, split_lines, words_in_diff, count_lines, count_fields, count_from,
}
use acp_server.GitTwin.Units.Words.{all_words, added_lines, words_in_diff-words}
use acp_server.Sealing.{codes, drop, take}
use acp_server.Tokens.Rules.{RuleVars, division_by_zero, eval_expr}
use acp_server.Tokens.Parse.{
  validate_formula, evaluate, parse_rules, index_rules, skip_spaces, rule_for,
}
use acp_server.Tools.Configuring.{execute_rules, validate_all, is_seen}
use acp_server.Tools.Configuring.Configured.{configured_rules_evaluate}
use acp_server.Tools.Agents.{approve_agent}
use acp_server.Api.{Headers, owner_tool_handler}
use acp_server.Api.Accounts.{
  handle_get_budget, handle_set_budget, handle_issue_token, BudgetRequest,
}
use acp_server.Api.Covenants.{handle_transition}
use acp_server.Api.GitTwin.{handle_set_git_twin, BindRequest}
use acp_server.Api.Queries.{handle_list_members, handle_get_concentration_status}
use acp_server.Api.Access.{IsDenied, IsNoOwner, owner_routes_guarded}
use acp_server.Tests.Data.{host, draw_of, server}
use acp_server.Tests.Codec.{output, priv, same_note, codec, codec-IsFaithful}

abbrev settled : Db
settled = record server { settlement_outputs = output ∷ [] }

parsed : parse_signing_key codec priv ≡ ok priv
unfolding parse_signing_key bytes_equal codec drop take same_bytes
parsed = refl

notable :
    (out : SettlementOutput)
    → first (is_output 50 1) settled.settlement_outputs ≡ some out
    → IsNotable codec out
unfolding first codec
notable out found =
    let this : output ≡ out = eq_of_some found in rw (sym this) (refl, (omega arith, omega arith))

enqueue_anchor-IsEnqueued_example :
    IsEnqueued codec codec-IsFaithful priv priv parsed 1 50 settled
      (enqueue_anchor codec (some priv) (draw_of 1) 1 60 50 settled)
unfolding codec
enqueue_anchor-IsEnqueued_example =
    enqueue_anchor-IsEnqueued codec codec-IsFaithful priv priv parsed (draw_of 1) 1 60 50 settled
      refl refl notable

-- The settlement is anchored under this key.
enqueued_once :
    (a : Anchor) × ((enqueue_anchor codec (some priv) (draw_of 1) 1 60 50 settled).0 ≡ ok a)
    × (a.note_body ≡ 2)
unfolding enqueue_anchor insert_anchor rollup_snapshot_hash snapshot_hashes sign_note
    canonical_unsigned_anchor codec same_note first exists drop same_bytes
enqueued_once = (_, refl, refl)

abbrev anchor : Anchor
anchor = record {
  anchor_id = 61;
  covenant_id = 1;
  settlement_output_id = 50;
  repo_url = 60;
  settlement_hash = 52;
  snapshot_hash = 0;
  note_body = 2;
  status = AnchorStatus.pending;
  enqueued_at = 8;
  written_at = none;
  written_commit_sha = empty;
}

abbrev anchored : Db
anchored = record settled { git_twin_anchors = anchor ∷ [] }

anchor_known : first (is_anchor 61) anchored.git_twin_anchors ≡ some anchor
unfolding first
anchor_known = refl

ack_is_final_example :
    let (r, db') = ack_anchor 9 61 70 anchored in
    (r ≡ ok tt)
    × (first (is_anchor 61) db'.git_twin_anchors ≡ some (to_written 9 70 anchor))
    × (ack_anchor 10 61 70 db' ≡ (ok tt, db'))
    × ((other : Text) → other ≢ 70 → (e : Error) × (ack_anchor 10 61 other db' ≡ (err e, db')))
    × ((repo_url : Text) (limit : ℤ) → All (IsOther 61) (list_pending_anchors repo_url limit db'))
ack_is_final_example = ack_is_final 9 61 70 10 anchored anchor anchor_known refl (λ e. ground arith)

-- Letters are the lower case ones.
abbrev is_letter : ℕ → Bool
is_letter c = leb b'a' c && leb c b'z'

abbrev diff : DiffStat
diff = record {
  lines_added = pos 1;
  lines_removed = pos 0;
  files_changed = pos 1;
  diff_body = codes "+an added line\n-a removed one";
}

words_in_diff-words_example :
    words_in_diff is_letter diff
    ≡ pos (length (all_words is_letter (added_lines (split_lines diff.diff_body))))
words_in_diff-words_example = words_in_diff-words is_letter diff

three_words : words_in_diff is_letter diff ≡ pos 3
unfolding words_in_diff split_lines count_lines count_fields count_from
three_words = refl

abbrev rule : TokenRule
rule = record { tool_name = "propose_passage"; formula = 9; base_rate = 1; pending = false }

abbrev rules_host : Host
rules_host = record host { unmarshal_rules = λ raw. some (rule ∷ []) }

abbrev array : Option Value → Option (List ℕ)
array v = some (b'[' ∷ [])

rules_accepted : execute_rules rules_host array [] ≡ ok (record { rules_json = b'[' ∷ [] })
unfolding execute_rules validate_all is_seen parse_rules index_rules skip_spaces validate_formula
    eval_expr
rules_accepted = refl

configured_rules_evaluate_example :
    (rules : List (String × TokenRule)) × (parse_rules rules_host (b'[' ∷ []) ≡ ok rules)
    × ((name : String) (r : TokenRule) (vars : RuleVars)
        → rule_for name rules ≡ some r
        → ((n : ℤ) × (evaluate rules_host r vars ≡ ok n))
          ⊎ (evaluate rules_host r vars ≡ err (wrap "token rule %q: %w" division_by_zero)))
configured_rules_evaluate_example =
    configured_rules_evaluate rules_host array [] (record { rules_json = b'[' ∷ [] }) rules_accepted

abbrev headers : Headers
headers = record {
  covenant_id = 1;
  agent_id = 11;
  session_token = 0;
  owner_token = 99;
  bridge_secret = 0;
}

stranger : IsNoOwner 99 1 server
unfolding first
stranger c found = λ e. ground (arith, ap (λ (x : Covenant). x.owner_token) (eq_of_some found))

owner_routes_guarded_example :
    ((body : Option (Option Params))
      → IsDenied server (
          owner_tool_handler host (draw_of 1) (approve_agent host (draw_of 1)) headers body server))
    × ((body : Option (Option State))
        → IsDenied server (handle_transition host (draw_of 1) headers 1 body server))
    × ((body : Option BindRequest)
        → IsDenied server (handle_set_git_twin (draw_of 1) headers 1 body server))
    × IsDenied server (handle_get_budget headers 1 server)
    × ((body : Option BudgetRequest)
        → IsDenied server (handle_set_budget (draw_of 1) headers 1 body server))
    × ((agent_id : Text)
        → IsDenied server (
            handle_issue_token host
              (draw_of 1)
              headers
              (some (record { agent_id = agent_id; covenant_id = 1 }))
              server))
    × ((prefix : Text → Text)
        → IsDenied server (handle_list_members prefix headers (some 1) server))
    × IsDenied server (handle_get_concentration_status host headers (some 1) server)
owner_routes_guarded_example =
    owner_routes_guarded host (draw_of 1) headers server stranger (approve_agent host (draw_of 1))
