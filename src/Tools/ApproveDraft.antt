-- ===== src/Tools/ApproveDraft.antt =====
-- tools/approve_draft.go: the owner confirms a draft, and its proposer is awarded tokens.
pub mod Once
pub mod Events
use acp_server.Base.{
  ℕ, String, ◌≡◌, refl, sym, ap, ◌∙◌, Bool, true, false, not, ◌&&◌, Option, none, some, List, [],
  ◌∷◌, ◌==◌, Bool-cases, Option-cases, inl, inr, if◌then◌else◌, arith, length,
}
use acp_server.Base.Int.{ℤ, pos, leb_ℤ}
use acp_server.Base.Sql.{first, delete_where}
use acp_server.Base.Queries.{first-delete, first-holds}
use acp_server.Store.{
  Text, Float, empty, Db, Entry, Covenant, Member, Tier, PendingDraft, State, ◌is◌, Host, Draw,
  TokenRule, Params, Value, Error, errorf, wrap, no_rows, sprintf, Exec, Result, ok, err,
  Result-cases, eq_of_ok,
}
use acp_server.Tokens.{calculate, confirm_contribution, claim_pending, pending_draft}
use acp_server.Tokens.Rules.{RuleVars}
use acp_server.Tokens.Parse.{parse_rules, rule_for, evaluate}
use acp_server.RateLimit.Concentration.{ConcentrationEntry, check_concentration}
use acp_server.Covenant.{covenant_row, tier_row}
use acp_server.Covenant.Members.{member_row}
use acp_server.Execution.{ParamsPolicy, SideEffects, Context, Tool}
use acp_server.Tools.{int_param, float_param, text_param, cost_cents}

-- The data of the tool; the two fields on the concentration are empty until the award.
pub record Approval : Type 0 where
  pub draft_id : Text
  pub log_id : Text
  pub proposer_agent_id : Text
  pub unit_count : ℤ
  pub acceptance_ratio : Float
  pub warnings : List ConcentrationEntry
  pub concentration_total : ℤ

unfoldable pub check : Context → Params → Exec (Unit {0})
check ctx params db =
    if not (ctx.covenant.state is State.active)
    then (
      err (errorf "covenant must be ACTIVE, currently %s" (Value.state ctx.covenant.state ∷ [])),
      db,
    )
    else if not ctx.member.is_owner
    then (err (errorf "only covenant owner can approve drafts" []), db)
    else if text_param "log_id" params == empty && text_param "draft_id" params == empty
    then (err (errorf "log_id or draft_id is required" []), db)
    else (ok tt, db)

-- A ratio of zero, or none, stands for one.
unfoldable pub ratio_of : Host → Params → Float
ratio_of host params =
    let ratio = float_param host "acceptance_ratio" params in
    if host.floats.eq ratio (host.floats.of_int (pos 0)) then host.floats.of_int (pos 1) else ratio

abbrev pub waiting_of : Text → Option Entry → Db → Result Text
waiting_of covenant_id none db = err (wrap "log_id %q not found in this covenant: %w" no_rows)
waiting_of covenant_id (some e) db =
    elim (first (λ d. d.covenant_id == covenant_id && d.agent_id == e.agent_id) db.pending_tokens) [
      | none ↦ err (wrap "no pending draft for agent %q (log %s): %w" no_rows)
      | some d ↦ ok d.draft_id
    ]

-- The draft to approve: the one of the call, or some draft of the agent of the log's row. The query
-- has no order; here it finds the newest.
unfoldable pub chosen_draft : Text → Text → Text → Db → Result Text
chosen_draft covenant_id log_id draft_id db =
    if not (log_id == empty) && draft_id == empty
    then waiting_of covenant_id
        (first (λ e. e.log_id == log_id && e.covenant_id == covenant_id) db.audit_logs) db
    else ok draft_id

abbrev pub approval : Host → Params → Text → Text → Approval
approval host params draft_id proposer = record {
  draft_id = draft_id;
  log_id = text_param "log_id" params;
  proposer_agent_id = proposer;
  unit_count = int_param host "unit_count" params;
  acceptance_ratio = ratio_of host params;
  warnings = [];
  concentration_total = pos 0;
}

unfoldable pub after_claim : Host → Params → Text → Result Text → Exec Approval
after_claim host params draft_id (err e) db = (err e, db)
after_claim host params draft_id (ok proposer) db =
    (ok (approval host params draft_id proposer), db)

unfoldable pub claim_chosen : Host → Context → Params → Result Text → Exec Approval
unfolding after_claim
claim_chosen host ctx params (err e) db = (err e, db)
claim_chosen host ctx params (ok draft_id) db =
    let (r, db') = claim_pending ctx.covenant.covenant_id draft_id db in
    after_claim host params draft_id r db'

unfoldable pub execute : Host → Context → Params → Exec Approval
unfolding claim_chosen chosen_draft
execute host ctx params db =
    if leb_ℤ (int_param host "unit_count" params) (pos 0)
    then (err (errorf "unit_count must be > 0 for approval" []), db)
    else claim_chosen host ctx params
        (chosen_draft ctx.covenant.covenant_id (text_param "log_id" params)
          (text_param "draft_id" params) db)
        db

abbrev pub multiplier_of : Host → Text → Option Member → Db → Float
multiplier_of host covenant_id none db = host.floats.of_int (pos 1)
multiplier_of host covenant_id (some m) db = elim m.tier_id [
  | none ↦ host.floats.of_int (pos 1)
  | some tier_id ↦ elim (tier_row covenant_id tier_id db) [
    | none ↦ host.floats.of_int (pos 1)
    | some t ↦ t.token_multiplier
  ]
]

abbrev pub or_standard : ℤ → Result ℤ → ℤ
or_standard standard (ok n) = n
or_standard standard (err e) = standard

abbrev pub by_rule : Host → ℤ → RuleVars → Option TokenRule → ℤ
by_rule host standard vars none = standard
by_rule host standard vars (some rule) = or_standard standard (evaluate host rule vars)

abbrev pub by_rules : Host → ℤ → RuleVars → Result (List (String × TokenRule)) → ℤ
by_rules host standard vars (err e) = standard
by_rules host standard vars (ok rules) =
    by_rule host standard vars (rule_for "propose_passage" rules)

abbrev pub rules_json : Option Covenant → List ℕ
rules_json none = []
rules_json (some c) = c.token_rules_json

abbrev pub rule_vars : Approval → Float → RuleVars
rule_vars x multiplier = record {
  word_count = x.unit_count;
  acceptance_ratio = x.acceptance_ratio;
  tier_multiplier = multiplier;
  call_count = pos 0;
}

-- The award: by the rule of propose_passage where the covenant has one that evaluates, or else by the
-- fixed formula.
unfoldable pub award : Host → Context → Approval → Db → ℤ
award host ctx x db =
    let k = ctx.covenant.covenant_id in
    let multiplier = multiplier_of host k (member_row k x.proposer_agent_id db) db in
    by_rules host (calculate host x.unit_count multiplier x.acceptance_ratio)
      (rule_vars x multiplier) (parse_rules host (rules_json (covenant_row k db)))

abbrev pub effects : Host → Context → Approval → Params → Db → SideEffects
effects host ctx x params db = record {
  tokens_delta = award host ctx x db;
  cost_delta = pos 0;
  cost_currency = "";
  net_delta = host.floats.of_int (pos 0);
  state_after = some ctx.covenant.state;
}

abbrev pub with_report : Host → Context → Approval → Db → Approval
with_report host ctx x db =
    let report = check_concentration host ctx.covenant.covenant_id db in
    elim report.warnings [
      | [] ↦ x
      | w ∷ ws ↦ record x { warnings = w ∷ ws; concentration_total = report.total }
    ]

abbrev pub after_award : Host → Context → Approval → Result (Unit {0}) → Exec Approval
after_award host ctx x (err e) db = (err e, db)
after_award host ctx x (ok u) db = (ok (with_report host ctx x db), db)

unfoldable pub apply_award :
    Host → Draw → Context → Entry → SideEffects → Approval → Params → Exec Approval
apply_award host draw ctx entry fx x params db =
    let (r, db') =
      confirm_contribution draw ctx.covenant.covenant_id x.proposer_agent_id entry.log_id x.draft_id
        fx.tokens_delta db in
    after_award host ctx x r db'

-- The list of warnings on the receipt is an opaque value of its length.
abbrev pub approve_draft : Host → Draw → Tool Approval
approve_draft host draw = record {
  tool_name = "approve_draft";
  tool_type = "clause";
  check_preconditions = check;
  execute_logic = execute host;
  calculate_side_effects = effects host;
  apply_side_effects = apply_award host draw;
  estimate_cost = λ ctx params. cost_cents host (pos 5) params;
  params_policy = record {
    store_hash_only = false;
    preview_fields = "log_id" ∷ "draft_id" ∷ "unit_count" ∷ "acceptance_ratio" ∷ [];
    sensitive_fields = [];
    hash_preview_fields = [];
  };
  detail = λ x. sprintf "Draft %s approved at %.0f%%" (
      Value.text x.draft_id
      ∷ Value.float (host.floats.mul x.acceptance_ratio (host.floats.of_int (pos 100)))
      ∷ []);
  is_final = λ x. true;
  enrich_receipt = λ x. elim x.warnings [
    | [] ↦ []
    | w ∷ ws ↦
        ("concentration_warnings", Value.other (length x.warnings))
        ∷ ("concentration_total", Value.int x.concentration_total)
        ∷ []
  ];
}
