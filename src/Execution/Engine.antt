-- ===== src/Execution/Engine.antt =====
-- `Run` of internal/execution/execution.go. Each step is a definition that takes the result of the step
-- before it, so the last step comes first.
use acp_server.Base.{String, Bool, not, ◌&&◌, Option, none, some, [], ◌∷◌, str_eq, if◌then◌else◌}
use acp_server.Base.Int.{ℤ, pos, ltb_ℤ, eqb_ℤ}
use acp_server.Store.{
  Text, empty, Db, Covenant, Member, State, Entry, Outcome, unset, Host, Draw, Detail, Message,
  Params, Value, Error, errorf, wrap, no_rows, Exec, Result, ok, err,
}
use acp_server.Audit.{log_event}
use acp_server.Budget.{check_and_reserve, release_reservation, record_spend}
use acp_server.RateLimit.{check_and_increment}
use acp_server.Covenant.{covenant_row}
use acp_server.Covenant.Members.{is_active, member_row}
use acp_server.Execution.{SideEffects, Context, Receipt, Tool}
use acp_server.Execution.Policy.{apply_params_policy}

abbrev pub or_state : Option State → State → State
or_state none s = s
or_state (some t) s = t

abbrev pub or_usd : String → String
or_usd currency = if str_eq currency "" then "USD" else currency

module _ {R : Type 0} (host : Host) (draw : Draw) (session_id : Text) (tool : Tool R)
    (params : Params) where
  -- The fields of an entry that both kinds of entry share; the log sets the others. The covenant and
  -- the agent are the ones of the call, by which the rows of the context were found.
  abbrev pub blank_entry : Context → Entry
  blank_entry ctx = record {
    log_id = empty;
    covenant_id = ctx.covenant.covenant_id;
    sequence = 0;
    agent_id = ctx.member.agent_id;
    session_id = session_id;
    tool_name = tool.tool_name;
    tool_type = tool.tool_type;
    params_hash = empty;
    params_preview = apply_params_policy host params tool.params_policy;
    result = Outcome.rejected;
    result_detail = Detail.detail Message.no_message;
    tokens_delta = pos 0;
    cost_delta = pos 0;
    cost_currency = "";
    net_delta = host.floats.of_int (pos 0);
    state_before = ctx.covenant.state;
    state_after = ctx.covenant.state;
    timestamp = 0;
    prev_log_id = empty;
    hash = empty;
    spec_version = unset;
  }

  abbrev pub rejection_entry : Context → Error → Entry
  rejection_entry ctx e = record (blank_entry ctx) { result_detail = Detail.reason e }

  unfoldable pub log_rejection : Context → Error → Db → Db
  log_rejection ctx e db = (log_event host draw (rejection_entry ctx e) db).1

  abbrev pub refuse : Context → String → Error → Exec Receipt
  refuse ctx step e db = (err (wrap step e), log_rejection ctx e db)

  -- Step 4: the defaults of the effects, and the net delta.
  unfoldable pub complete_effects : Context → ℤ → SideEffects → SideEffects
  complete_effects ctx estimated fx = record {
    tokens_delta = fx.tokens_delta;
    cost_delta = cost;
    cost_currency = or_usd fx.cost_currency;
    net_delta =
        host.floats.sub (host.floats.of_int fx.tokens_delta)
          (host.floats.mul ctx.covenant.cost_weight (host.floats.of_int cost));
    state_after = some (or_state fx.state_after ctx.covenant.state);
  }
    where
      cost : ℤ
      cost =
          if eqb_ℤ fx.cost_delta (pos 0) && ltb_ℤ (pos 0) estimated
          then estimated
          else fx.cost_delta

  abbrev pub is_foreign : Context → SideEffects → Bool
  is_foreign ctx fx =
      ltb_ℤ (pos 0) fx.cost_delta
      && not (str_eq fx.cost_currency (or_usd ctx.covenant.budget_currency))

  abbrev pub foreign_currency : Context → SideEffects → Error
  foreign_currency ctx fx =
      errorf "cost_currency %q does not match covenant budget_currency %q"
        (Value.name fx.cost_currency ∷ Value.name (or_usd ctx.covenant.budget_currency) ∷ [])

  abbrev pub success_entry : Context → SideEffects → R → Entry
  success_entry ctx fx x = record (blank_entry ctx) {
    result = Outcome.success;
    result_detail = Detail.detail (tool.detail x);
    tokens_delta = fx.tokens_delta;
    cost_delta = fx.cost_delta;
    cost_currency = fx.cost_currency;
    net_delta = fx.net_delta;
    state_after = or_state fx.state_after ctx.covenant.state;
  }

  abbrev pub receipt : Context → Entry → SideEffects → R → Receipt
  receipt ctx entry fx x = record {
    receipt_id = entry.log_id;
    covenant_id = ctx.covenant.covenant_id;
    agent_id = ctx.member.agent_id;
    tool_name = tool.tool_name;
    is_pending = not (tool.is_final x);
    tokens_awarded = fx.tokens_delta;
    cost_delta = fx.cost_delta;
    cost_currency = fx.cost_currency;
    net_delta = fx.net_delta;
    timestamp = entry.timestamp;
    log_hash = entry.hash;
    extra = tool.enrich_receipt x;
  }

  -- Steps 7 and 8, by the result of Step 6.
  unfoldable pub after_effects : Context → ℤ → Text → Entry → SideEffects → Result R → Exec Receipt
  after_effects ctx estimated reservation_id entry fx (err e) db =
      (err (wrap "step6: %w" e), release_reservation reservation_id db)
  after_effects ctx estimated reservation_id entry fx (ok x) db = (
    ok (receipt ctx entry fx x),
    record_spend draw ctx.covenant.covenant_id estimated reservation_id entry.log_id db,
  )

  -- Step 6, by the result of Step 5.
  unfoldable pub after_log : Context → ℤ → Text → SideEffects → R → Result Entry → Exec Receipt
  unfolding after_effects
  after_log ctx estimated reservation_id fx x (err e) db =
      (err (wrap "step5: audit log: %w" e), release_reservation reservation_id db)
  after_log ctx estimated reservation_id fx x (ok entry) db =
      let (r, db') = tool.apply_side_effects ctx entry fx x params db in
      after_effects ctx estimated reservation_id entry fx r db'

  -- Step 5, by the completed effects of Step 4.
  unfoldable pub after_calculation : Context → ℤ → Text → SideEffects → R → Exec Receipt
  unfolding after_log
  after_calculation ctx estimated reservation_id fx x db =
      if is_foreign ctx fx
      then refuse ctx "step4: %w" (foreign_currency ctx fx) (release_reservation reservation_id db)
      else let (r, db') = log_event host draw (success_entry ctx fx x) db in
        after_log ctx estimated reservation_id fx x r db'

  -- Step 4, by the result of Step 3.
  unfoldable pub after_logic : Context → ℤ → Text → Result R → Exec Receipt
  unfolding after_calculation complete_effects
  after_logic ctx estimated reservation_id (err e) db =
      refuse ctx "step3: %w" e (release_reservation reservation_id db)
  after_logic ctx estimated reservation_id (ok x) db =
      after_calculation ctx estimated reservation_id
        (complete_effects ctx estimated (tool.calculate_side_effects ctx x params db)) x db

  -- Step 3, by the result of Step 2.5.
  unfoldable pub after_gate : Context → ℤ → Result Text → Exec Receipt
  unfolding after_logic
  after_gate ctx estimated (err e) db = refuse ctx "step2.5: %w" e db
  after_gate ctx estimated (ok reservation_id) db =
      let (r, db') = tool.execute_logic ctx params db in
      after_logic ctx estimated reservation_id r db'

  -- Step 2.5, by the result of Step 2.
  unfoldable pub after_check : Context → Result (Unit {0}) → Exec Receipt
  unfolding after_gate
  after_check ctx (err e) db = refuse ctx "step2: %w" e db
  after_check ctx (ok u) db =
      let estimated = tool.estimate_cost ctx params in
      let (r, db') = check_and_reserve draw ctx.covenant.covenant_id estimated db in
      after_gate ctx estimated r db'

  -- Step 2, by the result of Step 1.5.
  unfoldable pub after_rate : Context → Result (Unit {0}) → Exec Receipt
  unfolding after_check
  after_rate ctx (err e) db = refuse ctx "step1.5: %w" e db
  after_rate ctx (ok u) db =
      let (r, db') = tool.check_preconditions ctx params db in after_check ctx r db'

  -- Step 1.5: only clause tools are counted.
  unfoldable pub rate_gate : Context → Exec (Unit {0})
  rate_gate ctx db =
      if str_eq tool.tool_type "clause"
      then check_and_increment host draw ctx.covenant.covenant_id ctx.member.agent_id tool.tool_name
          db
      else (ok tt, db)

  unfoldable pub run_active : Context → Exec Receipt
  unfolding after_rate rate_gate
  run_active ctx db = let (r, db') = rate_gate ctx db in after_rate ctx r db'

  abbrev pub forbidden : Error
  forbidden = errorf "step1.forbidden: agent status %q does not permit execution" []

  -- The end of Step 1, by the two queries.
  unfoldable pub admit : Option Covenant → Option Member → Exec Receipt
  unfolding run_active
  admit none m db = (err (wrap "step1: covenant not found: %w" no_rows), db)
  admit (some cov) none db = (err (wrap "step1: agent not in covenant: %w" no_rows), db)
  admit (some cov) (some m) db =
      if is_active m.status
      then run_active (record { covenant = cov; member = m }) db
      else (err forbidden, db)

  unfoldable pub run : Text → Text → Exec Receipt
  unfolding admit
  run covenant_id agent_id db =
      admit (covenant_row covenant_id db) (member_row covenant_id agent_id db) db
