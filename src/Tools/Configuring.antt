-- ===== src/Tools/Configuring.antt =====
-- tools/configure_token_rules.go and tools/configure_anti_gaming.go.
use acp_server.Base.{
  ℕ, String, ◌≡◌, refl, Bool, true, false, not, ◌&&◌, ◌||◌, Option, none, some, List, [], ◌∷◌, ◌==◌,
  str_eq, is_none, if◌then◌else◌,
}
use acp_server.Base.Int.{ℤ, pos, ltb_ℤ}
use acp_server.Base.Sql.{update_where}
use acp_server.Store.{
  Text, Float, Time, Db, Covenant, Policy, State, ◌is◌, TokenRule, Host, Draw, Params, Value, Error,
  errorf, wrap, sprintf, Result, Exec, ok, err, pure, lift, raise_if, modify, ◌>>=◌, ◌>>◌,
}
use acp_server.Covenant.{is_covenant}
use acp_server.Execution.{SideEffects, Context, Tool}
use acp_server.Execution.Policy.{default_params_policy}
use acp_server.RateLimit.{upsert_policy}
use acp_server.Tokens.Parse.{parse_rules, validate_formula, rule_for}
use acp_server.Tools.{param, int_param, float_param, to_int_value}
use acp_server.Tools.ProposePassage.{no_effects}
pub mod Configured

-- A parameter that is missing reads as nil.
abbrev pub is_nil_value : Option Value → Bool
is_nil_value none = true
is_nil_value (some Value.null) = true
is_nil_value (some v) = false

unfoldable pub check_rules : Context → Params → Exec (Unit {0})
check_rules ctx params = do
  raise_if (not ctx.member.is_owner) (errorf "only covenant owner can configure token rules" [])
  raise_if (not (ctx.covenant.state is State.draft)) (
      errorf "covenant must be in DRAFT state to configure token rules, currently %s"
        (Value.state ctx.covenant.state ∷ []))
  raise_if (is_nil_value (param "rules" params)) (errorf "rules is required" [])

pub record Rules : Type 0 where
  pub rules_json : List ℕ

-- Of two entries of one name the map holds the one in front.
unfoldable pub is_seen : String → List String → Bool
is_seen name [] = false
is_seen name (n ∷ seen) = str_eq n name || is_seen name seen

abbrev pub first_error : String → Result Float → Result (Unit {0}) → Result (Unit {0})
first_error name (err e) rest = err (wrap "rule %q: %w" e)
first_error name (ok x) rest = rest

-- The loop over the map of the rules.
unfoldable pub validate_all : Host → List String → List (String × TokenRule) → Result (Unit {0})
validate_all host seen [] = ok tt
validate_all host seen ((n, r) ∷ rest) =
    let others = validate_all host (n ∷ seen) rest in
    if is_seen n seen then others else first_error n (validate_formula host r.formula) others

abbrev pub validated : Result (Unit {0}) → List ℕ → Result Rules
validated (err e) raw = err e
validated (ok u) raw = ok (record { rules_json = raw })

abbrev pub check_parsed : Host → List ℕ → Result (List (String × TokenRule)) → Result Rules
check_parsed host raw (err e) = err e
check_parsed host raw (ok rules) = validated (validate_all host [] rules) raw

abbrev pub check_marshalled : Host → Option (List ℕ) → Result Rules
check_marshalled host none = err (errorf "invalid rules format: %w" [])
check_marshalled host (some raw) = check_parsed host raw (parse_rules host raw)

-- ExecuteLogic; `marshal` is json.Marshal.
unfoldable pub execute_rules : Host → (Option Value → Option (List ℕ)) → Params → Result Rules
execute_rules host marshal params = check_marshalled host (marshal (param "rules" params))

abbrev pub with_rules : Time → List ℕ → Covenant → Covenant
with_rules now raw c = record c { token_rules_json = raw; updated_at = now }

unfoldable pub store_rules : Time → Text → List ℕ → Db → Db
store_rules now covenant_id raw db = record db {
  covenants = update_where (is_covenant covenant_id) (with_rules now raw) db.covenants;
}

abbrev pub configure_token_rules : Host → (Option Value → Option (List ℕ)) → Draw → Tool Rules
configure_token_rules host marshal draw = record {
  tool_name = "configure_token_rules";
  tool_type = "admin";
  check_preconditions = check_rules;
  execute_logic = λ ctx params. lift (execute_rules host marshal params);
  calculate_side_effects = λ ctx x params db. no_effects host ctx;
  apply_side_effects = λ ctx entry fx x params db.
      (ok x, store_rules draw.now ctx.covenant.covenant_id x.rules_json db);
  estimate_cost = λ ctx params. pos 0;
  params_policy = default_params_policy;
  detail = λ x. sprintf "Token rules configured." [];
  is_final = λ x. true;
  enrich_receipt = λ x. ("ok", Value.flag true) ∷ [];
}

-- The flag of intParam.
abbrev pub is_number : Option Value → Bool
is_number (some (Value.int n)) = true
is_number (some (Value.float x)) = true
is_number _ = false

abbrev pub before_locked : State → Bool
before_locked s = s is State.draft || (s is State.opened || s is State.active)

unfoldable pub check_policy : Host → Context → Params → Exec (Unit {0})
check_policy host ctx params = do
  raise_if (not ctx.member.is_owner)
      (errorf "only covenant owner can configure anti-gaming policy" [])
  raise_if (not (before_locked ctx.covenant.state)) (
      errorf "anti-gaming policy can only be configured before LOCKED, currently %s"
        (Value.state ctx.covenant.state ∷ []))
  raise_if (not (is_number (param "rate_limit_per_hour" params)))
      (errorf "rate_limit_per_hour is required" [])
  raise_if (ltb_ℤ (int_param host "rate_limit_per_hour" params) (pos 0))
      (errorf "rate_limit_per_hour must be >= 0 (0 means unlimited)" [])

-- The data are the fields of the policy; as they are an int or a float, asInt and asFloat give
-- them back.
abbrev pub policy_of_params : Host → Context → Params → Policy
policy_of_params host ctx params = record {
  covenant_id = ctx.covenant.covenant_id;
  rate_limit_per_hour = int_param host "rate_limit_per_hour" params;
  similarity_threshold = float_param host "similarity_threshold" params;
  min_word_count = int_param host "min_word_count" params;
  concentration_warn_pct = float_param host "concentration_warn_pct" params;
}

unfoldable pub apply_policy : Policy → Exec Policy
apply_policy p = do upsert_policy p; pure p

abbrev pub configure_anti_gaming : Host → Tool Policy
configure_anti_gaming host = record {
  tool_name = "configure_anti_gaming";
  tool_type = "admin";
  check_preconditions = check_policy host;
  execute_logic = λ ctx params. pure (policy_of_params host ctx params);
  calculate_side_effects = λ ctx x params db. no_effects host ctx;
  apply_side_effects = λ ctx entry fx x params. apply_policy x;
  estimate_cost = λ ctx params. pos 0;
  params_policy = default_params_policy;
  detail = λ x. sprintf "Anti-gaming policy updated." [];
  is_final = λ x. true;
  enrich_receipt = λ x. ("rate_limit_per_hour", Value.int x.rate_limit_per_hour) ∷ [];
}
