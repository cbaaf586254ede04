-- ===== src/Tests/Data.antt =====
-- A host that computes on numbers in the place of floats and digests, and a covenant with an owner,
-- one guest, a tier and a budget.
use acp_server.Base.{
  ℕ, ◌+◌, ◌-◌, ◌*◌, ◌/◌, true, false, none, some, List, [], ◌∷◌, ◌==◌, ltb, length,
}
use acp_server.Base.Int.{pos, pos_part}
use acp_server.Store.{
  Db, empty_db, Covenant, Tier, Identity, Member, MemberStatus, Counter, Policy, Session,
  SessionStatus, AccessRequest, RequestStatus, State, Entry, Outcome, unset, Detail, Message, Host,
  Floats, Component, Draw, Expr,
}

abbrev pub number_floats : Floats
number_floats = record {
  of_int = pos_part;
  to_int = λ x. pos x;
  add = λ x y. x + y;
  sub = λ x y. x - y;
  mul = λ x y. x * y;
  div = λ x y. x / y;
  negate = λ x. x;
  floor = λ x. x;
  ceil = λ x. x;
  round = λ x. x;
  eq = λ x y. x == y;
  lt = λ x y. ltb x y;
}

abbrev pub code : Component → ℕ
code (Component.text t) = t
code (Component.number n) = n
code (Component.int n) = pos_part n
code (Component.decimal8 x) = x
code (Component.int_decimal8 n) = pos_part n
code (Component.time t) = t
code (Component.version v) = v
code (Component.outcome true) = 1
code _ = 0

abbrev pub sum_code : List Component → ℕ
sum_code [] = 7
sum_code (c ∷ cs) = code c + 31 * sum_code cs

abbrev pub host : Host
host = record {
  floats = number_floats;
  hash_entry = sum_code;
  hash_text = λ t. t;
  hash_preview = λ p. length p;
  hash_params = λ p. length p;
  hash_snapshot = λ k a t c w. k + a + pos_part t + pos_part c + w;
  sealer = none;
  unmarshal_rules = λ b. none;
  parse_expr = λ t. some (Expr.ident "word_count");
  nano_text_lt = λ s t. ltb s t;
  rune_length = λ v. 3;
}

-- The draw of the n-th call.
abbrev pub draw_of : ℕ → Draw
draw_of n = record {
  now = n;
  log_id = 100 + n;
  reservation_id = 200 + n;
  ledger_id = 300 + n;
  agent_id = 400 + n;
  covenant_id = 500 + n;
  owner_token = 600 + n;
  draft_id = 700 + n;
  output_id = 800 + n;
  request_id = 900 + n;
  token_id = 1000 + n;
  raw_token = 1100 + n;
  anchor_id = 1200 + n;
  snapshot_id = λ i. 1300 + n + i;
  cleanup = false;
}

abbrev pub covenant : Covenant
covenant = record {
  covenant_id = 1;
  version = "ACP@1.0";
  space_type = "book";
  title = 2;
  description = 0;
  state = State.active;
  owner_id = 10;
  owner_share_pct = 30;
  platform_share_pct = 0;
  contributor_pool_pct = 70;
  budget_limit = pos 100;
  budget_currency = "USD";
  cost_weight = 1;
  owner_token = 3;
  token_rules_json = [];
  git_twin_url = 0;
  git_twin_provider = "";
  git_twin_config_json = 0;
  created_at = 1;
  updated_at = 1;
}

abbrev pub tier : Tier
tier = record {
  tier_id = 4;
  covenant_id = 1;
  display_name = 5;
  token_multiplier = 1;
  max_slots = some (pos 2);
  entry_fee_tokens = pos 3;
}

abbrev pub guest : Member
guest = record {
  covenant_id = 1;
  platform_id = 20;
  agent_id = 11;
  tier_id = some 4;
  is_owner = false;
  status = MemberStatus.active;
  joined_at = 2;
}

abbrev pub counter_row : Counter
counter_row = record {
  covenant_id = 1;
  budget_limit = pos 100;
  budget_spent = pos 30;
  currency = "USD";
  updated_at = 1;
}

abbrev pub policy : Policy
policy = record {
  covenant_id = 1;
  rate_limit_per_hour = pos 2;
  similarity_threshold = 0;
  min_word_count = pos 0;
  concentration_warn_pct = 0;
}

abbrev pub session : Session
session = record {
  token_id = 30;
  agent_id = 11;
  covenant_id = 1;
  token_hash = 31;
  status = SessionStatus.active;
  created_at = 1;
  rotated_at = none;
}

abbrev pub request : AccessRequest
request = record {
  request_id = 40;
  covenant_id = 1;
  platform_id_hash = 41;
  platform_id_enc = none;
  tier_id = 4;
  payment_ref = 0;
  self_declaration = 0;
  status = RequestStatus.pending;
  reject_reason = 0;
  approve_log_id = 0;
  reject_log_id = 0;
  created_at = 1;
  resolved_at = none;
}

abbrev pub applicant : Identity
applicant = record {
  platform_id = 41;
  created_at = 1;
  platform_id_hash = 41;
  platform_id_enc = none;
}

abbrev pub server : Db
server = record empty_db {
  covenants = covenant ∷ [];
  access_tiers = tier ∷ [];
  platform_identities = applicant ∷ [];
  covenant_members = guest ∷ [];
  budget_counters = counter_row ∷ [];
  session_tokens = session ∷ [];
  anti_gaming_policies = policy ∷ [];
  agent_access_requests = request ∷ [];
}

-- What a caller of the log fills in.
abbrev pub event : Entry
event = record {
  log_id = 0;
  covenant_id = 1;
  sequence = 0;
  agent_id = 11;
  session_id = 0;
  tool_name = "propose_passage";
  tool_type = "clause";
  params_hash = 0;
  params_preview = [];
  result = Outcome.success;
  result_detail = Detail.detail Message.no_message;
  tokens_delta = pos 0;
  cost_delta = pos 10;
  cost_currency = "USD";
  net_delta = 0;
  state_before = State.active;
  state_after = State.active;
  timestamp = 0;
  prev_log_id = 0;
  hash = 0;
  spec_version = unset;
}
