-- ===== src/Api/Accounts.antt =====
-- internal/api/api.go: the handlers on budgets, session tokens and the audit log.
use acp_server.Base.{
  String, Bool, not, ◌||◌, Option, List, [], ◌∷◌, ◌==◌, str_eq, leb, if◌then◌else◌,
}
use acp_server.Base.Int.{ℤ}
use acp_server.Store.{Text, empty, Entry, Host, Draw}
use acp_server.Audit.{Violation, rows, verify_chain}
use acp_server.Budget.{BudgetState, get_state, ensure_counter}
use acp_server.GitTwin.Anchors.{first_n}
use acp_server.Sessions.{issue, rotate, validate_for_covenant}
use acp_server.Api.{
  json_ok, json_error, Handler, reply, service, query, always, message, decode, Headers,
  missing_session, require_session, validate_owner_token, unauthorized, internal_error, ◌>>=◌, ◌>>◌,
}

pub record ChainReply : Type 0 where
  pub covenant_id : Text
  pub valid : Bool
  pub violations : List Violation

abbrev pub chain_reply : Text → Bool × List Violation → ChainReply
chain_reply covenant_id (valid, found) = record {
  covenant_id = covenant_id;
  valid = valid;
  violations = found;
}

unfoldable pub handle_verify_chain : Host → Text → Handler ChainReply
handle_verify_chain host covenant_id =
    query (λ db. chain_reply covenant_id (verify_chain host covenant_id db))

-- ORDER BY sequence DESC
unfoldable pub insert_latest : Entry → List Entry → List Entry
insert_latest e [] = e ∷ []
insert_latest e (f ∷ rest) =
    if leb f.sequence e.sequence then e ∷ f ∷ rest else f ∷ insert_latest e rest

unfoldable pub latest_first : List Entry → List Entry
latest_first [] = []
latest_first (e ∷ rest) = insert_latest e (latest_first rest)

-- The entries are given whole; the reply leaves some of their columns out.
unfoldable pub handle_get_audit_log : Host → Draw → Headers → Text → Handler (List Entry)
handle_get_audit_log host draw h covenant_id db =
    if h.session_token == empty
      || not (validate_for_covenant host draw.now h.session_token covenant_id db)
    then (json_error (message "valid X-Session-Token for this covenant required") unauthorized, db)
    else (json_ok (first_n 50 (latest_first (rows covenant_id db))), db)

unfoldable pub handle_get_budget : Headers → Text → Handler BudgetState
handle_get_budget h covenant_id = do
  validate_owner_token h.owner_token covenant_id
  query (get_state covenant_id)

pub record BudgetRequest : Type 0 where
  pub budget_limit : ℤ
  pub currency : String

abbrev pub with_currency : BudgetRequest → BudgetRequest
with_currency req = record req { currency = if str_eq req.currency "" then "USD" else req.currency }

abbrev pub write_budget : Draw → Text → BudgetRequest → Handler (Unit {0})
write_budget draw covenant_id req db =
    (json_ok tt, ensure_counter draw covenant_id req.budget_limit req.currency db)

-- The reply repeats what was asked for, whatever the counter holds.
unfoldable pub handle_set_budget :
    Draw → Headers → Text → Option BudgetRequest → Handler BudgetRequest
handle_set_budget draw h covenant_id body = do
  validate_owner_token h.owner_token covenant_id
  req ← decode body
  write_budget draw covenant_id (with_currency req)
  reply (with_currency req)

pub record TokenRequest : Type 0 where
  pub agent_id : Text
  pub covenant_id : Text

unfoldable pub handle_issue_token : Host → Draw → Headers → Option TokenRequest → Handler Text
handle_issue_token host draw h body = do
  req ← decode body
  validate_owner_token h.owner_token req.covenant_id
  service (always internal_error) (issue host draw req.agent_id req.covenant_id)

unfoldable pub handle_rotate_token : Host → Draw → Headers → Option TokenRequest → Handler Text
handle_rotate_token host draw h body = do
  req ← decode body
  missing_session host h.session_token
  require_session host draw.now h.session_token req.agent_id req.covenant_id
  service (always internal_error) (rotate host draw req.agent_id req.covenant_id)
