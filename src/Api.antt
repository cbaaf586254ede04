-- ===== src/Api.antt =====
-- internal/api/api.go: the handlers of the HTTP server, from the decoded request to the status and the
-- data of the reply. Routing and JSON are not modelled; a body that does not decode is `none`.
use acp_server.Base.{
  ℕ, String, ◌+◌, Bool, true, false, not, ◌&&◌, ◌||◌, Option, none, some, List, [], ◌∷◌, ◌==◌,
  if◌then◌else◌,
}
use acp_server.Store.{
  Text, empty, Time, Db, Host, Draw, Params, Value, Error, errorf, wrap, Result, ok, err, Exec,
}
use acp_server.Covenant.{get_owner_token}
use acp_server.Covenant.Members.{get_owner_agent_id}
use acp_server.Execution.{Tool, Receipt}
use acp_server.Execution.Engine.{run}
use acp_server.GitTwin.Webhook.{after_prefix, has_prefix}
use acp_server.Sealing.{codes}
use acp_server.Sessions.{validate}
pub mod Covenants
pub mod Queries
pub mod Accounts
pub mod GitTwin
pub mod Access
pub mod Answers

-- jsonOK with its data, or jsonError with its message and code.
pub data Reply {ℓ} (A : Type ℓ) : Type ℓ where
  json_ok : A → Reply A
  json_error : Error → ℕ → Reply A

abbrev pub Handler {ℓ} : Type ℓ → Type ℓ
Handler A = Db → Reply A × Db

module _ {ℓ κ} {A : Type ℓ} {B : Type κ} where
  abbrev pub proceed : Reply A → (A → Handler B) → Handler B
  proceed (json_ok a) step db = step a db
  proceed (json_error e code) step db = (json_error e code, db)

  infixl 5 ◌>>=◌ ◌>>◌
  abbrev pub ◌>>=◌ : Handler A → (A → Handler B) → Handler B
  ◌>>=◌ m step db = let (r, db') = m db in proceed r step db'

  abbrev pub ◌>>◌ : Handler A → Handler B → Handler B
  ◌>>◌ m next db = let (r, db') = m db in proceed r (λ _. next) db'

module _ {ℓ} {A : Type ℓ} where
  abbrev pub reply : A → Handler A
  reply a db = (json_ok a, db)

  abbrev pub answered : (Error → ℕ) → Result A × Db → Reply A × Db
  answered code (ok a, db) = (json_ok a, db)
  answered code (err e, db) = (json_error e (code e), db)

  -- A call of a service, whose error is answered with its code.
  abbrev pub service : (Error → ℕ) → Exec A → Handler A
  service code m db = answered code (m db)

  abbrev pub query : (Db → A) → Handler A
  query f db = (json_ok (f db), db)

-- An early return.
abbrev pub refuse_if : Bool → Error → ℕ → Handler (Unit {0})
refuse_if broken e code db = if broken then (json_error e code, db) else (json_ok tt, db)

abbrev pub bad_request : ℕ
bad_request = 400

abbrev pub unauthorized : ℕ
unauthorized = 401

abbrev pub forbidden_status : ℕ
forbidden_status = 403

abbrev pub not_found : ℕ
not_found = 404

abbrev pub conflict : ℕ
conflict = 409

abbrev pub internal_error : ℕ
internal_error = 500

abbrev pub always : ℕ → Error → ℕ
always code e = code

abbrev pub message : String → Error
message text = errorf text []

-- decode
abbrev pub decode {ℓ} : {A : Type ℓ} → Option A → Handler A
decode none db = (json_error (message "invalid JSON: ") bad_request, db)
decode (some a) db = (json_ok a, db)

-- The headers that the handlers read; one that is missing is empty.
pub record Headers : Type 0 where
  pub covenant_id : Text
  pub agent_id : Text
  pub session_token : Text
  pub owner_token : Text
  pub bridge_secret : Text

-- The format string that the text of an error begins with.
abbrev pub format_of : Error → String
format_of (Error.errorf format args) = format
format_of (Error.wrap format e) = format
format_of Error.no_rows = "sql: no rows in result set"
format_of (Error.unique_violation table) = "UNIQUE constraint failed: "
format_of (Error.foreign_key_violation table) = "FOREIGN KEY constraint failed"

abbrev pub starts_with : String → String → Bool
starts_with prefix text = has_prefix (after_prefix (codes prefix) (codes text))

-- The code of an error of the engine; mapEngineErrStatus of git_twin.go.
unfoldable pub engine_status : Error → ℕ
engine_status e =
    let text = format_of e in
    if starts_with "step1.forbidden:" text
    then forbidden_status
    else (if starts_with "step1:" text
          || (starts_with "step2:" text
              || (starts_with "step2.5:" text || starts_with "step3:" text))
        then bad_request
        else internal_error)

abbrev pub invalid_session : Error
invalid_session = message "invalid or expired session token"

abbrev pub invalid_owner : Error
invalid_owner = message "invalid owner token"

module _ (host : Host) where
  abbrev pub answer_session : (Bool × Bool) × Db → Reply Bool × Db
  answer_session ((true, in_grace), db) = (json_ok in_grace, db)
  answer_session ((false, in_grace), db) = (json_error invalid_session unauthorized, db)

  -- sessions.Validate at the entry of a handler; the data is whether the token is in grace.
  unfoldable pub require_session : Time → Text → Text → Text → Handler Bool
  require_session now token agent_id covenant_id db =
      answer_session (validate host now token agent_id covenant_id db)

  abbrev pub missing_session : Text → Handler (Unit {0})
  missing_session token =
      refuse_if (token == empty) (message "X-Session-Token header required") unauthorized

  -- validateSession, as the routes use it inline
  unfoldable pub check_session : Time → Text → Text → Text → Handler Bool
  check_session now token agent_id covenant_id = do
    missing_session token
    require_session now token agent_id covenant_id

abbrev pub answer_owner : Text → Result Text × Db → Reply (Unit {0}) × Db
answer_owner token (err e, db) = (json_error invalid_owner unauthorized, db)
answer_owner token (ok stored, db) =
    if stored == empty || not (stored == token)
    then (json_error invalid_owner unauthorized, db)
    else (json_ok tt, db)

-- validateOwnerToken, whose errors are all answered with 401
unfoldable pub validate_owner_token : Text → Text → Handler (Unit {0})
validate_owner_token token covenant_id db =
    if token == empty
    then (json_error (message "X-Owner-Token header required") unauthorized, db)
    else answer_owner token (get_owner_token covenant_id db)

abbrev pub or_no_params : Option Params → Params
or_no_params none = []
or_no_params (some params) = params

-- The receipt, and whether the reply carries the warning of the grace period.
pub record ToolReply : Type 0 where
  pub receipt : Receipt
  pub token_warning : Bool

module _ {R : Type 0} (host : Host) (draw : Draw) (tool : Tool R) where
  -- toolHandler; the body is its `params`, which may be left out.
  unfoldable pub tool_handler : Headers → Option (Option Params) → Handler ToolReply
  tool_handler h body = do
    refuse_if (h.covenant_id == empty || h.agent_id == empty)
        (message "X-Covenant-ID and X-Agent-ID headers are required") bad_request
    missing_session host h.session_token
    in_grace ← require_session host draw.now h.session_token h.agent_id h.covenant_id
    params ← decode body
    receipt ← service engine_status (
        run host draw (host.hash_text h.session_token) tool (or_no_params params) h.covenant_id
          h.agent_id)
    reply (record { receipt = receipt; token_warning = in_grace })

  -- ownerToolHandler
  unfoldable pub owner_tool_handler : Headers → Option (Option Params) → Handler Receipt
  owner_tool_handler h body = do
    refuse_if (h.covenant_id == empty) (message "X-Covenant-ID header required") bad_request
    refuse_if (h.owner_token == empty) (message "X-Owner-Token header required") unauthorized
    validate_owner_token h.owner_token h.covenant_id
    agent_id ← service (always internal_error) (get_owner_agent_id h.covenant_id)
    params ← decode body
    service engine_status (
        run host draw (host.hash_text h.owner_token) tool (or_no_params params) h.covenant_id
          agent_id)
