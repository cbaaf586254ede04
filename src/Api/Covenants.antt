-- ===== src/Api/Covenants.antt =====
-- internal/api/api.go: the handlers on covenants and on applications to them.
use acp_server.Base.{
  String, Bool, true, false, not, ◌&&◌, ◌||◌, Option, none, some, ◌==◌, str_eq, if◌then◌else◌,
}
use acp_server.Base.Int.{ℤ, pos}
use acp_server.Store.{
  Text, empty, Float, Time, Db, Covenant, Tier, Member, MemberStatus, AccessRequest, RequestStatus,
  State, Host, Draw, Result, ok, err,
}
use acp_server.Budget.{BudgetState, get_state, remaining}
use acp_server.Covenant.{get, add_tier, transition}
use acp_server.Covenant.Access.{create_access_request, get_access_request}
use acp_server.Covenant.Members.{create, join, get_member}
use acp_server.Api.{
  Handler, reply, service, query, refuse_if, always, message, decode, Headers, validate_owner_token,
  bad_request, not_found, internal_error, ◌>>=◌, ◌>>◌,
}

pub record CreateRequest : Type 0 where
  pub title : Text
  pub space_type : String
  pub owner_platform_id : Text

pub record CreateReply : Type 0 where
  pub covenant : Covenant
  pub owner_agent_id : Text

abbrev pub create_reply : Covenant × Member → CreateReply
create_reply (cov, owner) = record { covenant = cov; owner_agent_id = owner.agent_id }

unfoldable pub handle_create : Host → Draw → Option CreateRequest → Handler CreateReply
handle_create host draw body = do
  req ← decode body
  refuse_if (req.title == empty || req.owner_platform_id == empty)
      (message "title and owner_platform_id are required") bad_request
  made ← service (always internal_error) (
      create host draw req.title (if str_eq req.space_type "" then "book" else req.space_type)
        req.owner_platform_id)
  reply (create_reply made)

pub record TierRequest : Type 0 where
  pub tier_id : Text
  pub display_name : Text
  pub token_multiplier : Float
  pub max_slots : Option ℤ
  pub entry_fee_tokens : ℤ

abbrev pub tier_of : Host → Text → TierRequest → Tier
tier_of host covenant_id req = record {
  tier_id = req.tier_id;
  covenant_id = covenant_id;
  display_name = req.display_name;
  token_multiplier =
      if host.floats.eq req.token_multiplier (host.floats.of_int (pos 0))
      then host.floats.of_int (pos 1)
      else req.token_multiplier;
  max_slots = req.max_slots;
  entry_fee_tokens = req.entry_fee_tokens;
}

-- The only guard of this route is the name of the tier.
unfoldable pub handle_add_tier : Host → Text → Option TierRequest → Handler (Unit {0})
handle_add_tier host covenant_id body = do
  req ← decode body
  refuse_if (req.tier_id == empty) (message "tier_id is required") bad_request
  service (always bad_request) (add_tier (tier_of host covenant_id req))

-- The body is the target state; a text that names none is `none`.
unfoldable pub handle_transition :
    Host → Draw → Headers → Text → Option (Option State) → Handler Covenant
handle_transition host draw h covenant_id body = do
  validate_owner_token h.owner_token covenant_id
  target ← decode body
  service (always bad_request) (transition host draw covenant_id target)

pub record JoinRequest : Type 0 where
  pub platform_id : Text
  pub tier_id : Text

unfoldable pub handle_join : Host → Draw → Text → Option JoinRequest → Handler Member
handle_join host draw covenant_id body = do
  req ← decode body
  service (always bad_request) (join host draw covenant_id req.platform_id req.tier_id)

pub record ApplyRequest : Type 0 where
  pub platform_id : Text
  pub tier_id : Text
  pub payment_ref : Text
  pub self_declaration : Text

-- The fields of an application that its applicant sees; `prefix` cuts a digest to 12 characters.
pub record AccessReceipt : Type 0 where
  pub request_id : Text
  pub covenant_id : Text
  pub tier_id : Text
  pub payment_ref : Text
  pub status : RequestStatus
  pub platform_id_hash_prefix : Text
  pub created_at : Time

abbrev pub access_receipt : (Text → Text) → AccessRequest → AccessReceipt
access_receipt prefix ar = record {
  request_id = ar.request_id;
  covenant_id = ar.covenant_id;
  tier_id = ar.tier_id;
  payment_ref = ar.payment_ref;
  status = ar.status;
  platform_id_hash_prefix = prefix ar.platform_id_hash;
  created_at = ar.created_at;
}

unfoldable pub handle_apply :
    Host → (Text → Text) → Draw → Text → Option ApplyRequest → Handler AccessReceipt
handle_apply host prefix draw covenant_id body = do
  req ← decode body
  ar ← service (always bad_request) (
      create_access_request host draw covenant_id req.platform_id req.tier_id req.payment_ref
        req.self_declaration)
  reply (access_receipt prefix ar)

pub record StatusRequest : Type 0 where
  pub covenant_id : Text
  pub request_id : Text

pub record AccessStatus : Type 0 where
  pub request_id : Text
  pub covenant_id : Text
  pub tier_id : Text
  pub status : RequestStatus
  pub created_at : Time
  pub resolved_at : Option Time
  pub reject_reason : Option Text

abbrev pub is_rejected : RequestStatus → Bool
is_rejected RequestStatus.rejected = true
is_rejected _ = false

abbrev pub access_status : AccessRequest → AccessStatus
access_status ar = record {
  request_id = ar.request_id;
  covenant_id = ar.covenant_id;
  tier_id = ar.tier_id;
  status = ar.status;
  created_at = ar.created_at;
  resolved_at = ar.resolved_at;
  reject_reason =
      if is_rejected ar.status && not (ar.reject_reason == empty)
      then some ar.reject_reason
      else none;
}

unfoldable pub handle_get_agent_access_status : Option StatusRequest → Handler AccessStatus
handle_get_agent_access_status body = do
  req ← decode body
  refuse_if (req.covenant_id == empty || req.request_id == empty)
      (message "covenant_id and request_id are required") bad_request
  ar ← service (always not_found) (get_access_request req.covenant_id req.request_id)
  reply (access_status ar)

unfoldable pub handle_get_covenant : Text → Handler Covenant
handle_get_covenant covenant_id = service (always not_found) (get covenant_id)

-- `agent` is missing for an agent that is not given or not known.
pub record CovenantState : Type 0 where
  pub covenant_id : Text
  pub lifecycle_status : State
  pub agent : Option (Text × MemberStatus)
  pub budget : BudgetState
  pub budget_remaining : Option ℤ

abbrev pub agent_status : Text → Result Member → Option (Text × MemberStatus)
agent_status agent_id (ok m) = some (agent_id, m.status)
agent_status agent_id (err e) = none

abbrev pub state_of : Text → Text → Covenant → Db → CovenantState
state_of covenant_id agent_id cov db = record {
  covenant_id = covenant_id;
  lifecycle_status = cov.state;
  agent =
      if agent_id == empty
      then none
      else agent_status agent_id (get_member covenant_id agent_id db).0;
  budget = get_state covenant_id db;
  budget_remaining = remaining (get_state covenant_id db);
}

unfoldable pub handle_get_state : Text → Text → Handler CovenantState
handle_get_state covenant_id agent_id = do
  cov ← service (always not_found) (get covenant_id)
  query (state_of covenant_id agent_id cov)
