-- ===== src/Api/GitTwin/Events.antt =====
-- internal/api/git_twin.go: the events that are only logged, and the anchors.
use acp_server.Base.{
  ℕ, String, Bool, not, ◌&&◌, ◌||◌, Option, none, some, List, [], ◌∷◌, ◌==◌, str_eq, if◌then◌else◌,
}
use acp_server.Base.Int.{ℤ, pos, leb_ℤ, ltb_ℤ}
use acp_server.Store.{
  Text, empty, Blob, Db, Member, Anchor, Host, Draw, Params, Value, Error, Result, ok, err,
}
use acp_server.Covenant.Members.{find_member_by_platform_id, get_owner_agent_id}
use acp_server.Execution.{Receipt}
use acp_server.Execution.Engine.{run}
use acp_server.GitTwin.Anchors.{
  Signer, NoteCodec, alg_ed25519, public_key, list_pending_anchors, ack_anchor,
}
use acp_server.Tools.RecordGitTwinEvent.{record_git_twin_event}
use acp_server.Api.{
  json_ok, json_error, Handler, reply, service, query, refuse_if, always, message, decode, Headers,
  engine_status, starts_with, format_of, bad_request, not_found, conflict, internal_error, ◌>>=◌,
  ◌>>◌,
}
use acp_server.Api.GitTwin.{validate_bridge_secret, truncate}

pub record EventRequest : Type 0 where
  pub covenant_id : Text
  pub actor_platform_id : Text
  pub event_kind : String
  pub ref : Blob
  pub commit_head : Blob
  pub summary : Blob
  pub source_ref : Blob

pub record EventReply : Type 0 where
  pub receipt : Receipt
  pub agent_id : Text
  pub mapped_actor : Bool

abbrev pub event_params : EventRequest → Params
event_params req =
    ("event_kind", Value.name req.event_kind)
    ∷ ("actor_platform_id", Value.text req.actor_platform_id)
    ∷ ("ref", Value.bytes req.ref)
    ∷ ("commit_head", Value.bytes req.commit_head)
    ∷ ("summary", Value.bytes (truncate req.summary 200))
    ∷ ("source_ref", Value.bytes req.source_ref)
    ∷ []

abbrev pub mapped_agent : Result Member × Db → Text × Db
mapped_agent (ok member, db) = (member.agent_id, db)
mapped_agent (err e, db) = (empty, db)

-- The member of the actor, or no agent.
abbrev pub actor : EventRequest → Db → Text × Db
actor req db =
    if req.actor_platform_id == empty
    then (empty, db)
    else mapped_agent (find_member_by_platform_id req.covenant_id req.actor_platform_id db)

abbrev pub actor_of : EventRequest → Handler Text
actor_of req db = let (a, db') = actor req db in (json_ok a, db')

-- An actor that no member stands for is logged under the owner.
abbrev pub or_owner : EventRequest → Text → Handler Text
or_owner req agent_id db =
    if agent_id == empty
    then service (always internal_error) (get_owner_agent_id req.covenant_id) db
    else (json_ok agent_id, db)

module _ (host : Host) (secret : Text) (session : String → Blob → Text) where
  -- `session` makes the session id of the kind and the commit.
  unfoldable pub handle_record_event : Draw → Headers → Option EventRequest → Handler EventReply
  handle_record_event draw h body = do
    validate_bridge_secret secret h.bridge_secret
    req ← decode body
    refuse_if (req.covenant_id == empty || str_eq req.event_kind "")
        (message "covenant_id and event_kind are required") bad_request
    mapped ← actor_of req
    agent_id ← or_owner req mapped
    receipt ← service engine_status (
        run host draw (session req.event_kind req.commit_head) (record_git_twin_event host)
          (event_params req) req.covenant_id agent_id)
    reply (record { receipt = receipt; agent_id = agent_id; mapped_actor = not (mapped == empty) })

pub record Pubkey : Type 0 where
  pub alg : String
  pub public_key_base64 : Blob

unfoldable pub handle_pubkey : NoteCodec → Option Signer → Handler Pubkey
handle_pubkey codec none db = (json_error (message "anchor signing disabled") not_found, db)
handle_pubkey codec (some priv) db = (
  json_ok (record { alg = alg_ed25519; public_key_base64 = codec.encode64 (public_key priv) }),
  db,
)

-- strconv.Atoi gives `none` on what is no number.
abbrev pub limit_of : Option ℤ → ℤ
limit_of none = pos 100
limit_of (some n) = if ltb_ℤ (pos 0) n && leb_ℤ n (pos 1000) then n else pos 100

unfoldable pub handle_list_pending_anchors :
    Text → Headers → Text → Option ℤ → Handler (List Anchor)
handle_list_pending_anchors secret h repo_url raw_limit = do
  validate_bridge_secret secret h.bridge_secret
  query (list_pending_anchors repo_url (limit_of raw_limit))

-- The code of an error of AckAnchor.
unfoldable pub ack_status : Error → ℕ
ack_status e =
    if str_eq (format_of e) "anchor not found"
    then not_found
    else (if starts_with "anchor %s already written" (format_of e) then conflict else bad_request)

unfoldable pub handle_ack_anchor : Text → Draw → Headers → Text → Option Text → Handler (Unit {0})
handle_ack_anchor secret draw h anchor_id body = do
  validate_bridge_secret secret h.bridge_secret
  refuse_if (anchor_id == empty) (message "anchor_id path segment required") bad_request
  sha ← decode body
  service ack_status (ack_anchor draw.now anchor_id sha)
