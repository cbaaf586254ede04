-- ===== src/Api/GitTwin.antt =====
-- internal/api/git_twin.go: the endpoints of the bridge. `secret` is the environment's
-- ACP_BRIDGE_SECRET, and `label` joins the prefix, the phase and the reference of a session.
use acp_server.Base.{
  ℕ, String, ◌+◌, Bool, true, false, not, ◌&&◌, ◌||◌, Option, none, some, List, [], ◌∷◌, ◌==◌, leb,
  length, if◌then◌else◌,
}
use acp_server.Base.Int.{ℤ, pos, leb_ℤ, ltb_ℤ}
use acp_server.Base.Sql.{first, exists, update_where}
use acp_server.Store.{
  Text, empty, Float, Time, Blob, Db, Member, TwinEvent, Anchor, Host, Draw, Params, Value, Error,
  errorf, Result, ok, err, Exec,
}
use acp_server.Covenant.{set_git_twin, find_by_git_twin_url}
use acp_server.Covenant.Members.{find_member_by_platform_id, get_owner_agent_id}
use acp_server.Execution.{Receipt}
use acp_server.Execution.Engine.{run}
use acp_server.GitTwin.Anchors.{
  Signer, NoteCodec, alg_ed25519, public_key, list_pending_anchors, ack_anchor,
}
use acp_server.Sealing.{codes, take}
use acp_server.Tools.{text_param}
use acp_server.Tools.ProposePassage.{propose_passage}
use acp_server.Tools.ApproveDraft.{approve_draft}
use acp_server.Tools.RecordGitTwinEvent.{record_git_twin_event}
use acp_server.Api.{
  Reply, json_ok, json_error, Handler, reply, service, query, refuse_if, always, message, decode,
  Headers, answered, engine_status, starts_with, format_of, validate_owner_token, bad_request,
  unauthorized, not_found, conflict, internal_error, ◌>>=◌, ◌>>◌,
}
pub mod Merged
pub mod Once
pub mod Events

-- validateBridgeSecret, whose errors are all answered with 401
unfoldable pub validate_bridge_secret : Text → Text → Handler (Unit {0})
validate_bridge_secret secret got db =
    if secret == empty
    then (
      json_error (message "git-twin endpoints disabled: ACP_BRIDGE_SECRET not configured")
          unauthorized,
      db,
    )
    else (if got == empty || not (got == secret)
        then (json_error (message "invalid bridge secret") unauthorized, db)
        else (json_ok tt, db))

pub record BindRequest : Type 0 where
  pub url : Text
  pub provider : String
  pub config_json : Text

unfoldable pub handle_set_git_twin : Draw → Headers → Text → Option BindRequest → Handler (Unit {0})
handle_set_git_twin draw h covenant_id body = do
  validate_owner_token h.owner_token covenant_id
  req ← decode body
  service (always bad_request) (set_git_twin draw covenant_id req.url req.provider req.config_json)

unfoldable pub handle_find_covenants : Text → Headers → Text → Handler (List Text)
handle_find_covenants secret h url = do
  validate_bridge_secret secret h.bridge_secret
  refuse_if (url == empty) (message "repo_url query parameter required") bad_request
  query (find_by_git_twin_url url)

-- truncate
abbrev pub truncate : Blob → ℕ → Blob
truncate s n = if leb (length s) n then s else take n s

pub record MergeRequest : Type 0 where
  pub covenant_id : Text
  pub author_platform_id : Text
  pub draft_ref : Text
  pub unit_count : ℤ
  pub acceptance_ratio : Float
  pub content_hash : Text
  pub summary : Blob

pub data MergeReply : Type 0 where
  -- the logs of the proposal and the approval
  idempotent : Text → Text → MergeReply
  unmapped : Text → Text → MergeReply
  -- the two receipts and the author
  merged : Receipt → Receipt → Text → MergeReply

abbrev pub is_event : Text → TwinEvent → Bool
is_event draft_ref e = e.draft_ref == draft_ref

abbrev pub event_row : Text → Db → Option TwinEvent
event_row draft_ref db = first (is_event draft_ref) db.git_twin_events

-- The event that an approval has landed on, if there is one.
abbrev pub landed : Option TwinEvent → Option TwinEvent
landed none = none
landed (some e) = if e.is_approved then some e else none

abbrev pub proposed_event : Time → MergeRequest → Text → Text → Text → TwinEvent
proposed_event now req agent_id draft_id propose_log = record {
  draft_ref = req.draft_ref;
  covenant_id = req.covenant_id;
  agent_id = agent_id;
  draft_id = draft_id;
  propose_log_id = propose_log;
  approve_log_id = empty;
  is_approved = false;
  created_at = now;
  updated_at = now;
}

abbrev pub reproposed : TwinEvent → TwinEvent → TwinEvent
reproposed new old = record old {
  draft_id = new.draft_id;
  propose_log_id = new.propose_log_id;
  is_approved = false;
  updated_at = new.updated_at;
}

-- INSERT ... ON CONFLICT(draft_ref) DO UPDATE
unfoldable pub upsert_event : TwinEvent → Db → Db
upsert_event e db =
    if exists (is_event e.draft_ref) db.git_twin_events
    then record db {
      git_twin_events = update_where (is_event e.draft_ref) (reproposed e) db.git_twin_events;
    }
    else record db { git_twin_events = e ∷ db.git_twin_events }

abbrev pub to_approved : Time → Text → TwinEvent → TwinEvent
to_approved now log e = record e { approve_log_id = log; is_approved = true; updated_at = now }

unfoldable pub approve_event : Time → Text → Text → Db → Db
approve_event now draft_ref log db = record db {
  git_twin_events = update_where (is_event draft_ref) (to_approved now log) db.git_twin_events;
}

abbrev pub propose_params : MergeRequest → Params
propose_params req =
    ("unit_count", Value.int req.unit_count)
    ∷ ("content_hash", Value.text req.content_hash)
    ∷ ("summary", Value.bytes (truncate req.summary 200))
    ∷ ("chapter", Value.text req.draft_ref)
    ∷ []

abbrev pub approve_params : MergeRequest → Float → Text → Params
approve_params req ratio draft_id =
    ("draft_id", Value.text draft_id)
    ∷ ("unit_count", Value.int req.unit_count)
    ∷ ("acceptance_ratio", Value.float ratio)
    ∷ []

abbrev pub change : (Db → Db) → Handler (Unit {0})
change f db = (json_ok tt, f db)

module _ (host : Host) (secret : Text) (label : String → Text → Text) where
  abbrev pub default_ratio : Float → Float
  default_ratio r =
      if host.floats.eq r (host.floats.of_int (pos 0)) then host.floats.of_int (pos 1) else r

  -- The two runs of handleGitTwinMerge, for a mapped author; the draws are of the proposal and of
  -- the approval.
  unfoldable pub propose_and_approve : Draw → Draw → MergeRequest → Text → Handler MergeReply
  propose_and_approve draw later req author = do
    proposal ← service engine_status (
        run host draw (label "bridge:propose:" req.draft_ref) (propose_passage host draw)
          (propose_params req) req.covenant_id author)
    let draft_id = text_param "draft_id" proposal.extra
    refuse_if (draft_id == empty) (message "propose_passage did not return draft_id") internal_error
    change (upsert_event (proposed_event draw.now req author draft_id proposal.log_hash))
    owner ← service (always internal_error) (get_owner_agent_id req.covenant_id)
    approval ← service engine_status (
        run host later (label "bridge:approve:" req.draft_ref) (approve_draft host later)
          (approve_params req (default_ratio req.acceptance_ratio) draft_id) req.covenant_id owner)
    change (approve_event later.now req.draft_ref approval.log_hash)
    reply (merged proposal approval author)

  abbrev pub merge_author : Draw → Draw → MergeRequest → Result Member × Db → Reply MergeReply × Db
  merge_author draw later req (err e, db) = (json_ok (unmapped req.covenant_id req.draft_ref), db)
  merge_author draw later req (ok member, db) =
      propose_and_approve draw later req member.agent_id db

  abbrev pub merge_event : Draw → Draw → MergeRequest → Option TwinEvent → Handler MergeReply
  merge_event draw later req (some e) db =
      (json_ok (idempotent e.propose_log_id e.approve_log_id), db)
  merge_event draw later req none db =
      merge_author draw later req
        (find_member_by_platform_id req.covenant_id req.author_platform_id db)

  abbrev pub merge_checked : Draw → Draw → MergeRequest → Handler MergeReply
  merge_checked draw later req db =
      merge_event draw later req (landed (event_row req.draft_ref db)) db

  unfoldable pub handle_merge : Draw → Draw → Headers → Option MergeRequest → Handler MergeReply
  handle_merge draw later h body = do
    validate_bridge_secret secret h.bridge_secret
    req ← decode body
    refuse_if
        (req.covenant_id == empty || (req.author_platform_id == empty || req.draft_ref == empty))
        (message "covenant_id, author_platform_id, and draft_ref are required") bad_request
    refuse_if (leb_ℤ req.unit_count (pos 0)) (message "unit_count must be > 0") bad_request
    merge_checked draw later req
