-- ===== src/Tools/RecordGitTwinEvent.antt =====
-- tools/record_git_twin_event.go: a git event that is logged and changes nothing else.
use acp_server.Base.{
  String, Bool, true, false, not, ◌&&◌, ◌||◌, Option, some, [], ◌∷◌, str_eq, if◌then◌else◌, length,
  ltb,
}
use acp_server.Base.Int.{pos}
use acp_server.Store.{Blob, Host, Message, Params, Value, errorf, sprintf, Exec, ok, err, pure}
use acp_server.Execution.{Tool}
use acp_server.Sealing.{is_nil, take}
use acp_server.Tools.{param}
use acp_server.Tools.ProposePassage.{no_effects}

abbrev pub to_name : Option Value → String
to_name (some (Value.name s)) = s
to_name _ = ""

abbrev pub to_bytes : Option Value → Blob
to_bytes (some (Value.bytes b)) = b
to_bytes _ = []

abbrev pub is_valid_event_kind : String → Bool
is_valid_event_kind kind =
    str_eq kind "push.forced"
    || (str_eq kind "push.protected"
        || (str_eq kind "pull_request.opened"
            || (str_eq kind "pull_request.rejected" || str_eq kind "tag.settlement")))

unfoldable pub check : Params → Exec (Unit {0})
check params db =
    if str_eq (to_name (param "event_kind" params)) ""
    then (err (errorf "event_kind is required" []), db)
    else (if is_valid_event_kind (to_name (param "event_kind" params)) then (ok tt, db) else (
      err (
          errorf "event_kind %q is not a recordable git twin event"
            (Value.name (to_name (param "event_kind" params)) ∷ [])),
      db,
    ))

-- shortSHA
unfoldable pub short_sha : Blob → Blob
short_sha sha = if ltb 12 (length sha) then take 12 sha else sha

-- The detail where no summary is given.
abbrev pub event_detail : String → Blob → Blob → Message
event_detail kind ref commit =
    if not (is_nil ref) && not (is_nil commit)
    then sprintf "%s on %s @ %s"
        (Value.name kind ∷ Value.bytes ref ∷ Value.bytes (short_sha commit) ∷ [])
    else (if not (is_nil ref)
        then sprintf "%s on %s" (Value.name kind ∷ Value.bytes ref ∷ [])
        else (if not (is_nil commit)
            then sprintf "%s @ %s" (Value.name kind ∷ Value.bytes (short_sha commit) ∷ [])
            else sprintf "%s" (Value.name kind ∷ [])))

pub record RecordedEvent : Type 0 where
  pub event_kind : String
  pub detail : Message

unfoldable pub event_of : Params → RecordedEvent
event_of params =
    let kind = to_name (param "event_kind" params) in
    let summary = to_bytes (param "summary" params) in
    record {
      event_kind = kind;
      detail =
          if is_nil summary
          then event_detail kind (to_bytes (param "ref" params))
              (to_bytes (param "commit_head" params))
          else sprintf "%s" (Value.bytes summary ∷ []);
    }

abbrev pub record_git_twin_event : Host → Tool RecordedEvent
record_git_twin_event host = record {
  tool_name = "record_git_twin_event";
  tool_type = "query";
  check_preconditions = λ ctx params. check params;
  execute_logic = λ ctx params. pure (event_of params);
  calculate_side_effects = λ ctx x params db. no_effects host ctx;
  apply_side_effects = λ ctx entry fx x params. pure x;
  estimate_cost = λ ctx params. pos 0;
  params_policy = record {
    store_hash_only = false;
    preview_fields =
        "event_kind" ∷ "actor_platform_id" ∷ "ref" ∷ "commit_head" ∷ "summary" ∷ "source_ref" ∷ [];
    sensitive_fields = "actor_platform_id" ∷ [];
    hash_preview_fields = [];
  };
  detail = λ x. x.detail;
  is_final = λ x. true;
  enrich_receipt = λ x. ("event_kind", Value.name x.event_kind) ∷ [];
}
