-- ===== src/GitTwin/Webhook.antt =====
-- internal/gittwin/webhook.go: the check and the classification of a GitHub webhook. encoding/json,
-- encoding/hex and HMAC-SHA256 are the parameter `Codec`.
use acp_server.Base.{
  String, Bool, true, false, ◌&&◌, ◌||◌, Option, none, some, List, [], ◌∷◌, ◌++◌, ◌==◌, str_eq,
  if◌then◌else◌,
}
use acp_server.Base.Int.{ℤ, pos}
use acp_server.Store.{Blob, Error, Result, ok, err}
use acp_server.Sealing.{codes, is_nil}
use acp_server.Keys.{same_bytes}

pub data EventKind : Type 0 where
  pull_request_opened pull_request_merged pull_request_rejected : EventKind
  push_protected push_forced tag_settlement ignored : EventKind

-- The fields of prPayload.
pub record PrPayload : Type 0 where
  pub action : Blob
  pub number : ℤ
  pub pr_url : Blob
  pub title : Blob
  pub merged : Bool
  pub user_login : Blob
  pub base_ref : Blob
  pub head_ref : Blob
  pub head_sha : Blob
  pub merged_by : Option Blob
  pub additions : ℤ
  pub deletions : ℤ
  pub changed_files : ℤ
  pub repository_url : Blob

-- The fields of pushPayload; of a commit the author's user name.
pub record PushPayload : Type 0 where
  pub ref : Blob
  pub after : Blob
  pub forced : Bool
  pub commit_authors : List Blob
  pub repository_url : Blob
  pub default_branch : Blob

pub record CreatePayload : Type 0 where
  pub ref : Blob
  pub ref_type : Blob
  pub repository_url : Blob

pub record ParsedEvent : Type 0 where
  pub kind : EventKind
  pub repo_url : Blob
  pub commit_head : Blob
  pub pr_number : ℤ
  pub pr_url : Blob
  pub pr_title : Blob
  pub pr_author : Blob
  pub pr_base_ref : Blob
  pub pr_head_ref : Blob
  pub pr_merged_by : Blob
  pub pr_additions : ℤ
  pub pr_deletions : ℤ
  pub pr_changed_files : ℤ
  pub push_ref : Blob
  pub is_push_forced : Bool
  pub push_authors : List Blob
  pub tag_name : Blob
  pub raw : Blob

-- ParsedEvent{Kind: EventIgnored, Raw: body}
abbrev pub blank_event : Blob → ParsedEvent
blank_event body = record {
  kind = ignored;
  repo_url = [];
  commit_head = [];
  pr_number = pos 0;
  pr_url = [];
  pr_title = [];
  pr_author = [];
  pr_base_ref = [];
  pr_head_ref = [];
  pr_merged_by = [];
  pr_additions = pos 0;
  pr_deletions = pos 0;
  pr_changed_files = pos 0;
  push_ref = [];
  is_push_forced = false;
  push_authors = [];
  tag_name = [];
  raw = body;
}

pub record Codec : Type 0 where
  pub hex_decode : Blob → Option Blob
  -- key and message
  pub hmac_sha256 : Blob → Blob → Blob
  pub unmarshal_pr : Blob → Result PrPayload
  pub unmarshal_push : Blob → Result PushPayload
  pub unmarshal_create : Blob → Result CreatePayload

-- strings.HasPrefix with what follows the prefix.
unfoldable pub after_prefix : Blob → Blob → Option Blob
after_prefix [] s = some s
after_prefix (p ∷ ps) [] = none
after_prefix (p ∷ ps) (c ∷ cs) = if p == c then after_prefix ps cs else none

abbrev pub has_prefix : Option Blob → Bool
has_prefix none = false
has_prefix (some rest) = true

abbrev pub bad_signature : Error
bad_signature = Error.errorf "webhook signature mismatch" []

module _ (codec : Codec) where
  abbrev pub compare_mac : Blob → Option Blob → Result (Unit {0})
  compare_mac got none = err bad_signature
  compare_mac got (some want) = if same_bytes got want then ok tt else err bad_signature

  abbrev pub check_hex : Blob → Blob → Option Blob → Result (Unit {0})
  check_hex body secret none = err bad_signature
  check_hex body secret (some digits) =
      compare_mac (codec.hmac_sha256 secret body) (codec.hex_decode digits)

  -- VerifyGitHubSignature
  unfoldable pub verify_github_signature : Blob → Blob → Blob → Result (Unit {0})
  verify_github_signature body header secret =
      if is_nil secret
      then err (Error.errorf "webhook secret not configured" [])
      else check_hex body secret (after_prefix (codes "sha256=") header)

  abbrev pub pr_event : Blob → PrPayload → ParsedEvent
  pr_event body p = record (blank_event body) {
    repo_url = p.repository_url;
    pr_number = p.number;
    pr_url = p.pr_url;
    pr_title = p.title;
    pr_author = p.user_login;
    pr_base_ref = p.base_ref;
    pr_head_ref = p.head_ref;
    commit_head = p.head_sha;
    pr_additions = p.additions;
    pr_deletions = p.deletions;
    pr_changed_files = p.changed_files;
  }

  abbrev pub with_merger : Option Blob → ParsedEvent → ParsedEvent
  with_merger none ev = ev
  with_merger (some login) ev = record ev { pr_merged_by = login }

  abbrev pub classify_pr : PrPayload → ParsedEvent → ParsedEvent
  classify_pr p ev =
      if same_bytes p.action (codes "opened") || same_bytes p.action (codes "reopened")
      then record ev { kind = pull_request_opened }
      else (if same_bytes p.action (codes "closed")
          then (if p.merged
              then with_merger p.merged_by (record ev { kind = pull_request_merged })
              else record ev { kind = pull_request_rejected })
          else record ev { kind = ignored })

  abbrev pub pr_result : Blob → Result PrPayload → Result ParsedEvent
  pr_result body (err e) = err (Error.wrap "parse pull_request: %w" e)
  pr_result body (ok p) = ok (classify_pr p (pr_event body p))

  -- parsePullRequest
  unfoldable pub parse_pull_request : Blob → Result ParsedEvent
  parse_pull_request body = pr_result body (codec.unmarshal_pr body)

  unfoldable pub named_authors : List Blob → List Blob
  named_authors [] = []
  named_authors (a ∷ authors) =
      if is_nil a then named_authors authors else a ∷ named_authors authors

  abbrev pub push_event : Blob → PushPayload → ParsedEvent
  push_event body p = record (blank_event body) {
    repo_url = p.repository_url;
    commit_head = p.after;
    push_ref = p.ref;
    is_push_forced = p.forced;
    push_authors = named_authors p.commit_authors;
  }

  abbrev pub classify_push : PushPayload → ParsedEvent → ParsedEvent
  classify_push p ev =
      if p.forced
      then record ev { kind = push_forced }
      else (if same_bytes p.ref (codes "refs/heads/" ++ p.default_branch)
          then record ev { kind = push_protected }
          else record ev { kind = ignored })

  abbrev pub push_result : Blob → Result PushPayload → Result ParsedEvent
  push_result body (err e) = err (Error.wrap "parse push: %w" e)
  push_result body (ok p) = ok (classify_push p (push_event body p))

  -- parsePush
  unfoldable pub parse_push : Blob → Result ParsedEvent
  parse_push body = push_result body (codec.unmarshal_push body)

  abbrev pub classify_create : CreatePayload → ParsedEvent → ParsedEvent
  classify_create p ev =
      if same_bytes p.ref_type (codes "tag")
        && has_prefix (after_prefix (codes "settlement-") p.ref)
      then record ev { kind = tag_settlement; tag_name = p.ref }
      else record ev { kind = ignored }

  abbrev pub create_result : Blob → Result CreatePayload → Result ParsedEvent
  create_result body (err e) = err (Error.wrap "parse create: %w" e)
  create_result body (ok p) =
      ok (classify_create p (record (blank_event body) { repo_url = p.repository_url }))

  -- parseCreate
  unfoldable pub parse_create : Blob → Result ParsedEvent
  parse_create body = create_result body (codec.unmarshal_create body)

  -- ParseGitHubEvent
  unfoldable pub parse_github_event : String → Blob → Result ParsedEvent
  parse_github_event event_header body =
      if str_eq event_header "pull_request"
      then parse_pull_request body
      else (if str_eq event_header "push"
          then parse_push body
          else (if str_eq event_header "create" then parse_create body else ok (blank_event body)))
