-- ===== src/Store/Ledger.antt =====
-- The rows of the ledger tables: audit log, token ledger, drafts, budget, settlement, snapshots and
-- git anchors; and the database, the record of all tables.
use acp_server.Base.{ℕ, String, Bool, Option, List, []}
use acp_server.Base.Int.{ℤ}
use acp_server.Store.Types.{
  Text, Float, Time, State, LedgerStatus, ReservationStatus, OutputStatus, AnchorStatus, Outcome,
  SpecVersion, Detail, PreviewMap,
}
use acp_server.Store.Rows.{
  Covenant, Tier, Identity, Member, AccessRequest, Session, Policy, RateCounter,
}

-- internal/audit/audit.go, `Entry`; `prev_log_id` is `empty` for the first row of a covenant.
pub record Entry : Type 0 where
  pub log_id : Text
  pub covenant_id : Text
  pub sequence : ℕ
  pub agent_id : Text
  pub session_id : Text
  pub tool_name : String
  pub tool_type : String
  pub params_hash : Text
  pub params_preview : PreviewMap
  pub result : Outcome
  pub result_detail : Detail
  pub tokens_delta : ℤ
  pub cost_delta : ℤ
  pub cost_currency : String
  pub net_delta : Float
  pub state_before : State
  pub state_after : State
  pub timestamp : Time
  pub prev_log_id : Text
  pub hash : Text
  pub spec_version : SpecVersion

pub record LedgerRow : Type 0 where
  pub id : Text
  pub covenant_id : Text
  pub agent_id : Text
  pub delta : ℤ
  pub balance_after : ℤ
  pub source_type : String
  pub source_ref : Text
  pub log_id : Text
  pub status : LedgerStatus

pub record PendingDraft : Type 0 where
  pub draft_id : Text
  pub covenant_id : Text
  pub agent_id : Text
  pub created_at : Time
  pub expires_at : Time

pub record Counter : Type 0 where
  pub covenant_id : Text
  pub budget_limit : ℤ
  pub budget_spent : ℤ
  pub currency : String
  pub updated_at : Time

pub record Reservation : Type 0 where
  pub id : Text
  pub covenant_id : Text
  pub audit_log_id : Text
  pub amount : ℤ
  pub status : ReservationStatus
  pub created_at : Time

-- internal/settlement/settlement.go, `Distribution`
pub record Distribution : Type 0 where
  pub agent_id : Text
  pub ink_tokens : ℤ
  pub share_of_pool : Float
  pub final_share_pct : Float

pub record SettlementOutput : Type 0 where
  pub output_id : Text
  pub covenant_id : Text
  pub trigger_log_id : Text
  pub trigger_log_hash : Text
  pub total_tokens : ℤ
  pub owner_share_pct : Float
  pub platform_share_pct : Float
  pub contributor_pool_pct : Float
  pub distributions : List Distribution
  pub generated_at : Time
  pub status : OutputStatus
  pub confirmed_at : Option Time

pub record Snapshot : Type 0 where
  pub id : Text
  pub covenant_id : Text
  pub agent_id : Text
  pub agent_tokens : ℤ
  pub cost_tokens : ℤ
  pub snapped_at : Time
  pub snapshot_hash : Text

pub record Anchor : Type 0 where
  pub anchor_id : Text
  pub covenant_id : Text
  pub settlement_output_id : Text
  pub repo_url : Text
  pub settlement_hash : Text
  pub snapshot_hash : Text
  pub note_body : Text
  pub status : AnchorStatus
  pub enqueued_at : Time
  pub written_at : Option Time
  pub written_commit_sha : Text

-- The event of a pull request that the bridge reported; `is_approved` is the status "approved".
pub record TwinEvent : Type 0 where
  pub draft_ref : Text
  pub covenant_id : Text
  pub agent_id : Text
  pub draft_id : Text
  pub propose_log_id : Text
  pub approve_log_id : Text
  pub is_approved : Bool
  pub created_at : Time
  pub updated_at : Time

pub record Db : Type 0 where
  pub covenants : List Covenant
  pub access_tiers : List Tier
  pub platform_identities : List Identity
  pub covenant_members : List Member
  pub audit_logs : List Entry
  pub token_ledger : List LedgerRow
  pub pending_tokens : List PendingDraft
  pub budget_counters : List Counter
  pub settlement_outputs : List SettlementOutput
  pub session_tokens : List Session
  pub token_snapshots : List Snapshot
  pub budget_reservations : List Reservation
  pub git_twin_events : List TwinEvent
  pub git_twin_anchors : List Anchor
  pub anti_gaming_policies : List Policy
  pub agent_access_requests : List AccessRequest
  pub rate_limit_counters : List RateCounter

abbrev pub empty_db : Db
empty_db = record {
  covenants = [];
  access_tiers = [];
  platform_identities = [];
  covenant_members = [];
  audit_logs = [];
  token_ledger = [];
  pending_tokens = [];
  budget_counters = [];
  settlement_outputs = [];
  session_tokens = [];
  token_snapshots = [];
  budget_reservations = [];
  git_twin_events = [];
  git_twin_anchors = [];
  anti_gaming_policies = [];
  agent_access_requests = [];
  rate_limit_counters = [];
}
