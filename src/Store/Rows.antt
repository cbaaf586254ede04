-- ===== src/Store/Rows.antt =====
-- The rows of the covenant tables: covenants, tiers, members, identities, access requests, sessions.
use acp_server.Base.{ℕ, String, Bool, Option, List}
use acp_server.Base.Int.{ℤ}
use acp_server.Store.Types.{
  Text, Float, Time, Blob, State, MemberStatus, RequestStatus, SessionStatus,
}

pub record Covenant : Type 0 where
  pub covenant_id : Text
  pub version : String
  pub space_type : String
  pub title : Text
  pub description : Text
  pub state : State
  pub owner_id : Text
  pub owner_share_pct : Float
  pub platform_share_pct : Float
  pub contributor_pool_pct : Float
  pub budget_limit : ℤ
  pub budget_currency : String
  pub cost_weight : Float
  pub owner_token : Text
  pub token_rules_json : List ℕ
  pub git_twin_url : Text
  pub git_twin_provider : String
  pub git_twin_config_json : Text
  pub created_at : Time
  pub updated_at : Time

pub record Tier : Type 0 where
  pub tier_id : Text
  pub covenant_id : Text
  pub display_name : Text
  pub token_multiplier : Float
  pub max_slots : Option ℤ
  pub entry_fee_tokens : ℤ

pub record Identity : Type 0 where
  pub platform_id : Text
  pub created_at : Time
  pub platform_id_hash : Text
  pub platform_id_enc : Option Blob

-- `tier_id` is NULL for the owner.
pub record Member : Type 0 where
  pub covenant_id : Text
  pub platform_id : Text
  pub agent_id : Text
  pub tier_id : Option Text
  pub is_owner : Bool
  pub status : MemberStatus
  pub joined_at : Time

pub record AccessRequest : Type 0 where
  pub request_id : Text
  pub covenant_id : Text
  pub platform_id_hash : Text
  pub platform_id_enc : Option Blob
  pub tier_id : Text
  pub payment_ref : Text
  pub self_declaration : Text
  pub status : RequestStatus
  pub reject_reason : Text
  pub approve_log_id : Text
  pub reject_log_id : Text
  pub created_at : Time
  pub resolved_at : Option Time

pub record Session : Type 0 where
  pub token_id : Text
  pub agent_id : Text
  pub covenant_id : Text
  pub token_hash : Text
  pub status : SessionStatus
  pub created_at : Time
  pub rotated_at : Option Time

pub record Policy : Type 0 where
  pub covenant_id : Text
  pub rate_limit_per_hour : ℤ
  pub similarity_threshold : Float
  pub min_word_count : ℤ
  pub concentration_warn_pct : Float

pub record RateCounter : Type 0 where
  pub covenant_id : Text
  pub agent_id : Text
  pub tool_name : String
  pub window_start : Time
  pub call_count : ℤ
