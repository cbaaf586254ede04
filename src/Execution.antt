-- ===== src/Execution.antt =====
-- internal/execution/execution.go: the tools, and the eight steps in which the engine runs one. A tool is
-- its methods; the mixin interfaces that a tool may leave out are methods with their default.
pub mod Policy
pub mod Engine
pub mod Preview
pub mod Frame
pub mod Untouched
pub mod Logged
pub mod Charges
pub mod Spending
use acp_server.Base.{
  ℕ, String, Bool, true, false, not, ◌&&◌, ◌||◌, Option, none, some, List, [], ◌∷◌, ◌==◌, str_eq,
  if◌then◌else◌,
}
use acp_server.Base.Int.{ℤ, pos, ltb_ℤ, eqb_ℤ}
use acp_server.Store.{
  Text, Float, Time, Db, Covenant, Member, State, Entry, Host, Draw, Message, Params, Error, Exec,
}

pub record ParamsPolicy : Type 0 where
  pub store_hash_only : Bool
  pub preview_fields : List String
  pub sensitive_fields : List String
  pub hash_preview_fields : List String

-- `none` is the empty StateAfter, which stands for the state of the covenant.
pub record SideEffects : Type 0 where
  pub tokens_delta : ℤ
  pub cost_delta : ℤ
  pub cost_currency : String
  pub net_delta : Float
  pub state_after : Option State

-- Context, without the handles on the database and the covenant service.
pub record Context : Type 0 where
  pub covenant : Covenant
  pub member : Member

pub record Receipt : Type 0 where
  pub receipt_id : Text
  pub covenant_id : Text
  pub agent_id : Text
  pub tool_name : String
  pub is_pending : Bool
  pub tokens_awarded : ℤ
  pub cost_delta : ℤ
  pub cost_currency : String
  pub net_delta : Float
  pub timestamp : Time
  pub log_hash : Text
  pub extra : Params

-- Tool, over the data that its logic returns. `is_final` is false only where the data has the flag
-- set to false; `apply_side_effects` returns the data with what it has put there.
pub record Tool (R : Type 0) : Type 0 where
  pub tool_name : String
  pub tool_type : String
  pub check_preconditions : Context → Params → Exec (Unit {0})
  pub execute_logic : Context → Params → Exec R
  pub calculate_side_effects : Context → R → Params → Db → SideEffects
  pub apply_side_effects : Context → Entry → SideEffects → R → Params → Exec R
  pub estimate_cost : Context → Params → ℤ
  pub params_policy : ParamsPolicy
  pub detail : R → Message
  pub is_final : R → Bool
  pub enrich_receipt : R → Params
