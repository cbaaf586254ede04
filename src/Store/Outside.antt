-- ===== src/Store/Outside.antt =====
-- What the server takes from outside its own code: float64 arithmetic, SHA-256, JSON, the optional
-- sealer, the clock and the random identifiers. They are parameters of the definitions.
use acp_server.Base.{ℕ, String, Bool, Option, List}
use acp_server.Base.Int.{ℤ}
use acp_server.Store.Types.{Text, Float, Time, Blob, State, Value, PreviewMap, Params}
use acp_server.Store.Formula.{Expr, TokenRule}

-- float64 and package math; `to_int` is the conversion `int(x)`, `of_int` is `float64(n)`.
pub record Floats : Type 0 where
  pub of_int : ℤ → Float
  pub to_int : Float → ℤ
  pub add : Float → Float → Float
  pub sub : Float → Float → Float
  pub mul : Float → Float → Float
  pub div : Float → Float → Float
  pub negate : Float → Float
  pub floor : Float → Float
  pub ceil : Float → Float
  pub round : Float → Float
  pub eq : Float → Float → Bool
  pub lt : Float → Float → Bool

-- One component of the payload of the audit hash, before it is rendered and joined by "|".
-- `decimal8` and `int_decimal8` are rendered by "%.8f", the latter from an integer.
pub data Component : Type 0 where
  genesis : Component
  text : Text → Component
  name : String → Component
  number : ℕ → Component
  int : ℤ → Component
  decimal8 : Float → Component
  int_decimal8 : ℤ → Component
  state : State → Component
  outcome : Bool → Component
  time : Time → Component
  version : ℕ → Component

pub record Host : Type 0 where
  pub floats : Floats
  -- SHA-256, in hex, of the rendered and joined components, of a text, of a preview in JSON, of the
  -- parameters in canonical JSON, and of the fields of a snapshot
  pub hash_entry : List Component → Text
  pub hash_text : Text → Text
  pub hash_preview : PreviewMap → Text
  pub hash_params : Params → Text
  pub hash_snapshot : Text → Text → ℤ → ℤ → Time → Text
  -- the sealer of internal/crypto, if one is set: row, column and plaintext to a blob or an error
  pub sealer : Option (Text → String → Text → Option Blob)
  -- encoding/json on the token rules, and go/parser on a formula
  pub unmarshal_rules : List ℕ → Option (List TokenRule)
  pub parse_expr : Text → Option Expr
  -- the order of two instants as RFC 3339 texts with a fraction, in which SQLite compares them
  pub nano_text_lt : Time → Time → Bool
  -- the number of runes of fmt.Sprint
  pub rune_length : Value → ℕ

-- What one call of the server draws: the time, and a fresh identifier for each use.
pub record Draw : Type 0 where
  pub now : Time
  pub log_id : Text
  pub reservation_id : Text
  pub ledger_id : Text
  pub agent_id : Text
  pub covenant_id : Text
  pub owner_token : Text
  pub draft_id : Text
  pub output_id : Text
  pub request_id : Text
  pub token_id : Text
  pub raw_token : Text
  pub anchor_id : Text
  pub snapshot_id : ℕ → Text
  -- whether the one-in-a-hundred cleanup of the rate counters runs
  pub cleanup : Bool
