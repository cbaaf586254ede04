-- ===== src/Store/Types.antt =====
-- The values in the columns of internal/db/schema.sql.
use acp_server.Base.{ℕ, String, Bool, true, false, List}
use acp_server.Base.Int.{ℤ}

-- A Go string that the program only compares and stores, such as an identifier that the server
-- draws or a digest: a number, with `empty` for the empty string.
abbrev pub Text : Type 0
Text = ℕ

abbrev pub empty : Text
empty = 0

-- A float64, by its bits. Only the operations of the host look into them.
abbrev pub Float : Type 0
Float = ℕ

-- Nanoseconds since 1970 in UTC.
abbrev pub Time : Type 0
Time = ℕ

abbrev pub Blob : Type 0
Blob = List ℕ

-- The states of the covenant, in the order of the protocol.
pub data State : Type 0 where
  draft opened active locked settled : State

infix 50 ◌is◌
abbrev pub ◌is◌ : State → State → Bool
draft is draft = true
opened is opened = true
active is active = true
locked is locked = true
settled is settled = true
_ is _ = false

pub data MemberStatus : Type 0 where
  active pending left rejected : MemberStatus

pub data LedgerStatus : Type 0 where
  confirmed pending reversed rejected : LedgerStatus

pub data RequestStatus : Type 0 where
  pending approved rejected : RequestStatus

pub data ReservationStatus : Type 0 where
  reserved settled released : ReservationStatus

pub data OutputStatus : Type 0 where
  pending_confirmation confirmed : OutputStatus

pub data SessionStatus : Type 0 where
  active grace expired : SessionStatus

pub data AnchorStatus : Type 0 where
  pending written : AnchorStatus

-- audit_logs.result
pub data Outcome : Type 0 where
  success rejected : Outcome

-- audit_logs.spec_version: `unset` is the empty string that a caller of the log leaves.
pub data SpecVersion : Type 0 where
  unset acr_2_0 acr_2_1 acr_2_2 : SpecVersion
  other_version : ℕ → SpecVersion

-- A Go `any`: a parameter of a tool, or an argument of a format string.
pub data Value : Type 0 where
  null : Value
  int : ℤ → Value
  float : Float → Value
  text : Text → Value
  name : String → Value
  flag : Bool → Value
  state : State → Value
  bytes : Blob → Value
  other : ℕ → Value

-- A message is its format string and the arguments, unrendered.
pub data Message : Type 0 where
  no_message : Message
  sprintf : String → List Value → Message

-- `errorf` is fmt.Errorf or errors.New, `wrap` is fmt.Errorf with `%w`.
pub data Error : Type 0 where
  errorf : String → List Value → Error
  wrap : String → Error → Error
  no_rows : Error
  unique_violation : String → Error
  foreign_key_violation : String → Error

-- audit_logs.result_detail
pub data Detail : Type 0 where
  detail : Message → Detail
  reason : Error → Detail

-- A value of the masked preview of the parameters.
pub data Preview : Type 0 where
  kept : Value → Preview
  -- the value as a text, in full
  printed : Value → Preview
  masked : ℕ → Preview
  truncated : Value → Preview
  params_hash : Text → Preview

abbrev pub Params : Type 0
Params = List (String × Value)

abbrev pub PreviewMap : Type 0
PreviewMap = List (String × Preview)
