-- ===== src/Tools.antt =====
-- tools/helpers.go: the parameters of a tool's call. The tools are in the modules below.
pub mod ProposePassage
pub mod LeaveCovenant
pub mod ApproveDraft
pub mod RejectDraft
pub mod Settling
pub mod Agents
pub mod AccessRequests
pub mod Configuring
pub mod RecordGitTwinEvent
use acp_server.Base.{
  ℕ, String, Bool, true, false, not, Option, none, some, List, [], ◌∷◌, str_eq, if◌then◌else◌,
}
use acp_server.Base.Int.{ℤ, pos}
use acp_server.Store.{Text, Float, empty, Host, Value, Params}

unfoldable pub param : String → Params → Option Value
param key [] = none
param key ((k, v) ∷ params) = if str_eq k key then some v else param key params

abbrev pub to_int_value : Host → Option Value → ℤ
to_int_value host (some (Value.int n)) = n
to_int_value host (some (Value.float x)) = host.floats.to_int x
to_int_value host _ = pos 0

-- `intParam`, whose flag no caller reads
unfoldable pub int_param : Host → String → Params → ℤ
int_param host key params = to_int_value host (param key params)

abbrev pub to_float_value : Host → Option Value → Float
to_float_value host (some (Value.float x)) = x
to_float_value host (some (Value.int n)) = host.floats.of_int n
to_float_value host _ = host.floats.of_int (pos 0)

-- `floatParam`, whose flag no caller reads
unfoldable pub float_param : Host → String → Params → Float
float_param host key params = to_float_value host (param key params)

abbrev pub to_text_value : Option Value → Text
to_text_value (some (Value.text t)) = t
to_text_value _ = empty

-- params[key].(string), or ""
unfoldable pub text_param : String → Params → Text
text_param key params = to_text_value (param key params)

abbrev pub cost_of : Host → ℤ → Option Value → ℤ
cost_of host standard (some (Value.float x)) =
    if not (host.floats.lt x (host.floats.of_int (pos 0))) then host.floats.to_int x else standard
cost_of host standard _ = standard

-- The estimate of a tool with a placeholder price: "cost_cents" of the call, if it is a number and
-- not negative.
unfoldable pub cost_cents : Host → ℤ → Params → ℤ
cost_cents host standard params = cost_of host standard (param "cost_cents" params)
