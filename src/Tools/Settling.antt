-- ===== src/Tools/Settling.antt =====
-- tools/generate_settlement.go and tools/confirm_settlement_output.go.
use acp_server.Base.{Bool, true, false, not, ◌&&◌, Option, none, some, [], ◌∷◌, ◌==◌, if◌then◌else◌}
use acp_server.Base.Int.{pos}
use acp_server.Base.Sql.{first, update_where}
use acp_server.Store.{
  Text, empty, Time, Db, Entry, State, ◌is◌, SettlementOutput, OutputStatus, Anchor, Host, Draw,
  Params, Value, errorf, wrap, no_rows, sprintf, Result, Exec, ok, err, pure, raise_if, gets,
  modify, or_raise, wrap_error, ◌>>=◌, ◌>>◌,
}
use acp_server.Covenant.{transition}
use acp_server.Execution.{Context, Tool}
use acp_server.Execution.Policy.{default_params_policy}
use acp_server.GitTwin.Anchors.{NoteCodec, Signer, enqueue_anchor}
use acp_server.Settlement.{generate}
use acp_server.Tools.{text_param, cost_cents}
use acp_server.Tools.ProposePassage.{no_effects}

-- The output that the settlement has put into the data.
pub record Generated : Type 0 where
  pub output_id : Option Text

abbrev pub check_generate : Context → Exec (Unit {0})
check_generate ctx = do
  raise_if (not ctx.member.is_owner) (errorf "only covenant owner can trigger settlement" [])
  raise_if (not (ctx.covenant.state is State.locked) && not (ctx.covenant.state is State.active)) (
      errorf "covenant must be LOCKED or ACTIVE to settle, currently %s"
        (Value.state ctx.covenant.state ∷ []))

abbrev pub output_extra : Option Text → Params
output_extra none = []
output_extra (some id) = ("output_id", Value.text id) ∷ []

unfoldable pub apply_generate : Host → Draw → Context → Entry → Exec Generated
apply_generate host draw ctx entry = do
  out ← generate host draw ctx.covenant.covenant_id entry.log_id entry.hash
  pure (record { output_id = some out.output_id })

abbrev pub generate_settlement : Host → Draw → Tool Generated
generate_settlement host draw = record {
  tool_name = "generate_settlement_output";
  tool_type = "admin";
  check_preconditions = λ ctx params. check_generate ctx;
  execute_logic = λ ctx params. pure (record { output_id = none });
  calculate_side_effects = λ ctx x params db. no_effects host ctx;
  apply_side_effects = λ ctx entry fx x params. apply_generate host draw ctx entry;
  estimate_cost = λ ctx params. cost_cents host (pos 20) params;
  params_policy = default_params_policy;
  detail = λ x. sprintf "Settlement output generation triggered." [];
  is_final = λ x. true;
  enrich_receipt = λ x. output_extra x.output_id;
}

pub record Confirmation : Type 0 where
  pub settlement_output_id : Text
  pub confirmed_at : Time
  pub anchor_id : Option Text

abbrev pub is_output : Text → Text → SettlementOutput → Bool
is_output output_id covenant_id o = o.output_id == output_id && o.covenant_id == covenant_id

abbrev pub is_waiting : OutputStatus → Bool
is_waiting OutputStatus.pending_confirmation = true
is_waiting OutputStatus.confirmed = false

unfoldable pub check_confirm : Context → Params → Exec (Unit {0})
check_confirm ctx params = do
  raise_if (not ctx.member.is_owner) (errorf "only covenant owner can confirm settlement output" [])
  raise_if (not (ctx.covenant.state is State.locked)) (
      errorf "covenant must be LOCKED to confirm settlement, currently %s"
        (Value.state ctx.covenant.state ∷ []))
  let id = text_param "settlement_output_id" params
  raise_if (id == empty) (errorf "settlement_output_id is required" [])
  found ← gets (λ db. first (is_output id ctx.covenant.covenant_id) db.settlement_outputs)
  out ← or_raise found (wrap "settlement output %q not found: %w" no_rows)
  raise_if (not (is_waiting out.status))
      (errorf "settlement output %q is not pending confirmation (status: %s)" (Value.text id ∷ []))

abbrev pub to_confirmed : Time → SettlementOutput → SettlementOutput
to_confirmed now o = record o { status = OutputStatus.confirmed; confirmed_at = some now }

unfoldable pub confirm_rows : Time → Text → Text → Db → Db
confirm_rows now output_id covenant_id db = record db {
  settlement_outputs =
      update_where (is_output output_id covenant_id) (to_confirmed now) db.settlement_outputs;
}

-- A failure to enqueue is only printed.
abbrev pub noted : Confirmation → Result Anchor × Db → Result Confirmation × Db
noted x (err e, db) = (ok x, db)
noted x (ok a, db) = (ok (record x { anchor_id = some a.anchor_id }), db)

unfoldable pub enqueue_if_bound :
    NoteCodec → Option Signer → Draw → Context → Confirmation → Exec Confirmation
enqueue_if_bound codec signer draw ctx x db =
    if ctx.covenant.git_twin_url == empty
    then (ok x, db)
    else noted x (
        enqueue_anchor codec signer draw ctx.covenant.covenant_id ctx.covenant.git_twin_url
          x.settlement_output_id db)

unfoldable pub apply_confirm :
    Host → NoteCodec → Option Signer → Draw → Context → Confirmation → Exec Confirmation
apply_confirm host codec signer draw ctx x = do
  modify (confirm_rows x.confirmed_at x.settlement_output_id ctx.covenant.covenant_id)
  wrap_error (wrap "covenant transition to SETTLED: %w")
      (transition host draw ctx.covenant.covenant_id (some State.settled))
  enqueue_if_bound codec signer draw ctx x

abbrev pub anchor_extra : Option Text → Params
anchor_extra none = []
anchor_extra (some id) = if id == empty then [] else ("anchor_id", Value.text id) ∷ []

abbrev pub confirm_settlement_output : Host → NoteCodec → Option Signer → Draw → Tool Confirmation
confirm_settlement_output host codec signer draw = record {
  tool_name = "confirm_settlement_output";
  tool_type = "admin";
  check_preconditions = check_confirm;
  execute_logic = λ ctx params. pure (record {
    settlement_output_id = text_param "settlement_output_id" params;
    confirmed_at = draw.now;
    anchor_id = none;
  });
  calculate_side_effects =
      λ ctx x params db. record (no_effects host ctx) { state_after = some State.settled };
  apply_side_effects = λ ctx entry fx x params. apply_confirm host codec signer draw ctx x;
  estimate_cost = λ ctx params. pos 0;
  params_policy = record {
    store_hash_only = false;
    preview_fields = "settlement_output_id" ∷ [];
    sensitive_fields = [];
    hash_preview_fields = [];
  };
  detail = λ x.
      sprintf "Settlement output %s confirmed. Covenant transitioning to SETTLED."
        (Value.text x.settlement_output_id ∷ []);
  is_final = λ x. true;
  enrich_receipt = λ x.
      ("status", Value.name "SETTLED")
      ∷ ("confirmed_at", Value.int (pos x.confirmed_at))
      ∷ ("settlement_output_id", Value.text x.settlement_output_id)
      ∷ anchor_extra x.anchor_id;
}
