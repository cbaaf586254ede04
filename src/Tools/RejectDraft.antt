-- ===== src/Tools/RejectDraft.antt =====
-- tools/reject_draft.go: the owner reverses an award, and its cost goes back to the budget.
use acp_server.Base.{
  ◌≡◌, refl, ap, ◌∙◌, Bool, true, false, not, ◌&&◌, Option, none, some, [], ◌∷◌, ◌==◌, Bool-cases,
  inl, inr, if◌then◌else◌, arith,
}
use acp_server.Base.Int.{ℤ, pos, ltb_ℤ, leb_ℤ, ◌<ℤ◌}
use acp_server.Base.Sql.{first, update_where}
use acp_server.Base.Queries.{first-update}
use acp_server.Store.{
  Text, empty, Db, Entry, LedgerRow, LedgerStatus, Counter, Host, Draw, Params, Value, Error,
  errorf, wrap, no_rows, sprintf, Exec, ok, err,
}
use acp_server.Budget.{is_undone, release, refund, counter}
use acp_server.Budget.Room.{counter-release}
use acp_server.Execution.{SideEffects, Context, Tool}
use acp_server.Tools.{text_param}
use acp_server.Tools.ProposePassage.{no_effects}

pub record Reversal : Type 0 where
  pub log_id : Text
  pub tokens_returned : ℤ
  pub cost_returned : ℤ
  pub reason : Text

abbrev pub is_award : Text → Text → LedgerRow → Bool
is_award covenant_id log_id r = r.log_id == log_id && r.covenant_id == covenant_id

abbrev pub award_row : Text → Text → Db → Option LedgerRow
award_row covenant_id log_id db = first (is_award covenant_id log_id) db.token_ledger

abbrev pub check_row : Option LedgerRow → Exec (Unit {0})
check_row none db = (err (wrap "token_ledger entry for log_id %q not found: %w" no_rows), db)
check_row (some r) db =
    if is_undone r.status
    then (
      err (errorf "token_ledger entry for log_id %q is already %s" (Value.text r.log_id ∷ [])),
      db,
    )
    else (ok tt, db)

unfoldable pub check : Context → Params → Exec (Unit {0})
check ctx params db =
    if not ctx.member.is_owner
    then (err (errorf "only covenant owner can reject drafts" []), db)
    else if text_param "log_id" params == empty
    then (err (errorf "log_id is required" []), db)
    else check_row (award_row ctx.covenant.covenant_id (text_param "log_id" params) db) db

-- A row of the log that is missing costs nothing.
abbrev pub cost_of_log : Text → Db → ℤ
cost_of_log log_id db = elim (first (λ e. e.log_id == log_id) db.audit_logs) [
  | none ↦ pos 0
  | some e ↦ e.cost_delta
]

abbrev pub reverse : Params → Option LedgerRow → Exec Reversal
reverse params none db = (err (wrap "reading token_ledger: %w" no_rows), db)
reverse params (some r) db = (
  ok (record {
    log_id = text_param "log_id" params;
    tokens_returned = r.delta;
    cost_returned = cost_of_log (text_param "log_id" params) db;
    reason = text_param "reason" params;
  }),
  db,
)

unfoldable pub execute : Context → Params → Exec Reversal
execute ctx params db =
    reverse params (award_row ctx.covenant.covenant_id (text_param "log_id" params) db) db

abbrev pub to_rejected : LedgerRow → LedgerRow
to_rejected r = record r { status = LedgerStatus.rejected }

unfoldable pub reject_rows : Text → Text → Db → Db
reject_rows covenant_id log_id db = record db {
  token_ledger = update_where (is_award covenant_id log_id) to_rejected db.token_ledger;
}

unfoldable pub apply_reversal :
    Draw → Context → Entry → SideEffects → Reversal → Params → Exec Reversal
unfolding reject_rows
apply_reversal draw ctx entry fx x params db =
    let db' = reject_rows ctx.covenant.covenant_id x.log_id db in
    (
      ok x,
      if ltb_ℤ (pos 0) x.cost_returned
          then release draw ctx.covenant.covenant_id x.cost_returned db'
          else db',
    )

abbrev pub reject_draft : Host → Draw → Tool Reversal
reject_draft host draw = record {
  tool_name = "reject_draft";
  tool_type = "admin";
  check_preconditions = check;
  execute_logic = execute;
  calculate_side_effects = λ ctx x params db. no_effects host ctx;
  apply_side_effects = apply_reversal draw;
  estimate_cost = λ ctx params. pos 0;
  params_policy = record {
    store_hash_only = false;
    preview_fields = "log_id" ∷ "reason" ∷ [];
    sensitive_fields = [];
    hash_preview_fields = [];
  };
  detail = λ x.
      sprintf "Draft (log %s) rejected, %d tokens reversed."
        (Value.text x.log_id ∷ Value.int x.tokens_returned ∷ []);
  is_final = λ x. true;
  enrich_receipt = λ x.
      ("status", Value.name "rejected")
      ∷ ("tokens_returned", Value.int x.tokens_returned)
      ∷ ("reason", Value.text x.reason)
      ∷ [];
}

ledger-release :
    (draw : Draw) (k : Text) (amount : ℤ) (db : Db)
    → (release draw k amount db).token_ledger ≡ db.token_ledger
unfolding release
ledger-release draw k amount db = elim (Bool-cases (leb_ℤ amount (pos 0))) [
  | inl free ↦ rw free refl
  | inr due ↦ rw due refl
]

ledger-apply_reversal :
    (draw : Draw) (ctx : Context) (entry : Entry) (fx : SideEffects) (x : Reversal)
    (params : Params) (db : Db)
    → (apply_reversal draw ctx entry fx x params db).1.token_ledger
      ≡ update_where (is_award ctx.covenant.covenant_id x.log_id) to_rejected db.token_ledger
unfolding apply_reversal reject_rows
ledger-apply_reversal draw ctx entry fx x params db =
    elim (Bool-cases (ltb_ℤ (pos 0) x.cost_returned)) [
      | inl due ↦ rw due (
          ledger-release draw ctx.covenant.covenant_id x.cost_returned
            (reject_rows ctx.covenant.covenant_id x.log_id db))
      | inr free ↦ rw free refl
    ]

counter-apply_reversal :
    (draw : Draw) (ctx : Context) (entry : Entry) (fx : SideEffects) (x : Reversal)
    (params : Params) (db : Db) (c : Counter)
    → pos 0 <ℤ x.cost_returned
    → counter ctx.covenant.covenant_id db ≡ some c
    → counter ctx.covenant.covenant_id (apply_reversal draw ctx entry fx x params db).1
      ≡ some (refund draw.now x.cost_returned c)
unfolding apply_reversal reject_rows
counter-apply_reversal draw ctx entry fx x params db c due h =
    let positive : ltb_ℤ (pos 0) x.cost_returned ≡ true = ground arith in
    rw positive (
      counter-release draw ctx.covenant.covenant_id x.cost_returned
        (reject_rows ctx.covenant.covenant_id x.log_id db) c due h)

check-refused :
    (ctx : Context) (params : Params) (db : Db) (r : LedgerRow)
    → award_row ctx.covenant.covenant_id (text_param "log_id" params) db ≡ some r
    → is_undone r.status ≡ true
    → (e : Error) × (check ctx params db ≡ (err e, db))
unfolding check
check-refused ctx params db r found undone = elim (Bool-cases ctx.member.is_owner) [
  | inr guest ↦ rw guest (_, refl)
  | inl owner ↦ elim (Bool-cases (text_param "log_id" params == empty)) [
    | inl blank ↦ rw (owner, blank) (_, refl)
    | inr named ↦ rw (owner, named, found, undone) (_, refl)
  ]
]

-- The effects of a rejection reverse the award, give a positive cost of it back to the counter of the
-- covenant, which does not fall below zero, and on the database that they leave the preconditions
-- refuse to reject the award again, so that the cost is given back once.
pub reject_draft_once :
    (draw : Draw) (ctx : Context) (entry : Entry) (fx : SideEffects) (x : Reversal)
    (params : Params) (db : Db) (r : LedgerRow) (c : Counter)
    → award_row ctx.covenant.covenant_id x.log_id db ≡ some r
    → text_param "log_id" params ≡ x.log_id
    → pos 0 <ℤ x.cost_returned
    → counter ctx.covenant.covenant_id db ≡ some c
    → let db' = (apply_reversal draw ctx entry fx x params db).1 in
      (award_row ctx.covenant.covenant_id x.log_id db' ≡ some (to_rejected r))
      × (counter ctx.covenant.covenant_id db' ≡ some (refund draw.now x.cost_returned c))
      × ((e : Error) × (check ctx params db' ≡ (err e, db')))
reject_draft_once draw ctx entry fx x params db r c found named due h =
    let db' = (apply_reversal draw ctx entry fx x params db).1 in
    let k = ctx.covenant.covenant_id in
    let row : award_row k x.log_id db' ≡ some (to_rejected r) =
      ap (first (is_award k x.log_id)) (ledger-apply_reversal draw ctx entry fx x params db)
      ∙ first-update (is_award k x.log_id) to_rejected r db.token_ledger (λ y. refl) found in
    (
      row,
      counter-apply_reversal draw ctx entry fx x params db c due h,
      check-refused ctx params db' (to_rejected r) (ap (λ l. award_row k l db') named ∙ row) refl,
    )
