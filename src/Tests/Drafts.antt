-- ===== src/Tests/Drafts.antt =====
-- The witnesses on drafts: one that waits and is approved, and one that was awarded and is rejected.
use acp_server.Base.{◌≡◌, refl, some, [], ◌∷◌, arith}
use acp_server.Base.Int.{pos}
use acp_server.Base.Sql.{first}
use acp_server.Store.{Db, PendingDraft, LedgerRow, LedgerStatus, Params, Value, Error, ok, err}
use acp_server.Budget.{counter, refund}
use acp_server.Tokens.{claim_pending}
use acp_server.Execution.{Context}
use acp_server.Tools.{param, text_param, int_param}
use acp_server.Tools.ProposePassage.{no_effects}
use acp_server.Tools.ApproveDraft.{approval, execute, claim_chosen, after_claim, chosen_draft}
use acp_server.Tools.ApproveDraft.Once.{IsClaimed, approve_draft_once}
use acp_server.Tools.RejectDraft
use acp_server.Tools.RejectDraft.{
  Reversal, award_row, to_rejected, apply_reversal, reject_draft_once,
}
use acp_server.Tests.Data.{host, draw_of, server, covenant, guest, counter_row, event}

abbrev context : Context
context = record { covenant = covenant; member = guest }

abbrev waiting_draft : PendingDraft
waiting_draft = record {
  draft_id = 701;
  covenant_id = 1;
  agent_id = 11;
  created_at = 1;
  expires_at = 9;
}

abbrev awaiting : Db
awaiting = record server { pending_tokens = waiting_draft ∷ [] }

abbrev by_id : Params
by_id = ("draft_id", Value.text 701) ∷ ("unit_count", Value.int (pos 120)) ∷ []

no_log : text_param "log_id" by_id ≡ 0
unfolding text_param param
no_log = refl

approves : (execute host context by_id awaiting).0 ≡ ok (approval host by_id 701 11)
unfolding execute claim_chosen after_claim chosen_draft claim_pending first text_param int_param
    param
approves = refl

approve_draft_once_example :
    IsClaimed host context by_id awaiting (approval host by_id 701 11)
    × ((e : Error) × (execute host context by_id (execute host context by_id awaiting).1
          ≡ (err e, (execute host context by_id awaiting).1)))
approve_draft_once_example =
    approve_draft_once host context by_id awaiting (approval host by_id 701 11) no_log approves

abbrev passage_row : LedgerRow
passage_row = record {
  id = 301;
  covenant_id = 1;
  agent_id = 11;
  delta = pos 120;
  balance_after = pos 120;
  source_type = "passage";
  source_ref = 701;
  log_id = 101;
  status = LedgerStatus.confirmed;
}

abbrev awarded : Db
awarded = record server { token_ledger = passage_row ∷ [] }

abbrev by_log : Params
by_log = ("log_id", Value.text 101) ∷ []

abbrev reversal : Reversal
reversal = record { log_id = 101; tokens_returned = pos 120; cost_returned = pos 5; reason = 0 }

award_found : award_row 1 101 awarded ≡ some passage_row
unfolding first
award_found = refl

log_named : text_param "log_id" by_log ≡ 101
unfolding text_param param
log_named = refl

counter_kept : counter 1 awarded ≡ some counter_row
unfolding first
counter_kept = refl

reject_draft_once_example :
    let db' =
      (apply_reversal
        (draw_of 2)
        context
        event
        (no_effects host context)
        reversal
        by_log
        awarded).1 in
    (award_row 1 101 db' ≡ some (to_rejected passage_row))
    × (counter 1 db' ≡ some (refund 2 (pos 5) counter_row))
    × ((e : Error) × (RejectDraft.check context by_log db' ≡ (err e, db')))
reject_draft_once_example =
    reject_draft_once (draw_of 2) context event (no_effects host context) reversal by_log awarded
      passage_row counter_row award_found log_named (omega arith) counter_kept
