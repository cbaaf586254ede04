-- ===== src/Tokens.antt =====
-- internal/tokens/tokens.go: the token ledger and the drafts that wait for approval. SQL sums are
-- exact; the sum that Go itself forms wraps around.
pub mod Rules
pub mod Parse
pub mod Validated
pub mod Snapshots
pub mod Joined
pub mod Captured
pub mod Balances
pub mod Totals
use acp_server.Base.{
  ℕ, ◌+◌, ◌*◌, String, Bool, true, false, ◌&&◌, ◌||◌, Option, none, some, List, [], ◌∷◌, map, ◌==◌,
  if◌then◌else◌,
}
use acp_server.Base.Int.{ℤ, pos, ◌+ℤ◌, add64}
use acp_server.Base.Sql.{select, first, exists, sum_where, delete_where}
use acp_server.Store.{
  Text, Float, Db, LedgerRow, LedgerStatus, PendingDraft, Host, Draw, Value, Error, errorf,
  unique_violation, wrap, no_rows, Exec, Result, ok, err, pure, gets, modify, raise_if, or_raise,
  ◌>>=◌, ◌>>◌,
}

unfoldable pub calculate : Host → ℤ → Float → Float → ℤ
calculate host unit_count tier_multiplier acceptance_ratio =
    to_int (round (mul (mul (of_int unit_count) tier_multiplier) acceptance_ratio))
  where
    open host.floats use {to_int, of_int, round, mul}

abbrev pub is_confirmed : LedgerStatus → Bool
is_confirmed LedgerStatus.confirmed = true
is_confirmed _ = false

abbrev pub confirmed_of : Text → LedgerRow → Bool
confirmed_of covenant_id r = r.covenant_id == covenant_id && is_confirmed r.status

abbrev pub confirmed_by : Text → Text → LedgerRow → Bool
confirmed_by covenant_id agent_id r =
    r.covenant_id == covenant_id && (r.agent_id == agent_id && is_confirmed r.status)

abbrev pub delta_of : LedgerRow → ℤ
delta_of r = r.delta

unfoldable pub balance : Text → Text → Db → ℤ
balance covenant_id agent_id db =
    sum_where (confirmed_by covenant_id agent_id) delta_of db.token_ledger

-- INSERT INTO token_ledger, with its primary key and UNIQUE(log_id).
unfoldable pub insert_ledger : LedgerRow → Exec (Unit {0})
insert_ledger row = do
  taken ← gets (λ db. exists (λ r. r.id == row.id || r.log_id == row.log_id) db.token_ledger)
  raise_if taken (unique_violation "token_ledger")
  modify (λ db. record db { token_ledger = row ∷ db.token_ledger })

abbrev pub passage : Draw → Text → Text → Text → Text → ℤ → ℤ → LedgerRow
passage draw covenant_id agent_id log_id source_ref delta current = record {
  id = draw.ledger_id;
  covenant_id = covenant_id;
  agent_id = agent_id;
  delta = delta;
  balance_after = add64 current delta;
  source_type = "passage";
  source_ref = source_ref;
  log_id = log_id;
  status = LedgerStatus.confirmed;
}

unfoldable pub confirm_contribution : Draw → Text → Text → Text → Text → ℤ → Exec (Unit {0})
confirm_contribution draw covenant_id agent_id log_id source_ref delta db =
    insert_ledger
      (passage draw covenant_id agent_id log_id source_ref delta (balance covenant_id agent_id db))
      db

-- GROUP BY agent_id
unfoldable pub agents : List LedgerRow → List Text
agents [] = []
agents (r ∷ rs) =
    let rest = agents rs in if exists (λ a. a == r.agent_id) rest then rest else r.agent_id ∷ rest

-- A Go map, as the list of its entries in some order.
unfoldable pub total_by_agent : Text → Db → List (Text × ℤ)
unfolding agents balance
total_by_agent covenant_id db =
    map (λ a. (a, balance covenant_id a db))
      (agents (select (confirmed_of covenant_id) db.token_ledger))

-- 30 days
abbrev pub pending_window : ℕ
pending_window = 30 * 24 * 3600 * 1000000000

unfoldable pub create_pending : Draw → Text → Text → Text → Exec (Unit {0})
create_pending draw covenant_id agent_id draft_id = do
  taken ← gets (λ db. exists (λ r. r.draft_id == draft_id) db.pending_tokens)
  raise_if taken (unique_violation "pending_tokens.draft_id")
  modify (λ db. record db { pending_tokens = draft ∷ db.pending_tokens })
  where
    draft : PendingDraft
    draft = record {
      draft_id = draft_id;
      covenant_id = covenant_id;
      agent_id = agent_id;
      created_at = draw.now;
      expires_at = draw.now + pending_window;
    }

abbrev pub pending_draft : Text → Text → Db → Option PendingDraft
pending_draft covenant_id draft_id db =
    first (λ r. r.covenant_id == covenant_id && r.draft_id == draft_id) db.pending_tokens

unfoldable pub claim_pending : Text → Text → Exec Text
claim_pending covenant_id draft_id = do
  found ← gets (pending_draft covenant_id draft_id)
  draft ← or_raise found (wrap "draft %q not found: %w" no_rows)
  modify (λ db. record db {
    pending_tokens = delete_where (λ r. r.draft_id == draft_id) db.pending_tokens;
  })
  pure draft.agent_id
