-- ===== src/Covenant/Access.antt =====
-- internal/covenant/access_request.go: applications for a tier, which the owner approves or rejects.
use acp_server.Base.{
  Bool, true, false, not, ◌&&◌, Option, none, some, List, [], ◌∷◌, ◌==◌, if◌then◌else◌,
}
use acp_server.Base.Int.{ℤ, pos, neg, ltb_ℤ}
use acp_server.Base.Sql.{select, first, exists, order_by, update_where}
use acp_server.Store.{
  Text, Time, Blob, empty, Db, Tier, Identity, Member, MemberStatus, AccessRequest, RequestStatus,
  LedgerRow, LedgerStatus, State, ◌is◌, Host, Draw, Value, Error, errorf, wrap, no_rows,
  unique_violation, Exec, ok, err, pure, lift, raise_if, modify, gets, or_raise, transaction,
  wrap_error, ◌>>=◌, ◌>>◌,
}
use acp_server.Tokens.{insert_ledger}
use acp_server.Covenant.{is_tier, get, tier_row}
use acp_server.Covenant.Members.{seal_platform_id, upsert_platform_identity, insert_member, joined}

abbrev pub is_pending : RequestStatus → Bool
is_pending RequestStatus.pending = true
is_pending _ = false

abbrev pub is_request : Text → Text → AccessRequest → Bool
is_request covenant_id request_id r = r.covenant_id == covenant_id && r.request_id == request_id

abbrev pub request_row : Text → Text → Db → Option AccessRequest
request_row covenant_id request_id db =
    first (is_request covenant_id request_id) db.agent_access_requests

-- ErrNoAccessRequest and ErrAccessRequestResolved
abbrev pub no_access_request : Error
no_access_request = errorf "access request not found" []

abbrev pub already_resolved : Error
already_resolved = errorf "access request already resolved" []

abbrev pub application :
    Host → Draw → Text → Text → Text → Text → Text → Option Blob → AccessRequest
application host draw covenant_id platform_id tier_id payment_ref self_declaration enc = record {
  request_id = draw.request_id;
  covenant_id = covenant_id;
  platform_id_hash = host.hash_text platform_id;
  platform_id_enc = enc;
  tier_id = tier_id;
  payment_ref = payment_ref;
  self_declaration = self_declaration;
  status = RequestStatus.pending;
  reject_reason = empty;
  approve_log_id = empty;
  reject_log_id = empty;
  created_at = draw.now;
  resolved_at = none;
}

unfoldable pub insert_request : AccessRequest → Exec (Unit {0})
insert_request r db =
    if exists (λ q. q.request_id == r.request_id) db.agent_access_requests
    then (err (wrap "insert access request: %w" (unique_violation "agent_access_requests")), db)
    else (ok tt, record db { agent_access_requests = r ∷ db.agent_access_requests })

unfoldable pub create_access_request :
    Host → Draw → Text → Text → Text → Text → Text → Exec AccessRequest
unfolding get upsert_platform_identity insert_request
create_access_request host draw covenant_id platform_id tier_id payment_ref self_declaration = do
  raise_if (platform_id == empty) (errorf "platform_id is required" [])
  raise_if (tier_id == empty) (errorf "tier_id is required" [])
  cov ← get covenant_id
  raise_if (not (cov.state is State.opened))
      (errorf "covenant is not accepting applications (state=%s)" (Value.state cov.state ∷ []))
  known ← gets (λ db. exists (is_tier covenant_id tier_id) db.access_tiers)
  raise_if (not known) (errorf "tier %q not found on covenant" (Value.text tier_id ∷ []))
  enc ← lift (seal_platform_id host platform_id)
  wrap_error (wrap "upsert platform identity: %w") (upsert_platform_identity host draw platform_id)
  let row = application host draw covenant_id platform_id tier_id payment_ref self_declaration enc
  insert_request row
  pure row

unfoldable pub get_access_request : Text → Text → Exec AccessRequest
get_access_request covenant_id request_id db =
    or_raise (request_row covenant_id request_id db) no_access_request db

abbrev pub to_approved : Time → Text → AccessRequest → AccessRequest
to_approved now log_id r = record r {
  status = RequestStatus.approved;
  approve_log_id = log_id;
  resolved_at = some now;
}

abbrev pub to_rejected : Time → Text → Text → AccessRequest → AccessRequest
to_rejected now reason log_id r = record r {
  status = RequestStatus.rejected;
  reject_reason = reason;
  reject_log_id = log_id;
  resolved_at = some now;
}

abbrev pub entry_fee : Draw → Text → Text → Text → ℤ → LedgerRow
entry_fee draw covenant_id request_id log_id fee = record {
  id = draw.ledger_id;
  covenant_id = covenant_id;
  agent_id = draw.agent_id;
  delta = neg fee;
  balance_after = neg fee;
  source_type = "entry_fee";
  source_ref = request_id;
  log_id = log_id;
  status = LedgerStatus.confirmed;
}

-- No row for a tier without a fee.
unfoldable pub book_entry_fee : Draw → Text → Text → Text → ℤ → Exec (Unit {0})
unfolding insert_ledger
book_entry_fee draw covenant_id request_id log_id fee db =
    if ltb_ℤ (pos 0) fee
    then wrap_error (wrap "book entry fee: %w")
        (insert_ledger (entry_fee draw covenant_id request_id log_id fee)) db
    else (ok tt, db)

-- The writes of `ApproveAccessRequest`, which one transaction makes.
unfoldable pub approve_rows : Draw → Text → Text → Text → Text → Tier → Exec Member
unfolding insert_member book_entry_fee
approve_rows draw covenant_id request_id log_id plaintext tier = do
  wrap_error (wrap "insert covenant_member on approve: %w") (insert_member member)
  modify (λ db. record db {
    agent_access_requests =
        update_where (is_request covenant_id request_id) (to_approved draw.now log_id)
          db.agent_access_requests;
  })
  book_entry_fee draw covenant_id request_id log_id tier.entry_fee_tokens
  pure member
  where
    member : Member
    member = joined draw covenant_id plaintext tier.tier_id MemberStatus.active

abbrev pub identity_of : Text → Db → Option Identity
identity_of hash db = first (λ i. i.platform_id_hash == hash) db.platform_identities

-- The part of `ApproveAccessRequest` behind the query of the request.
unfoldable pub approve_found : Draw → Text → Text → Text → AccessRequest → Exec Member
unfolding approve_rows
approve_found draw covenant_id request_id log_id req = do
  raise_if (not (is_pending req.status)) already_resolved
  who ← gets (identity_of req.platform_id_hash)
  identity ← or_raise who (wrap "resolve platform_id for approve: %w" no_rows)
  asked ← gets (tier_row covenant_id req.tier_id)
  tier ← or_raise asked (wrap "lookup entry_fee_tokens: %w" no_rows)
  transaction (approve_rows draw covenant_id request_id log_id identity.platform_id tier)

unfoldable pub approve_access_request : Draw → Text → Text → Text → Exec Member
unfolding get_access_request approve_found
approve_access_request draw covenant_id request_id log_id = do
  req ← get_access_request covenant_id request_id
  approve_found draw covenant_id request_id log_id req

unfoldable pub reject_access_request : Draw → Text → Text → Text → Text → Exec (Unit {0})
unfolding get_access_request
reject_access_request draw covenant_id request_id reason log_id = do
  req ← get_access_request covenant_id request_id
  raise_if (not (is_pending req.status)) already_resolved
  modify (λ db. record db {
    agent_access_requests =
        update_where (is_request covenant_id request_id) (to_rejected draw.now reason log_id)
          db.agent_access_requests;
  })

-- Oldest first.
unfoldable pub list_pending_access_requests : Text → Db → List AccessRequest
list_pending_access_requests covenant_id db =
    order_by (λ r. r.created_at)
      (select (λ r. r.covenant_id == covenant_id && is_pending r.status) db.agent_access_requests)
