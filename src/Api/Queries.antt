-- ===== src/Api/Queries.antt =====
-- internal/api/api.go: the queries on tokens, members and concentration.
use acp_server.Base.{
  ℕ, suc, ◌+◌, Bool, true, false, not, ◌&&◌, ◌||◌, Option, none, some, List, [], ◌∷◌, ◌==◌, map,
  if◌then◌else◌,
}
use acp_server.Base.Int.{ℤ, pos, ◌+ℤ◌, ltb_ℤ, eqb_ℤ}
use acp_server.Base.Sql.{first, select, sum_where}
use acp_server.Store.{
  Text, empty, Time, Db, Entry, LedgerRow, LedgerStatus, Member, MemberStatus, Identity,
  AccessRequest, Host, Draw,
}
use acp_server.Covenant.Access.{list_pending_access_requests}
use acp_server.RateLimit.Concentration.{ConcentrationReport, check_concentration}
use acp_server.Tokens.{total_by_agent, delta_of, confirmed_by}
use acp_server.Api.{
  Handler, query, refuse_if, message, decode, Headers, missing_session, require_session,
  validate_owner_token, bad_request, ◌>>=◌, ◌>>◌,
}

pub record AgentRequest : Type 0 where
  pub covenant_id : Text
  pub agent_id : Text

pub record BalanceReply : Type 0 where
  pub confirmed_tokens : ℤ
  pub pending_tokens : ℤ
  pub rejected_tokens : ℤ
  pub total_tokens : ℤ
  pub rank : ℕ

abbrev pub is_status : LedgerStatus → LedgerStatus → Bool
is_status LedgerStatus.confirmed LedgerStatus.confirmed = true
is_status LedgerStatus.pending LedgerStatus.pending = true
is_status LedgerStatus.reversed LedgerStatus.reversed = true
is_status LedgerStatus.rejected LedgerStatus.rejected = true
is_status _ _ = false

abbrev pub status_total : LedgerStatus → Text → Text → Db → ℤ
status_total status covenant_id agent_id db =
    sum_where
      (λ r. r.covenant_id == covenant_id && (r.agent_id == agent_id && is_status r.status status))
      delta_of db.token_ledger

unfoldable pub is_among : ℤ → List ℤ → Bool
is_among n [] = false
is_among n (m ∷ ms) = eqb_ℤ m n || is_among n ms

-- COUNT(DISTINCT total) of the totals above `n`
unfoldable pub count_above : ℤ → List (Text × ℤ) → List ℤ → ℕ
count_above n [] seen = 0
count_above n ((a, total) ∷ rest) seen =
    let others = count_above n rest (total ∷ seen) in
    if ltb_ℤ n total && not (is_among total seen) then suc others else others

abbrev pub rank_of : ℤ → List (Text × ℤ) → ℕ
rank_of confirmed totals =
    if ltb_ℤ (pos 0) confirmed then 1 + count_above confirmed totals [] else 0

unfoldable pub balance_reply : Text → Text → Db → BalanceReply
balance_reply covenant_id agent_id db =
    let confirmed = status_total LedgerStatus.confirmed covenant_id agent_id db in
    let pending = status_total LedgerStatus.pending covenant_id agent_id db in
    record {
      confirmed_tokens = confirmed;
      pending_tokens = pending;
      rejected_tokens = status_total LedgerStatus.rejected covenant_id agent_id db;
      total_tokens = confirmed +ℤ pending;
      rank = rank_of confirmed (total_by_agent covenant_id db);
    }

unfoldable pub handle_get_token_balance :
    Host → Draw → Headers → Option AgentRequest → Handler BalanceReply
handle_get_token_balance host draw h body = do
  missing_session host h.session_token
  req ← decode body
  refuse_if (req.covenant_id == empty || req.agent_id == empty)
      (message "covenant_id and agent_id are required") bad_request
  require_session host draw.now h.session_token req.agent_id req.covenant_id
  query (balance_reply req.covenant_id req.agent_id)

-- A filter that is left out is `none`; a status that the ledger does not know is `some none`.
pub record HistoryRequest : Type 0 where
  pub covenant_id : Text
  pub agent_id : Text
  pub from_time : Option Time
  pub to_time : Option Time
  pub status : Option (Option LedgerStatus)

abbrev pub status_fits : Option (Option LedgerStatus) → LedgerStatus → Bool
status_fits none s = true
status_fits (some none) s = false
status_fits (some (some t)) s = is_status s t

abbrev pub not_before : Host → Option Time → Time → Bool
not_before host none t = true
not_before host (some start) t = not (host.nano_text_lt t start)

abbrev pub not_after : Host → Option Time → Time → Bool
not_after host none t = true
not_after host (some end) t = not (host.nano_text_lt end t)

-- A row of the ledger with the time of its row of the log.
pub record HistoryEntry : Type 0 where
  pub row : LedgerRow
  pub timestamp : Time

-- ORDER BY a.timestamp ASC, on the texts of the times
unfoldable pub insert_history : Host → HistoryEntry → List HistoryEntry → List HistoryEntry
insert_history host e [] = e ∷ []
insert_history host e (f ∷ rest) =
    if host.nano_text_lt e.timestamp f.timestamp
    then e ∷ f ∷ rest
    else f ∷ insert_history host e rest

abbrev pub add_history :
    Host → HistoryRequest → LedgerRow → Option Entry → List HistoryEntry → List HistoryEntry
add_history host req r none rest = rest
add_history host req r (some a) rest =
    if status_fits req.status r.status
      && (not_before host req.from_time a.timestamp && not_after host req.to_time a.timestamp)
    then insert_history host (record { row = r; timestamp = a.timestamp }) rest
    else rest

unfoldable pub history : Host → HistoryRequest → List Entry → List LedgerRow → List HistoryEntry
history host req logs [] = []
history host req logs (r ∷ rest) =
    let others = history host req logs rest in
    if r.covenant_id == req.covenant_id && r.agent_id == req.agent_id
    then add_history host req r (first (λ a. a.log_id == r.log_id) logs) others
    else others

unfoldable pub handle_get_token_history :
    Host → Draw → Headers → Option HistoryRequest → Handler (List HistoryEntry)
handle_get_token_history host draw h body = do
  missing_session host h.session_token
  req ← decode body
  refuse_if (req.covenant_id == empty || req.agent_id == empty)
      (message "covenant_id and agent_id are required") bad_request
  require_session host draw.now h.session_token req.agent_id req.covenant_id
  query (λ db. history host req db.audit_logs db.token_ledger)

-- `prefix` cuts a digest to 12 characters.
pub record MemberEntry : Type 0 where
  pub agent_id : Text
  pub status : MemberStatus
  pub tier_id : Option Text
  pub joined_at : Time
  pub confirmed_tokens : ℤ
  pub platform_id_hash_prefix : Text

abbrev pub hash_of : Option Identity → Text
hash_of none = empty
hash_of (some i) = i.platform_id_hash

abbrev pub member_entry : (Text → Text) → Text → Db → Member → MemberEntry
member_entry prefix covenant_id db m = record {
  agent_id = m.agent_id;
  status = m.status;
  tier_id = m.tier_id;
  joined_at = m.joined_at;
  confirmed_tokens = sum_where (confirmed_by covenant_id m.agent_id) delta_of db.token_ledger;
  platform_id_hash_prefix =
      prefix (hash_of (first (λ i. i.platform_id == m.platform_id) db.platform_identities));
}

pub record PendingEntry : Type 0 where
  pub request_id : Text
  pub platform_id_hash_prefix : Text
  pub tier_id : Text
  pub payment_ref : Text
  pub self_declaration : Text
  pub created_at : Time

abbrev pub pending_entry : (Text → Text) → AccessRequest → PendingEntry
pending_entry prefix r = record {
  request_id = r.request_id;
  platform_id_hash_prefix = prefix r.platform_id_hash;
  tier_id = r.tier_id;
  payment_ref = r.payment_ref;
  self_declaration = r.self_declaration;
  created_at = r.created_at;
}

pub record MembersReply : Type 0 where
  pub members : List MemberEntry
  pub pending_access_requests : List PendingEntry

abbrev pub members_reply : (Text → Text) → Text → Db → MembersReply
members_reply prefix covenant_id db = record {
  members =
      map (member_entry prefix covenant_id db)
        (select (λ m. m.covenant_id == covenant_id) db.covenant_members);
  pending_access_requests =
      map (pending_entry prefix) (list_pending_access_requests covenant_id db);
}

unfoldable pub handle_list_members : (Text → Text) → Headers → Option Text → Handler MembersReply
handle_list_members prefix h body = do
  covenant_id ← decode body
  refuse_if (covenant_id == empty) (message "covenant_id is required") bad_request
  validate_owner_token h.owner_token covenant_id
  query (members_reply prefix covenant_id)

unfoldable pub handle_get_concentration_status :
    Host → Headers → Option Text → Handler ConcentrationReport
handle_get_concentration_status host h body = do
  covenant_id ← decode body
  refuse_if (covenant_id == empty) (message "covenant_id is required") bad_request
  validate_owner_token h.owner_token covenant_id
  query (check_concentration host covenant_id)
