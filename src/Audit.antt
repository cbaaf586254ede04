-- ===== src/Audit.antt =====
-- internal/audit/audit.go: the append-only, hash-chained log of each covenant. The proofs are in the
-- modules below.
pub mod Chain
pub mod Verify
pub mod Tamper
use acp_server.Base.{
  ℕ, suc, String, Bool, true, false, Option, none, some, List, [], ◌∷◌, ◌++◌, ◌==◌, str_eq,
  if◌then◌else◌, is_none, not,
}
use acp_server.Base.Int.{ℤ}
use acp_server.Base.Sql.{select, exists, order_by, last_by}
use acp_server.Store.{
  Text, empty, Entry, Db, Host, Component, Draw, Exec, Error, Outcome, SpecVersion, unset, acr_2_0,
  acr_2_1, acr_2_2, other_version, unique_violation, wrap, pure, raise_if, modify, transaction,
  ◌>>=◌, ◌>>◌, gets,
}

abbrev pub of_covenant : Text → Entry → Bool
of_covenant covenant_id e = e.covenant_id == covenant_id

-- The rows of one covenant, the newest first.
abbrev pub rows : Text → Db → List Entry
rows covenant_id db = select (of_covenant covenant_id) db.audit_logs

abbrev cost_component : SpecVersion → ℤ → Component
cost_component acr_2_0 cost = Component.int_decimal8 cost
cost_component _ cost = Component.int cost

abbrev currency_component : SpecVersion → String → List Component
currency_component acr_2_2 currency = Component.name currency ∷ []
currency_component _ currency = []

abbrev version_number : SpecVersion → ℕ
version_number unset = 0
version_number acr_2_0 = 1
version_number acr_2_1 = 2
version_number acr_2_2 = 3
version_number (other_version n) = suc (suc (suc (suc n)))

abbrev is_success : Outcome → Bool
is_success Outcome.success = true
is_success Outcome.rejected = false

-- The payload of `computeHash`, before it is joined and hashed.
unfoldable pub hash_components : Entry → List Component
hash_components e =
    (if e.prev_log_id == empty then Component.genesis else Component.text e.prev_log_id)
    ∷ Component.text e.log_id
    ∷ Component.text e.covenant_id
    ∷ Component.number e.sequence
    ∷ Component.text e.agent_id
    ∷ Component.name e.tool_name
    ∷ Component.outcome (is_success e.result)
    ∷ Component.int e.tokens_delta
    ∷ cost_component e.spec_version e.cost_delta
    ∷ (currency_component e.spec_version e.cost_currency
        ++ (Component.decimal8 e.net_delta
            ∷ Component.state e.state_after
            ∷ Component.time e.timestamp
            ∷ Component.text e.params_hash
            ∷ Component.version (version_number e.spec_version)
            ∷ []))

unfoldable pub compute_hash : Host → Entry → Text
compute_hash host e = host.hash_entry (hash_components e)

abbrev pub next_sequence : Option Entry → ℕ
next_sequence none = 1
next_sequence (some e) = suc e.sequence

abbrev pub previous_id : Option Entry → Text
previous_id none = empty
previous_id (some e) = e.log_id

abbrev or_current : SpecVersion → SpecVersion
or_current unset = acr_2_2
or_current v = v

-- The row that `LogEvent` writes behind the last row of the covenant, before its hash is set.
unfoldable pub numbered : Host → Draw → Option Entry → Entry → Entry
numbered host draw last e = record e {
  log_id = draw.log_id;
  sequence = next_sequence last;
  prev_log_id = previous_id last;
  timestamp = (if e.timestamp == 0 then draw.now else e.timestamp);
  spec_version = or_current e.spec_version;
  cost_currency = (if str_eq e.cost_currency "" then "USD" else e.cost_currency);
  params_hash = host.hash_preview e.params_preview;
}

unfoldable pub hashed : Host → Entry → Entry
hashed host e = record e { hash = compute_hash host e }

abbrev pub has_log : Text → Db → Bool
has_log log_id db = exists (λ r. r.log_id == log_id) db.audit_logs

-- INSERT INTO audit_logs, whose primary key is the log id.
unfoldable pub insert_entry : Entry → Exec (Unit {0})
insert_entry e = do
  taken ← gets (has_log e.log_id)
  raise_if taken (wrap "insert audit log: %w" (unique_violation "audit_logs.log_id"))
  modify (λ db. record db { audit_logs = e ∷ db.audit_logs })

-- The last row of the covenant: ORDER BY sequence DESC LIMIT 1.
unfoldable pub last_row : Text → Db → Option Entry
last_row covenant_id db = last_by (λ r. r.sequence) (rows covenant_id db)

abbrev pub new_row : Host → Draw → Entry → Db → Entry
new_row host draw e db = hashed host (numbered host draw (last_row e.covenant_id db) e)

unfoldable pub append_row : Entry → Exec Entry
unfolding insert_entry
append_row row = transaction do insert_entry row; pure row

unfoldable pub log_event : Host → Draw → Entry → Exec Entry
log_event host draw e db = append_row (new_row host draw e db) db

pub data Violation : Type 0 where
  prev_log_id_mismatch hash_mismatch : ℕ → Violation

abbrev pub link_violations : Text → Entry → List Violation
link_violations prev e = if e.prev_log_id == prev then [] else prev_log_id_mismatch e.sequence ∷ []

abbrev pub hash_violations : Host → Entry → List Violation
hash_violations host e = if compute_hash host e == e.hash then [] else hash_mismatch e.sequence ∷ []

-- The loop of `VerifyChain` over the rows in order of their sequence.
unfoldable pub verify_rows : Host → Text → List Entry → List Violation
verify_rows host prev [] = []
verify_rows host prev (e ∷ es) =
    link_violations prev e ++ (hash_violations host e ++ verify_rows host e.log_id es)

abbrev pub no_violation : List Violation → Bool
no_violation [] = true
no_violation (v ∷ vs) = false

unfoldable pub verify_chain : Host → Text → Db → Bool × List Violation
verify_chain host covenant_id db =
    let violations = verify_rows host empty (order_by (λ r. r.sequence) (rows covenant_id db)) in
    (no_violation violations, violations)
