-- ===== src/Tokens/Snapshots.antt =====
-- internal/tokens/snapshot.go: the hashed snapshot of the ledger at the transition to LOCKED.
use acp_server.Base.{
  ℕ, suc, Bool, true, false, ◌&&◌, Option, none, some, List, [], ◌∷◌, ◌++◌, map, ◌==◌,
  if◌then◌else◌,
}
use acp_server.Base.Int.{ℤ, pos, eqb_ℤ}
use acp_server.Base.Sql.{select, exists, sum_where}
use acp_server.Store.{
  Text, Db, Host, Draw, Outcome, Member, LedgerRow, Snapshot, Exec, wrap, unique_violation, pure,
  gets, modify, raise_if, ◌>>=◌, ◌>>◌,
}
use acp_server.Tokens.{is_confirmed}

abbrev pub is_success : Outcome → Bool
is_success Outcome.success = true
is_success Outcome.rejected = false

-- The inner query: SUM(cost_delta) over the successful rows of an agent.
unfoldable pub logged_cost : Text → Text → Db → ℤ
logged_cost covenant_id agent_id db =
    sum_where (λ a. a.covenant_id == covenant_id && (a.agent_id == agent_id && is_success a.result))
      (λ a. a.cost_delta) db.audit_logs

-- A row of the LEFT JOIN: the agent of the member, and its row of the ledger or NULL.
pub record JoinedRow : Type 0 where
  pub agent_id : Text
  pub entry : Option LedgerRow

abbrev pub is_entry_of : Member → LedgerRow → Bool
is_entry_of m l = l.covenant_id == m.covenant_id && l.agent_id == m.agent_id

abbrev pub joined_row : Text → LedgerRow → JoinedRow
joined_row a l = record { agent_id = a; entry = some l }

abbrev pub or_null : Text → List JoinedRow → List JoinedRow
or_null a [] = record { agent_id = a; entry = none } ∷ []
or_null a (r ∷ rows) = r ∷ rows

unfoldable pub left_join : List LedgerRow → List Member → List JoinedRow
left_join ledger [] = []
left_join ledger (m ∷ ms) =
    or_null m.agent_id (map (joined_row m.agent_id) (select (is_entry_of m) ledger))
    ++ left_join ledger ms

-- GROUP BY m.agent_id
unfoldable pub group_keys : List JoinedRow → List Text
group_keys [] = []
group_keys (r ∷ rows) =
    let rest = group_keys rows in
    if exists (λ a. a == r.agent_id) rest then rest else r.agent_id ∷ rest

-- CASE WHEN l.status='confirmed' THEN l.delta ELSE 0 END
abbrev pub confirmed_delta : Option LedgerRow → ℤ
confirmed_delta none = pos 0
confirmed_delta (some l) = if is_confirmed l.status then l.delta else pos 0

abbrev pub in_group : Text → JoinedRow → Bool
in_group a r = r.agent_id == a

abbrev pub delta_in : JoinedRow → ℤ
delta_in r = confirmed_delta r.entry

-- A row of the query.
pub record Tally : Type 0 where
  pub agent_id : Text
  pub tokens : ℤ
  pub cost : ℤ

abbrev pub tally_of : Text → Db → List JoinedRow → Text → Tally
tally_of covenant_id db rows a = record {
  agent_id = a;
  tokens = sum_where (in_group a) delta_in rows;
  cost = logged_cost covenant_id a db;
}

abbrev pub members_of : Text → Db → List Member
members_of covenant_id db = select (λ m. m.covenant_id == covenant_id) db.covenant_members

abbrev pub joined : Text → Db → List JoinedRow
joined covenant_id db = left_join db.token_ledger (members_of covenant_id db)

unfoldable pub tallies : Text → Db → List Tally
tallies covenant_id db =
    map (tally_of covenant_id db (joined covenant_id db)) (group_keys (joined covenant_id db))

abbrev pub snapshot_of : Host → Draw → ℕ → Text → Tally → Snapshot
snapshot_of host draw n covenant_id t = record {
  id = draw.snapshot_id n;
  covenant_id = covenant_id;
  agent_id = t.agent_id;
  agent_tokens = t.tokens;
  cost_tokens = t.cost;
  snapped_at = draw.now;
  snapshot_hash = host.hash_snapshot covenant_id t.agent_id t.tokens t.cost draw.now;
}

abbrev pub has_snapshot : Text → Db → Bool
has_snapshot id db = exists (λ s. s.id == id) db.token_snapshots

unfoldable pub insert_snapshot : Snapshot → Exec (Unit {0})
insert_snapshot s = do
  taken ← gets (has_snapshot s.id)
  raise_if taken (wrap "snapshot insert: %w" (unique_violation "token_snapshots.id"))
  modify (λ db. record db { token_snapshots = s ∷ db.token_snapshots })

abbrev pub is_blank : Tally → Bool
is_blank t = eqb_ℤ t.tokens (pos 0) && eqb_ℤ t.cost (pos 0)

-- The loop over the rows of the query; a row with neither tokens nor cost is skipped. What was
-- inserted before an error stays.
unfoldable pub insert_snapshots : Host → Draw → Text → ℕ → List Tally → Exec (List Snapshot)
insert_snapshots host draw covenant_id n [] = pure []
insert_snapshots host draw covenant_id n (t ∷ ts) =
    let rest = insert_snapshots host draw covenant_id (suc n) ts in
    if is_blank t then rest else (do
      insert_snapshot (snapshot_of host draw n covenant_id t)
      out ← rest
      pure (snapshot_of host draw n covenant_id t ∷ out))

unfoldable pub capture_snapshot : Host → Draw → Text → Exec (List Snapshot)
capture_snapshot host draw covenant_id db =
    insert_snapshots host draw covenant_id 0 (tallies covenant_id db) db

unfoldable pub verify_snapshot : Host → Snapshot → Bool
verify_snapshot host s =
    host.hash_snapshot s.covenant_id s.agent_id s.agent_tokens s.cost_tokens s.snapped_at
    == s.snapshot_hash
