-- ===== src/Tokens/Captured.antt =====
-- What CaptureSnapshot of internal/tokens/snapshot.go writes.
use acp_server.Base.{
  ℕ, suc, ◌≡◌, ◌<◌, ◌≤◌, Bool, true, false, ◌&&◌, List, [], ◌∷◌, map, ◌==◌, if◌then◌else◌, All,
}
use acp_server.Base.Int.{ℤ, pos, ◌+ℤ◌, eqb_ℤ}
use acp_server.Base.Sql.{exists}
use acp_server.Store.{Text, Db, Host, Draw, Entry, Member, Snapshot, Error, wrap, unique_violation}
use acp_server.Budget.Rebuild.{cost_of}
use acp_server.Tokens.{balance}
use acp_server.Tokens.Totals.{Distinct}
use acp_server.Tokens.Joined.{has_agent}
use acp_server.Tokens.Snapshots.{
  Tally, members_of, snapshot_of, has_snapshot, is_blank, verify_snapshot,
}

-- What the runs of an agent that succeeded have cost.
pub spent : Text → Text → List Entry → ℤ
spent k a [] = pos 0
spent k a (e ∷ es) =
    (if e.covenant_id == k && e.agent_id == a then cost_of e.result e.cost_delta else pos 0)
    +ℤ spent k a es

-- A snapshot of an agent of the covenant that verifies, and carries the agent's balance and what its
-- runs have cost, not both of them zero.
pub record IsFaithful (host : Host) (covenant_id : Text) (db : Db) (s : Snapshot) : Type 0 where
  pub verifies : verify_snapshot host s ≡ true
  pub of_covenant : s.covenant_id ≡ covenant_id
  pub of_member : has_agent s.agent_id (members_of covenant_id db) ≡ true
  pub tokens : s.agent_tokens ≡ balance covenant_id s.agent_id db
  pub cost : s.cost_tokens ≡ spent covenant_id s.agent_id db.audit_logs
  pub kept : (eqb_ℤ s.agent_tokens (pos 0) && eqb_ℤ s.cost_tokens (pos 0)) ≡ false

-- The snapshots of a covenant: faithful, one for an agent at most, and one for every agent that has
-- tokens or cost.
pub record IsCapture (host : Host) (covenant_id : Text) (db : Db) (taken : List Snapshot)
    : Type 0 where
  pub faithful : All (IsFaithful host covenant_id db) taken
  pub once : Distinct (map (λ s. s.agent_id) taken)
  pub complete :
      (a : Text)
      → has_agent a (members_of covenant_id db) ≡ true
      → (eqb_ℤ (balance covenant_id a db) (pos 0)
          && eqb_ℤ (spent covenant_id a db.audit_logs) (pos 0))
        ≡ false
      → exists (λ s. s.agent_id == a) taken ≡ true

-- Rows in front of a table, the last one foremost.
abbrev pub onto : List Snapshot → List Snapshot → List Snapshot
onto [] table = table
onto (s ∷ taken) table = onto taken (s ∷ table)

-- The identifiers that a capture draws are neither in the table nor drawn twice.
abbrev pub HasFreshIds : Draw → ℕ → Db → Type 0
HasFreshIds draw n db =
    ((i : ℕ) → n ≤ i → has_snapshot (draw.snapshot_id i) db ≡ false)
    × ((i j : ℕ) → i < j → (draw.snapshot_id i == draw.snapshot_id j) ≡ false)

abbrev taken_id : Error
taken_id = wrap "snapshot insert: %w" (unique_violation "token_snapshots.id")

abbrev agent_is : Text → Snapshot → Bool
agent_is a s = s.agent_id == a

abbrev tally_is : Text → Tally → Bool
tally_is a t = t.agent_id == a

agents_of : List Tally → List Text
agents_of ts = map (λ t. t.agent_id) ts

module _ (host : Host) (draw : Draw) (k : Text) where
  made : ℕ → List Tally → List Snapshot
  made n [] = []
  made n (t ∷ ts) =
      let rest = made (suc n) ts in if is_blank t then rest else snapshot_of host draw n k t ∷ rest

  module _ (db : Db) (once : Distinct (map (λ m. m.agent_id) (members_of k db))) where
    abbrev ms : List Member
    ms = members_of k db
