-- ===== src/Settlement.antt =====
-- internal/settlement/settlement.go: the shares of the contributor pool.
pub mod Shares
use acp_server.Base.{
  ℕ, Bool, true, false, ◌||◌, not, Option, none, some, List, [], ◌∷◌, ◌==◌, if◌then◌else◌,
}
use acp_server.Base.Int.{ℤ, pos, add64, ltb_ℤ}
use acp_server.Base.Sql.{first, exists}
use acp_server.Store.{
  Text, Float, Db, Covenant, State, ◌is◌, Distribution, SettlementOutput, OutputStatus, Host,
  Floats, Draw, Value, Error, errorf, unique_violation, no_rows, wrap, Exec, ok, err, pure,
  raise_if, modify, gets, or_raise, ◌>>=◌, ◌>>◌,
}
use acp_server.Tokens.{total_by_agent}

-- The sum of the balances as a Go int.
unfoldable pub total_from : ℤ → List (Text × ℤ) → ℤ
total_from acc [] = acc
total_from acc ((a, n) ∷ rest) = total_from (add64 acc n) rest

abbrev pub share_of_pool : Floats → ℤ → ℤ → Float
share_of_pool f total n =
    if ltb_ℤ (pos 0) total then f.div (f.of_int n) (f.of_int total) else f.of_int (pos 0)

abbrev pub distribution : Floats → Float → ℤ → Text × ℤ → Distribution
distribution f pool_pct total (a, n) = record {
  agent_id = a;
  ink_tokens = n;
  share_of_pool = share_of_pool f total n;
  final_share_pct = f.mul (share_of_pool f total n) pool_pct;
}

unfoldable pub distribute : Floats → Float → ℤ → List (Text × ℤ) → List Distribution
distribute f pool_pct total [] = []
distribute f pool_pct total (b ∷ rest) =
    distribution f pool_pct total b ∷ distribute f pool_pct total rest

abbrev pub can_settle : State → Bool
can_settle s = s is State.locked || s is State.active

unfoldable pub output_for :
    Host → Draw → Covenant → Text → Text → List (Text × ℤ) → SettlementOutput
unfolding total_from distribute
output_for host draw cov log_id log_hash balances = record {
  output_id = draw.output_id;
  covenant_id = cov.covenant_id;
  trigger_log_id = log_id;
  trigger_log_hash = log_hash;
  total_tokens = total_from (pos 0) balances;
  owner_share_pct = cov.owner_share_pct;
  platform_share_pct = cov.platform_share_pct;
  contributor_pool_pct = cov.contributor_pool_pct;
  distributions =
      distribute host.floats cov.contributor_pool_pct (total_from (pos 0) balances) balances;
  generated_at = draw.now;
  status = OutputStatus.pending_confirmation;
  confirmed_at = none;
}

unfoldable pub generate : Host → Draw → Text → Text → Text → Exec SettlementOutput
generate host draw covenant_id log_id log_hash = do
  found ← gets (λ db. first (λ c. c.covenant_id == covenant_id) db.covenants)
  cov ← or_raise found (wrap "covenant %q: %w" no_rows)
  raise_if (not (can_settle cov.state))
      (errorf "settlement requires LOCKED or ACTIVE state, got %s" (Value.state cov.state ∷ []))
  out ← gets (λ db. output_for host draw cov log_id log_hash (total_by_agent covenant_id db))
  taken ← gets (λ db. exists (λ o. o.output_id == draw.output_id) db.settlement_outputs)
  raise_if taken (wrap "save settlement: %w" (unique_violation "settlement_outputs.output_id"))
  modify (λ db. record db { settlement_outputs = out ∷ db.settlement_outputs })
  pure out
