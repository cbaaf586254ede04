-- ===== src/Settlement/Shares.antt =====
-- The totals of internal/settlement/settlement.go against the ledger.
use acp_server.Base.{◌≡◌, refl, sym, ap, ◌∙◌, List, [], ◌∷◌}
use acp_server.Base.Int.{
  ℤ, pos, ◌+ℤ◌, add64, InRange64, wrap64-InRange64, +ℤ_assoc, zero-+ℤ, +ℤ-zero,
}
use acp_server.Base.Sql.{sum_where}
use acp_server.Store.{Text, Db, Covenant, Distribution, Host, Floats, Float, Draw}
use acp_server.Tokens.{total_by_agent, confirmed_of, delta_of}
use acp_server.Tokens.Totals.{sum_values, total_by_agent_conserves}
use acp_server.Settlement.{total_from, distribute, output_for}

-- No sum along the way leaves the range of a Go int.
abbrev pub SumsFit : ℤ → List (Text × ℤ) → Type 0
SumsFit acc [] = Unit
SumsFit acc ((a, n) ∷ rest) = InRange64 (acc +ℤ n) × SumsFit (acc +ℤ n) rest

total_from-eq-sum :
    (acc : ℤ) (bs : List (Text × ℤ)) → SumsFit acc bs → total_from acc bs ≡ acc +ℤ sum_values bs
unfolding total_from add64
total_from-eq-sum acc [] h = sym (+ℤ-zero acc)
total_from-eq-sum acc ((a, n) ∷ rest) h =
    rw (wrap64-InRange64 (acc +ℤ n) h.0)
      (total_from-eq-sum (acc +ℤ n) rest h.1 ∙ +ℤ_assoc acc n (sum_values rest))

-- The ink tokens of the lines of a settlement.
abbrev pub sum_ink : List Distribution → ℤ
sum_ink [] = pos 0
sum_ink (d ∷ ds) = d.ink_tokens +ℤ sum_ink ds

sum_ink-distribute :
    (f : Floats) (pool : Float) (total : ℤ) (bs : List (Text × ℤ))
    → sum_ink (distribute f pool total bs) ≡ sum_values bs
unfolding distribute
sum_ink-distribute f pool total [] = refl
sum_ink-distribute f pool total ((a, n) ∷ rest) =
    ap (λ m. n +ℤ m) (sum_ink-distribute f pool total rest)

-- A settlement whose sums fit a Go int pays out the ledger: its total is the sum of all confirmed
-- rows of the covenant, and the ink tokens of its lines add up to that total.
pub output_conserves :
    (host : Host) (draw : Draw) (cov : Covenant) (log_id log_hash : Text) (db : Db)
    → SumsFit (pos 0) (total_by_agent cov.covenant_id db)
    → let out = output_for host draw cov log_id log_hash (total_by_agent cov.covenant_id db) in
      (out.total_tokens ≡ sum_where (confirmed_of cov.covenant_id) delta_of db.token_ledger)
      × (sum_ink out.distributions ≡ out.total_tokens)
unfolding output_for
output_conserves host draw cov log_id log_hash db fits =
    let bs = total_by_agent cov.covenant_id db in
    let total = total_from-eq-sum (pos 0) bs fits ∙ zero-+ℤ (sum_values bs) in
    (
      total ∙ (total_by_agent_conserves cov.covenant_id db).1,
      sum_ink-distribute host.floats cov.contributor_pool_pct (total_from (pos 0) bs) bs
          ∙ sym total,
    )
