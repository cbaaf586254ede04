-- ===== src/Tests/Money.antt =====
-- The witnesses on the budget, the ledger, the settlement, the rate limit and the token formulas.
use acp_server.Base.{◌≡◌, refl, true, false, some, [], ◌∷◌, ◌==◌, ◌⊎◌, arith, ◌&&◌}
use acp_server.Base.Int.{ℤ, pos, ◌+ℤ◌, ◌-ℤ◌, ◌≤ℤ◌, ◌<ℤ◌, InRange64, sub64}
use acp_server.Base.Sql.{first, select, exists, sum_where}
use acp_server.Store.{Text, Db, Counter, LedgerRow, LedgerStatus, Error, ok, err, wrap, TokenRule}
use acp_server.Budget.{
  counter, check_and_reserve, record_spend, rebuild_from_audit_log, has_reservation, reservation,
  reserve_for, is_exhausted,
}
use acp_server.Budget.Room.{WithinLimit}
use acp_server.Budget.Gate.{check_and_reserve_iff, settled-WithinLimit, reserved_twice_overspends}
use acp_server.Budget.Rebuild.{gross, refunded, HasUniqueLogs, rebuild_accounts}
use acp_server.Tokens.{
  balance, confirm_contribution, total_by_agent, confirmed_of, delta_of, agents, insert_ledger,
}
use acp_server.Tokens.Balances.{IsFreshRow, confirm_contribution-balance}
use acp_server.Tokens.Totals.{Distinct, keys, sum_values, total_by_agent_conserves}
use acp_server.Tokens.Rules.{RuleVars, division_by_zero, eval_expr}
use acp_server.Tokens.Parse.{validate_formula, evaluate}
use acp_server.Tokens.Validated.{validated_evaluates}
use acp_server.Settlement.{output_for}
use acp_server.Settlement.Shares.{SumsFit, output_conserves, sum_ink}
use acp_server.RateLimit.{load_policy}
use acp_server.RateLimit.Ceiling.{calls, limit_of}
use acp_server.RateLimit.Hour.{run_calls, hour_ceiling}
use acp_server.Tests.Data.{host, draw_of, server, covenant, counter_row, event}

counter_found : counter 1 server ≡ some counter_row
unfolding first
counter_found = refl

in_range : InRange64 (pos 100 -ℤ pos 30)
unfolding ◌-ℤ◌
in_range = (omega arith, omega arith)

check_and_reserve_iff_example :
    ((check_and_reserve (draw_of 1) 1 (pos 80) server ≡ (
      ok 201,
      record server {
        budget_reservations = reservation (draw_of 1) 1 (pos 80) ∷ server.budget_reservations;
      },
    ))
      × ((pos 100 ≤ℤ pos 0) ⊎ (pos 30 +ℤ pos 80 ≤ℤ pos 100))
      × (has_reservation 201 server ≡ false))
    ⊎ ((e : Error) × (check_and_reserve (draw_of 1) 1 (pos 80) server ≡ (err e, server))
        × (((pos 0 <ℤ pos 100) × (pos 100 <ℤ pos 30 +ℤ pos 80))
            ⊎ (has_reservation 201 server ≡ true)))
check_and_reserve_iff_example =
    check_and_reserve_iff (draw_of 1) 1 (pos 80) server counter_row (omega arith) counter_found
      in_range

within : WithinLimit counter_row
within = (omega arith, λ h. omega arith)

passes : (check_and_reserve (draw_of 1) 1 (pos 50) server).0 ≡ ok 201
unfolding check_and_reserve reserve_for is_exhausted first exists sub64 ◌-ℤ◌
passes = refl

settled-WithinLimit_example :
    let db' =
      record_spend
        (draw_of 1)
        1
        (pos 50)
        201
        101
        (check_and_reserve (draw_of 1) 1 (pos 50) server).1 in
    (c : Counter) × (counter 1 db' ≡ some c) × WithinLimit c × (c.budget_spent ≡ pos 30 +ℤ pos 50)
settled-WithinLimit_example =
    settled-WithinLimit (draw_of 1) 1 (pos 50) server counter_row 201 101 (omega arith)
      counter_found within passes

reserved_twice_overspends_example :
    let (r, db1) = check_and_reserve (draw_of 1) 1 (pos 50) server in
    let (r', db2) = check_and_reserve (draw_of 2) 1 (pos 60) db1 in
    let db3 = record_spend (draw_of 1) 1 (pos 50) 201 101 db2 in
    let db4 = record_spend (draw_of 2) 1 (pos 60) 202 102 db3 in
    (r ≡ ok 201)
    × (r' ≡ ok 202)
    × (c : Counter) × (counter 1 db4 ≡ some c)
    × (c.budget_limit <ℤ c.budget_spent)
unfolding ◌+ℤ◌ exists
reserved_twice_overspends_example =
    reserved_twice_overspends (draw_of 1) (draw_of 2) 1 (pos 50) (pos 60) server counter_row 101 102
      (omega arith) (omega arith) counter_found in_range (omega arith) (omega arith) (omega arith)
      refl refl refl

abbrev taken_back : LedgerRow
taken_back = record {
  id = 1;
  covenant_id = 1;
  agent_id = 11;
  delta = pos 0;
  balance_after = pos 0;
  source_type = "api_call";
  source_ref = 0;
  log_id = 101;
  status = LedgerStatus.reversed;
}

-- Two runs that cost 10 each, the award of the first one reversed.
abbrev charged_server : Db
charged_server = record server {
  audit_logs = record event { log_id = 101 } ∷ record event { log_id = 102 } ∷ [];
  token_ledger = taken_back ∷ [];
}

unique : HasUniqueLogs charged_server.token_ledger
unfolding exists
unique = (refl, tt)

rebuild_accounts_example :
    let (r, db') = rebuild_from_audit_log (draw_of 1) 1 charged_server in
    (total : ℤ) × (r ≡ ok total)
    × (total +ℤ refunded 1 charged_server.token_ledger charged_server.audit_logs
        ≡ gross 1 charged_server.audit_logs)
    × (counter 1 db' ≡ some (record counter_row { budget_spent = total; updated_at = 1 }))
    × ((j : Text) → (1 == j) ≡ false → counter j db' ≡ counter j charged_server)
rebuild_accounts_example =
    rebuild_accounts (draw_of 1) 1 charged_server counter_row unique counter_found

fresh_row : IsFreshRow 301 101 server
unfolding exists
fresh_row = refl

confirm_contribution-balance_example :
    let (r, db') = confirm_contribution (draw_of 1) 1 11 101 701 (pos 40) server in
    (r ≡ ok tt)
    × (balance 1 11 db' ≡ pos 40 +ℤ balance 1 11 server)
    × ((j b : Text) → (j == 1 && b == 11) ≡ false → balance j b db' ≡ balance j b server)
    × (InRange64 (balance 1 11 server +ℤ pos 40)
        → (row : LedgerRow) × (first (λ r'. r'.log_id == 101) db'.token_ledger ≡ some row)
          × (row.balance_after ≡ balance 1 11 db'))
confirm_contribution-balance_example =
    confirm_contribution-balance (draw_of 1) 1 11 101 701 (pos 40) server fresh_row

-- The server after one award.
abbrev awarded : Db
awarded = (confirm_contribution (draw_of 1) 1 11 101 701 (pos 40) server).1

total_by_agent_conserves_example :
    Distinct (keys (total_by_agent 1 awarded))
    × (sum_values (total_by_agent 1 awarded)
        ≡ sum_where (confirmed_of 1) delta_of awarded.token_ledger)
total_by_agent_conserves_example = total_by_agent_conserves 1 awarded

abbrev rule : TokenRule
rule = record { tool_name = "propose_passage"; formula = 9; base_rate = 1; pending = false }

abbrev vars : RuleVars
vars = record { word_count = pos 12; acceptance_ratio = 1; tier_multiplier = 2; call_count = pos 1 }

dry_run : validate_formula host 9 ≡ ok 0
unfolding validate_formula eval_expr
dry_run = refl

validated_evaluates_example :
    ((n : ℤ) × (evaluate host rule vars ≡ ok n))
    ⊎ (evaluate host rule vars ≡ err (wrap "token rule %q: %w" division_by_zero))
validated_evaluates_example = validated_evaluates host rule vars 0 dry_run

fits : SumsFit (pos 0) (total_by_agent 1 awarded)
unfolding total_by_agent agents balance confirm_contribution insert_ledger select exists sum_where
    ◌+ℤ◌
fits = (omega arith, tt)

output_conserves_example :
    let out = output_for host (draw_of 2) covenant 102 103 (total_by_agent 1 awarded) in
    (out.total_tokens ≡ sum_where (confirmed_of 1) delta_of awarded.token_ledger)
    × (sum_ink out.distributions ≡ out.total_tokens)
output_conserves_example = output_conserves host (draw_of 2) covenant 102 103 awarded fits

limited : pos 0 <ℤ limit_of host 1 server
unfolding load_policy first
limited = omega arith

unused : calls 1 11 0 server.rate_limit_counters ≤ℤ limit_of host 1 server
unfolding load_policy first
unused = omega arith

hour_ceiling_example :
    let (m, db') =
      run_calls host 1 11 "propose_passage" (draw_of 1 ∷ draw_of 2 ∷ draw_of 3 ∷ []) 0 server in
    (calls 1 11 0 db'.rate_limit_counters ≡ calls 1 11 0 server.rate_limit_counters +ℤ pos m)
    × (calls 1 11 0 db'.rate_limit_counters ≤ℤ limit_of host 1 server)
    × ((m ≡ 3) ⊎ (calls 1 11 0 db'.rate_limit_counters ≡ limit_of host 1 server))
hour_ceiling_example =
    hour_ceiling host 1 11 "propose_passage" 0 (draw_of 1 ∷ draw_of 2 ∷ draw_of 3 ∷ []) server
      limited unused (refl, (refl, (refl, tt)))
