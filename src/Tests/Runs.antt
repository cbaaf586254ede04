-- ===== src/Tests/Runs.antt =====
-- The witnesses on the engine and its tools.
use acp_server.Base.{◌≡◌, refl, true, false, some, [], ◌∷◌, arith}
use acp_server.Base.Int.{pos}
use acp_server.Base.Sql.{first, exists, select}
use acp_server.Store.{Counter, Params, Value, Preview, ok, err}
use acp_server.Audit.{has_log}
use acp_server.Audit.Chain.{IsLogged}
use acp_server.Budget.{counter}
use acp_server.Budget.Room.{WithinLimit}
use acp_server.Covenant.{covenant_row}
use acp_server.Covenant.Members.{member_row}
use acp_server.Execution.{Context, Receipt}
use acp_server.Execution.Engine.{run, forbidden}
use acp_server.Execution.Policy.{is_shown, apply_params_policy, default_params_policy}
use acp_server.Execution.Preview.{All2, IsHidden, key_of, preview_hides}
use acp_server.Execution.Logged.{IsLoggedOnce, run_logs_once}
use acp_server.Execution.Spending.{IsSettled, run_charges}
use acp_server.Tools.ProposePassage.{
  propose_passage, propose_passage-KeepsLog, propose_passage-KeepsBudget,
}
use acp_server.Tools.LeaveCovenant.{leave_covenant, leave_is_final}
use acp_server.Tests.Data.{host, draw_of, server, covenant, guest, counter_row}

abbrev context : Context
context = record { covenant = covenant; member = guest }

abbrev words : Params
words = ("unit_count", Value.int (pos 120)) ∷ ("content", Value.text 77) ∷ []

covenant_known : covenant_row 1 server ≡ some covenant
unfolding first
covenant_known = refl

guest_known : member_row 1 11 server ≡ some guest
unfolding first
guest_known = refl

fresh_log : has_log 101 server ≡ false
unfolding exists
fresh_log = refl

run_logs_once_example :
    let (r, db') = run host (draw_of 1) 0 (propose_passage host (draw_of 1)) words 1 11 server in
    IsLoggedOnce host (draw_of 1) 0 (propose_passage host (draw_of 1)) words context server r db'
    × (IsLogged host server → IsLogged host db')
run_logs_once_example =
    run_logs_once host (draw_of 1) 0 (propose_passage host (draw_of 1)) words 1 11 server context
      covenant_known guest_known refl fresh_log (propose_passage-KeepsLog host (draw_of 1))

counter_known : counter 1 server ≡ some counter_row
unfolding first
counter_known = refl

within : WithinLimit counter_row
within = (omega arith, λ h. omega arith)

run_charges_example :
    let (r, db') = run host (draw_of 1) 0 (propose_passage host (draw_of 1)) words 1 11 server in
    (c' : Counter) × (counter 1 db' ≡ some c')
    × WithinLimit c'
    × IsSettled ((propose_passage host (draw_of 1)).estimate_cost context words) counter_row r c'
run_charges_example =
    run_charges host (draw_of 1) 0 (propose_passage host (draw_of 1)) words 1 11 server context
      counter_row covenant_known guest_known refl (propose_passage-KeepsBudget host (draw_of 1))
      counter_known within

preview_hides_example :
    (default_params_policy.store_hash_only ≡ false
      → All2
          (IsHidden host default_params_policy)
          (select (λ x. is_shown default_params_policy (key_of x)) words)
          (apply_params_policy host words default_params_policy))
    × (default_params_policy.store_hash_only ≡ true
        → apply_params_policy host words default_params_policy
          ≡ ("params_hash", Preview.params_hash (host.hash_params words)) ∷ [])
preview_hides_example = preview_hides host default_params_policy words

leave_is_final_example :
    let (r, db') = run host (draw_of 1) 0 (leave_covenant host) words 1 11 server in
    ((x : Receipt) × (r ≡ ok x))
    × (run host (draw_of 2) 0 (propose_passage host (draw_of 2)) words 1 11 db'
        ≡ (err (forbidden host (draw_of 2) 0 (propose_passage host (draw_of 2)) words), db'))
leave_is_final_example =
    leave_is_final host (draw_of 1) (draw_of 2) 0 0 words words (propose_passage host (draw_of 2)) 1
      11 server context covenant_known guest_known refl refl fresh_log
