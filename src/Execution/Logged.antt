-- ===== src/Execution/Logged.antt =====
-- What one run of the engine leaves in the audit log.
use acp_server.Base.{String, ◌≡◌, refl, sym, ap, ◌∙◌, true, false, some, ◌∷◌, Bool-cases, inl, inr}
use acp_server.Base.Int.{ℤ}
use acp_server.Store.{
  Text, Db, Entry, Outcome, Host, Draw, Params, Error, Result, ok, err, eq_of_ok,
}
use acp_server.Audit.{log_event, new_row, hashed, numbered, has_log, last_row, rows}
use acp_server.Audit.Chain.{log_event-fresh, log_event-IsLogged, IsLogged}
use acp_server.Budget.{check_and_reserve, release_reservation}
use acp_server.Execution.{SideEffects, Context, Receipt, Tool}
use acp_server.Execution.Engine.{
  success_entry, rejection_entry, log_rejection, refuse, complete_effects, is_foreign,
  after_effects, after_log, after_calculation, after_logic, after_gate, after_check, after_rate,
  rate_gate, run_active, admit, run,
}
use acp_server.Execution.Frame.{
  release_reservation-log, record_spend-log, check_and_reserve-log, rate_gate-log,
}
use acp_server.Covenant.{covenant_row}
use acp_server.Covenant.Members.{is_active, member_row}

-- A tool whose methods leave the audit log to the engine.
pub record KeepsLog {R : Type 0} (tool : Tool R) : Type 0 where
  pub checked :
      (ctx : Context) (params : Params) (db : Db)
      → (tool.check_preconditions ctx params db).1.audit_logs ≡ db.audit_logs
  pub executed :
      (ctx : Context) (params : Params) (db : Db)
      → (tool.execute_logic ctx params db).1.audit_logs ≡ db.audit_logs
  pub applied :
      (ctx : Context) (e : Entry) (fx : SideEffects) (x : R) (params : Params) (db : Db)
      → (tool.apply_side_effects ctx e fx x params db).1.audit_logs ≡ db.audit_logs

new_row-same :
    (host : Host) (draw : Draw) (e : Entry) (db db' : Db)
    → db'.audit_logs ≡ db.audit_logs
    → new_row host draw e db' ≡ new_row host draw e db
unfolding last_row
new_row-same host draw e db db' same = rw same refl

-- Under a fresh log id an event is logged on any database with the same log.
log_event-same :
    (host : Host) (draw : Draw) (e : Entry) (db db' : Db)
    → has_log draw.log_id db ≡ false
    → db'.audit_logs ≡ db.audit_logs
    → ((log_event host draw e db').0 ≡ ok (new_row host draw e db))
      × ((log_event host draw e db').1.audit_logs ≡ new_row host draw e db ∷ db.audit_logs)
log_event-same host draw e db db' fresh same =
    let fresh' : has_log draw.log_id db' ≡ false = rw same fresh in
    rw (log_event-fresh host draw e db' fresh', new_row-same host draw e db db' same, same)
      (refl, refl)

module _ {R : Type 0} (host : Host) (draw : Draw) (session_id : Text) (tool : Tool R)
    (params : Params) (ctx : Context) where
  -- The row that a run has added to the log, and what it has told the caller of it.
  pub record IsLoggedOnce (db : Db) (r : Result Receipt) (db' : Db) : Type 0 where
    pub entry : Entry
    pub added : db'.audit_logs ≡ new_row host draw entry db ∷ db.audit_logs
    pub covenant : entry.covenant_id ≡ ctx.covenant.covenant_id
    pub agent : entry.agent_id ≡ ctx.member.agent_id
    pub before : entry.state_before ≡ ctx.covenant.state
    pub told :
        (x : Receipt)
        → r ≡ ok x
        → (entry.result ≡ Outcome.success)
          × (x.receipt_id ≡ draw.log_id)
          × (x.log_hash ≡ (new_row host draw entry db).hash)
          × (x.cost_delta ≡ entry.cost_delta)
          × (x.tokens_awarded ≡ entry.tokens_delta)

  module _ (db : Db) (fresh : has_log draw.log_id db ≡ false) (keeps : KeepsLog tool) where
    refuse-IsLoggedOnce :
        (step : String) (e : Error) (db' : Db)
        → db'.audit_logs ≡ db.audit_logs
        → let (r, db2) = refuse host draw session_id tool params ctx step e db' in
          IsLoggedOnce db r db2
    unfolding log_rejection
    refuse-IsLoggedOnce step e db' same = record {
      entry = rejection_entry host draw session_id tool params ctx e;
      added =
          (log_event-same host draw (rejection_entry host draw session_id tool params ctx e) db db'
            fresh same).1;
      covenant = refl;
      agent = refl;
      before = refl;
      told = λ x h. cc;
    }

    after_effects-IsLoggedOnce :
        (estimated : ℤ) (id : Text) (fx : SideEffects) (x : R) (r : Result R) (db' : Db)
        → let e = success_entry host draw session_id tool params ctx fx x in
          db'.audit_logs ≡ new_row host draw e db ∷ db.audit_logs
          → let (r', db2) =
              after_effects host draw session_id tool params ctx estimated id
                (new_row host draw e db)
                fx
                r
                db' in
            IsLoggedOnce db r' db2
    unfolding after_effects hashed numbered
    after_effects-IsLoggedOnce estimated id fx x (err e) db' same = record {
      entry = success_entry host draw session_id tool params ctx fx x;
      added = release_reservation-log id db' ∙ same;
      covenant = refl;
      agent = refl;
      before = refl;
      told = λ x h. cc;
    }
    after_effects-IsLoggedOnce estimated id fx x (ok y) db' same = record {
      entry = success_entry host draw session_id tool params ctx fx x;
      added = record_spend-log draw ctx.covenant.covenant_id estimated id _ db' ∙ same;
      covenant = refl;
      agent = refl;
      before = refl;
      told = λ z h.
          let e = sym (eq_of_ok h) in
          (
            refl,
            ap (λ q. q.receipt_id) e,
            ap (λ q. q.log_hash) e,
            ap (λ q. q.cost_delta) e,
            ap (λ q. q.tokens_awarded) e,
          );
    }

    after_calculation-IsLoggedOnce :
        (estimated : ℤ) (id : Text) (fx : SideEffects) (x : R) (db' : Db)
        → db'.audit_logs ≡ db.audit_logs
        → let (r, db2) =
            after_calculation host draw session_id tool params ctx estimated id fx x db' in
          IsLoggedOnce db r db2
    unfolding after_calculation after_log
    after_calculation-IsLoggedOnce estimated id fx x db' same =
        let e = success_entry host draw session_id tool params ctx fx x in
        elim (Bool-cases (is_foreign host draw session_id tool params ctx fx)) [
          | inl foreign ↦ rw foreign (
              refuse-IsLoggedOnce "step4: %w" _ (release_reservation id db')
                (release_reservation-log id db' ∙ same))
          | inr matching ↦
              let (logged, rows) = log_event-same host draw e db db' fresh same in
              let db1 = (log_event host draw e db').1 in
              let (r, db2) = tool.apply_side_effects ctx (new_row host draw e db) fx x params db1 in
              rw (matching, logged)
                (after_effects-IsLoggedOnce estimated id fx x r db2
                  (keeps.applied ctx (new_row host draw e db) fx x params db1 ∙ rows))
        ]

    after_logic-IsLoggedOnce :
        (estimated : ℤ) (id : Text) (r : Result R) (db' : Db)
        → db'.audit_logs ≡ db.audit_logs
        → let (r', db2) = after_logic host draw session_id tool params ctx estimated id r db' in
          IsLoggedOnce db r' db2
    unfolding after_logic
    after_logic-IsLoggedOnce estimated id (err e) db' same =
        refuse-IsLoggedOnce "step3: %w" e (release_reservation id db')
          (release_reservation-log id db' ∙ same)
    after_logic-IsLoggedOnce estimated id (ok x) db' same =
        let fx =
          complete_effects host draw session_id tool params ctx estimated
            (tool.calculate_side_effects ctx x params db') in
        after_calculation-IsLoggedOnce estimated id fx x db' same

    after_gate-IsLoggedOnce :
        (estimated : ℤ) (r : Result Text) (db' : Db)
        → db'.audit_logs ≡ db.audit_logs
        → let (r', db2) = after_gate host draw session_id tool params ctx estimated r db' in
          IsLoggedOnce db r' db2
    unfolding after_gate
    after_gate-IsLoggedOnce estimated (err e) db' same =
        refuse-IsLoggedOnce "step2.5: %w" e db' same
    after_gate-IsLoggedOnce estimated (ok id) db' same =
        let (r, db2) = tool.execute_logic ctx params db' in
        after_logic-IsLoggedOnce estimated id r db2 (keeps.executed ctx params db' ∙ same)

    after_check-IsLoggedOnce :
        (r : Result (Unit {0})) (db' : Db)
        → db'.audit_logs ≡ db.audit_logs
        → let (r', db2) = after_check host draw session_id tool params ctx r db' in
          IsLoggedOnce db r' db2
    unfolding after_check
    after_check-IsLoggedOnce (err e) db' same = refuse-IsLoggedOnce "step2: %w" e db' same
    after_check-IsLoggedOnce (ok u) db' same =
        let estimated = tool.estimate_cost ctx params in
        let (r, db2) = check_and_reserve draw ctx.covenant.covenant_id estimated db' in
        after_gate-IsLoggedOnce estimated r db2
          (check_and_reserve-log draw ctx.covenant.covenant_id estimated db' ∙ same)

    after_rate-IsLoggedOnce :
        (r : Result (Unit {0})) (db' : Db)
        → db'.audit_logs ≡ db.audit_logs
        → let (r', db2) = after_rate host draw session_id tool params ctx r db' in
          IsLoggedOnce db r' db2
    unfolding after_rate
    after_rate-IsLoggedOnce (err e) db' same = refuse-IsLoggedOnce "step1.5: %w" e db' same
    after_rate-IsLoggedOnce (ok u) db' same =
        let (r, db2) = tool.check_preconditions ctx params db' in
        after_check-IsLoggedOnce r db2 (keeps.checked ctx params db' ∙ same)

    pub run_active-IsLoggedOnce :
        let (r, db') = run_active host draw session_id tool params ctx db in IsLoggedOnce db r db'
    unfolding run_active
    run_active-IsLoggedOnce =
        let (r, db') = rate_gate host draw session_id tool params ctx db in
        after_rate-IsLoggedOnce r db' (rate_gate-log host draw session_id tool params ctx db)

IsLogged-same :
    (host : Host) (db db' : Db)
    → db'.audit_logs ≡ db.audit_logs
    → IsLogged host db
    → IsLogged host db'
IsLogged-same host db db' same h k = rw same (h k)

-- A run by an active member adds exactly one row to the log, whatever it comes to: a row of the
-- covenant, the agent and the covenant's state, behind the last row of its chain. A receipt is only
-- given out for a row of a success, and carries that row's id, hash, cost and tokens. The chains of
-- all covenants stay whole. The log id is fresh, and the tool leaves the log to the engine.
pub run_logs_once :
    {R : Type 0} (host : Host) (draw : Draw) (session_id : Text) (tool : Tool R) (params : Params)
    (k a : Text) (db : Db) (ctx : Context)
    → covenant_row k db ≡ some ctx.covenant
    → member_row k a db ≡ some ctx.member
    → is_active ctx.member.status ≡ true
    → has_log draw.log_id db ≡ false
    → KeepsLog tool
    → let (r, db') = run host draw session_id tool params k a db in
      IsLoggedOnce host draw session_id tool params ctx db r db'
      × (IsLogged host db → IsLogged host db')
unfolding run admit
run_logs_once host draw session_id tool params k a db ctx cov mem live fresh keeps =
    let once = run_active-IsLoggedOnce host draw session_id tool params ctx db fresh keeps in
    let (r, db') = run_active host draw session_id tool params ctx db in
    rw (cov, mem, live)
      (
        once,
        λ h.
            IsLogged-same host (log_event host draw once.entry db).1 db'
              (once.added ∙ sym (log_event-same host draw once.entry db db fresh refl).1)
              (log_event-IsLogged host draw once.entry db h),
      )
