-- ===== src/Execution/Charges.antt =====
-- What one run of the engine charges to the budget of its covenant.
use acp_server.Base.{
  String, ◌≡◌, refl, ap, ◌∙◌, true, false, Option, none, some, List, ◌==◌, Bool-cases, inl, inr,
  ◌⊎◌, arith, str_eq, if◌then◌else◌,
}
use acp_server.Base.Int.{ℤ, pos, ◌+ℤ◌, ◌≤ℤ◌, leb_ℤ}
use acp_server.Base.Sql.{update_where}
use acp_server.Store.{
  Text, Db, Entry, Counter, Host, Draw, Params, Error, Result, ok, err, Result-cases,
}
use acp_server.Audit.{log_event, has_log}
use acp_server.Audit.Chain.{log_event-fresh, log_event-taken}
use acp_server.Budget.{counts, counter, spend, check_and_reserve, release_reservation, record_spend}
use acp_server.Budget.Room.{WithinLimit}
use acp_server.Budget.Gate.{passed-HasRoom, counters-check_and_reserve}
use acp_server.RateLimit.{
  check_and_increment, after_increment, load_policy, increment, current_window,
}
use acp_server.Execution.{SideEffects, Context, Receipt, Tool}
use acp_server.Execution.Engine.{
  success_entry, rejection_entry, log_rejection, refuse, complete_effects, is_foreign,
  after_effects, after_log, after_calculation, after_logic, after_gate, after_check, after_rate,
  rate_gate, run_active,
}

-- A tool whose methods leave the budget to the engine.
pub record KeepsBudget {R : Type 0} (tool : Tool R) : Type 0 where
  pub checked :
      (ctx : Context) (params : Params) (db : Db)
      → (tool.check_preconditions ctx params db).1.budget_counters ≡ db.budget_counters
  pub executed :
      (ctx : Context) (params : Params) (db : Db)
      → (tool.execute_logic ctx params db).1.budget_counters ≡ db.budget_counters
  pub applied :
      (ctx : Context) (e : Entry) (fx : SideEffects) (x : R) (params : Params) (db : Db)
      → (tool.apply_side_effects ctx e fx x params db).1.budget_counters ≡ db.budget_counters

-- The counters after a run that came to a result: one that succeeds adds a positive estimate.
abbrev pub charge : Draw → Text → ℤ → List Counter → List Counter
charge draw k estimated cs =
    if leb_ℤ estimated (pos 0) then cs else update_where (counts k) (spend draw.now estimated) cs

abbrev pub charged : Draw → Text → ℤ → Result Receipt → List Counter → List Counter
charged draw k estimated (ok x) cs = charge draw k estimated cs
charged draw k estimated (err e) cs = cs

release_reservation-counters :
    (id : Text) (db : Db) → (release_reservation id db).budget_counters ≡ db.budget_counters
unfolding release_reservation
release_reservation-counters id db = elim (Bool-cases (id == 0)) [
  | inl blank ↦ rw blank refl
  | inr one ↦ rw one refl
]

record_spend-counters :
    (draw : Draw) (k : Text) (cost : ℤ) (id log_id : Text) (db : Db)
    → (record_spend draw k cost id log_id db).budget_counters
      ≡ charge draw k cost db.budget_counters
unfolding record_spend
record_spend-counters draw k cost id log_id db = elim (Bool-cases (leb_ℤ cost (pos 0))) [
  | inl free ↦ rw free refl
  | inr due ↦ rw due refl
]

log_event-counters :
    (host : Host) (draw : Draw) (e : Entry) (db : Db)
    → (log_event host draw e db).1.budget_counters ≡ db.budget_counters
log_event-counters host draw e db = elim (Bool-cases (has_log draw.log_id db)) [
  | inl taken ↦ rw (log_event-taken host draw e db taken) refl
  | inr fresh ↦ rw (log_event-fresh host draw e db fresh) refl
]

after_increment-counters :
    (draw : Draw) (limit : ℤ) (w : _) (r : _) (db : Db)
    → (after_increment draw limit w r db).1.budget_counters ≡ db.budget_counters
after_increment-counters draw limit w (true, cs) db = refl
after_increment-counters draw limit w (false, cs) db = refl

module _ {R : Type 0} (host : Host) (draw : Draw) (session_id : Text) (tool : Tool R)
    (params : Params) (ctx : Context) where
  rate_gate-counters :
      (db : Db)
      → (rate_gate host draw session_id tool params ctx db).1.budget_counters ≡ db.budget_counters
  unfolding rate_gate check_and_increment
  rate_gate-counters db =
      let k = ctx.covenant.covenant_id in
      let limit = (load_policy host k db).rate_limit_per_hour in
      elim (Bool-cases (str_eq tool.tool_type "clause")) [
        | inr exempt ↦ rw exempt refl
        | inl counted ↦ elim (Bool-cases (leb_ℤ limit (pos 0))) [
          | inl unlimited ↦ rw (counted, unlimited) refl
          | inr limited ↦
              rw (counted, limited)
                (after_increment-counters draw limit (current_window draw.now)
                  (increment k ctx.member.agent_id (current_window draw.now) limit
                    db.rate_limit_counters)
                  db)
        ]
      ]

  refuse-counters :
      (step : String) (e : Error) (db : Db)
      → (refuse host draw session_id tool params ctx step e db).1.budget_counters
        ≡ db.budget_counters
  unfolding log_rejection
  refuse-counters step e db =
      log_event-counters host draw (rejection_entry host draw session_id tool params ctx e) db

  module _ (keeps : KeepsBudget tool) (estimated : ℤ) where
    after_effects-counters :
        (id : Text) (e : Entry) (fx : SideEffects) (r : Result R) (db : Db)
        → let (r', db') =
            after_effects host draw session_id tool params ctx estimated id e fx r db in
          db'.budget_counters
          ≡ charged draw ctx.covenant.covenant_id estimated r' db.budget_counters
    unfolding after_effects
    after_effects-counters id e fx (err er) db = release_reservation-counters id db
    after_effects-counters id e fx (ok x) db =
        record_spend-counters draw ctx.covenant.covenant_id estimated id e.log_id db

    after_log-counters :
        (id : Text) (fx : SideEffects) (x : R) (r : Result Entry) (db : Db)
        → let (r', db') = after_log host draw session_id tool params ctx estimated id fx x r db in
          db'.budget_counters
          ≡ charged draw ctx.covenant.covenant_id estimated r' db.budget_counters
    unfolding after_log
    after_log-counters id fx x (err er) db = release_reservation-counters id db
    after_log-counters id fx x (ok e) db =
        let (r, db1) = tool.apply_side_effects ctx e fx x params db in
        after_effects-counters id e fx r db1
        ∙ ap
            (charged draw ctx.covenant.covenant_id estimated
              (after_effects host draw session_id tool params ctx estimated id e fx r db1).0)
            (keeps.applied ctx e fx x params db)

    after_calculation-counters :
        (id : Text) (fx : SideEffects) (x : R) (db : Db)
        → let (r', db') =
            after_calculation host draw session_id tool params ctx estimated id fx x db in
          db'.budget_counters
          ≡ charged draw ctx.covenant.covenant_id estimated r' db.budget_counters
    unfolding after_calculation
    after_calculation-counters id fx x db =
        elim (Bool-cases (is_foreign host draw session_id tool params ctx fx)) [
          | inl foreign ↦ rw foreign (
              refuse-counters "step4: %w" _ (release_reservation id db)
              ∙ release_reservation-counters id db)
          | inr matching ↦
              let e = success_entry host draw session_id tool params ctx fx x in
              let (r, db1) = log_event host draw e db in
              rw matching (
                after_log-counters id fx x r db1
                ∙ ap
                    (charged draw ctx.covenant.covenant_id estimated
                      (after_log host draw session_id tool params ctx estimated id fx x r db1).0)
                    (log_event-counters host draw e db))
        ]

    after_logic-counters :
        (id : Text) (r : Result R) (db : Db)
        → let (r', db') = after_logic host draw session_id tool params ctx estimated id r db in
          db'.budget_counters
          ≡ charged draw ctx.covenant.covenant_id estimated r' db.budget_counters
    unfolding after_logic
    after_logic-counters id (err e) db =
        refuse-counters "step3: %w" e (release_reservation id db)
        ∙ release_reservation-counters id db
    after_logic-counters id (ok x) db =
        let fx =
          complete_effects host draw session_id tool params ctx estimated
            (tool.calculate_side_effects ctx x params db) in
        after_calculation-counters id fx x db

    after_gate-counters :
        (r : Result Text) (db : Db)
        → let (r', db') = after_gate host draw session_id tool params ctx estimated r db in
          db'.budget_counters
          ≡ charged draw ctx.covenant.covenant_id estimated r' db.budget_counters
    unfolding after_gate
    after_gate-counters (err e) db = refuse-counters "step2.5: %w" e db
    after_gate-counters (ok id) db =
        let (r, db1) = tool.execute_logic ctx params db in
        after_logic-counters id r db1
        ∙ ap
            (charged draw ctx.covenant.covenant_id estimated
              (after_logic host draw session_id tool params ctx estimated id r db1).0)
            (keeps.executed ctx params db)

  -- What the gate has established for a run that succeeds.
  abbrev pub HasRoom : Option Counter → ℤ → Type 0
  HasRoom none estimated = Unit
  HasRoom (some c) estimated =
      WithinLimit c
      → (estimated ≤ℤ pos 0)
        ⊎ ((c.budget_limit ≤ℤ pos 0) ⊎ (c.budget_spent +ℤ estimated ≤ℤ c.budget_limit))

  gate-HasRoom :
      (estimated : ℤ) (db : Db) (o : Option Counter) (id : Text)
      → counter ctx.covenant.covenant_id db ≡ o
      → (check_and_reserve draw ctx.covenant.covenant_id estimated db).0 ≡ ok id
      → HasRoom o estimated
  gate-HasRoom estimated db none id h passed = tt
  gate-HasRoom estimated db (some c) id h passed = λ within.
      elim (Bool-cases (leb_ℤ estimated (pos 0))) [
        | inl free ↦ inl (ground arith)
        | inr due ↦ inr (
            passed-HasRoom draw ctx.covenant.covenant_id estimated db c id (ground arith) h within
              passed)
      ]

  after_gate-refused :
      (estimated : ℤ) (e : Error) (db : Db) (x : Receipt)
      → (after_gate host draw session_id tool params ctx estimated (err e) db).0 ≡ ok x
      → ⊥
  unfolding after_gate
  after_gate-refused estimated e db x h = cc

  -- What is known after a step: the counters, and the room of a run that succeeds.
  abbrev pub IsCharged : Option Counter → ℤ → Db → Result Receipt → Db → Type 0
  IsCharged o estimated db r db' =
      (db'.budget_counters ≡ charged draw ctx.covenant.covenant_id estimated r db.budget_counters)
      × ((x : Receipt) → r ≡ ok x → HasRoom o estimated)

  module _ (keeps : KeepsBudget tool) (o : Option Counter) where
    after_check-IsCharged :
        (r : Result (Unit {0})) (db : Db)
        → counter ctx.covenant.covenant_id db ≡ o
        → let (r', db') = after_check host draw session_id tool params ctx r db in
          IsCharged o (tool.estimate_cost ctx params) db r' db'
    unfolding after_check
    after_check-IsCharged (err e) db h = (refuse-counters "step2: %w" e db, λ x p. absurd cc)
    after_check-IsCharged (ok u) db h =
        let estimated = tool.estimate_cost ctx params in
        let (r, db1) = check_and_reserve draw ctx.covenant.covenant_id estimated db in
        (
          after_gate-counters keeps estimated r db1
              ∙ ap
                  (charged draw ctx.covenant.covenant_id estimated
                    (after_gate host draw session_id tool params ctx estimated r db1).0)
                  (counters-check_and_reserve draw ctx.covenant.covenant_id estimated db),
          λ x p. elim (Result-cases r) [
            | inl (id, passed) ↦ gate-HasRoom estimated db o id h passed
            | inr (e, refused) ↦ absurd (after_gate-refused estimated e db1 x (rw refused at p))
          ],
        )

    after_rate-IsCharged :
        (r : Result (Unit {0})) (db : Db)
        → counter ctx.covenant.covenant_id db ≡ o
        → let (r', db') = after_rate host draw session_id tool params ctx r db in
          IsCharged o (tool.estimate_cost ctx params) db r' db'
    unfolding after_rate
    after_rate-IsCharged (err e) db h = (refuse-counters "step1.5: %w" e db, λ x p. absurd cc)
    after_rate-IsCharged (ok u) db h =
        let (r, db1) = tool.check_preconditions ctx params db in
        let same = keeps.checked ctx params db in
        let (counters, room) = after_check-IsCharged r db1 (rw same h) in
        (
          counters
              ∙ ap
                  (charged draw ctx.covenant.covenant_id (tool.estimate_cost ctx params)
                    (after_check host draw session_id tool params ctx r db1).0)
                  same,
          room,
        )

    pub run_active-IsCharged :
        (db : Db)
        → counter ctx.covenant.covenant_id db ≡ o
        → let (r, db') = run_active host draw session_id tool params ctx db in
          IsCharged o (tool.estimate_cost ctx params) db r db'
    unfolding run_active
    run_active-IsCharged db h =
        let (r, db1) = rate_gate host draw session_id tool params ctx db in
        let same = rate_gate-counters db in
        let (counters, room) = after_rate-IsCharged r db1 (rw same h) in
        (
          counters
              ∙ ap
                  (charged draw ctx.covenant.covenant_id (tool.estimate_cost ctx params)
                    (after_rate host draw session_id tool params ctx r db1).0)
                  same,
          room,
        )
