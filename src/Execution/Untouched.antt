-- ===== src/Execution/Untouched.antt =====
-- What a run leaves alone: a part of the database that no step of the engine writes to is, after a run,
-- as the methods of the tool leave it.
use acp_server.Base.{
  ◌≡◌, refl, ◌∙◌, List, true, false, ◌==◌, Bool-cases, Option-cases, inl, inr, str_eq, none, some,
}
use acp_server.Base.Int.{ℤ, pos, leb_ℤ}
use acp_server.Store.{
  Text, Db, Entry, RateCounter, Counter, Reservation, Error, Host, Draw, Params, Result, ok, err,
}
use acp_server.Audit.{log_event, has_log, new_row, append_row}
use acp_server.Budget.{
  check_and_reserve, reserve_for, is_exhausted, has_reservation, release_reservation, record_spend,
  counter,
}
use acp_server.RateLimit.{
  check_and_increment, after_increment, load_policy, increment, current_window,
}
use acp_server.Covenant.{covenant_row}
use acp_server.Covenant.Members.{member_row, is_active}
use acp_server.Execution.{SideEffects, Context, Tool}
use acp_server.Execution.Engine.{
  run, admit, run_active, rate_gate, after_rate, after_check, after_gate, after_logic,
  after_calculation, after_log, after_effects, complete_effects, log_rejection, rejection_entry,
  success_entry, is_foreign,
}

-- A part of the database beside the counters, the reservations and the audit log.
pub record IsElsewhere {A : Type 0} (f : Db → A) : Type 0 where
  pub rates :
      (rows : List RateCounter) (db : Db) → f (record db { rate_limit_counters = rows }) ≡ f db
  pub reserved :
      (rows : List Reservation) (db : Db) → f (record db { budget_reservations = rows }) ≡ f db
  pub spent :
      (counters : List Counter) (rows : List Reservation) (db : Db)
      → f (record db { budget_counters = counters; budget_reservations = rows }) ≡ f db
  pub logged : (rows : List Entry) (db : Db) → f (record db { audit_logs = rows }) ≡ f db

-- A tool whose methods leave it alone as well.
pub record Keeps {A R : Type 0} (f : Db → A) (tool : Tool R) : Type 0 where
  pub checked :
      (ctx : Context) (params : Params) (db : Db)
      → f (tool.check_preconditions ctx params db).1 ≡ f db
  pub executed :
      (ctx : Context) (params : Params) (db : Db) → f (tool.execute_logic ctx params db).1 ≡ f db
  pub applied :
      (ctx : Context) (e : Entry) (fx : SideEffects) (x : R) (params : Params) (db : Db)
      → f (tool.apply_side_effects ctx e fx x params db).1 ≡ f db

module _ {A : Type 0} {f : Db → A} (elsewhere : IsElsewhere f) where
  release_reservation-keeps : (id : Text) (db : Db) → f (release_reservation id db) ≡ f db
  unfolding release_reservation
  release_reservation-keeps id db = elim (Bool-cases (id == 0)) [
    | inl blank ↦ rw blank refl
    | inr one ↦ rw one (elsewhere.reserved _ db)
  ]

  record_spend-keeps :
      (draw : Draw) (k : Text) (cost : ℤ) (id log_id : Text) (db : Db)
      → f (record_spend draw k cost id log_id db) ≡ f db
  unfolding record_spend
  record_spend-keeps draw k cost id log_id db = elim (Bool-cases (leb_ℤ cost (pos 0))) [
    | inl free ↦ rw free refl
    | inr charged ↦ rw charged (elsewhere.spent _ _ db)
  ]

  check_and_reserve-keeps :
      (draw : Draw) (k : Text) (cost : ℤ) (db : Db) → f (check_and_reserve draw k cost db).1 ≡ f db
  unfolding check_and_reserve reserve_for
  check_and_reserve-keeps draw k cost db = elim (Bool-cases (leb_ℤ cost (pos 0))) [
    | inl free ↦ rw free refl
    | inr charged ↦ elim (Option-cases (counter k db)) [
      | inl missing ↦ rw (charged, missing) refl
      | inr (c, found) ↦ elim (Bool-cases (is_exhausted c cost)) [
        | inl full ↦ rw (charged, found, full) refl
        | inr room ↦ elim (Bool-cases (has_reservation draw.reservation_id db)) [
          | inl taken ↦ rw (charged, found, room, taken) refl
          | inr fresh ↦ rw (charged, found, room, fresh) (elsewhere.reserved _ db)
        ]
      ]
    ]
  ]

  log_event-keeps :
      (host : Host) (draw : Draw) (e : Entry) (db : Db) → f (log_event host draw e db).1 ≡ f db
  unfolding log_event append_row
  log_event-keeps host draw e db = elim (Bool-cases (has_log (new_row host draw e db).log_id db)) [
    | inl taken ↦ rw taken refl
    | inr fresh ↦ rw fresh (elsewhere.logged _ db)
  ]

  after_increment-keeps :
      (draw : Draw) (limit : ℤ) (w : _) (r : _) (db : Db)
      → f (after_increment draw limit w r db).1 ≡ f db
  after_increment-keeps draw limit w (true, counters) db = elsewhere.rates _ db
  after_increment-keeps draw limit w (false, counters) db = refl

  module _ {R : Type 0} (host : Host) (draw : Draw) (session_id : Text) (tool : Tool R)
      (params : Params) (keeps : Keeps f tool) where
    rate_gate-keeps :
        (ctx : Context) (db : Db) → f (rate_gate host draw session_id tool params ctx db).1 ≡ f db
    unfolding rate_gate check_and_increment
    rate_gate-keeps ctx db =
        let k = ctx.covenant.covenant_id in
        let limit = (load_policy host k db).rate_limit_per_hour in
        elim (Bool-cases (str_eq tool.tool_type "clause")) [
          | inr exempt ↦ rw exempt refl
          | inl counted ↦ elim (Bool-cases (leb_ℤ limit (pos 0))) [
            | inl unlimited ↦ rw (counted, unlimited) refl
            | inr limited ↦
                rw (counted, limited)
                  (after_increment-keeps draw limit (current_window draw.now)
                    (increment k ctx.member.agent_id (current_window draw.now) limit
                      db.rate_limit_counters)
                    db)
          ]
        ]

    log_rejection-keeps :
        (ctx : Context) (e : Error) (db : Db)
        → f (log_rejection host draw session_id tool params ctx e db) ≡ f db
    unfolding log_rejection
    log_rejection-keeps ctx e db =
        log_event-keeps host draw (rejection_entry host draw session_id tool params ctx e) db

    after_effects-keeps :
        (ctx : Context) (n : ℤ) (id : Text) (e : Entry) (fx : SideEffects) (r : Result R) (db : Db)
        → f (after_effects host draw session_id tool params ctx n id e fx r db).1 ≡ f db
    unfolding after_effects
    after_effects-keeps ctx n id e fx (err er) db = release_reservation-keeps id db
    after_effects-keeps ctx n id e fx (ok x) db =
        record_spend-keeps draw ctx.covenant.covenant_id n id e.log_id db

    after_log-keeps :
        (ctx : Context) (n : ℤ) (id : Text) (fx : SideEffects) (x : R) (r : Result Entry) (db : Db)
        → f (after_log host draw session_id tool params ctx n id fx x r db).1 ≡ f db
    unfolding after_log
    after_log-keeps ctx n id fx x (err er) db = release_reservation-keeps id db
    after_log-keeps ctx n id fx x (ok e) db =
        let (r, db1) = tool.apply_side_effects ctx e fx x params db in
        after_effects-keeps ctx n id e fx r db1 ∙ keeps.applied ctx e fx x params db

    after_calculation-keeps :
        (ctx : Context) (n : ℤ) (id : Text) (fx : SideEffects) (x : R) (db : Db)
        → f (after_calculation host draw session_id tool params ctx n id fx x db).1 ≡ f db
    unfolding after_calculation
    after_calculation-keeps ctx n id fx x db =
        elim (Bool-cases (is_foreign host draw session_id tool params ctx fx)) [
          | inl foreign ↦ rw foreign (
              log_rejection-keeps ctx _ (release_reservation id db)
              ∙ release_reservation-keeps id db)
          | inr local ↦
              let entry = success_entry host draw session_id tool params ctx fx x in
              let (r, db1) = log_event host draw entry db in
              rw local (after_log-keeps ctx n id fx x r db1 ∙ log_event-keeps host draw entry db)
        ]

    after_logic-keeps :
        (ctx : Context) (n : ℤ) (id : Text) (r : Result R) (db : Db)
        → f (after_logic host draw session_id tool params ctx n id r db).1 ≡ f db
    unfolding after_logic
    after_logic-keeps ctx n id (err e) db =
        log_rejection-keeps ctx _ (release_reservation id db) ∙ release_reservation-keeps id db
    after_logic-keeps ctx n id (ok x) db =
        after_calculation-keeps ctx n id
          (complete_effects host draw session_id tool params ctx n
            (tool.calculate_side_effects ctx x params db))
          x db

    after_gate-keeps :
        (ctx : Context) (n : ℤ) (r : Result Text) (db : Db)
        → f (after_gate host draw session_id tool params ctx n r db).1 ≡ f db
    unfolding after_gate
    after_gate-keeps ctx n (err e) db = log_rejection-keeps ctx _ db
    after_gate-keeps ctx n (ok id) db =
        let (r, db1) = tool.execute_logic ctx params db in
        after_logic-keeps ctx n id r db1 ∙ keeps.executed ctx params db

    after_check-keeps :
        (ctx : Context) (r : Result (Unit {0})) (db : Db)
        → f (after_check host draw session_id tool params ctx r db).1 ≡ f db
    unfolding after_check
    after_check-keeps ctx (err e) db = log_rejection-keeps ctx _ db
    after_check-keeps ctx (ok u) db =
        let n = tool.estimate_cost ctx params in
        let (r, db1) = check_and_reserve draw ctx.covenant.covenant_id n db in
        after_gate-keeps ctx n r db1 ∙ check_and_reserve-keeps draw ctx.covenant.covenant_id n db

    after_rate-keeps :
        (ctx : Context) (r : Result (Unit {0})) (db : Db)
        → f (after_rate host draw session_id tool params ctx r db).1 ≡ f db
    unfolding after_rate
    after_rate-keeps ctx (err e) db = log_rejection-keeps ctx _ db
    after_rate-keeps ctx (ok u) db =
        let (r, db1) = tool.check_preconditions ctx params db in
        after_check-keeps ctx r db1 ∙ keeps.checked ctx params db

    run_active-keeps :
        (ctx : Context) (db : Db) → f (run_active host draw session_id tool params ctx db).1 ≡ f db
    unfolding run_active
    run_active-keeps ctx db =
        let (r, db1) = rate_gate host draw session_id tool params ctx db in
        after_rate-keeps ctx r db1 ∙ rate_gate-keeps ctx db

    admit-keeps :
        (c : _) (m : _) (db : Db) → f (admit host draw session_id tool params c m db).1 ≡ f db
    unfolding admit
    admit-keeps none m db = refl
    admit-keeps (some cov) none db = refl
    admit-keeps (some cov) (some m) db = elim (Bool-cases (is_active m.status)) [
      | inl active ↦ rw active (run_active-keeps (record { covenant = cov; member = m }) db)
      | inr inactive ↦ rw inactive refl
    ]

    pub run-keeps :
        (covenant_id agent_id : Text) (db : Db)
        → f (run host draw session_id tool params covenant_id agent_id db).1 ≡ f db
    unfolding run
    run-keeps covenant_id agent_id db =
        admit-keeps (covenant_row covenant_id db) (member_row covenant_id agent_id db) db
