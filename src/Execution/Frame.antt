-- ===== src/Execution/Frame.antt =====
-- What the gates around a tool leave alone: none of them writes to the audit log.
use acp_server.Base.{◌≡◌, refl, true, false, ◌==◌, Bool-cases, Option-cases, inl, inr, str_eq}
use acp_server.Base.Int.{ℤ, pos, leb_ℤ}
use acp_server.Store.{Text, Db, Host, Draw, Params}
use acp_server.Budget.{
  check_and_reserve, reserve_for, is_exhausted, has_reservation, release_reservation, record_spend,
  counter,
}
use acp_server.RateLimit.{
  check_and_increment, after_increment, load_policy, increment, current_window,
}
use acp_server.Execution.{Context, Tool}
use acp_server.Execution.Engine.{rate_gate}

pub release_reservation-log :
    (id : Text) (db : Db) → (release_reservation id db).audit_logs ≡ db.audit_logs
unfolding release_reservation
release_reservation-log id db = elim (Bool-cases (id == 0)) [
  | inl blank ↦ rw blank refl
  | inr one ↦ rw one refl
]

pub record_spend-log :
    (draw : Draw) (k : Text) (cost : ℤ) (id log_id : Text) (db : Db)
    → (record_spend draw k cost id log_id db).audit_logs ≡ db.audit_logs
unfolding record_spend
record_spend-log draw k cost id log_id db = elim (Bool-cases (leb_ℤ cost (pos 0))) [
  | inl free ↦ rw free refl
  | inr charged ↦ rw charged refl
]

pub check_and_reserve-log :
    (draw : Draw) (k : Text) (cost : ℤ) (db : Db)
    → (check_and_reserve draw k cost db).1.audit_logs ≡ db.audit_logs
unfolding check_and_reserve reserve_for
check_and_reserve-log draw k cost db = elim (Bool-cases (leb_ℤ cost (pos 0))) [
  | inl free ↦ rw free refl
  | inr charged ↦ elim (Option-cases (counter k db)) [
    | inl missing ↦ rw (charged, missing) refl
    | inr (c, found) ↦ elim (Bool-cases (is_exhausted c cost)) [
      | inl full ↦ rw (charged, found, full) refl
      | inr room ↦ elim (Bool-cases (has_reservation draw.reservation_id db)) [
        | inl taken ↦ rw (charged, found, room, taken) refl
        | inr fresh ↦ rw (charged, found, room, fresh) refl
      ]
    ]
  ]
]

after_increment-log :
    (draw : Draw) (limit : ℤ) (w : _) (r : _) (db : Db)
    → (after_increment draw limit w r db).1.audit_logs ≡ db.audit_logs
after_increment-log draw limit w (true, counters) db = refl
after_increment-log draw limit w (false, counters) db = refl

pub rate_gate-log :
    {R : Type 0} (host : Host) (draw : Draw) (session_id : Text) (tool : Tool R) (params : Params)
    (ctx : Context) (db : Db)
    → (rate_gate host draw session_id tool params ctx db).1.audit_logs ≡ db.audit_logs
unfolding rate_gate check_and_increment
rate_gate-log host draw session_id tool params ctx db =
    let k = ctx.covenant.covenant_id in
    let limit = (load_policy host k db).rate_limit_per_hour in
    elim (Bool-cases (str_eq tool.tool_type "clause")) [
      | inr exempt ↦ rw exempt refl
      | inl counted ↦ elim (Bool-cases (leb_ℤ limit (pos 0))) [
        | inl unlimited ↦ rw (counted, unlimited) refl
        | inr limited ↦
            rw (counted, limited)
              (after_increment-log draw limit (current_window draw.now)
                (increment k ctx.member.agent_id (current_window draw.now) limit
                  db.rate_limit_counters)
                db)
      ]
    ]
