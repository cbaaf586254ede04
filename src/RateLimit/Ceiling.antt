-- ===== src/RateLimit/Ceiling.antt =====
-- What the ceiling of internal/ratelimit/ratelimit.go guarantees within one hour.
use acp_server.Base.{
  ◌≡◌, refl, ap, ◌∙◌, Bool, true, false, Option, none, some, List, ◌∷◌, ==_refl, ltb, inl, inr,
  Bool-cases, arith, String,
}
use acp_server.Base.Int.{ℤ, pos, ◌+ℤ◌, ◌≤ℤ◌, ◌<ℤ◌, int_laws, leb_ℤ, ltb_ℤ}
use acp_server.Base.Sql.{first}
use acp_server.Base.Queries.{first-update, first-delete_other}
use acp_server.Store.{Text, Time, Db, RateCounter, Host, Draw, ok, err}
use acp_server.RateLimit.{
  in_bucket, upsert_call, first_call, one_more, increment, maybe_cleanup, cutoff, current_window,
  load_policy, check_and_increment, after_increment, rate_limit_exceeded,
}

-- The number of calls on the bucket of an hour.
abbrev pub calls_in : Option RateCounter → ℤ
calls_in none = pos 0
calls_in (some c) = c.call_count

abbrev pub calls : Text → Text → Time → List RateCounter → ℤ
calls k a window counters = calls_in (first (in_bucket k a window) counters)

in_bucket-first_call :
    (k a : Text) (window : Time) → in_bucket k a window (first_call k a window) ≡ true
in_bucket-first_call k a window = rw (==_refl k, ==_refl a, ==_refl window)

calls-first_call :
    (k a : Text) (window : Time) (counters : List RateCounter)
    → calls k a window (first_call k a window ∷ counters) ≡ pos 1
unfolding first
calls-first_call k a window counters = rw (in_bucket-first_call k a window)

upsert_call-room :
    (k a : Text) (window : Time) (limit : ℤ) (counters : List RateCounter) (o : Option RateCounter)
    → first (in_bucket k a window) counters ≡ o
    → calls_in o <ℤ limit
    → ((upsert_call k a window limit counters o).0 ≡ true)
      × (calls k a window (upsert_call k a window limit counters o).1 ≡ calls_in o +ℤ pos 1)
unfolding upsert_call
upsert_call-room k a window limit counters none h room =
    (refl, calls-first_call k a window counters ∙ omega int_laws)
upsert_call-room k a window limit counters (some c) h room =
    elim (Bool-cases (ltb_ℤ c.call_count limit)) [
      | inl below ↦ (
        rw below,
        rw below
            (ap calls_in (first-update (in_bucket k a window) one_more c counters (λ x. refl) h)),
      )
      | inr full ↦ absurd (ground arith)
    ]

upsert_call-full :
    (k a : Text) (window : Time) (limit : ℤ) (counters : List RateCounter) (o : Option RateCounter)
    → pos 0 <ℤ limit
    → limit ≤ℤ calls_in o
    → upsert_call k a window limit counters o ≡ (false, counters)
unfolding upsert_call
upsert_call-full k a window limit counters none p full = absurd (omega arith)
upsert_call-full k a window limit counters (some c) p full =
    elim (Bool-cases (ltb_ℤ c.call_count limit)) [
      | inl below ↦ absurd (ground arith)
      | inr refused ↦ rw refused
    ]

in_bucket-recent :
    (k a : Text) (now : Time) (c : RateCounter)
    → in_bucket k a (current_window now) c ≡ true
    → ltb c.window_start (cutoff now) ≡ false
in_bucket-recent k a now c h = ground arith

-- The cleanup keeps the bucket of the present hour.
calls-maybe_cleanup :
    (draw : Draw) (k a : Text) (counters : List RateCounter)
    → calls k a (current_window draw.now) (maybe_cleanup draw counters)
      ≡ calls k a (current_window draw.now) counters
unfolding maybe_cleanup
calls-maybe_cleanup draw k a counters = elim (Bool-cases draw.cleanup) [
  | inl swept ↦ rw swept (
      ap calls_in (
        first-delete_other (in_bucket k a (current_window draw.now))
          (λ c. ltb c.window_start (cutoff draw.now)) counters
          (λ c same. in_bucket-recent k a draw.now c same)))
  | inr kept ↦ rw kept
]

after_increment-true :
    (draw : Draw) (limit : ℤ) (window : Time) (q : Bool × List RateCounter) (db : Db)
    → q.0 ≡ true
    → after_increment draw limit window q db
      ≡ (ok tt, record db { rate_limit_counters = maybe_cleanup draw q.1 })
after_increment-true draw limit window (true, counters) db h = refl
after_increment-true draw limit window (false, counters) db h = cc

abbrev pub limit_of : Host → Text → Db → ℤ
limit_of host k db = (load_policy host k db).rate_limit_per_hour

check_and_increment-limited :
    (host : Host) (draw : Draw) (k a : Text) (name : String) (db : Db)
    → pos 0 <ℤ limit_of host k db
    → check_and_increment host draw k a name db
      ≡ after_increment draw
          (limit_of host k db)
          (current_window draw.now)
          (increment k a (current_window draw.now) (limit_of host k db) db.rate_limit_counters)
          db
unfolding check_and_increment
check_and_increment-limited host draw k a name db p =
    elim (Bool-cases (leb_ℤ (limit_of host k db) (pos 0))) [
      | inl unlimited ↦ absurd (ground arith)
      | inr limited ↦ rw limited
    ]

abbrev pub calls_now : Draw → Text → Text → Db → ℤ
calls_now draw k a db = calls k a (current_window draw.now) db.rate_limit_counters

-- Under a limit, a call in an hour that has room is let through and counted.
pub check_and_increment-room :
    (host : Host) (draw : Draw) (k a : Text) (name : String) (db : Db)
    → pos 0 <ℤ limit_of host k db
    → calls_now draw k a db <ℤ limit_of host k db
    → let (r, db') = check_and_increment host draw k a name db in
      (r ≡ ok tt)
      × (calls_now draw k a db' ≡ calls_now draw k a db +ℤ pos 1)
      × (limit_of host k db' ≡ limit_of host k db)
unfolding increment load_policy
check_and_increment-room host draw k a name db p room =
    let counters = db.rate_limit_counters in
    let window = current_window draw.now in
    let (passed, counted) =
      upsert_call-room k a window (limit_of host k db) counters
        (first (in_bucket k a window) counters) refl room in
    rw
      (
        check_and_increment-limited host draw k a name db p,
        after_increment-true draw (limit_of host k db) window
            (increment k a window (limit_of host k db) counters) db passed,
      )
      (refl, calls-maybe_cleanup draw k a _ ∙ counted, refl)

-- Under a limit, a call in an hour that is used up is refused, and nothing changes.
pub check_and_increment-full :
    (host : Host) (draw : Draw) (k a : Text) (name : String) (db : Db)
    → pos 0 <ℤ limit_of host k db
    → limit_of host k db ≤ℤ calls_now draw k a db
    → check_and_increment host draw k a name db
      ≡ (err (rate_limit_exceeded (limit_of host k db) (current_window draw.now)), db)
unfolding increment
check_and_increment-full host draw k a name db p full = rw (
  check_and_increment-limited host draw k a name db p,
  upsert_call-full k a (current_window draw.now) (limit_of host k db) db.rate_limit_counters
      (first (in_bucket k a (current_window draw.now)) db.rate_limit_counters) p full,
)
