-- ===== src/RateLimit.antt =====
-- internal/ratelimit/ratelimit.go: the hourly ceiling on the calls of clause tools.
pub mod Ceiling
pub mod Hour
pub mod Concentration
use acp_server.Base.{
  ℕ, suc, ◌+◌, ◌-◌, ◌*◌, ◌%◌, String, Bool, true, false, ◌&&◌, Option, none, some, List, [], ◌∷◌,
  ◌==◌, ltb, str_eq, if◌then◌else◌,
}
use acp_server.Base.Int.{ℤ, pos, ◌+ℤ◌, leb_ℤ, ltb_ℤ}
use acp_server.Base.Sql.{first, exists, update_where, delete_where}
use acp_server.Store.{
  Text, Time, empty, Db, Policy, RateCounter, Host, Draw, Value, Error, errorf, Exec, ok, err,
}

abbrev pub global_bucket : String
global_bucket = "*"

abbrev pub hour : ℕ
hour = 3600 * 1000000000

abbrev pub second : ℕ
second = 1000000000

abbrev pub policy_of : Text → Policy → Bool
policy_of covenant_id p = p.covenant_id == covenant_id

-- `LoadPolicy`: a missing row is the zero value, which disables every gate.
unfoldable pub load_policy : Host → Text → Db → Policy
load_policy host covenant_id db = elim (first (policy_of covenant_id) db.anti_gaming_policies) [
  | none ↦ record {
    covenant_id = covenant_id;
    rate_limit_per_hour = pos 0;
    similarity_threshold = host.floats.of_int (pos 0);
    min_word_count = pos 0;
    concentration_warn_pct = host.floats.of_int (pos 0);
  }
  | some p ↦ p
]

-- INSERT ... ON CONFLICT(covenant_id) DO UPDATE
unfoldable pub upsert_policy : Policy → Exec (Unit {0})
upsert_policy p db =
    if p.covenant_id == empty
    then (err (errorf "ratelimit: policy missing covenant_id" []), db)
    else if exists (policy_of p.covenant_id) db.anti_gaming_policies
    then (
      ok tt,
      record db {
        anti_gaming_policies =
            update_where (policy_of p.covenant_id) (λ q. p) db.anti_gaming_policies;
      },
    )
    else (ok tt, record db { anti_gaming_policies = p ∷ db.anti_gaming_policies })

-- The start of the hour.
abbrev pub current_window : Time → Time
current_window now = now - now % hour

-- The primary key of rate_limit_counters.
abbrev pub in_bucket : Text → Text → Time → RateCounter → Bool
in_bucket covenant_id agent_id window c =
    c.covenant_id == covenant_id
    && (c.agent_id == agent_id && (str_eq c.tool_name global_bucket && c.window_start == window))

abbrev pub first_call : Text → Text → Time → RateCounter
first_call covenant_id agent_id window = record {
  covenant_id = covenant_id;
  agent_id = agent_id;
  tool_name = global_bucket;
  window_start = window;
  call_count = pos 1;
}

abbrev pub one_more : RateCounter → RateCounter
one_more c = record c { call_count = c.call_count +ℤ pos 1 }

-- The upsert, by the row of the bucket that is there: a new row, or one call more if that row is
-- below the limit; the flag tells whether a row came back.
unfoldable pub upsert_call :
    Text → Text → Time → ℤ → List RateCounter → Option RateCounter → Bool × List RateCounter
upsert_call covenant_id agent_id window limit counters none =
    (true, first_call covenant_id agent_id window ∷ counters)
upsert_call covenant_id agent_id window limit counters (some c) =
    if ltb_ℤ c.call_count limit
    then (true, update_where (in_bucket covenant_id agent_id window) one_more counters)
    else (false, counters)

unfoldable pub increment : Text → Text → Time → ℤ → List RateCounter → Bool × List RateCounter
increment covenant_id agent_id window limit counters =
    upsert_call covenant_id agent_id window limit counters
      (first (in_bucket covenant_id agent_id window) counters)

-- 24 hours ago, as an RFC 3339 text without a fraction
abbrev pub cutoff : Time → Time
cutoff now = now - 24 * hour - (now - 24 * hour) % second

unfoldable pub maybe_cleanup : Draw → List RateCounter → List RateCounter
maybe_cleanup draw counters =
    if draw.cleanup
    then delete_where (λ c. ltb c.window_start (cutoff draw.now)) counters
    else counters

abbrev pub rate_limit_exceeded : ℤ → Time → Error
rate_limit_exceeded limit window =
    errorf "rate limit exceeded: %d calls/hour (window %s)"
      (Value.int limit ∷ Value.text window ∷ [])

abbrev pub after_increment : Draw → ℤ → Time → Bool × List RateCounter → Exec (Unit {0})
after_increment draw limit window (true, counters) db =
    (ok tt, record db { rate_limit_counters = maybe_cleanup draw counters })
after_increment draw limit window (false, counters) db =
    (err (rate_limit_exceeded limit window), db)

-- The name of the tool is not used: every call counts in the global bucket.
unfoldable pub check_and_increment : Host → Draw → Text → Text → String → Exec (Unit {0})
check_and_increment host draw covenant_id agent_id tool_name db =
    let limit = (load_policy host covenant_id db).rate_limit_per_hour in
    let window = current_window draw.now in
    if leb_ℤ limit (pos 0)
    then (ok tt, db)
    else after_increment draw limit window
        (increment covenant_id agent_id window limit db.rate_limit_counters) db
