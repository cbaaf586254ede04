-- ===== src/Sessions.antt =====
-- internal/sessions/sessions.go: the session tokens of the agents, and their rotation.
pub mod Rotation
use acp_server.Base.{
  ℕ, ◌+◌, ◌-◌, ◌*◌, Bool, true, false, ◌&&◌, ◌||◌, Option, none, some, List, [], ◌∷◌, ◌==◌, ltb,
  if◌then◌else◌,
}
use acp_server.Base.Sql.{first, exists, count_where, update_where}
use acp_server.Store.{
  Text, Time, Db, Session, SessionStatus, Host, Draw, unique_violation, Exec, Result, ok, err, pure,
  raise_if, modify, gets, transaction, ◌>>=◌, ◌>>◌,
}

-- 30 seconds
abbrev pub grace_period : ℕ
grace_period = 30 * 1000000000

abbrev pub fresh_session : Host → Draw → Text → Text → Session
fresh_session host draw agent_id covenant_id = record {
  token_id = draw.token_id;
  agent_id = agent_id;
  covenant_id = covenant_id;
  token_hash = host.hash_text draw.raw_token;
  status = SessionStatus.active;
  created_at = draw.now;
  rotated_at = none;
}

-- The primary key of session_tokens and UNIQUE(token_hash).
abbrev pub collides : Session → Session → Bool
collides s r = r.token_id == s.token_id || r.token_hash == s.token_hash

unfoldable pub insert_session : Session → Exec (Unit {0})
insert_session s db =
    if exists (collides s) db.session_tokens
    then (err (unique_violation "session_tokens"), db)
    else (ok tt, record db { session_tokens = s ∷ db.session_tokens })

unfoldable pub issue : Host → Draw → Text → Text → Exec Text
issue host draw agent_id covenant_id = do
  insert_session (fresh_session host draw agent_id covenant_id)
  pure draw.raw_token

abbrev pub is_active : SessionStatus → Bool
is_active SessionStatus.active = true
is_active _ = false

abbrev pub is_grace : SessionStatus → Bool
is_grace SessionStatus.grace = true
is_grace _ = false

abbrev pub active_of : Text → Text → Session → Bool
active_of agent_id covenant_id s =
    s.agent_id == agent_id && (s.covenant_id == covenant_id && is_active s.status)

abbrev pub to_grace : Time → Session → Session
to_grace now s = record s { status = SessionStatus.grace; rotated_at = some now }

abbrev pub to_expired : Session → Session
to_expired s = record s { status = SessionStatus.expired }

-- The writes of `Rotate`: the active tokens of the agent enter the grace period, and a new one is issued.
unfoldable pub rotate_rows : Host → Draw → Text → Text → Exec Text
unfolding insert_session
rotate_rows host draw agent_id covenant_id db = issue host draw agent_id covenant_id (record db {
  session_tokens =
      update_where (active_of agent_id covenant_id) (to_grace draw.now) db.session_tokens;
})

unfoldable pub rotate : Host → Draw → Text → Text → Exec Text
rotate host draw agent_id covenant_id = transaction (rotate_rows host draw agent_id covenant_id)

-- Whether a token is past its grace period.
abbrev pub is_lapsed : SessionStatus → Option Time → Time → Bool
is_lapsed SessionStatus.grace (some rotated) now = ltb (rotated + grace_period) now
is_lapsed _ _ now = false

-- (isValid, inGrace)
abbrev pub verdict : SessionStatus → Option Time → Time → Bool × Bool
verdict SessionStatus.active _ now = (true, false)
verdict SessionStatus.grace (some rotated) now =
    if ltb (rotated + grace_period) now then (false, false) else (true, true)
verdict _ _ now = (false, false)

abbrev pub session_of : Text → Text → Text → Session → Bool
session_of hash agent_id covenant_id s =
    s.token_hash == hash && (s.agent_id == agent_id && s.covenant_id == covenant_id)

-- The part of `Validate` behind the query, which marks a lapsed token as expired.
unfoldable pub validate_row : Text → Time → Option Session → Db → (Bool × Bool) × Db
validate_row hash now none db = ((false, false), db)
validate_row hash now (some s) db = (
  verdict s.status s.rotated_at now,
  if is_lapsed s.status s.rotated_at now
      then record db {
        session_tokens = update_where (λ r. r.token_hash == hash) to_expired db.session_tokens;
      }
      else db,
)

unfoldable pub validate : Host → Time → Text → Text → Text → Db → (Bool × Bool) × Db
unfolding validate_row
validate host now raw agent_id covenant_id db =
    validate_row (host.hash_text raw) now
      (first (session_of (host.hash_text raw) agent_id covenant_id) db.session_tokens) db

abbrev pub is_valid_row : Time → Option Session → Bool
is_valid_row now none = false
is_valid_row now (some s) = (verdict s.status s.rotated_at now).0

-- For any agent of the covenant; a lapsed token is not marked here.
unfoldable pub validate_for_covenant : Host → Time → Text → Text → Db → Bool
validate_for_covenant host now raw covenant_id db = is_valid_row now (
    first (λ s. s.token_hash == host.hash_text raw && s.covenant_id == covenant_id)
      db.session_tokens)

-- The comparison is one of texts; a NULL is not below anything.
abbrev pub is_stale : Host → Time → Session → Bool
is_stale host now s = is_grace s.status && elim s.rotated_at [
  | none ↦ false
  | some rotated ↦ host.nano_text_lt rotated (now - grace_period)
]

unfoldable pub expire_grace_tokens : Host → Time → Db → ℕ × Db
expire_grace_tokens host now db = (
  count_where (is_stale host now) db.session_tokens,
  record db { session_tokens = update_where (is_stale host now) to_expired db.session_tokens },
)
