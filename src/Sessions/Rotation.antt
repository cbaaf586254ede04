-- ===== src/Sessions/Rotation.antt =====
-- What a rotation of internal/sessions/sessions.go does to the old token and to the new one.
use acp_server.Base.{
  ◌+◌, ◌≤◌, ◌<◌, ◌≡◌, refl, Bool, true, false, some, List, [], ◌∷◌, ◌==◌, ==_refl, Bool-cases, inl,
  inr, arith, ltb,
}
use acp_server.Base.Sql.{first, exists, count_where, update_where}
use acp_server.Base.Queries.{first-update_reached, count-update, first-holds, exists-false}
use acp_server.Store.{Text, Time, Db, Session, Host, Draw, ok}
use acp_server.Sessions.{
  grace_period, fresh_session, collides, insert_session, issue, is_active, active_of, to_grace,
  rotate, rotate_rows, session_of, validate, validate_row,
}

-- The draw of a token that no row has yet.
abbrev pub IsFreshToken : Host → Draw → Text → Text → Db → Type 0
IsFreshToken host draw agent_id covenant_id db =
    exists (collides (fresh_session host draw agent_id covenant_id)) db.session_tokens ≡ false

exists-update :
    (s : Session) (now : Time) (q : Session → Bool) (rows : List Session)
    → exists (collides s) (update_where q (to_grace now) rows) ≡ exists (collides s) rows
unfolding exists update_where
exists-update s now q [] = refl
exists-update s now q (r ∷ rows) = elim (Bool-cases (q r)) [
  | inl reached ↦ rw (reached, exists-update s now q rows)
  | inr kept ↦ rw (kept, exists-update s now q rows)
]

module _ (host : Host) (draw : Draw) (agent_id covenant_id : Text) (db : Db) where
  abbrev pub rotated_rows : List Session
  rotated_rows =
      fresh_session host draw agent_id covenant_id
      ∷ update_where (active_of agent_id covenant_id) (to_grace draw.now) db.session_tokens

  pub rotate-fresh :
      IsFreshToken host draw agent_id covenant_id db
      → rotate host draw agent_id covenant_id db
        ≡ (ok draw.raw_token, record db { session_tokens = rotated_rows })
  unfolding rotate rotate_rows issue insert_session
  rotate-fresh fresh = rw (
    exists-update (fresh_session host draw agent_id covenant_id) draw.now
        (active_of agent_id covenant_id) db.session_tokens,
    fresh,
  )

  hash_fresh :
      (raw : Text) (s : Session)
      → IsFreshToken host draw agent_id covenant_id db
      → first (session_of (host.hash_text raw) agent_id covenant_id) db.session_tokens ≡ some s
      → (host.hash_text draw.raw_token == host.hash_text raw) ≡ false
  hash_fresh raw s fresh found =
      let hit =
        first-holds (session_of (host.hash_text raw) agent_id covenant_id) db.session_tokens s
          found in
      let miss =
        exists-false (session_of (host.hash_text raw) agent_id covenant_id)
          (collides (fresh_session host draw agent_id covenant_id)) db.session_tokens s found
          fresh in
      ground arith

  -- The row of the old token after the rotation.
  old_row :
      (raw : Text) (s : Session)
      → IsFreshToken host draw agent_id covenant_id db
      → first (session_of (host.hash_text raw) agent_id covenant_id) db.session_tokens ≡ some s
      → is_active s.status ≡ true
      → first (session_of (host.hash_text raw) agent_id covenant_id) rotated_rows
        ≡ some (to_grace draw.now s)
  unfolding first
  old_row raw s fresh found live =
      let p = session_of (host.hash_text raw) agent_id covenant_id in
      let hit : p s ≡ true = first-holds p db.session_tokens s found in
      rw (hash_fresh raw s fresh found) (
        first-update_reached p (active_of agent_id covenant_id) (to_grace draw.now) s
          db.session_tokens (λ x. refl) found (ground arith))

  -- A rotation hands the agent a fresh token, which is valid and not in grace. A token of the agent
  -- that was active stays valid, in grace, up to 30 seconds after the rotation and no longer. Of the
  -- agent's tokens exactly one is active then.
  pub rotate_hands_over :
      (raw : Text) (s : Session)
      → IsFreshToken host draw agent_id covenant_id db
      → first (session_of (host.hash_text raw) agent_id covenant_id) db.session_tokens ≡ some s
      → is_active s.status ≡ true
      → let (r, db') = rotate host draw agent_id covenant_id db in
        (r ≡ ok draw.raw_token)
        × ((now : Time)
            → (validate host now draw.raw_token agent_id covenant_id db').0 ≡ (true, false))
        × ((now : Time)
            → now ≤ draw.now + grace_period
            → (validate host now raw agent_id covenant_id db').0 ≡ (true, true))
        × ((now : Time)
            → draw.now + grace_period < now
            → (validate host now raw agent_id covenant_id db').0 ≡ (false, false))
        × (count_where (active_of agent_id covenant_id) db'.session_tokens ≡ 1)
  unfolding validate validate_row first count_where
  rotate_hands_over raw s fresh found live = rw (rotate-fresh fresh) (
    refl,
    λ now. rw (==_refl (host.hash_text draw.raw_token), ==_refl agent_id, ==_refl covenant_id) refl,
    λ now early.
        let h : ltb (draw.now + grace_period) now ≡ false = ground arith in
        rw (old_row raw s fresh found live, h) refl,
    λ now late.
        let h : ltb (draw.now + grace_period) now ≡ true = ground arith in
        rw (old_row raw s fresh found live, h) refl,
    rw
        (
          ==_refl agent_id,
          ==_refl covenant_id,
          count-update (active_of agent_id covenant_id) (to_grace draw.now) db.session_tokens
              (λ x. ground arith),
        )
        refl,
  )
