-- ===== src/Audit/Tamper.antt =====
-- Rows of audit_logs that are changed behind the back of internal/audit/audit.go: what its
-- verification finds, and what it cannot find.
use acp_server.Base.{
  ◌≡◌, ◌≢◌, refl, sym, ◌∙◌, Bool, true, false, some, List, [], ◌∷◌, ◌==◌, Bool-cases, inl, inr,
  arith, All, if◌then◌else◌, ==_iff, ==_refl, subst, eq_of_some,
}
use acp_server.Base.Sql.{select, first, update_where}
use acp_server.Store.{Text, Entry, Db, Host}
use acp_server.Audit.{
  of_covenant, rows, compute_hash, hashed, verify_chain, next_sequence, previous_id,
}
use acp_server.Audit.Chain.{IsChain, IsLogged, head, compute_hash-hashed}
use acp_server.Audit.Verify.{HashHolds, verify_chain-IsLogged, verify_chain-HashHolds}

-- UPDATE audit_logs ... WHERE log_id = ?, run by hand
abbrev pub tamper : Text → (Entry → Entry) → Db → Db
tamper log_id f db = record db {
  audit_logs = update_where (λ r. r.log_id == log_id) f db.audit_logs;
}

All-select-tail :
    (P : Entry → Type 0) (q : Entry → Bool) (r : Entry) (es : List Entry)
    → All P (select q (r ∷ es))
    → All P (select q es)
unfolding select
All-select-tail P q r es h = elim (Bool-cases (q r)) [
  | inl hit ↦ (rw hit at h).1
  | inr miss ↦ rw miss at h
]

All-select-head :
    (P : Entry → Type 0) (q : Entry → Bool) (r : Entry) (es : List Entry)
    → q r ≡ true
    → All P (select q (r ∷ es))
    → P r
unfolding select
All-select-head P q r es hit h = (rw hit at h).0

-- What holds of every selected row holds of the row that was changed.
All-first :
    (P : Entry → Type 0) (p q : Entry → Bool) (f : Entry → Entry) (e : Entry) (es : List Entry)
    → first p es ≡ some e
    → q (f e) ≡ true
    → All P (select q (update_where p f es))
    → P (f e)
unfolding first update_where
All-first P p q f e [] found keep h = cc
All-first P p q f e (r ∷ es) found keep h = elim (Bool-cases (p r)) [
  | inl hit ↦
      let here : r ≡ e = eq_of_some (rw hit at found) in
      subst (λ x. P (f x)) here
        (All-select-head P q (f r) (update_where p f es)
          (subst (λ x. q (f x) ≡ true) (sym here) keep) (rw hit at h))
  | inr miss ↦
      All-first P p q f e es (rw miss at found) keep
        (All-select-tail P q r (update_where p f es) (rw miss at h))
]

update_where-id : (p : Entry → Bool) (es : List Entry) → update_where p (λ r. r) es ≡ es
unfolding update_where
update_where-id p [] = refl
update_where-id p (r ∷ es) = rw (update_where-id p es) (ground arith)

IsChain-HashHolds : (host : Host) (es : List Entry) → IsChain host es → All (HashHolds host) es
IsChain-HashHolds host [] h = tt
IsChain-HashHolds host (e ∷ es) h = (h.2, IsChain-HashHolds host es h.3)

-- A row whose payload is changed, so that it hashes to another value, and whose stored hash is left
-- as it was, makes the verification of its covenant fail.
pub tamper_detected :
    (host : Host) (db : Db) (log_id : Text) (f : Entry → Entry) (e : Entry)
    → IsLogged host db
    → first (λ r. r.log_id == log_id) db.audit_logs ≡ some e
    → (f e).covenant_id ≡ e.covenant_id
    → (f e).hash ≡ e.hash
    → compute_hash host (f e) ≢ compute_hash host e
    → (verify_chain host e.covenant_id (tamper log_id f db)).0 ≡ false
tamper_detected host db log_id f e logged found same stored differs = elim (Bool-cases v) [
  | inl valid ↦ absurd (differs (broken valid ∙ stored ∙ sym honest))
  | inr invalid ↦ invalid
]
  where
    by_id : Entry → Bool
    by_id r = r.log_id == log_id

    v : Bool
    v = (verify_chain host e.covenant_id (tamper log_id f db)).0

    honest : HashHolds host e
    honest =
        All-first (HashHolds host) by_id (of_covenant e.covenant_id) (λ r. r) e db.audit_logs found
          (==_refl e.covenant_id)
          (rw (update_where-id by_id db.audit_logs)
            (IsChain-HashHolds host (rows e.covenant_id db) (logged e.covenant_id)))

    broken : v ≡ true → HashHolds host (f e)
    broken valid =
        All-first (HashHolds host) by_id (of_covenant e.covenant_id) f e db.audit_logs found
          ((==_iff _ _).1 same)
          (verify_chain-HashHolds host (tamper log_id f db) e.covenant_id valid)

-- What an edit leaves alone if it is to stay hidden: the links of the chain.
pub record KeepsLinks (f : Entry → Entry) : Type 0 where
  pub keeps_covenant : (e : Entry) → (f e).covenant_id ≡ e.covenant_id
  pub keeps_log_id : (e : Entry) → (f e).log_id ≡ e.log_id
  pub keeps_sequence : (e : Entry) → (f e).sequence ≡ e.sequence
  pub keeps_prev : (e : Entry) → (f e).prev_log_id ≡ e.prev_log_id

module _ (host : Host) (p : Entry → Bool) (f : Entry → Entry) (k : KeepsLinks f) where
  -- the edit that sets the hash of the row anew
  abbrev forge : Entry → Entry
  forge r = hashed host (f r)

  next_sequence-forge :
      (es : List Entry) → next_sequence (head (update_where p forge es)) ≡ next_sequence (head es)
  unfolding update_where hashed
  next_sequence-forge [] = refl
  next_sequence-forge (e ∷ es) = ground (arith, k.keeps_sequence e)

  previous_id-forge :
      (es : List Entry) → previous_id (head (update_where p forge es)) ≡ previous_id (head es)
  unfolding update_where hashed
  previous_id-forge [] = refl
  previous_id-forge (e ∷ es) = ground (arith, k.keeps_log_id e)

  sequence-forge : (e : Entry) → (if p e then forge e else e).sequence ≡ e.sequence
  unfolding hashed
  sequence-forge e = ground (arith, k.keeps_sequence e)

  prev-forge : (e : Entry) → (if p e then forge e else e).prev_log_id ≡ e.prev_log_id
  unfolding hashed
  prev-forge e = ground (arith, k.keeps_prev e)

  covenant-forge : (e : Entry) → (if p e then forge e else e).covenant_id ≡ e.covenant_id
  unfolding hashed
  covenant-forge e = ground (arith, k.keeps_covenant e)

  HashHolds-forge : (e : Entry) → HashHolds host e → HashHolds host (if p e then forge e else e)
  HashHolds-forge e h = elim (Bool-cases (p e)) [
    | inl hit ↦ rw hit (compute_hash-hashed host (f e))
    | inr miss ↦ rw miss h
  ]

  IsChain-forge : (es : List Entry) → IsChain host es → IsChain host (update_where p forge es)
  unfolding update_where
  IsChain-forge [] h = tt
  IsChain-forge (e ∷ es) h = (
    sequence-forge e ∙ h.0 ∙ sym (next_sequence-forge es),
    prev-forge e ∙ h.1 ∙ sym (previous_id-forge es),
    HashHolds-forge e h.2,
    IsChain-forge es h.3,
  )

  select-forge :
      (c : Text) (es : List Entry)
      → select (of_covenant c) (update_where p forge es)
        ≡ update_where p forge (select (of_covenant c) es)
  unfolding select update_where
  select-forge c [] = refl
  select-forge c (e ∷ es) = ground (arith, covenant-forge e, select-forge c es)

-- The hash of a row covers the id of the row before it and no hash: a row that is rewritten, with
-- its own hash set anew and its identifiers kept, passes the verification of every covenant.
pub forge_undetected :
    (host : Host) (db : Db) (log_id c : Text) (f : Entry → Entry)
    → IsLogged host db
    → KeepsLinks f
    → verify_chain host c (tamper log_id (λ r. hashed host (f r)) db) ≡ (true, [])
forge_undetected host db log_id c f logged k =
    verify_chain-IsLogged host (tamper log_id (λ r. hashed host (f r)) db) c (λ d.
      rw (select-forge host (λ r. r.log_id == log_id) f k d db.audit_logs)
        (IsChain-forge host (λ r. r.log_id == log_id) f k (rows d db) (logged d)))
