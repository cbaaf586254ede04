-- ===== src/Audit/Chain.antt =====
-- What the log of internal/audit/audit.go keeps: sequence numbers without gaps, links, and hashes.
use acp_server.Base.{
  ◌≡◌, refl, ap, ◌∙◌, inl, inr, true, false, Option, none, some, List, [], ◌∷◌, ◌==◌, ==_iff,
  Bool-cases, arith,
}
use acp_server.Base.Sql.{select, last_by}
use acp_server.Store.{Text, Entry, Db, Host, Draw, ok, err, unique_violation, wrap}
use acp_server.Audit.{
  rows, compute_hash, hash_components, next_sequence, previous_id, numbered, hashed, append_row,
  log_event, has_log, new_row, last_row,
}

abbrev pub head : List Entry → Option Entry
head [] = none
head (e ∷ es) = some e

-- The rows of a covenant, the newest first: each has the next sequence number, links to the row
-- before it, and stores its own hash.
abbrev pub IsChain : Host → List Entry → Type 0
IsChain host [] = Unit
IsChain host (e ∷ es) =
    (e.sequence ≡ next_sequence (head es))
    × (e.prev_log_id ≡ previous_id (head es))
    × (compute_hash host e ≡ e.hash)
    × IsChain host es

-- Every covenant's rows are a chain.
abbrev pub IsLogged : Host → Db → Type 0
IsLogged host db = (covenant_id : Text) → IsChain host (rows covenant_id db)

-- The newest row of a chain has the greatest sequence number.
pub last_by-IsChain :
    (host : Host) (es : List Entry) → IsChain host es → last_by (λ r. r.sequence) es ≡ head es
unfolding last_by
last_by-IsChain host [] h = refl
last_by-IsChain host (e ∷ []) h = refl
last_by-IsChain host (e ∷ f ∷ es) h =
    let ih = last_by-IsChain host (f ∷ es) h.3 in rw (ih, last_by) (ground arith)

-- The row that the log writes carries on the chain of its covenant.
pub compute_hash-hashed :
    (host : Host) (e : Entry) → compute_hash host (hashed host e) ≡ (hashed host e).hash
unfolding hashed compute_hash hash_components
compute_hash-hashed host e = refl

numbered-IsChain :
    (host : Host) (draw : Draw) (e : Entry) (es : List Entry) (last : Option Entry)
    → last ≡ head es
    → IsChain host es
    → IsChain host (hashed host (numbered host draw last e) ∷ es)
unfolding hashed numbered
numbered-IsChain host draw e es last p h =
    (ap next_sequence p, ap previous_id p, compute_hash-hashed host (numbered host draw last e), h)

abbrev pub add_row : Entry → Db → Db
add_row row db = record db { audit_logs = row ∷ db.audit_logs }

append_row-fresh :
    (e : Entry) (db : Db) → has_log e.log_id db ≡ false → append_row e db ≡ (ok e, add_row e db)
unfolding append_row
append_row-fresh e db h = rw h

append_row-taken :
    (e : Entry) (db : Db)
    → has_log e.log_id db ≡ true
    → append_row e db
      ≡ (err (wrap "insert audit log: %w" (unique_violation "audit_logs.log_id")), db)
unfolding append_row
append_row-taken e db h = rw h

-- A log id that is drawn afresh: the row is added, behind the last row of its covenant.
pub log_event-fresh :
    (host : Host) (draw : Draw) (e : Entry) (db : Db)
    → has_log draw.log_id db ≡ false
    → log_event host draw e db ≡ (ok (new_row host draw e db), add_row (new_row host draw e db) db)
unfolding log_event hashed numbered
log_event-fresh host draw e db h = append_row-fresh (new_row host draw e db) db h

-- A log id that is in use: nothing is written.
pub log_event-taken :
    (host : Host) (draw : Draw) (e : Entry) (db : Db)
    → has_log draw.log_id db ≡ true
    → log_event host draw e db
      ≡ (err (wrap "insert audit log: %w" (unique_violation "audit_logs.log_id")), db)
unfolding log_event hashed numbered
log_event-taken host draw e db h = append_row-taken (new_row host draw e db) db h

-- In a log of chains the last row of a covenant is its newest.
pub last_row-IsLogged :
    (host : Host) (db : Db) (c : Text) → IsLogged host db → last_row c db ≡ head (rows c db)
unfolding last_row
last_row-IsLogged host db c h = last_by-IsChain host (rows c db) (h c)

add_row-IsLogged :
    (host : Host) (draw : Draw) (e : Entry) (db : Db)
    → IsLogged host db
    → IsLogged host (add_row (new_row host draw e db) db)
unfolding select hashed numbered
add_row-IsLogged host draw e db h c = elim (Bool-cases (e.covenant_id == c)) [
  | inl same ↦ rw same (
      numbered-IsChain host draw e (rows c db) (last_row e.covenant_id db)
        (ap (λ k. last_row k db) ((==_iff e.covenant_id c).0 same) ∙ last_row-IsLogged host db c h)
        (h c))
  | inr apart ↦ rw apart (h c)
]

-- An event is added to the chain of its covenant, and the other chains stay as they are.
pub log_event-IsLogged :
    (host : Host) (draw : Draw) (e : Entry) (db : Db)
    → IsLogged host db
    → IsLogged host (log_event host draw e db).1
log_event-IsLogged host draw e db h = elim (Bool-cases (has_log draw.log_id db)) [
  | inl taken ↦ rw (log_event-taken host draw e db taken) h
  | inr fresh ↦ rw (log_event-fresh host draw e db fresh) (add_row-IsLogged host draw e db h)
]
