-- ===== src/Audit/Verify.antt =====
-- What `VerifyChain` of internal/audit/audit.go reports, on a chain and on a log with a broken row.
use acp_server.Base.{
  ℕ, suc, ◌≤◌, ◌≡◌, refl, true, List, [], ◌∷◌, ◌++◌, append_assoc, Bool-cases, inl, inr, arith, All,
  leb,
}
use acp_server.Base.Sql.{order_by, insert_by}
use acp_server.Store.{Text, empty, Entry, Db, Host}
use acp_server.Audit.{
  rows, compute_hash, next_sequence, previous_id, Violation, verify_rows, verify_chain,
  link_violations, hash_violations, no_violation,
}
use acp_server.Audit.Chain.{IsChain, IsLogged, head}

abbrev seq : Entry → ℕ
seq r = r.sequence

abbrev Below : ℕ → List Entry → Type 0
Below n = All (λ r. suc r.sequence ≤ n)

-- The rows in order of their sequence are the chain from its oldest row.
insert_by-last :
    (e : Entry) (es : List Entry) → Below e.sequence es → insert_by seq e es ≡ es ++ e ∷ []
unfolding insert_by
insert_by-last e [] h = refl
insert_by-last e (r ∷ es) h = ground (arith, insert_by-last e es h.1)

Below-append :
    (n : ℕ) (e : Entry) (es : List Entry) → Below n es → suc e.sequence ≤ n → Below n (es ++ e ∷ [])
Below-append n e [] h p = (p, tt)
Below-append n e (r ∷ es) h p = (h.0, Below-append n e es h.1 p)

Below-weaken : (m n : ℕ) (es : List Entry) → m ≤ n → Below m es → Below n es
Below-weaken m n [] p h = tt
Below-weaken m n (r ∷ es) p h = (omega arith, Below-weaken m n es p h.1)

-- The rows in order, and a bound on their numbers.
order_by-IsChain :
    (host : Host) (e : Entry) (es : List Entry)
    → IsChain host (e ∷ es)
    → Below (next_sequence (head es)) (order_by seq es)
    → order_by seq (e ∷ es) ≡ order_by seq es ++ e ∷ []
unfolding order_by
order_by-IsChain host e es h b =
    insert_by-last e (order_by seq es)
      (Below-weaken (next_sequence (head es)) e.sequence (order_by seq es) (omega (arith, h.0)) b)

Below-order_by :
    (host : Host) (es : List Entry)
    → IsChain host es
    → Below (next_sequence (head es)) (order_by seq es)
unfolding order_by
Below-order_by host [] h = tt
Below-order_by host (e ∷ es) h =
    let ih = Below-order_by host es h.3 in
    rw (order_by-IsChain host e es h ih) (
      Below-append (suc e.sequence) e (order_by seq es)
        (Below-weaken (next_sequence (head es)) (suc e.sequence) (order_by seq es)
          (omega (arith, h.0)) ih)
        (omega arith))

last_id : Text → List Entry → Text
last_id prev [] = prev
last_id prev (e ∷ es) = last_id e.log_id es

last_id-append :
    (prev : Text) (es : List Entry) (e : Entry) → last_id prev (es ++ e ∷ []) ≡ e.log_id
unfolding last_id
last_id-append prev [] e = refl
last_id-append prev (r ∷ es) e = last_id-append r.log_id es e

last_id-order_by :
    (host : Host) (es : List Entry)
    → IsChain host es
    → last_id empty (order_by seq es) ≡ previous_id (head es)
unfolding last_id order_by
last_id-order_by host [] h = refl
last_id-order_by host (e ∷ es) h =
    rw (order_by-IsChain host e es h (Below-order_by host es h.3))
      (last_id-append empty (order_by seq es) e)

verify_rows-append :
    (host : Host) (prev : Text) (es : List Entry) (e : Entry)
    → verify_rows host prev (es ++ e ∷ [])
      ≡ verify_rows host prev es
        ++ (link_violations (last_id prev es) e ++ (hash_violations host e ++ []))
unfolding verify_rows last_id
verify_rows-append host prev [] e = refl
verify_rows-append host prev (r ∷ es) e =
    rw (verify_rows-append host r.log_id es e) (simp append_assoc)

link-ok : (prev : Text) (e : Entry) → e.prev_log_id ≡ prev → link_violations prev e ≡ []
link-ok prev e h = ground arith

hash-ok : (host : Host) (e : Entry) → compute_hash host e ≡ e.hash → hash_violations host e ≡ []
hash-ok host e h = ground arith

verify_rows-IsChain :
    (host : Host) (es : List Entry)
    → IsChain host es
    → verify_rows host empty (order_by seq es) ≡ []
unfolding verify_rows order_by
verify_rows-IsChain host [] h = refl
verify_rows-IsChain host (e ∷ es) h = rw (
  order_by-IsChain host e es h (Below-order_by host es h.3),
  verify_rows-append host empty (order_by seq es) e,
  verify_rows-IsChain host es h.3,
  last_id-order_by host es h.3,
  link-ok (previous_id (head es)) e h.1,
  hash-ok host e h.2,
)

-- In a log of chains the verification of every covenant succeeds and reports nothing.
pub verify_chain-IsLogged :
    (host : Host) (db : Db) (c : Text) → IsLogged host db → verify_chain host c db ≡ (true, [])
unfolding verify_chain
verify_chain-IsLogged host db c h = rw (verify_rows-IsChain host (rows c db) (h c))

-- The other way round: what a successful verification says of each row.
abbrev pub HashHolds : Host → Entry → Type 0
HashHolds host e = compute_hash host e ≡ e.hash

append-eq-nil : (xs ys : List Violation) → xs ++ ys ≡ [] → (xs ≡ []) × (ys ≡ [])
append-eq-nil [] ys h = (refl, h)
append-eq-nil (x ∷ xs) ys h = cc

no_violation-eq-nil : (vs : List Violation) → no_violation vs ≡ true → vs ≡ []
no_violation-eq-nil [] h = refl
no_violation-eq-nil (v ∷ vs) h = cc

hash_violations-eq-nil : (host : Host) (e : Entry) → hash_violations host e ≡ [] → HashHolds host e
hash_violations-eq-nil host e h = ground arith

verify_rows-HashHolds :
    (host : Host) (prev : Text) (es : List Entry)
    → verify_rows host prev es ≡ []
    → All (HashHolds host) es
unfolding verify_rows
verify_rows-HashHolds host prev [] h = tt
verify_rows-HashHolds host prev (e ∷ es) h =
    let later = (append-eq-nil (link_violations prev e) _ h).1 in
    let (here, rest) = append-eq-nil (hash_violations host e) _ later in
    (hash_violations-eq-nil host e here, verify_rows-HashHolds host e.log_id es rest)

All-insert_by :
    (P : Entry → Type 0) (e : Entry) (es : List Entry) → All P (insert_by seq e es) → P e × All P es
unfolding insert_by
All-insert_by P e [] h = h
All-insert_by P e (r ∷ es) h = elim (Bool-cases (leb r.sequence e.sequence)) [
  | inl after ↦
      let (p, rest) = rw after at h in
      let (q, others) = All-insert_by P e es rest in (q, (p, others))
  | inr before ↦ rw before at h
]

All-order_by : (P : Entry → Type 0) (es : List Entry) → All P (order_by seq es) → All P es
unfolding order_by
All-order_by P [] h = tt
All-order_by P (e ∷ es) h =
    let (p, rest) = All-insert_by P e (order_by seq es) h in (p, All-order_by P es rest)

pub verify_chain-HashHolds :
    (host : Host) (db : Db) (c : Text)
    → (verify_chain host c db).0 ≡ true
    → All (HashHolds host) (rows c db)
unfolding verify_chain
verify_chain-HashHolds host db c h =
    All-order_by (HashHolds host) (rows c db)
      (verify_rows-HashHolds host empty (order_by seq (rows c db)) (no_violation-eq-nil _ h))
