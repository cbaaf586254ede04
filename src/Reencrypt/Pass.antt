-- ===== src/Reencrypt/Pass.antt =====
-- A whole pass over one target: runOne of internal/reencrypt/reencrypt.go.
use acp_server.Base.{
  ℕ, ◌+◌, ◌≤◌, ◌<◌, ◌≡◌, refl, false, inl, inr, Option, none, some, List, [], ◌∷◌, ◌==◌, ==_refl,
  arith, All, map, length, Bool-cases, subst, sym,
}
use acp_server.Base.Sql.{exists}
use acp_server.Store.{Text, Blob, ok, Db}
use acp_server.Keys.{KeyProvider}
use acp_server.Sealing.{Aead, Cipher, new_aead, unseal, nonce_size, max_key_version}
use acp_server.Sealing.RoundTrip.{IsAuthentic, blob_under, seal-blob_under, unseal-blob_under}
use acp_server.Reencrypt.{
  SealedRow, Target, TableStats, no_stats, Pending, Scan, parse_key_version, scan_rows, reseal,
  rewrite_rows, scan_row, Pass, run_one, after_scan,
}
use acp_server.Reencrypt.Version.{version-write_header, unseal_named}
use acp_server.Reencrypt.Rewrite.{
  set_enc, IsTarget, IsDoneBlob, IsDone, IsKept, IsReadable, IsScanned, scan_rows-IsScanned,
}

-- A blob, if there is one, is of the version `v`.
abbrev pub IsCurrentBlob : ℕ → Option Blob → Type 0
IsCurrentBlob v none = Unit
IsCurrentBlob v (some b) = parse_key_version b ≡ ok v

-- What a pass that completed leaves: the rows open to the same plaintexts and are of the current
-- version, and each row was counted once.
abbrev pub IsCompleted :
    Cipher
    → KeyProvider
    → ℕ
    → Target
    → (Text → Text)
    → (Text → Blob)
    → Db
    → Pass TableStats
    → Type 0
IsCompleted c p v tgt anchor plain db (ts, failure, db') =
    (failure ≡ none)
    × All (IsKept c p tgt.aad_column anchor plain) (tgt.rows db')
    × All (λ r. IsCurrentBlob v r.enc) (tgt.rows db')
    × (ts.scanned ≡ length (tgt.rows db))
    × (ts.reencrypted + ts.skipped + ts.null_enc ≡ ts.scanned)

module _ (c : Cipher) (a : Aead) (key : Blob) (v : ℕ) (accepted : new_aead c key ≡ ok a)
    (low : 0 < v) (high : v ≤ max_key_version) (authentic : IsAuthentic a) (p : KeyProvider)
    (current : p.current ≡ ok (key, v)) (known : p.key_at v ≡ ok key) (nonce : ℕ → Blob)
    (whole : (n : ℕ) → length (nonce n) ≡ nonce_size) (tgt : Target) (target : IsTarget tgt)
    (anchor : Text → Text) (plain : Text → Blob) where
  abbrev Kept : SealedRow → Type 0
  Kept = IsKept c p tgt.aad_column anchor plain

  abbrev Readable : Pending → Type 0
  Readable = IsReadable c p tgt.aad_column anchor plain

  abbrev fresh_blob : ℕ → Pending → Blob
  fresh_blob n q = blob_under c a v (nonce n) (anchor q.pk) tgt.aad_column (plain q.pk)

  reseal-fresh :
      (n : ℕ) (q : Pending)
      → Readable q
      → reseal c p (λ m. ok (nonce m)) n tgt q ≡ ok (fresh_blob n q)
  unfolding reseal
  reseal-fresh n q r =
      let named = unseal_named c p (anchor q.pk) tgt.aad_column q.blob (plain q.pk) r.1 in
      rw (r.0, r.1)
        (let sealed =
            seal-blob_under c a key v (nonce n) accepted low high (whole n) authentic p
              (anchor q.pk) tgt.aad_column (plain q.pk) named current in
          rw sealed refl)

  fresh-Opens :
      (n : ℕ) (q : Pending)
      → Readable q
      → unseal c p (anchor q.pk) tgt.aad_column (fresh_blob n q) ≡ ok (plain q.pk)
  fresh-Opens n q r =
      unseal-blob_under c a key v (nonce n) accepted low high (whole n) authentic p (anchor q.pk)
        tgt.aad_column (plain q.pk)
        (unseal_named c p (anchor q.pk) tgt.aad_column q.blob (plain q.pk) r.1) known

  -- One UPDATE of a fresh blob keeps what the rows open to, and takes one row off the list.
  set_enc-keeps :
      (n : ℕ) (q : Pending) (ps : List Pending) (r : SealedRow)
      → Readable q
      → Kept r × IsDone v (q ∷ ps) r
      → Kept (set_enc q.pk (fresh_blob n q) r) × IsDone v ps (set_enc q.pk (fresh_blob n q) r)
  unfolding exists
  set_enc-keeps n q ps r readable (kept, done) = elim (Bool-cases (r.pk == q.pk)) [
    | inl same ↦
        let e : r.pk ≡ q.pk = ground arith in
        rw same (
          (
            kept.0,
            subst
                (λ (t : Text). unseal c p (anchor t) tgt.aad_column (fresh_blob n q) ≡ ok (plain t))
                (sym e) (fresh-Opens n q readable),
          ),
          inl (version-write_header v (nonce n) _ high),
        )
    | inr other ↦
        let apart : (q.pk == r.pk) ≡ false = ground arith in rw other (kept, still apart r.enc done)
  ]
    where
      still :
          (q.pk == r.pk) ≡ false
          → (o : Option Blob) → IsDoneBlob v r.pk (q ∷ ps) o
          → IsDoneBlob v r.pk ps o
      still apart none d = tt
      still apart (some b) (inl new) = inl new
      still apart (some b) (inr listed) = inr (rw apart at listed)

  abbrev BothAll : List Pending → List SealedRow → Type 0
  BothAll ps rs = All (λ r. Kept r × IsDone v ps r) rs

  update-keeps :
      (n : ℕ) (q : Pending) (ps : List Pending) (rs : List SealedRow)
      → Readable q
      → BothAll (q ∷ ps) rs
      → BothAll ps (map (set_enc q.pk (fresh_blob n q)) rs)
  update-keeps n q ps [] readable h = tt
  update-keeps n q ps (r ∷ rs) readable h =
      (set_enc-keeps n q ps r readable h.0, update-keeps n q ps rs readable h.1)

  -- What the rewriting comes to.
  record IsRewritten (ps : List Pending) (ts : TableStats) (out : Pass TableStats) : Type 0 where
    complete : out.1 ≡ none
    rows : BothAll [] (tgt.rows out.2)
    counted : out.0.reencrypted ≡ ts.reencrypted + length ps
    scanned : out.0.scanned ≡ ts.scanned
    skipped : out.0.skipped ≡ ts.skipped
    nulls : out.0.null_enc ≡ ts.null_enc

  rewrite_rows-IsRewritten :
      (n : ℕ) (ps : List Pending) (ts : TableStats) (db : Db)
      → All Readable ps
      → BothAll ps (tgt.rows db)
      → IsRewritten ps ts (rewrite_rows c p (λ m. ok (nonce m)) n tgt ps ts db)
  unfolding rewrite_rows
  rewrite_rows-IsRewritten n [] ts db readable both = record {
    complete = refl;
    rows = both;
    counted = omega arith;
    scanned = refl;
    skipped = refl;
    nulls = refl;
  }
  rewrite_rows-IsRewritten n (q ∷ ps) ts db readable both = rw (reseal-fresh n q readable.0) (
      let h =
        rewrite_rows-IsRewritten (n + 1) ps (record ts { reencrypted = ts.reencrypted + 1 })
          (tgt.update q.pk (fresh_blob n q) db) readable.1
          (subst (BothAll ps) (sym (target q.pk (fresh_blob n q) db))
            (update-keeps n q ps (tgt.rows db) readable.0 both)) in
      record {
        complete = h.complete;
        rows = h.rows;
        counted = omega (arith, h.counted);
        scanned = h.scanned;
        skipped = h.skipped;
        nulls = h.nulls;
      })

  both_of :
      (ps : List Pending) (rs : List SealedRow) → All Kept rs → All (IsDone v ps) rs → BothAll ps rs
  both_of ps [] kept done = tt
  both_of ps (r ∷ rs) kept done = ((kept.0, done.0), both_of ps rs kept.1 done.1)

  Kept-of : (ps : List Pending) (rs : List SealedRow) → BothAll ps rs → All Kept rs
  Kept-of ps [] both = tt
  Kept-of ps (r ∷ rs) both = (both.0.0, Kept-of ps rs both.1)

  done-IsCurrent : (pk : Text) (o : Option Blob) → IsDoneBlob v pk [] o → IsCurrentBlob v o
  unfolding exists
  done-IsCurrent pk none d = tt
  done-IsCurrent pk (some b) (inl new) = new
  done-IsCurrent pk (some b) (inr listed) = cc

  currents : (rs : List SealedRow) → BothAll [] rs → All (λ r. IsCurrentBlob v r.enc) rs
  currents [] both = tt
  currents (r ∷ rs) both = (done-IsCurrent r.pk r.enc both.0.1, currents rs both.1)

  idle_head :
      (r : SealedRow) (one : TableStats) (rest : TableStats → Scan)
      → ((ts : TableStats) → (rest ts).to_rewrite ≡ [])
      → (o : Option Blob) → IsCurrentBlob v o
      → (scan_row v r one rest o).to_rewrite ≡ []
  idle_head r one rest idle none e = idle _
  idle_head r one rest idle (some b) e = rw (e, ==_refl v) (idle _)

  idle_scan :
      (rs : List SealedRow) (ts : TableStats)
      → All (λ r. IsCurrentBlob v r.enc) rs
      → (scan_rows v rs ts).to_rewrite ≡ []
  unfolding scan_rows
  idle_scan [] ts h = refl
  idle_scan (r ∷ rs) ts h =
      idle_head r (record ts { scanned = ts.scanned + 1 }) (λ ts'. scan_rows v rs ts')
        (λ ts'. idle_scan rs ts' h.1) r.enc h.0

  after_scan-IsCompleted :
      (n : ℕ) (db : Db) (s : Scan)
      → All Kept (tgt.rows db)
      → IsScanned c p tgt.aad_column anchor plain v (tgt.rows db) no_stats s
      → IsCompleted c p v tgt anchor plain db
          (after_scan c p (λ m. ok (nonce m)) n tgt db s.failure s.stats s.to_rewrite)
  after_scan-IsCompleted n db s kept h = rw h.complete (
      let w =
        rewrite_rows-IsRewritten n s.to_rewrite s.stats db h.readable
          (both_of s.to_rewrite (tgt.rows db) kept h.due) in
      (
        w.complete,
        Kept-of [] _ w.rows,
        currents _ w.rows,
        omega (arith, w.scanned, h.all_scanned),
        omega (
          arith, w.scanned, w.skipped, w.nulls, w.counted, h.all_scanned, h.all_counted, h.none_yet,
        ),
      ))

  run_one-IsCompleted :
      (n : ℕ) (db : Db)
      → All Kept (tgt.rows db)
      → IsCompleted c p v tgt anchor plain db (run_one c p (λ m. ok (nonce m)) n tgt v db)
  unfolding run_one
  run_one-IsCompleted n db kept =
      after_scan-IsCompleted n db (scan_rows v (tgt.rows db) no_stats) kept
        (scan_rows-IsScanned c p tgt.aad_column anchor plain v (tgt.rows db) no_stats kept)

  -- A pass over rows of the current version writes nothing.
  run_one_idle :
      (n : ℕ) (db : Db)
      → All Kept (tgt.rows db)
      → All (λ r. IsCurrentBlob v r.enc) (tgt.rows db)
      → let (ts, failure, db') = run_one c p (λ m. ok (nonce m)) n tgt v db in
        (failure ≡ none) × (ts.reencrypted ≡ 0) × (db' ≡ db)
  unfolding run_one rewrite_rows
  run_one_idle n db kept new =
      let h = scan_rows-IsScanned c p tgt.aad_column anchor plain v (tgt.rows db) no_stats kept in
      rw (h.complete, idle_scan (tgt.rows db) no_stats new) (refl, h.none_yet, refl)

  -- Where the additional data of each row and its plaintext are given by its primary key, and each
  -- blob opens to it, a pass under a current key of 24 bits ends without an error: every blob then
  -- is of the current version and opens to the same plaintext, each row is counted once, as
  -- rewritten, skipped or NULL, and a second pass rewrites nothing and leaves the database as it is.
  pub run_one_completes :
      (n m : ℕ) (db : Db)
      → All (IsKept c p tgt.aad_column anchor plain) (tgt.rows db)
      → let first_pass = run_one c p (λ k. ok (nonce k)) n tgt v db in
        IsCompleted c p v tgt anchor plain db first_pass
        × (let (ts, failure, db') = run_one c p (λ k. ok (nonce k)) m tgt v first_pass.2 in
            (failure ≡ none) × (ts.reencrypted ≡ 0) × (db' ≡ first_pass.2))
  run_one_completes n m db kept =
      let done = run_one-IsCompleted n db kept in
      (done, run_one_idle m (run_one c p (λ k. ok (nonce k)) n tgt v db).2 done.1 done.2)
