-- ===== src/Reencrypt/Rewrite.antt =====
-- The scan of runOne and its rewriting of the rows that the scan found stale.
use acp_server.Base.{
  ℕ, String, ◌+◌, ◌≡◌, refl, Bool, true, ◌⊎◌, inl, inr, Option, none, some, List, [], ◌∷◌, ◌==◌,
  ==_refl, arith, All, map, length, if◌then◌else◌, Bool-cases, ap, ◌∙◌, subst, sym,
}
use acp_server.Base.Sql.{exists}
use acp_server.Store.{Text, Blob, ok, Db}
use acp_server.Keys.{KeyProvider}
use acp_server.Sealing.{Cipher, unseal}
use acp_server.Reencrypt.{
  SealedRow, Target, TableStats, Pending, Scan, parse_key_version, scan_rows, scan_row, push,
}
use acp_server.Reencrypt.Version.{unseal_version}

-- What runOne writes into a row of the primary key.
abbrev pub set_enc : Text → Blob → SealedRow → SealedRow
set_enc pk blob r = if r.pk == pk then record r { enc = some blob } else r

-- An UPDATE by primary key, as the SELECT of the target sees it.
abbrev pub IsTarget : Target → Type 0
IsTarget tgt =
    (pk : Text) (blob : Blob) (db : Db)
    → tgt.rows (tgt.update pk blob db) ≡ map (set_enc pk blob) (tgt.rows db)

-- The row is due to be rewritten.
abbrev pub is_listed : Text → List Pending → Bool
is_listed pk ps = exists (λ q. q.pk == pk) ps

-- A blob of the version `v`, or one of a row that is due.
abbrev pub IsDoneBlob : ℕ → Text → List Pending → Option Blob → Type 0
IsDoneBlob v pk ps none = Unit
IsDoneBlob v pk ps (some b) = (parse_key_version b ≡ ok v) ⊎ (is_listed pk ps ≡ true)

abbrev pub IsDone : ℕ → List Pending → SealedRow → Type 0
IsDone v ps r = IsDoneBlob v r.pk ps r.enc

module _ (c : Cipher) (p : KeyProvider) (column : String) (anchor : Text → Text)
    (plain : Text → Blob) where
  -- A blob that opens to the plaintext of its primary key.
  abbrev pub Opens : Text → Option Blob → Type 0
  Opens pk none = Unit
  Opens pk (some b) = unseal c p (anchor pk) column b ≡ ok (plain pk)

  -- A row with the additional data of its primary key, whose blob opens to its plaintext.
  abbrev pub IsKept : SealedRow → Type 0
  IsKept r = (r.aad_row ≡ anchor r.pk) × Opens r.pk r.enc

  abbrev pub IsReadable : Pending → Type 0
  IsReadable q =
      (q.aad_id ≡ anchor q.pk) × (unseal c p (anchor q.pk) column q.blob ≡ ok (plain q.pk))

  -- What a scan of rows that can be read comes to.
  pub record IsScanned (v : ℕ) (rs : List SealedRow) (ts : TableStats) (s : Scan) : Type 0 where
    pub complete : s.failure ≡ none
    pub readable : All IsReadable s.to_rewrite
    pub due : All (IsDone v s.to_rewrite) rs
    pub all_scanned : s.stats.scanned ≡ ts.scanned + length rs
    pub all_counted :
        s.stats.skipped + s.stats.null_enc + length s.to_rewrite
        ≡ ts.skipped + ts.null_enc + length rs
    pub none_yet : s.stats.reencrypted ≡ ts.reencrypted

  widen :
      (v : ℕ) (q : Pending) (ps : List Pending) (rs : List SealedRow)
      → All (IsDone v ps) rs
      → All (IsDone v (q ∷ ps)) rs
  unfolding exists
  widen v q ps [] h = tt
  widen v q ps (r ∷ rs) h = (blob r.enc h.0, widen v q ps rs h.1)
    where
      blob : (o : Option Blob) → IsDoneBlob v r.pk ps o → IsDoneBlob v r.pk (q ∷ ps) o
      blob none d = tt
      blob (some b) (inl new) = inl new
      blob (some b) (inr listed) = inr (ground arith)

  -- A row that needs no rewriting, and one that is listed, in front of scanned ones.
  passed_row :
      (v : ℕ) (r : SealedRow) (rs : List SealedRow) (ts one : TableStats) (s : Scan)
      → one.scanned ≡ ts.scanned + 1
      → one.skipped + one.null_enc ≡ ts.skipped + ts.null_enc + 1
      → one.reencrypted ≡ ts.reencrypted
      → IsDone v s.to_rewrite r
      → IsScanned v rs one s
      → IsScanned v (r ∷ rs) ts s
  passed_row v r rs ts one s seen counted still done h = record {
    complete = h.complete;
    readable = h.readable;
    due = (done, h.due);
    all_scanned = omega (arith, h.all_scanned);
    all_counted = omega (arith, h.all_counted);
    none_yet = h.none_yet ∙ still;
  }

  listed_row :
      (v : ℕ) (r : SealedRow) (rs : List SealedRow) (ts : TableStats) (b : Blob) (s : Scan)
      → r.enc ≡ some b
      → IsKept r
      → IsScanned v rs (record ts { scanned = ts.scanned + 1 }) s
      → IsScanned v (r ∷ rs) ts (push (record { pk = r.pk; aad_id = r.aad_row; blob = b }) s)
  unfolding exists
  listed_row v r rs ts b s here kept h =
      let q : Pending = record { pk = r.pk; aad_id = r.aad_row; blob = b } in
      record {
        complete = h.complete;
        readable = ((kept.0, subst (λ o. Opens r.pk o) here kept.1), h.readable);
        due = (
          subst (λ o. IsDoneBlob v r.pk (q ∷ s.to_rewrite) o) (sym here)
              (inr (rw (==_refl r.pk) refl)),
          widen v q s.to_rewrite rs h.due,
        );
        all_scanned = omega (arith, h.all_scanned);
        all_counted = omega (arith, h.all_counted);
        none_yet = h.none_yet;
      }

  scanned_head :
      (v : ℕ) (r : SealedRow) (rs : List SealedRow) (ts : TableStats) (rest : TableStats → Scan)
      → ((ts' : TableStats) → IsScanned v rs ts' (rest ts'))
      → IsKept r
      → (o : Option Blob) → r.enc ≡ o
      → IsScanned v (r ∷ rs) ts (scan_row v r (record ts { scanned = ts.scanned + 1 }) rest o)
  scanned_head v r rs ts rest more kept none null =
      let one : TableStats = record ts { scanned = ts.scanned + 1; null_enc = ts.null_enc + 1 } in
      passed_row v r rs ts one (rest one) refl (omega arith) refl
        (subst (λ o. IsDoneBlob v r.pk (rest one).to_rewrite o) (sym null) tt) (more one)
  scanned_head v r rs ts rest more kept (some b) here =
      let one : TableStats = record ts { scanned = ts.scanned + 1 } in
      let two : TableStats = record one { skipped = one.skipped + 1 } in
      let opens : Opens r.pk (some b) = subst (λ o. Opens r.pk o) here kept.1 in
      let (w, known) = unseal_version c p (anchor r.pk) column b (plain r.pk) opens in
      rw known (elim (Bool-cases (w == v)) [
        | inl same ↦ rw same (
            passed_row v r rs ts two (rest two) refl (omega arith) refl
              (subst (λ o. IsDoneBlob v r.pk (rest two).to_rewrite o) (sym here)
                (inl (known ∙ ap (λ (n : ℕ). ok n) (ground arith))))
              (more two))
        | inr stale ↦ rw stale (listed_row v r rs ts b (rest one) here kept (more one))
      ])

  pub scan_rows-IsScanned :
      (v : ℕ) (rs : List SealedRow) (ts : TableStats)
      → All IsKept rs
      → IsScanned v rs ts (scan_rows v rs ts)
  unfolding scan_rows
  scan_rows-IsScanned v [] ts kept = record {
    complete = refl;
    readable = tt;
    due = tt;
    all_scanned = omega arith;
    all_counted = omega arith;
    none_yet = refl;
  }
  scan_rows-IsScanned v (r ∷ rs) ts kept =
      scanned_head v r rs ts (λ ts'. scan_rows v rs ts')
        (λ ts'. scan_rows-IsScanned v rs ts' kept.1) kept.0 r.enc refl
