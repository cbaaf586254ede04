-- ===== src/Reencrypt.antt =====
-- internal/reencrypt/reencrypt.go: the pass that seals the rows of retired key versions anew. Each
-- target is a view of its table; a pass gives back its counts also beside an error.
use acp_server.Base.{
  ℕ, zero, suc, String, ◌+◌, ◌*◌, ◌^◌, Bool, true, false, not, Option, none, some, List, [], ◌∷◌,
  ◌++◌, ◌==◌, ltb, if◌then◌else◌, length, map,
}
use acp_server.Base.Int.{pos}
use acp_server.Base.Sql.{update_where}
use acp_server.Store.{Text, Blob, Value, Error, Result, ok, err, Db, Identity, AccessRequest}
use acp_server.Store.Results.{◌>>=◌, ◌>>◌, refuse_if}
use acp_server.Keys.{KeyProvider}
use acp_server.Sealing.{Cipher, seal, unseal, byte_at, big_endian_u24, version_byte}
pub mod Version
pub mod Rewrite
pub mod Pass
pub mod Targets

-- A row of the SELECT: primary key, the row of the additional data, and the blob or NULL.
pub record SealedRow : Type 0 where
  pub pk : Text
  pub aad_row : Text
  pub enc : Option Blob

-- Target: the SELECT and the UPDATE that are formed from its names.
pub record Target : Type 0 where
  pub table : String
  pub rows : Db → List SealedRow
  pub update : Text → Blob → Db → Db
  pub aad_column : String

abbrev pub identity_row : Identity → SealedRow
identity_row r = record {
  pk = r.platform_id;
  aad_row = r.platform_id_hash;
  enc = r.platform_id_enc;
}

abbrev pub request_row : AccessRequest → SealedRow
request_row r = record { pk = r.request_id; aad_row = r.platform_id_hash; enc = r.platform_id_enc }

abbrev pub identity_target : Target
identity_target = record {
  table = "platform_identities";
  rows = λ db. map identity_row db.platform_identities;
  update = λ pk blob db. record db {
    platform_identities =
        update_where (λ r. r.platform_id == pk) (λ r. record r { platform_id_enc = some blob })
          db.platform_identities;
  };
  aad_column = "platform_id";
}

abbrev pub request_target : Target
request_target = record {
  table = "agent_access_requests";
  rows = λ db. map request_row db.agent_access_requests;
  update = λ pk blob db. record db {
    agent_access_requests =
        update_where (λ r. r.request_id == pk) (λ r. record r { platform_id_enc = some blob })
          db.agent_access_requests;
  };
  aad_column = "platform_id";
}

abbrev pub default_targets : List Target
default_targets = identity_target ∷ request_target ∷ []

pub record TableStats : Type 0 where
  pub scanned : ℕ
  pub reencrypted : ℕ
  pub skipped : ℕ
  pub null_enc : ℕ

abbrev pub no_stats : TableStats
no_stats = record { scanned = 0; reencrypted = 0; skipped = 0; null_enc = 0 }

-- parseKeyVersion
unfoldable pub parse_key_version : Blob → Result ℕ
parse_key_version blob =
    refuse_if (ltb (length blob) 4)
      (Error.errorf "ciphertext truncated: %d bytes" (Value.int (pos (length blob)) ∷ []))
    >> refuse_if (not (byte_at blob 0 == version_byte)) (
        Error.errorf "unsupported ciphertext version 0x%02x"
          (Value.int (pos (byte_at blob 0)) ∷ []))
    >> ok (big_endian_u24 (byte_at blob 1) (byte_at blob 2) (byte_at blob 3))

pub record Pending : Type 0 where
  pub pk : Text
  pub aad_id : Text
  pub blob : Blob

-- What the scan found: the counts, the error that stopped it, and the rows to rewrite in order.
pub record Scan : Type 0 where
  pub stats : TableStats
  pub failure : Option Error
  pub to_rewrite : List Pending

abbrev pub push : Pending → Scan → Scan
push p s = record s { to_rewrite = p ∷ s.to_rewrite }

abbrev pub stop_scan : TableStats → Error → Scan
stop_scan ts e = record { stats = ts; failure = some e; to_rewrite = [] }

-- The rest of the scan, by the blob of the row and its version.
abbrev pub scan_version : ℕ → SealedRow → Blob → TableStats → (TableStats → Scan) → Result ℕ → Scan
scan_version current r b ts rest (err e) = stop_scan ts (Error.wrap "row %s=%q: %w" e)
scan_version current r b ts rest (ok v) =
    if v == current
    then rest (record ts { skipped = ts.skipped + 1 })
    else push (record { pk = r.pk; aad_id = r.aad_row; blob = b }) (rest ts)

abbrev pub scan_row : ℕ → SealedRow → TableStats → (TableStats → Scan) → Option Blob → Scan
scan_row current r ts rest none = rest (record ts { null_enc = ts.null_enc + 1 })
scan_row current r ts rest (some b) = scan_version current r b ts rest (parse_key_version b)

unfoldable pub scan_rows : ℕ → List SealedRow → TableStats → Scan
scan_rows current [] ts = record { stats = ts; failure = none; to_rewrite = [] }
scan_rows current (r ∷ rs) ts =
    scan_row current r (record ts { scanned = ts.scanned + 1 }) (λ ts'. scan_rows current rs ts')
      r.enc

-- What a pass comes to: its counts, an error or none, and the database.
abbrev pub Pass : Type 0 → Type 0
Pass S = S × Option Error × Db

abbrev pub wrapped_row {ℓ} : {A : Type ℓ} → String → Result A → Result A
wrapped_row format (ok a) = ok a
wrapped_row format (err e) = err (Error.wrap format e)

pub record Stats : Type 0 where
  pub scanned : ℕ
  pub reencrypted : ℕ
  pub skipped : ℕ
  pub null_enc : ℕ
  pub per_table : List (String × TableStats)

abbrev pub no_totals : Stats
no_totals = record { scanned = 0; reencrypted = 0; skipped = 0; null_enc = 0; per_table = [] }

abbrev pub add_table : Target → TableStats → Stats → Stats
add_table tgt ts s = record {
  scanned = s.scanned + ts.scanned;
  reencrypted = s.reencrypted + ts.reencrypted;
  skipped = s.skipped + ts.skipped;
  null_enc = s.null_enc + ts.null_enc;
  per_table = (tgt.table, ts) ∷ s.per_table;
}

module _ (c : Cipher) (p : KeyProvider) (draws : ℕ → Result Blob) where
  -- Open and Seal of one row; `n` counts the nonces.
  unfoldable pub reseal : ℕ → Target → Pending → Result Blob
  reseal n tgt row = do
    plaintext ← wrapped_row "open row %s=%q: %w" (unseal c p row.aad_id tgt.aad_column row.blob)
    wrapped_row "seal row %s=%q: %w" (seal c p (draws n) row.aad_id tgt.aad_column plaintext)

  abbrev pub rewrite_row :
      Target
      → Pending
      → TableStats
      → Db
      → (TableStats → Db → Pass TableStats)
      → Result Blob
      → Pass TableStats
  rewrite_row tgt row ts db rest (err e) = (ts, some e, db)
  rewrite_row tgt row ts db rest (ok fresh) =
      rest (record ts { reencrypted = ts.reencrypted + 1 }) (tgt.update row.pk fresh db)

  unfoldable pub rewrite_rows : ℕ → Target → List Pending → TableStats → Db → Pass TableStats
  rewrite_rows n tgt [] ts db = (ts, none, db)
  rewrite_rows n tgt (row ∷ rows) ts db =
      rewrite_row tgt row ts db (λ ts' db'. rewrite_rows (n + 1) tgt rows ts' db')
        (reseal n tgt row)

  abbrev pub after_scan :
      ℕ → Target → Db → Option Error → TableStats → List Pending → Pass TableStats
  after_scan n tgt db (some e) ts rows = (ts, some e, db)
  after_scan n tgt db none ts rows = rewrite_rows n tgt rows ts db

  -- runOne; the nonces are taken from the n-th on.
  unfoldable pub run_one : ℕ → Target → ℕ → Db → Pass TableStats
  run_one n tgt current db =
      let s = scan_rows current (tgt.rows db) no_stats in
      after_scan n tgt db s.failure s.stats s.to_rewrite

  abbrev pub after_table :
      Target → Stats → (Stats → ℕ → Db → Pass Stats) → Pass TableStats → Pass Stats
  after_table tgt s rest (ts, some e, db) =
      (add_table tgt ts s, some (Error.wrap "reencrypt %s: %w" e), db)
  after_table tgt s rest (ts, none, db) = rest (add_table tgt ts s) ts.reencrypted db

  unfoldable pub run_from : ℕ → List Target → ℕ → Stats → Db → Pass Stats
  run_from n [] current s db = (s, none, db)
  run_from n (tgt ∷ tgts) current s db =
      after_table tgt s (λ s' used db'. run_from (n + used) tgts current s' db')
        (run_one n tgt current db)

  abbrev pub run_current : List Target → Db → Result (Blob × ℕ) → Pass Stats
  run_current tgts db (err e) =
      (no_totals, some (Error.wrap "reencrypt: resolve current key_version: %w" e), db)
  run_current tgts db (ok (key, version)) = run_from 0 tgts version no_totals db

  -- RunTargets
  unfoldable pub run_targets : List Target → Db → Pass Stats
  run_targets tgts db = run_current tgts db p.current
