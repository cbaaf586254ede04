-- ===== src/Keys/Ring.antt =====
-- The keyring of internal/keys/local.go: its lookups, the rotation, and the three ways to start.
use acp_server.Base.{
  ℕ, ◌+◌, ◌%◌, Bool, true, false, not, Option, none, some, List, [], ◌∷◌, ◌==◌, ltb, if◌then◌else◌,
}
use acp_server.Store.{Text, Blob, Error, Result, ok, err}
use acp_server.Store.Results.{◌>>=◌, ◌>>◌, refuse_if}
use acp_server.Keys.Names.{version_filename, u32_size, NameOf, name_of}
use acp_server.Keys.Files.{
  FilePath, legacy, keyring, in_keyring, Stat, found, not_exist, failed, DirEntry, Os, owner_only,
  check_perms, check_dir_perms, read_keyfile, stat_ok, wrapped, legacy_exists, ensure_dir,
}

-- LocalKeyfileProvider, without its paths and its lock.
pub record Keyring : Type 0 where
  pub entries : List (ℕ × Blob)
  pub current : ℕ
  pub first_start : Bool
  pub migrated : Bool

abbrev pub new_keyring : Keyring
new_keyring = record { entries = []; current = 0; first_start = false; migrated = false }

-- A Go map by its entries.
unfoldable pub lookup : ℕ → List (ℕ × Blob) → Option Blob
lookup v [] = none
lookup v ((w, k) ∷ m) = if w == v then some k else lookup v m

unfoldable pub put : ℕ → Blob → List (ℕ × Blob) → List (ℕ × Blob)
put v k [] = (v, k) ∷ []
put v k ((w, j) ∷ m) = if w == v then (v, k) ∷ m else (w, j) ∷ put v k m

-- The interface KeyProvider of keys.go.
pub record KeyProvider : Type 0 where
  pub current : Result (Blob × ℕ)
  pub key_at : ℕ → Result Blob

abbrev pub not_initialized : Error
not_initialized = Error.errorf "acp keys: provider not initialized" []

abbrev pub version_unavailable : Error
version_unavailable = Error.errorf "acp keys: key_version unavailable" []

-- The zero value of [32]byte.
abbrev zero_key : Blob
zero_key =
    0 ∷ 0 ∷ 0 ∷ 0 ∷ 0 ∷ 0 ∷ 0 ∷ 0 ∷ 0 ∷ 0 ∷ 0 ∷ 0 ∷ 0 ∷ 0 ∷ 0 ∷ 0 ∷ 0 ∷ 0 ∷ 0 ∷ 0 ∷ 0 ∷ 0 ∷ 0 ∷ 0
    ∷ 0 ∷ 0 ∷ 0 ∷ 0 ∷ 0 ∷ 0 ∷ 0 ∷ 0 ∷ []

-- A map read gives the zero key where the version is missing.
abbrev pub or_zero : Option Blob → Blob
or_zero none = zero_key
or_zero (some k) = k

abbrev pub or_unavailable : Option Blob → Result Blob
or_unavailable none = err version_unavailable
or_unavailable (some k) = ok k

unfoldable pub current_key : Keyring → Result (Blob × ℕ)
current_key p =
    if p.current == 0
    then err not_initialized
    else ok (or_zero (lookup p.current p.entries), p.current)

unfoldable pub key_of : ℕ → Keyring → Result Blob
key_of version p =
    if p.current == 0 then err not_initialized else or_unavailable (lookup version p.entries)

abbrev pub provider : Keyring → KeyProvider
provider p = record { current = current_key p; key_at = λ v. key_of v p }

-- The insertion sort of Versions, one round of which moves the next version down to its place.
unfoldable pub insert_version : ℕ → List ℕ → List ℕ
insert_version v [] = v ∷ []
insert_version v (w ∷ ws) = if ltb v w then v ∷ w ∷ ws else w ∷ insert_version v ws

unfoldable pub sort_versions : List ℕ → List (ℕ × Blob) → List ℕ
sort_versions sorted [] = sorted
sort_versions sorted ((v, k) ∷ m) = sort_versions (insert_version v sorted) m

unfoldable pub versions : Keyring → List ℕ
versions p = sort_versions [] p.entries

-- u32: the counter after the current version.
unfoldable pub next_version : Keyring → ℕ
next_version p = (p.current + 1) % u32_size

abbrev pub first_version : ℕ
first_version = 1

abbrev pub first_path : FilePath
first_path = in_keyring (version_filename first_version)

abbrev pub with_key : Keyring → ℕ → Blob → Keyring
with_key p v buf = record p { entries = put v buf p.entries; current = v }

-- scanKeyring's loop over the directory: `m` is what was found so far.
abbrev pub add_name : NameOf → Blob → List (ℕ × Blob) → Result (List (ℕ × Blob))
add_name NameOf.unrelated file m = ok m
add_name NameOf.invalid file m =
    err (Error.errorf "acp keys: keyring entry %q has invalid version" [])
add_name (NameOf.version v) file m = ok (put v file m)

unfoldable pub scan_entries : List (ℕ × Blob) → List DirEntry → Result (List (ℕ × Blob))
scan_entries m [] = ok m
scan_entries m (entry ∷ more) =
    (if entry.is_dir then ok m else add_name (name_of entry.file) entry.file m) >>= λ m'.
    scan_entries m' more

module _ (os : Os) where
  open os use {Disk}

  -- Writes a new key file, which must not exist; a file that a write fails on is removed if `clean`.
  abbrev pub after_close : Result (Unit {0}) × Disk → Result (Unit {0}) × Disk
  after_close (r, disk) = (wrapped "acp keys: close %q: %w" r, disk)

  abbrev pub close_failed :
      Bool → FilePath → Error → Result (Unit {0}) × Disk → Result (Unit {0}) × Disk
  close_failed clean path e (r, disk) =
      (err (Error.wrap "acp keys: write %q: %w" e), if clean then os.remove path disk else disk)

  abbrev pub after_write : Bool → FilePath → Result (Unit {0}) × Disk → Result (Unit {0}) × Disk
  after_write clean path (err e, disk) = close_failed clean path e (os.close path disk)
  after_write clean path (ok u, disk) = after_close (os.close path disk)

  abbrev pub after_create :
      Bool → FilePath → Blob → Result (Unit {0}) × Disk → Result (Unit {0}) × Disk
  after_create clean path buf (err e, disk) = (err (Error.wrap "acp keys: create %q: %w" e), disk)
  after_create clean path buf (ok u, disk) = after_write clean path (os.write path buf disk)

  unfoldable pub write_new : Bool → FilePath → Blob → Disk → Result (Unit {0}) × Disk
  write_new clean path buf disk =
      after_create clean path buf (os.create_exclusive path owner_only disk)

  -- A call on the ring and the disk.
  abbrev pub Step : Type 0 → Type 0
  Step A = Result A × Keyring × Disk

  abbrev pub rotated :
      (Blob → Text) → Keyring → ℕ → Blob → Result (Unit {0}) × Disk → Step (ℕ × Text)
  rotated fingerprint p v buf (err e, disk) = (err e, p, disk)
  rotated fingerprint p v buf (ok u, disk) = (ok (v, fingerprint buf), with_key p v buf, disk)

  abbrev pub rotate_with : (Blob → Text) → Keyring → Result Blob → Disk → Step (ℕ × Text)
  rotate_with fingerprint p (err e) disk =
      (err (Error.wrap "acp keys: generate random key: %w" e), p, disk)
  rotate_with fingerprint p (ok buf) disk =
      rotated fingerprint p (next_version p) buf
        (write_new true (in_keyring (version_filename (next_version p))) buf disk)

  -- Rotate; `random` is what rand.Read gives.
  unfoldable pub rotate : (Blob → Text) → Result Blob → Keyring → Disk → Step (ℕ × Text)
  rotate fingerprint random p disk =
      if p.current == 0
      then (err not_initialized, p, disk)
      else (if next_version p == 0
          then (err (Error.errorf "acp keys: key_version overflow" []), p, disk)
          else rotate_with fingerprint p random disk)

  abbrev pub scan_found : Stat → Disk → Result (List (ℕ × Blob))
  scan_found not_exist disk = ok []
  scan_found (failed e) disk = err (Error.wrap "acp keys: stat keyring %q: %w" e)
  scan_found (found info) disk = do
    refuse_if (not info.is_dir) (Error.errorf "acp keys: keyring path %q is not a directory" [])
    check_dir_perms os.uid keyring info
    listed ← wrapped "acp keys: read keyring %q: %w" (os.read_dir keyring disk)
    scan_entries [] listed

  -- `loaded` of the source is whether an entry was found.
  unfoldable pub scan_keyring : Disk → Result (List (ℕ × Blob))
  scan_keyring disk = scan_found (os.stat keyring disk) disk

  unfoldable pub load_from : ℕ → List (ℕ × Blob) → Disk → Keyring → Result Keyring
  load_from max [] disk p = ok (record p { current = max })
  load_from max ((v, file) ∷ more) disk p = read_keyfile os (in_keyring file) disk >>= λ buf.
      load_from (if ltb max v then v else max) more disk
        (record p { entries = put v buf p.entries })

  -- loadVersions
  unfoldable pub load_versions : List (ℕ × Blob) → Disk → Keyring → Result Keyring
  load_versions listed disk p = load_from 0 listed disk p

  abbrev pub adopt : Result Blob → Keyring → Disk → Step (Unit {0})
  adopt (err e) p disk = (err e, p, disk)
  adopt (ok buf) p disk = (ok tt, record (with_key p first_version buf) { migrated = true }, disk)

  abbrev pub after_rename : Keyring → Result (Unit {0}) × Disk → Step (Unit {0})
  after_rename p (err e, disk) = (err (Error.wrap "acp keys: migrate %q → %q: %w" e), p, disk)
  after_rename p (ok u, disk) = adopt (read_keyfile os first_path disk) p disk

  abbrev pub migrate_to : Stat → Keyring → Disk → Step (Unit {0})
  migrate_to (found info) p disk =
      (err (Error.errorf "acp keys: migration target %q already exists" []), p, disk)
  migrate_to (failed e) p disk = (err (Error.wrap "acp keys: stat %q: %w" e), p, disk)
  migrate_to not_exist p disk = after_rename p (os.rename legacy first_path disk)

  abbrev pub migrate_into : Keyring → Result (Unit {0}) × Disk → Step (Unit {0})
  migrate_into p (err e, disk) = (err e, p, disk)
  migrate_into p (ok u, disk) = migrate_to (os.stat first_path disk) p disk

  abbrev pub migrate_checked : Result (Unit {0}) → Keyring → Disk → Step (Unit {0})
  migrate_checked (err e) p disk = (err e, p, disk)
  migrate_checked (ok u) p disk = migrate_into p (ensure_dir os disk)

  -- migrateLegacy
  unfoldable pub migrate_legacy : Keyring → Disk → Step (Unit {0})
  migrate_legacy p disk =
      migrate_checked
        (stat_ok "acp keys: stat legacy keyfile %q: %w" (os.stat legacy disk) >>= λ info.
          check_perms os.uid legacy info)
        p disk

  abbrev pub generated : Keyring → Blob → Result (Unit {0}) × Disk → Step (Unit {0})
  generated p buf (err e, disk) = (err e, p, disk)
  generated p buf (ok u, disk) =
      (ok tt, record (with_key p first_version buf) { first_start = true }, disk)

  abbrev pub generate_into : Result Blob → Keyring → Result (Unit {0}) × Disk → Step (Unit {0})
  generate_into random p (err e, disk) = (err e, p, disk)
  generate_into (err e) p (ok u, disk) =
      (err (Error.wrap "acp keys: generate random key: %w" e), p, disk)
  generate_into (ok buf) p (ok u, disk) = generated p buf (write_new false first_path buf disk)

  -- generateFirstVersion
  unfoldable pub generate_first_version : Result Blob → Keyring → Disk → Step (Unit {0})
  generate_first_version random p disk = generate_into random p (ensure_dir os disk)

  abbrev pub started : Step (Unit {0}) → Result Keyring × Disk
  started (err e, p, disk) = (err e, disk)
  started (ok u, p, disk) = (ok p, disk)

  abbrev pub start_with : Result (List (ℕ × Blob)) → Result Blob → Disk → Result Keyring × Disk
  start_with (err e) random disk = (err e, disk)
  start_with (ok (entry ∷ more)) random disk = (load_versions (entry ∷ more) disk new_keyring, disk)
  start_with (ok []) random disk = started (
      if legacy_exists os disk
      then migrate_legacy new_keyring disk
      else generate_first_version random new_keyring disk)

  -- NewLocalKeyfileProvider at a path.
  unfoldable pub new_local_keyfile_provider : Result Blob → Disk → Result Keyring × Disk
  new_local_keyfile_provider random disk = start_with (scan_keyring disk) random disk
