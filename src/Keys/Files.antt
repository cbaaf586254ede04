-- ===== src/Keys/Files.antt =====
-- The operating system as internal/keys/local.go uses it, and the permission checks on top of it.
use acp_server.Base.{
  ℕ, String, Bool, false, Option, none, some, List, [], ◌∷◌, ◌==◌, not, ltb, length,
}
use acp_server.Base.Int.{pos}
use acp_server.Store.{Blob, Value, Error, Result, ok, err}
use acp_server.Store.Results.{◌>>=◌, ◌>>◌, refuse_if}

-- The path that the ring is anchored at, the directory beside it, and the files in that.
pub data FilePath : Type 0 where
  legacy : FilePath
  keyring : FilePath
  in_keyring : Blob → FilePath

-- fs.FileInfo; `uid` is missing where Sys gives no Stat_t.
pub record FileInfo : Type 0 where
  pub is_dir : Bool
  pub perm : ℕ
  pub size : ℕ
  pub uid : Option ℕ

pub data Stat : Type 0 where
  found : FileInfo → Stat
  not_exist : Stat
  failed : Error → Stat

pub record DirEntry : Type 0 where
  pub is_dir : Bool
  pub file : Blob

-- The calls of package os. `contents` is os.Open with what can be read from the file.
pub record Os : Type 1 where
  pub Disk : Type 0
  pub uid : ℕ
  pub stat : FilePath → Disk → Stat
  pub read_dir : FilePath → Disk → Result (List DirEntry)
  pub contents : FilePath → Disk → Result Blob
  pub mkdir_all : FilePath → ℕ → Disk → Result (Unit {0}) × Disk
  pub chmod : FilePath → ℕ → Disk → Result (Unit {0}) × Disk
  pub create_exclusive : FilePath → ℕ → Disk → Result (Unit {0}) × Disk
  pub write : FilePath → Blob → Disk → Result (Unit {0}) × Disk
  pub close : FilePath → Disk → Result (Unit {0}) × Disk
  pub remove : FilePath → Disk → Disk
  pub rename : FilePath → FilePath → Disk → Result (Unit {0}) × Disk

abbrev pub key_size : ℕ
key_size = 32

abbrev pub path_value : FilePath → Value
path_value legacy = Value.name "legacy path"
path_value keyring = Value.name "keyring"
path_value (in_keyring file) = Value.bytes file

-- 0o600 and 0o700
abbrev pub owner_only : ℕ
owner_only = 384

abbrev pub owner_only_dir : ℕ
owner_only_dir = 448

unfoldable pub check_owner : ℕ → FilePath → String → String → Option ℕ → Result (Unit {0})
check_owner process path no_info foreign none = err (Error.errorf no_info (path_value path ∷ []))
check_owner process path no_info foreign (some owner) =
    refuse_if (not (owner == process)) (
      Error.errorf foreign (path_value path ∷ Value.int (pos owner) ∷ Value.int (pos process) ∷ []))

unfoldable pub check_perms : ℕ → FilePath → FileInfo → Result (Unit {0})
check_perms process path info =
    refuse_if info.is_dir
      (Error.errorf "acp keys: keyfile %q is a directory" (path_value path ∷ []))
    >> refuse_if (not (info.perm == owner_only)) (
        Error.errorf "acp keys: keyfile %q has mode %#o, want 0600"
          (path_value path ∷ Value.int (pos info.perm) ∷ []))
    >> refuse_if (not (info.size == key_size)) (
        Error.errorf "acp keys: keyfile %q is %d bytes, want %d"
          (path_value path ∷ Value.int (pos info.size) ∷ Value.int (pos key_size) ∷ []))
    >> check_owner process path "acp keys: keyfile %q has no ownership info (unsupported platform)"
        "acp keys: keyfile %q is owned by uid %d, process uid is %d" info.uid

unfoldable pub check_dir_perms : ℕ → FilePath → FileInfo → Result (Unit {0})
check_dir_perms process path info =
    refuse_if (not (info.perm == owner_only_dir)) (
      Error.errorf "acp keys: keyring dir %q has mode %#o, want 0700"
        (path_value path ∷ Value.int (pos info.perm) ∷ []))
    >> check_owner process path
        "acp keys: keyring dir %q has no ownership info (unsupported platform)"
        "acp keys: keyring dir %q is owned by uid %d, process uid is %d" info.uid

-- io.ReadFull of 32 bytes, and a read behind them that must find nothing.
unfoldable pub exactly_key_size : FilePath → Blob → Result Blob
exactly_key_size path buf =
    refuse_if (ltb (length buf) key_size)
      (Error.wrap "acp keys: read %q: %w" (Error.errorf "unexpected EOF" []))
    >> refuse_if (ltb key_size (length buf)) (
        Error.errorf "acp keys: %q has more than %d bytes"
          (path_value path ∷ Value.int (pos key_size) ∷ []))
    >> ok buf

abbrev pub stat_ok : String → Stat → Result FileInfo
stat_ok format (found info) = ok info
stat_ok format not_exist = err (Error.wrap format (Error.errorf "file does not exist" []))
stat_ok format (failed e) = err (Error.wrap format e)

abbrev pub wrapped {ℓ} : {A : Type ℓ} → String → Result A → Result A
wrapped format (ok a) = ok a
wrapped format (err e) = err (Error.wrap format e)

module _ (os : Os) where
  open os use {Disk}

  unfoldable pub read_keyfile : FilePath → Disk → Result Blob
  read_keyfile path disk = do
    info ← stat_ok "acp keys: stat %q: %w" (os.stat path disk)
    check_perms os.uid path info
    buf ← wrapped "acp keys: open %q: %w" (os.contents path disk)
    exactly_key_size path buf

  abbrev pub is_file : Stat → Bool
  is_file (found info) = not info.is_dir
  is_file not_exist = false
  is_file (failed e) = false

  -- legacyExists
  unfoldable pub legacy_exists : Disk → Bool
  legacy_exists disk = is_file (os.stat legacy disk)

  abbrev pub after_mkdir : Result (Unit {0}) × Disk → Result (Unit {0}) × Disk
  after_mkdir (err e, disk) = (err (Error.wrap "acp keys: create keyring dir %q: %w" e), disk)
  after_mkdir (ok u, disk) =
      let (r, disk') = os.chmod keyring owner_only_dir disk in
      (wrapped "acp keys: chmod keyring dir %q: %w" r, disk')

  -- ensureDir
  unfoldable pub ensure_dir : Disk → Result (Unit {0}) × Disk
  ensure_dir disk = after_mkdir (os.mkdir_all keyring owner_only_dir disk)
