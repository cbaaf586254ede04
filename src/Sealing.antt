-- ===== src/Sealing.antt =====
-- internal/crypto/seal.go: the blobs of the `*_enc` columns. AES and GCM of the standard library are
-- the parameter `Cipher`, rand.Read the nonce that a call draws.
use acp_server.Base.{
  ℕ, zero, suc, String, ◌+◌, ◌*◌, ◌/◌, ◌%◌, ◌^◌, Bool, true, false, ◌||◌, not, Option, none, some,
  List, [], ◌∷◌, ◌++◌, ◌==◌, str_eq, ltb, if◌then◌else◌, length,
}
use acp_server.Base.Int.{pos}
use acp_server.Store.{Text, Blob, Value, Error, Result, ok, err}
use acp_server.Store.Results.{◌>>=◌, ◌>>◌, refuse_if}
use acp_server.Keys.{KeyProvider}
mod Bytes
pub mod Header
pub mod RoundTrip
pub mod Binding
pub mod Rotated
unfoldable pub use Bytes.*

-- cipher.AEAD
pub record Aead : Type 0 where
  -- nonce, plaintext and additional data to ciphertext with its tag
  pub seal : Blob → Blob → Blob → Blob
  -- nonce, ciphertext with its tag and additional data
  pub open_sealed : Blob → Blob → Blob → Result Blob

pub record Cipher : Type 0 where
  -- a Go string by its bytes
  pub bytes : Text → Blob
  -- aes.NewCipher, with the block by its number, and cipher.NewGCM
  pub new_cipher : Blob → Result ℕ
  pub new_gcm : ℕ → Result Aead

abbrev pub version_byte : ℕ
version_byte = 1

abbrev pub nonce_size : ℕ
nonce_size = 12

abbrev pub header_size : ℕ
header_size = 16

abbrev pub auth_tag_size : ℕ
auth_tag_size = 16

abbrev pub max_key_version : ℕ
max_key_version = 16777215

abbrev pub wrapping {ℓ} : {A : Type ℓ} → String → Result A → Result A
wrapping format (ok a) = ok a
wrapping format (err e) = err (Error.wrap format e)

module _ (c : Cipher) where
  unfoldable pub new_aead : Blob → Result Aead
  new_aead key = do
    block ← wrapping "acp crypto: aes cipher: %w" (c.new_cipher key)
    wrapping "acp crypto: gcm wrap: %w" (c.new_gcm block)

  unfoldable pub build_aad : Text → String → Blob
  build_aad row column = aad_prefix ++ (c.bytes row ++ (aad_separator ∷ codes column))

  abbrev pub unbound : Text → String → Bool
  unbound row column = is_nil (c.bytes row) || str_eq column ""

-- writeHeader: the version byte, the low three bytes of the key version and the nonce.
unfoldable pub write_header : ℕ → Blob → Blob
write_header key_version nonce =
    version_byte
    ∷ (key_version / 2 ^ 16 % 256)
    ∷ (key_version / 2 ^ 8 % 256)
    ∷ (key_version % 256)
    ∷ take nonce_size nonce

pub record Parsed : Type 0 where
  pub version : ℕ
  pub key_version : ℕ
  pub nonce : Blob
  pub payload : Blob

-- binary.BigEndian.Uint32 of a zero byte and three more.
abbrev pub big_endian_u24 : ℕ → ℕ → ℕ → ℕ
big_endian_u24 a b d = a * 2 ^ 16 + b * 2 ^ 8 + d

unfoldable pub parse_header : Blob → Result Parsed
parse_header blob =
    if ltb (length blob) (header_size + auth_tag_size)
    then err (
        Error.wrap "%w: blob has %d bytes, need ≥%d" (
          Error.errorf "acp crypto: malformed ciphertext"
            (Value.int (pos (length blob)) ∷ Value.int (pos (header_size + auth_tag_size)) ∷ [])))
    else ok (record {
      version = byte_at blob 0;
      key_version = big_endian_u24 (byte_at blob 1) (byte_at blob 2) (byte_at blob 3);
      nonce = take nonce_size (drop 4 blob);
      payload = drop header_size blob;
    })

abbrev pub unbound_error : Error
unbound_error = Error.errorf "acp crypto: row_id and column are required for AAD" []

abbrev pub out_of_range : ℕ → Bool
out_of_range version = version == 0 || ltb max_key_version version

abbrev pub range_error : ℕ → Error
range_error version =
    Error.errorf "acp crypto: key_version %d out of range (1..%d)"
      (Value.int (pos version) ∷ Value.int (pos max_key_version) ∷ [])

module _ (c : Cipher) where
  -- Seal, once the key is known.
  unfoldable pub seal_under : Result Blob → Text → String → Blob → Blob × ℕ → Result Blob
  seal_under drawn row column plaintext (key, version) = do
    refuse_if (out_of_range version) (range_error version)
    aead ← new_aead c key
    nonce ← wrapping "acp crypto: generate nonce: %w" drawn
    ok (write_header version nonce ++ aead.seal nonce plaintext (build_aad c row column))

module _ (c : Cipher) (p : KeyProvider) where
  -- Seal
  unfoldable pub seal : Result Blob → Text → String → Blob → Result Blob
  seal drawn row column plaintext =
      refuse_if (unbound c row column) unbound_error
      >> (wrapping "acp crypto: provider current: %w" p.current
          >>= seal_under c drawn row column plaintext)

  -- Open, once the header is known.
  unfoldable pub open_parsed : Text → String → Parsed → Result Blob
  open_parsed row column h = do
    refuse_if (not (h.version == version_byte)) (
        Error.wrap "%w: got 0x%02x" (
          Error.errorf "acp crypto: unsupported ciphertext version"
            (Value.int (pos h.version) ∷ [])))
    key ← p.key_at h.key_version
    aead ← new_aead c key
    wrapping "acp crypto: authenticate: %w"
        (aead.open_sealed h.nonce h.payload (build_aad c row column))

  -- Open
  unfoldable pub unseal : Text → String → Blob → Result Blob
  unseal row column blob =
      refuse_if (unbound c row column) unbound_error
      >> (parse_header blob >>= open_parsed row column)
