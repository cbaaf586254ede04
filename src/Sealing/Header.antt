-- ===== src/Sealing/Header.antt =====
-- The header of a sealed blob: writeHeader and parseHeader of internal/crypto/seal.go.
use acp_server.Base.{
  ℕ, ◌+◌, ◌/◌, ◌%◌, ◌^◌, ◌≤◌, ◌≡◌, refl, false, ◌∷◌, ◌++◌, arith, ltb, length, length-append,
}
use acp_server.Store.{Blob, ok}
use acp_server.Sealing.Bytes.{take-append, take_self, drop-append, byte_at, drop}
use acp_server.Sealing.{
  write_header, parse_header, version_byte, nonce_size, header_size, auth_tag_size, max_key_version,
  big_endian_u24,
}

pub u24 :
    (v : ℕ)
    → v ≤ max_key_version
    → big_endian_u24 (v / 2 ^ 16 % 256) (v / 2 ^ 8 % 256) (v % 256) ≡ v
u24 v h = omega arith

-- A blob of a header for a key version of 24 bits and a nonce of 12 bytes, and of a payload with
-- room for its tag, is parsed into just these.
pub parse_header-write_header :
    (v : ℕ) (nonce payload : Blob)
    → v ≤ max_key_version
    → length nonce ≡ nonce_size
    → auth_tag_size ≤ length payload
    → parse_header (write_header v nonce ++ payload)
      ≡ ok (record { version = version_byte; key_version = v; nonce = nonce; payload = payload })
unfolding parse_header write_header byte_at drop
parse_header-write_header v nonce payload fits whole room = rw (take_self nonce_size nonce whole) (
    let long : ltb (length (1 ∷ 0 ∷ 0 ∷ 0 ∷ (nonce ++ payload))) (header_size + auth_tag_size)
        ≡ false =
      ground (arith, length-append nonce payload) in
    rw
      (
        long,
        u24 v fits,
        take-append nonce_size nonce payload whole,
        drop-append nonce_size nonce payload whole,
      )
      refl)
