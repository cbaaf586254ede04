-- ===== src/Reencrypt/Version.antt =====
-- The key version of a blob: parseKeyVersion of internal/reencrypt/reencrypt.go against the header
-- that internal/crypto/seal.go writes and reads.
use acp_server.Base.{
  ℕ, String, ◌+◌, ◌≤◌, ◌≡◌, refl, true, false, ◌++◌, ◌==◌, ltb, arith, length, Bool-cases, inl, inr,
  ◌∷◌,
}
use acp_server.Store.{Text, Blob, Error, Result, ok, err, eq_of_ok}
use acp_server.Store.Results.{◌>>=◌, bound}
use acp_server.Keys.{KeyProvider}
use acp_server.Sealing.{
  Cipher, unbound, unbound_error, write_header, parse_header, Parsed, unseal, open_parsed, byte_at,
  big_endian_u24, version_byte, max_key_version, take, drop, header_size, auth_tag_size,
}
use acp_server.Sealing.Header.{u24}
use acp_server.Reencrypt.{parse_key_version}

pub version-write_header :
    (v : ℕ) (nonce rest : Blob)
    → v ≤ max_key_version
    → parse_key_version (write_header v nonce ++ rest) ≡ ok v
unfolding parse_key_version write_header byte_at
version-write_header v nonce rest fits =
    let long : ltb (length (1 ∷ 0 ∷ 0 ∷ 0 ∷ (take 12 nonce ++ rest))) 4 ≡ false = ground arith in
    rw (long, u24 v fits) refl

-- A header that parses, under a version that Open accepts, tells its key version.
parsed_version :
    (b : Blob) (h : Parsed)
    → parse_header b ≡ ok h
    → (h.version == version_byte) ≡ true
    → parse_key_version b ≡ ok h.key_version
unfolding parse_header parse_key_version
parsed_version b h parsed known = elim (Bool-cases (ltb (length b) (header_size + auth_tag_size))) [
  | inl short ↦ ground (arith, short, parsed)
  | inr long ↦
      let same : record {
        version = byte_at b 0;
        key_version = big_endian_u24 (byte_at b 1) (byte_at b 2) (byte_at b 3);
        nonce = take 12 (drop 4 b);
        payload = drop 16 b;
      }
          ≡ h =
        eq_of_ok (rw long at parsed) in
      rw (← same) (
        let byte : (byte_at b 0 == version_byte) ≡ true = rw (← same) at known in
        let room : ltb (length b) 4 ≡ false = ground arith in rw (room, byte) refl)
]

module _ (c : Cipher) (p : KeyProvider) (row : Text) (column : String) (b plain : Blob)
    (opened : unseal c p row column b ≡ ok plain) where
  -- A blob that opens was asked for by row and column, and parseKeyVersion reads its version.
  pub unseal_named : unbound c row column ≡ false
  unfolding unseal
  unseal_named = elim (Bool-cases (unbound c row column)) [
    | inl bare ↦ absurd (refused (rw bare at opened))
    | inr named ↦ named
  ]
    where
      refused : ◌≡◌ {A = Result Blob} (err unbound_error) (ok plain) → ⊥
      refused h = cc

  accepted :
      (h : Parsed) → open_parsed c p row column h ≡ ok plain → (h.version == version_byte) ≡ true
  unfolding open_parsed
  accepted h read = elim (Bool-cases (h.version == version_byte)) [
    | inl known ↦ known
    | inr other ↦ absurd (failed (rw other at read))
  ]
    where
      failed : {e : Error} → ◌≡◌ {A = Result Blob} (err e) (ok plain) → ⊥
      failed h = cc

  header_read : (parse_header b >>= open_parsed c p row column) ≡ ok plain
  unfolding unseal
  header_read = rw unseal_named at opened

  pub unseal_version : (v : ℕ) × (parse_key_version b ≡ ok v)
  unseal_version =
      let (h, parsed, read) =
        bound (parse_header b) (open_parsed c p row column) plain header_read in
      (h.key_version, parsed_version b h parsed (accepted h read))
