-- ===== src/Sealing/RoundTrip.antt =====
-- What Seal writes, Open reads: also under a later state of the keys.
use acp_server.Base.{ℕ, String, ◌≤◌, ◌<◌, ◌≡◌, refl, false, ◌++◌, arith, length, ap, ◌∙◌}
use acp_server.Store.{Text, Blob, Result, ok}
use acp_server.Store.Results.{◌>>=◌}
use acp_server.Keys.{KeyProvider}
use acp_server.Sealing.{
  Aead, Cipher, new_aead, build_aad, unbound, write_header, seal, seal_under, unseal, open_parsed,
  out_of_range, nonce_size, auth_tag_size, max_key_version, wrapping,
}
use acp_server.Sealing.Header.{parse_header-write_header}

-- What the program relies on of AES-256-GCM: Open undoes Seal under the same nonce and additional
-- data, and a sealed text has room for the tag.
pub record IsAuthentic (a : Aead) : Type 0 where
  pub opens :
      (nonce plain aad : Blob)
      → length nonce ≡ nonce_size
      → a.open_sealed nonce (a.seal nonce plain aad) aad ≡ ok plain
  pub has_tag : (nonce plain aad : Blob) → auth_tag_size ≤ length (a.seal nonce plain aad)

-- The blob that Seal writes under a key.
abbrev pub blob_under : Cipher → Aead → ℕ → Blob → Text → String → Blob → Blob
blob_under c a v nonce row column plain =
    write_header v nonce ++ a.seal nonce plain (build_aad c row column)

module _ (c : Cipher) (a : Aead) (key : Blob) (v : ℕ) (nonce : Blob)
    (accepted : new_aead c key ≡ ok a) (low : 0 < v) (high : v ≤ max_key_version)
    (whole : length nonce ≡ nonce_size) (authentic : IsAuthentic a) where
  in_range : out_of_range v ≡ false
  in_range = ground arith

  pub seal-blob_under :
      (p : KeyProvider) (row : Text) (column : String) (plain : Blob)
      → unbound c row column ≡ false
      → p.current ≡ ok (key, v)
      → seal c p (ok nonce) row column plain ≡ ok (blob_under c a v nonce row column plain)
  unfolding seal seal_under
  seal-blob_under p row column plain named current = rw named (
      ap
        (λ (r : Result (Blob × ℕ)).
          wrapping "acp crypto: provider current: %w" r
          >>= seal_under c (ok nonce) row column plain)
        current
      ∙ rw in_range (rw accepted refl))

  pub unseal-blob_under :
      (p : KeyProvider) (row : Text) (column : String) (plain : Blob)
      → unbound c row column ≡ false
      → p.key_at v ≡ ok key
      → unseal c p row column (blob_under c a v nonce row column plain) ≡ ok plain
  unfolding unseal open_parsed
  unseal-blob_under p row column plain named known =
      let aad = build_aad c row column in
      rw
        (
          named,
          parse_header-write_header v nonce (a.seal nonce plain aad) high whole
              (authentic.has_tag nonce plain aad),
        )
        (rw known (rw accepted (rw (authentic.opens nonce plain aad whole) refl)))

  -- Under a current key of a version of 24 bits, with a nonce of 12 bytes, a named row and column
  -- and a cipher that opens what it seals, Seal succeeds on every plaintext; and every provider that
  -- still hands out the key for its version opens the blob to the plaintext again.
  pub unseal-seal :
      (p : KeyProvider) (row : Text) (column : String) (plain : Blob)
      → unbound c row column ≡ false
      → p.current ≡ ok (key, v)
      → (blob : Blob) × (seal c p (ok nonce) row column plain ≡ ok blob)
        × ((later : KeyProvider)
            → later.key_at v ≡ ok key
            → unseal c later row column blob ≡ ok plain)
  unseal-seal p row column plain named current = (
    blob_under c a v nonce row column plain,
    seal-blob_under p row column plain named current,
    λ later known. unseal-blob_under later row column plain named known,
  )
