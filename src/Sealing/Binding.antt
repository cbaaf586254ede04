-- ===== src/Sealing/Binding.antt =====
-- What binds a blob to its row and column: buildAAD of internal/crypto/seal.go.
use acp_server.Base.{
  ℕ, String, ◌≤◌, ◌≡◌, ◌≢◌, refl, false, [], ◌∷◌, ◌++◌, length, All, ◌⊎◌, inl, inr,
}
use acp_server.Store.{Text, Blob, Error, ok, err}
use acp_server.Keys.{KeyProvider}
use acp_server.Sealing.Bytes.{codes, aad_separator}
use acp_server.Sealing.{
  Aead, Cipher, new_aead, build_aad, unbound, unseal, open_parsed, nonce_size, max_key_version,
}
use acp_server.Sealing.Header.{parse_header-write_header}
use acp_server.Sealing.RoundTrip.{IsAuthentic, blob_under}

abbrev pub HasNoSeparator : Blob → Type 0
HasNoSeparator = All (λ b. b ≢ aad_separator)

not_within : (ys d : Blob) (c : Blob) → HasNoSeparator c → c ≢ ys ++ (aad_separator ∷ d)
not_within [] d [] h e = cc
not_within [] d (b ∷ c) h e = h.0 (cc)
not_within (y ∷ ys) d [] h e = cc
not_within (y ∷ ys) d (b ∷ c) h e = not_within ys d c h.1 (cc)

split_at_separator :
    (xs ys c d : Blob)
    → HasNoSeparator c
    → HasNoSeparator d
    → xs ++ (aad_separator ∷ c) ≡ ys ++ (aad_separator ∷ d)
    → (xs ≡ ys) × (c ≡ d)
split_at_separator [] [] c d hc hd e = (refl, cc)
split_at_separator [] (y ∷ ys) c d hc hd e =
    let inside : c ≡ ys ++ (aad_separator ∷ d) = cc in absurd (not_within ys d c hc inside)
split_at_separator (x ∷ xs) [] c d hc hd e =
    let inside : d ≡ xs ++ (aad_separator ∷ c) = cc in absurd (not_within xs c d hd inside)
split_at_separator (x ∷ xs) (y ∷ ys) c d hc hd e =
    let head : x ≡ y = cc in
    let tail : xs ++ (aad_separator ∷ c) ≡ ys ++ (aad_separator ∷ d) = cc in
    let (same, rest) = split_at_separator xs ys c d hc hd tail in (cc, rest)

module _ (c : Cipher) where
  -- The additional data of columns without the separator tells both the bytes of the row and the
  -- column, whatever the row holds.
  pub build_aad-injective :
      (row other_row : Text) (column other_column : String)
      → HasNoSeparator (codes column)
      → HasNoSeparator (codes other_column)
      → build_aad c row column ≡ build_aad c other_row other_column
      → (c.bytes row ≡ c.bytes other_row) × (codes column ≡ codes other_column)
  unfolding build_aad
  build_aad-injective row other_row column other_column hc hd e =
      split_at_separator (c.bytes row) (c.bytes other_row) (codes column) (codes other_column) hc hd
        (cc)

  -- What the program relies on of the tag: it does not fit other additional data.
  abbrev pub IsBinding : Aead → Type 0
  IsBinding a =
      (nonce plain aad other : Blob)
      → aad ≢ other
      → (e : Error) × (a.open_sealed nonce (a.seal nonce plain aad) other ≡ err e)

  -- A blob that was sealed for one row and column does not open under another: Open fails, where the
  -- cipher tells additional data apart, no column holds the separator, and the row's bytes or the
  -- column differ.
  pub unseal_elsewhere :
      (a : Aead) (key : Blob) (v : ℕ) (nonce plain : Blob)
      → new_aead c key ≡ ok a
      → v ≤ max_key_version
      → length nonce ≡ nonce_size
      → IsAuthentic a
      → IsBinding a
      → (p : KeyProvider) (row other_row : Text) (column other_column : String)
      → HasNoSeparator (codes column)
      → HasNoSeparator (codes other_column)
      → ((c.bytes row ≢ c.bytes other_row) ⊎ (codes column ≢ codes other_column))
      → unbound c other_row other_column ≡ false
      → p.key_at v ≡ ok key
      → (e : Error) × (unseal c p other_row other_column (blob_under c a v nonce row column plain)
          ≡ err e)
  unfolding unseal open_parsed
  unseal_elsewhere a key v nonce plain accepted high whole authentic binding p row other_row column
        other_column hc hd apart named known =
      let aad = build_aad c row column in
      let (e, refused) = binding nonce plain aad (build_aad c other_row other_column) (λ same.
        let parts = build_aad-injective row other_row column other_column hc hd same in
        elim apart [ inl rows ↦ rows parts.0 | inr columns ↦ columns parts.1 ]) in
      (
        Error.wrap "acp crypto: authenticate: %w" e,
        rw
            (
              named,
              parse_header-write_header v nonce (a.seal nonce plain aad) high whole
                  (authentic.has_tag nonce plain aad),
            )
            (rw known (rw accepted (rw refused refl))),
      )
