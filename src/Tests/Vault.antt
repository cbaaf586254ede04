-- ===== src/Tests/Vault.antt =====
-- The witnesses on keys, sealing and re-encryption: a cipher that writes the additional data into the
-- ciphertext, and a system on which every call goes through.
use acp_server.Base.{
  ℕ, ◌+◌, ◌<◌, ◌^◌, ◌≡◌, refl, true, false, ◌⊎◌, inl, inr, none, some, [], ◌∷◌, ◌++◌, ◌==◌, arith,
  length, if◌then◌else◌, Bool-cases,
}
use acp_server.Store.{Text, Blob, Error, Result, ok, err, Db, empty_db}
use acp_server.Keys.{
  Os, Stat, Keyring, provider, name_of, version_filename, decimal, NameOf, same_bytes, rotate,
  write_new, next_version, in_keyring, with_key, current_key, key_of, lookup,
}
use acp_server.Keys.Naming.{name_of-version_filename, same_bytes_refl, same_bytes_eq}
use acp_server.Keys.Rotation.{IsSound, IsRotated, rotate-IsRotated}
use acp_server.Sealing.{
  Aead, Cipher, new_aead, unseal, seal, write_header, parse_header, version_byte, take, drop, codes,
}
use acp_server.Sealing.{take-append, drop-append}
use acp_server.Sealing.Header.{parse_header-write_header}
use acp_server.Sealing.RoundTrip.{IsAuthentic, blob_under, unseal-blob_under}
use acp_server.Sealing.Binding.{IsBinding, HasNoSeparator, unseal_elsewhere}
use acp_server.Sealing.Rotated.{Later, sealed_opens-Later, rotate_past_24_bits}
use acp_server.Reencrypt.{identity_target, run_one}
use acp_server.Reencrypt.Targets.{identity-IsTarget}
use acp_server.Reencrypt.Pass.{IsCompleted, run_one_completes}

abbrev tag : Blob
tag = 0 ∷ 0 ∷ 0 ∷ 0 ∷ 0 ∷ 0 ∷ 0 ∷ 0 ∷ 0 ∷ 0 ∷ 0 ∷ 0 ∷ 0 ∷ 0 ∷ 0 ∷ 0 ∷ []

abbrev zeros : Blob
zeros = 0 ∷ 0 ∷ 0 ∷ 0 ∷ 0 ∷ 0 ∷ 0 ∷ 0 ∷ 0 ∷ 0 ∷ 0 ∷ 0 ∷ []

abbrev mismatch : Error
mismatch = Error.errorf "cipher: message authentication failed" []

toy_check : Blob → Blob → Result Blob
toy_check aad [] = err mismatch
toy_check aad (n ∷ rest) = if same_bytes (take n rest) aad then ok (drop n rest) else err mismatch

abbrev toy : Aead
toy = record {
  seal = λ nonce plain aad. tag ++ (length aad ∷ (aad ++ plain));
  open_sealed = λ nonce payload aad. toy_check aad (drop 16 payload);
}

toy-IsAuthentic : IsAuthentic toy
unfolding toy_check drop
toy-IsAuthentic = record {
  opens = λ nonce plain aad whole.
      rw (take-append (length aad) aad plain refl, drop-append (length aad) aad plain refl)
        (rw (same_bytes_refl aad) refl);
  has_tag = λ nonce plain aad. omega arith;
}

abbrev cipher : Cipher
cipher = record {
  bytes = λ t. if t == 0 then [] else t ∷ [];
  new_cipher = λ key. ok 1;
  new_gcm = λ block. ok toy;
}

toy-IsBinding : IsBinding cipher toy
unfolding toy_check drop
toy-IsBinding nonce plain aad other apart =
    (mismatch, rw (take-append (length aad) aad plain refl) (rejected (Bool-cases _)))
  where
    rejected :
        ((same_bytes aad other ≡ true) ⊎ (same_bytes aad other ≡ false))
        → ◌≡◌ {A = Result Blob}
            (if same_bytes aad other then ok (drop (length aad) (aad ++ plain)) else err mismatch)
            (err mismatch)
    rejected (inl same) = absurd (apart (same_bytes_eq aad other same))
    rejected (inr differs) = rw differs refl

name_of-version_filename_example : name_of (version_filename 12) ≡ NameOf.version 12
name_of-version_filename_example = name_of-version_filename 12 (omega arith) (omega arith)

filename_of_twelve : version_filename 12 ≡ b'v' ∷ b'1' ∷ b'2' ∷ b'.' ∷ b'k' ∷ b'e' ∷ b'y' ∷ []
unfolding version_filename decimal
filename_of_twelve = refl

abbrev calm : Os
calm = record {
  Disk = ℕ;
  uid = 0;
  stat = λ path disk. Stat.not_exist;
  read_dir = λ path disk. ok [];
  contents = λ path disk. ok [];
  mkdir_all = λ path mode disk. (ok tt, disk);
  chmod = λ path mode disk. (ok tt, disk);
  create_exclusive = λ path mode disk. (ok tt, disk + 1);
  write = λ path buf disk. (ok tt, disk);
  close = λ path disk. (ok tt, disk);
  remove = λ path disk. disk;
  rename = λ a b disk. (ok tt, disk);
}

abbrev print_of : Blob → Text
print_of k = length k

abbrev ring : Keyring
ring = record {
  entries = (1, 11 ∷ []) ∷ (2, 22 ∷ []) ∷ [];
  current = 2;
  first_start = false;
  migrated = false;
}

ring-IsSound : IsSound ring
unfolding lookup
ring-IsSound = record {
  has_current = (22 ∷ [], refl);
  up_to_current = (omega arith, (omega arith, tt));
  initialized = omega arith;
  bounded = omega arith;
}

rotate-IsRotated_example :
    IsRotated calm print_of ring (rotate calm print_of (ok (33 ∷ [])) ring 0)
    × ((k : Blob) (disk' : ℕ)
        → ok (33 ∷ []) ≡ ok k
        → write_new calm true (in_keyring (version_filename (2 + 1))) k 0 ≡ (ok tt, disk')
        → 2 + 1 < 2 ^ 32
        → rotate calm print_of (ok (33 ∷ [])) ring 0
          ≡ (ok (2 + 1, print_of k), with_key ring (2 + 1) k, disk'))
rotate-IsRotated_example = rotate-IsRotated calm print_of (ok (33 ∷ [])) ring 0 ring-IsSound

abbrev rotated_ring : Keyring
rotated_ring = with_key ring 3 (33 ∷ [])

parse_header-write_header_example :
    parse_header (write_header 2 zeros ++ tag)
    ≡ ok (record { version = version_byte; key_version = 2; nonce = zeros; payload = tag })
parse_header-write_header_example =
    parse_header-write_header 2 zeros tag (omega arith) refl (omega arith)

no_separator : HasNoSeparator (codes "platform_id")
no_separator = omega arith

unseal_elsewhere_example :
    (e : Error) × (unseal cipher
        (provider ring)
        6
        "platform_id"
        (blob_under cipher toy 2 zeros 5 "platform_id" (9 ∷ []))
      ≡ err e)
unfolding current_key key_of lookup new_aead
unseal_elsewhere_example =
    unseal_elsewhere cipher toy (22 ∷ []) 2 zeros (9 ∷ []) refl (omega arith) refl toy-IsAuthentic
      toy-IsBinding (provider ring) 5 6 "platform_id" "platform_id" no_separator no_separator
      (inl (λ e. ground arith)) refl refl

Later-ring : Later calm print_of ring rotated_ring
unfolding rotate next_version write_new
Later-ring = Later.then_rotate Later.now (ok (33 ∷ [])) 0 refl

sealed_opens-Later_example :
    (blob : Blob) × (seal cipher (provider ring) (ok zeros) 5 "platform_id" (9 ∷ []) ≡ ok blob)
    × (unseal cipher (provider rotated_ring) 5 "platform_id" blob ≡ ok (9 ∷ []))
unfolding current_key lookup new_aead
sealed_opens-Later_example =
    sealed_opens-Later calm print_of cipher toy (22 ∷ []) zeros 2 refl (omega arith) refl
      toy-IsAuthentic ring rotated_ring 5 "platform_id" (9 ∷ []) refl ring-IsSound refl Later-ring

abbrev last_ring : Keyring
last_ring = record ring { entries = (16777215, 22 ∷ []) ∷ []; current = 16777215 }

last_ring-IsSound : IsSound last_ring
unfolding lookup
last_ring-IsSound = record {
  has_current = (22 ∷ [], refl);
  up_to_current = (omega arith, tt);
  initialized = omega arith;
  bounded = omega arith;
}

rotate_past_24_bits_example :
    (e : Error) × (seal cipher
        (provider (rotate calm print_of (ok (33 ∷ [])) last_ring 0).1)
        (ok zeros)
        5
        "platform_id"
        (9 ∷ [])
      ≡ err e)
unfolding rotate next_version write_new
rotate_past_24_bits_example =
    rotate_past_24_bits calm print_of last_ring (ok (33 ∷ [])) 0 16777216 1 last_ring-IsSound refl
      refl cipher (ok zeros) 5 "platform_id" (9 ∷ [])

abbrev sealed_db : Db
sealed_db = record empty_db {
  platform_identities =
      record {
        platform_id = 5;
        created_at = 0;
        platform_id_hash = 6;
        platform_id_enc = some (blob_under cipher toy 1 zeros 6 "platform_id" (9 ∷ []));
      }
      ∷ [];
}

opens_old :
    unseal cipher
      (provider ring)
      6
      "platform_id"
      (blob_under cipher toy 1 zeros 6 "platform_id" (9 ∷ []))
    ≡ ok (9 ∷ [])
unfolding key_of lookup new_aead
opens_old =
    unseal-blob_under cipher toy (11 ∷ []) 1 zeros refl (omega arith) (omega arith) refl
      toy-IsAuthentic (provider ring) 6 "platform_id" (9 ∷ []) refl refl

run_one_completes_example :
    let first_pass = run_one cipher (provider ring) (λ k. ok zeros) 0 identity_target 2 sealed_db in
    IsCompleted cipher
      (provider ring)
      2
      identity_target
      (λ pk. pk + 1)
      (λ pk. 9 ∷ [])
      sealed_db
      first_pass
    × (let (ts, failure, db') =
          run_one cipher (provider ring) (λ k. ok zeros) 1 identity_target 2 first_pass.2 in
        (failure ≡ none) × (ts.reencrypted ≡ 0) × (db' ≡ first_pass.2))
unfolding current_key key_of lookup new_aead
run_one_completes_example =
    run_one_completes cipher toy (22 ∷ []) 2 refl (omega arith) (omega arith) toy-IsAuthentic
      (provider ring) refl refl (λ n. zeros) (λ n. refl) identity_target identity-IsTarget
      (λ pk. pk + 1) (λ pk. 9 ∷ []) 0 1 sealed_db ((refl, opens_old), tt)
