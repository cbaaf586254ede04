-- ===== src/Keys/Rotation.antt =====
-- What Rotate of internal/keys/local.go keeps of the ring.
use acp_server.Base.{
  ℕ, ◌+◌, ◌≤◌, ◌<◌, ◌≡◌, refl, ◌≢◌, true, false, inl, inr, some, List, [], ◌∷◌, ◌==◌, arith, All,
  if◌then◌else◌, Bool-cases, ap, ◌∙◌,
}
use acp_server.Store.{Text, Blob, Result, ok, err}
use acp_server.Keys.Names.{u32_size, version_filename}
use acp_server.Keys.Files.{Os, in_keyring}
use acp_server.Keys.Ring.{
  Keyring, lookup, put, current_key, key_of, next_version, write_new, Step, with_key, rotated,
  rotate_with, rotate,
}

lookup-put :
    (v w : ℕ) (k : Blob) (m : List (ℕ × Blob))
    → lookup w (put v k m) ≡ (if v == w then some k else lookup w m)
unfolding lookup put
lookup-put v w k [] = refl
lookup-put v w k ((x, j) ∷ m) = ground (arith, lookup-put v w k m)

All-put :
    (P : ℕ × Blob → Type 0) (v : ℕ) (k : Blob) (m : List (ℕ × Blob))
    → P (v, k)
    → All P m
    → All P (put v k m)
unfolding put
All-put P v k [] h all = (h, tt)
All-put P v k ((x, j) ∷ m) h all = elim (Bool-cases (x == v)) [
  | inl same ↦ rw same (h, all.1)
  | inr other ↦ rw other (all.0, All-put P v k m h all.1)
]

-- A ring that has its current key, and no key of a version above it; versions are of 32 bits.
pub record IsSound (p : Keyring) : Type 0 where
  pub has_current : (k : Blob) × (lookup p.current p.entries ≡ some k)
  pub up_to_current : All (λ e. e.0 ≤ p.current) p.entries
  pub initialized : 0 < p.current
  pub bounded : p.current < u32_size

with_key-IsSound :
    (p : Keyring) (v : ℕ) (k : Blob)
    → IsSound p
    → v ≡ p.current + 1
    → v < u32_size
    → IsSound (with_key p v k)
with_key-IsSound p v k s next fits = record {
  has_current = (k, rw (lookup-put v v k p.entries) (ground arith));
  up_to_current =
      All-put (λ e. e.0 ≤ v) v k p.entries (omega arith) (weaken p.entries s.up_to_current);
  initialized = omega arith;
  bounded = fits;
}
  where
    weaken : (m : List (ℕ × Blob)) → All (λ e. e.0 ≤ p.current) m → All (λ e. e.0 ≤ v) m
    weaken [] h = tt
    weaken (e ∷ m) h = (omega arith, weaken m h.1)

next_lem :
    (p : Keyring) → IsSound p → (next_version p == 0) ≡ false → next_version p ≡ p.current + 1
unfolding next_version
next_lem p s fits = let b : p.current < u32_size = s.bounded in ground arith

next_fits : (p : Keyring) → p.current + 1 < u32_size → next_version p ≡ p.current + 1
unfolding next_version
next_fits p fits = omega arith

next_lt : (p : Keyring) → next_version p < u32_size
unfolding next_version
next_lt p = omega arith

module _ (os : Os) where
  open os use {Disk}

  -- A rotation that failed left the ring alone; one that succeeded made the fresh key the current
  -- one under the version after the last, and hands out every key of another version as before.
  abbrev pub IsRotated : (Blob → Text) → Keyring → Step os (ℕ × Text) → Type 0
  IsRotated fingerprint p (err e, p', disk) = p' ≡ p
  IsRotated fingerprint p (ok (v, print), p', disk) =
      (v ≡ p.current + 1)
      × ((k : Blob) × (print ≡ fingerprint k) × (current_key p' ≡ ok (k, v)) × (key_of v p' ≡ ok k))
      × ((w : ℕ) → w ≢ v → key_of w p' ≡ key_of w p)
      × IsSound p'

  rotated-IsRotated :
      (fingerprint : Blob → Text) (p : Keyring) (v : ℕ) (k : Blob) (out : Result (Unit {0}) × Disk)
      → IsSound p
      → v ≡ p.current + 1
      → v < u32_size
      → IsRotated fingerprint p (rotated os fingerprint p v k out)
  unfolding current_key key_of
  rotated-IsRotated fingerprint p v k (err e, disk) s next fits = refl
  rotated-IsRotated fingerprint p v k (ok u, disk) s next fits =
      let live : (v == 0) ≡ false = ground arith in
      let was_live : (p.current == 0) ≡ false = ground (arith, s.initialized) in
      let self : lookup v (put v k p.entries) ≡ some k =
        rw (lookup-put v v k p.entries) (ground arith) in
      (
        next,
        (k, refl, rw (live, self) refl, rw (live, self) refl),
        λ w other.
            let apart : (v == w) ≡ false = ground arith in
            rw (live, was_live, lookup-put v w k p.entries, apart) refl,
        with_key-IsSound p v k s next fits,
      )

  rotate_cases :
      (fingerprint : Blob → Text) (random : Result Blob) (p : Keyring) (disk : Disk)
      → IsSound p
      → IsRotated fingerprint p (rotate os fingerprint random p disk)
  unfolding rotate
  rotate_cases fingerprint random p disk s = elim (Bool-cases (p.current == 0)) [
    | inl none_yet ↦ rw none_yet refl
    | inr live ↦ elim (Bool-cases (next_version p == 0)) [
      | inl over ↦ rw (live, over) refl
      | inr fits ↦ rw (live, fits) (drawn random fits)
    ]
  ]
    where
      drawn :
          (r : Result Blob)
          → (next_version p == 0) ≡ false
          → IsRotated fingerprint p (rotate_with os fingerprint p r disk)
      drawn (err e) fits = refl
      drawn (ok k) fits =
          rotated-IsRotated fingerprint p (next_version p) k
            (write_new os true (in_keyring (version_filename (next_version p))) k disk) s
            (next_lem p s fits) (next_lt p)

  rotate_succeeds :
      (fingerprint : Blob → Text) (random : Result Blob) (p : Keyring) (disk : Disk)
      → IsSound p
      → (k : Blob) (disk' : Disk) → random ≡ ok k
      → write_new os true (in_keyring (version_filename (p.current + 1))) k disk ≡ (ok tt, disk')
      → p.current + 1 < u32_size
      → rotate os fingerprint random p disk
        ≡ (ok (p.current + 1, fingerprint k), with_key p (p.current + 1) k, disk')
  unfolding rotate
  rotate_succeeds fingerprint random p disk s k disk' drew wrote fits =
      let live : (p.current == 0) ≡ false = ground (arith, s.initialized) in
      let next : next_version p ≡ p.current + 1 = next_fits p fits in
      rw (live, drew)
        ((let fits' : (next_version p == 0) ≡ false = ground arith in rw fits' refl)
          ∙ ap
              (λ (v : ℕ).
                rotated os fingerprint p v k
                  (write_new os true (in_keyring (version_filename v)) k disk))
              next
          ∙ ap (λ (out : Result (Unit {0}) × Disk). rotated os fingerprint p (p.current + 1) k out)
              wrote)

  -- On a sound ring a rotation fails and leaves the ring alone, or it makes the fresh key the current
  -- one, under the version after the current one, whose fingerprint it returns; every key of another
  -- version is handed out as before, so old ciphertext stays readable, and the ring is sound again.
  -- It succeeds when a key is drawn, its file is written and the next version fits 32 bits.
  pub rotate-IsRotated :
      (fingerprint : Blob → Text) (random : Result Blob) (p : Keyring) (disk : Disk)
      → IsSound p
      → IsRotated fingerprint p (rotate os fingerprint random p disk)
        × ((k : Blob) (disk' : Disk)
            → random ≡ ok k
            → write_new os true (in_keyring (version_filename (p.current + 1))) k disk
              ≡ (ok tt, disk')
            → p.current + 1 < u32_size
            → rotate os fingerprint random p disk
              ≡ (ok (p.current + 1, fingerprint k), with_key p (p.current + 1) k, disk'))
  rotate-IsRotated fingerprint random p disk s =
      (rotate_cases fingerprint random p disk s, rotate_succeeds fingerprint random p disk s)
