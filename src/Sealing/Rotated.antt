-- ===== src/Sealing/Rotated.antt =====
-- Sealed blobs and the rotation of the keys: internal/crypto/seal.go over internal/keys/local.go.
use acp_server.Base.{
  ℕ, String, ◌≤◌, ◌<◌, ◌≡◌, refl, true, false, ◌==◌, arith, length, ap, ◌∙◌, sym, Bool-cases, inl,
  inr,
}
use acp_server.Store.{Text, Blob, Error, Result, ok, err}
use acp_server.Store.Results.{◌>>=◌}
use acp_server.Keys.{Keyring, KeyProvider, provider, Os, rotate, current_key, key_of}
use acp_server.Keys.Rotation.{IsSound, IsRotated, rotate-IsRotated}
use acp_server.Sealing.{
  Aead, Cipher, new_aead, unbound, seal, seal_under, unseal, out_of_range, nonce_size,
  max_key_version, wrapping, unbound_error, range_error,
}
use acp_server.Sealing.RoundTrip.{IsAuthentic, unseal-seal}

current_version : (q : Keyring) (key : Blob) (v : ℕ) → current_key q ≡ ok (key, v) → q.current ≡ v
unfolding current_key
current_version q key v h = ground arith

first_of :
    (k key : Blob) (w v : ℕ) → ◌≡◌ {A = Result (Blob × ℕ)} (ok (k, w)) (ok (key, v)) → k ≡ key
first_of k key w v h = cc

known_current :
    (q : Keyring) (key : Blob) (v : ℕ)
    → IsSound q
    → current_key q ≡ ok (key, v)
    → (key_of q.current q ≡ ok key) × (0 < v)
unfolding current_key key_of
known_current q key v s h =
    let (k, found) = s.has_current in
    let started : (q.current == 0) ≡ false = ground (arith, s.initialized) in
    let same : k ≡ key = first_of k key q.current v (rw (started, found) at h) in
    (rw (started, found) (ap (λ (x : Blob). ok x) same), ground (arith, s.initialized))

module _ (os : Os) (fingerprint : Blob → Text) where
  open os use {Disk}

  -- The rings that calls of Rotate lead to, whatever they draw and find on the disk.
  pub data Later (p : Keyring) : Keyring → Type 0 where
    now : Later p p
    then_rotate :
        {q r : Keyring}
        → Later p q
        → (random : Result Blob) (disk : Disk) → r ≡ (rotate os fingerprint random q disk).1
        → Later p r

  -- What all of them share with the first.
  record Keeps (p q : Keyring) : Type 0 where
    sound : IsSound q
    after : p.current ≤ q.current
    same_key : key_of p.current q ≡ key_of p.current p

  Keeps-step :
      (p q : Keyring) (out : Result (ℕ × Text) × Keyring × Disk)
      → Keeps p q
      → IsRotated os fingerprint q out
      → Keeps p out.1
  Keeps-step p q (err e, q', disk) k same = rw same k
  Keeps-step p q (ok (v, print), q', disk) k (next, (key, printed, current, found), others, sound) =
      record {
        sound = sound;
        after = omega (arith, current_version q' key v current, k.after);
        same_key =
            others p.current (let le : p.current ≤ q.current = k.after in omega arith) ∙ k.same_key;
      }

  Later-Keeps : (p q : Keyring) → IsSound p → Later p q → Keeps p q
  Later-Keeps p q s now = record {
    sound = s;
    after = let c : ℕ = p.current in omega arith;
    same_key = refl;
  }
  Later-Keeps p q s (then_rotate {q = q'} before random disk e) = rw e (
      Keeps-step p q' (rotate os fingerprint random q' disk) (Later-Keeps p q' s before)
        (rotate-IsRotated os fingerprint random q' disk (Later-Keeps p q' s before).sound).0)

  -- A blob that was sealed under a sound ring of a 24-bit version opens to its plaintext after any
  -- calls of Rotate, with a nonce of 12 bytes, a named row and column, and a cipher that opens what
  -- it seals.
  pub sealed_opens-Later :
      (c : Cipher) (a : Aead) (key nonce : Blob) (v : ℕ)
      → new_aead c key ≡ ok a
      → v ≤ max_key_version
      → length nonce ≡ nonce_size
      → IsAuthentic a
      → (p q : Keyring) (row : Text) (column : String) (plain : Blob) → unbound c row column ≡ false
      → IsSound p
      → current_key p ≡ ok (key, v)
      → Later p q
      → (blob : Blob) × (seal c (provider p) (ok nonce) row column plain ≡ ok blob)
        × (unseal c (provider q) row column blob ≡ ok plain)
  sealed_opens-Later c a key nonce v accepted high whole authentic p q row column plain named s
        current later =
      let (known, low) = known_current p key v s current in
      let kept = Later-Keeps p q s later in
      let (blob, wrote, reads) =
        unseal-seal c a key v nonce accepted low high whole authentic (provider p) row column plain
          named current in
      let there : key_of v q ≡ ok key =
        ap (λ (w : ℕ). key_of w q) (sym (current_version p key v current))
        ∙ kept.same_key
        ∙ known in
      (blob, wrote, reads (provider q) there)

  refused_past :
      (q : KeyProvider) (key : Blob) (v : ℕ)
      → q.current ≡ ok (key, v)
      → max_key_version < v
      → (c : Cipher) (drawn : Result Blob) (row : Text) (column : String) (plain : Blob)
      → (e : Error) × (seal c q drawn row column plain ≡ err e)
  unfolding seal seal_under
  refused_past q key v current over c drawn row column plain =
      elim (Bool-cases (unbound c row column)) [
        | inl bare ↦ (unbound_error, rw bare refl)
        | inr named ↦
            let out : out_of_range v ≡ true = ground arith in
            (
              range_error v,
              rw named (
                  ap
                    (λ (r : Result (Blob × ℕ)).
                      wrapping "acp crypto: provider current: %w" r
                      >>= seal_under c drawn row column plain)
                    current
                  ∙ rw out refl),
            )
      ]

  past :
      (p : Keyring) (out : Result (ℕ × Text) × Keyring × Disk) (v : ℕ) (print : Text)
      → p.current ≡ max_key_version
      → out.0 ≡ ok (v, print)
      → IsRotated os fingerprint p out
      → (c : Cipher) (drawn : Result Blob) (row : Text) (column : String) (plain : Blob)
      → (e : Error) × (seal c (provider out.1) drawn row column plain ≡ err e)
  past p (err e, q, disk) v print last went turned c drawn row column plain = cc
  past p (ok (w, other), q, disk) v print last went
        (next, (key, printed, current, found), others, s) c drawn row column plain =
      refused_past (provider q) key w current (omega arith) c drawn row column plain

  -- On a sound ring at the last version of 24 bits, Seal fails on every input after a call of Rotate
  -- that succeeds.
  pub rotate_past_24_bits :
      (p : Keyring) (random : Result Blob) (disk : Disk) (v : ℕ) (print : Text)
      → IsSound p
      → p.current ≡ max_key_version
      → (rotate os fingerprint random p disk).0 ≡ ok (v, print)
      → (c : Cipher) (drawn : Result Blob) (row : Text) (column : String) (plain : Blob)
      → (e : Error) × (seal c
            (provider (rotate os fingerprint random p disk).1)
            drawn
            row
            column
            plain
          ≡ err e)
  rotate_past_24_bits p random disk v print s last went c drawn row column plain =
      past p (rotate os fingerprint random p disk) v print last went
        (rotate-IsRotated os fingerprint random p disk s).0 c drawn row column plain
