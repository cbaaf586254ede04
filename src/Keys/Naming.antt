-- ===== src/Keys/Naming.antt =====
-- The names that versionFilename writes are the ones that versionedKeyPattern reads back.
use acp_server.Base.{
  ℕ, zero, suc, ◌+◌, ◌/◌, ◌%◌, ◌<◌, ◌≡◌, refl, true, ap, ◌∙◌, some, [], ◌∷◌, ◌++◌, arith, ltb, leb,
  ◌&&◌, All, Bool-cases, inl, inr,
}
use acp_server.Store.{Blob}
use acp_server.Keys.Names.{
  decimal, version_filename, key_suffix, is_digit, same_bytes, digits_before_suffix, captured,
  u32_size, value_of, parse_uint32, NameOf, name_of,
}

-- The digits alone.
abbrev digits : ℕ → ℕ → Blob
digits rounds n = decimal rounds n []

decimal-append :
    (rounds n : ℕ) (front back : Blob)
    → decimal rounds n (front ++ back) ≡ decimal rounds n front ++ back
unfolding decimal
decimal-append zero n front back = refl
decimal-append (suc rounds) n front back =
    ground (arith, decimal-append rounds (n / 10) ((b'0' + n % 10) ∷ front) back)

abbrev IsDigits : Blob → Type 0
IsDigits = All (λ c. is_digit c ≡ true)

decimal-IsDigits : (rounds n : ℕ) (tail : Blob) → IsDigits tail → IsDigits (decimal rounds n tail)
unfolding decimal
decimal-IsDigits zero n tail h = (ground arith, h)
decimal-IsDigits (suc rounds) n tail h = elim (Bool-cases (ltb n 10)) [
  | inl last ↦ rw last (ground arith, h)
  | inr more ↦ rw more (decimal-IsDigits rounds (n / 10) ((b'0' + n % 10) ∷ tail) (ground arith, h))
]

digits_before_suffix-append :
    (ds : Blob) → IsDigits ds → digits_before_suffix (ds ++ key_suffix) ≡ some ds
unfolding digits_before_suffix same_bytes
digits_before_suffix-append [] h = refl
digits_before_suffix-append (d ∷ ds) h = rw (h.0, digits_before_suffix-append ds h.1)

value-decimal :
    (rounds n : ℕ) (tail : Blob)
    → n < suc rounds
    → value_of 0 (decimal rounds n tail) ≡ value_of n tail
unfolding decimal value_of
value-decimal zero n tail h = ap (λ (t : ℕ). value_of t tail) (omega arith)
value-decimal (suc rounds) n tail h = elim (Bool-cases (ltb n 10)) [
  | inl last ↦ rw last (ap (λ (t : ℕ). value_of t tail) (omega arith))
  | inr more ↦ rw more (
      value-decimal rounds (n / 10) ((b'0' + n % 10) ∷ tail) (ground arith)
      ∙ ap (λ (t : ℕ). value_of t tail) (omega arith))
]

-- The first digit is not 0.
abbrev StartsWell : Blob → Type 0
StartsWell ds = (d : ℕ) × (rest : Blob) × (ds ≡ d ∷ rest) × ((leb b'1' d && leb d b'9') ≡ true)

decimal-StartsWell :
    (rounds n : ℕ) (tail : Blob) → 0 < n → n < suc rounds → StartsWell (decimal rounds n tail)
unfolding decimal
decimal-StartsWell zero n tail pos h = absurd (omega arith)
decimal-StartsWell (suc rounds) n tail pos h = elim (Bool-cases (ltb n 10)) [
  | inl last ↦ rw last (b'0' + n, tail, refl, ground arith)
  | inr more ↦
      rw more
        (decimal-StartsWell rounds (n / 10) ((b'0' + n % 10) ∷ tail) (ground arith) (ground arith))
]

captured_digits :
    (ds : Blob) → StartsWell ds → IsDigits ds → captured (b'v' ∷ (ds ++ key_suffix)) ≡ some ds
unfolding captured
captured_digits ds (d, rest, e, first) all =
    let tail : IsDigits rest = (rw e at all).1 in
    rw e (rw (first, digits_before_suffix-append rest tail) refl)

-- The file name of a 32-bit version other than 0 is read back as the key of that version, so that
-- a start finds the key that a rotation wrote.
pub name_of-version_filename :
    (v : ℕ) → 0 < v → v < u32_size → name_of (version_filename v) ≡ NameOf.version v
unfolding name_of version_filename parse_uint32 value_of
name_of-version_filename v pos fits =
    let shape : decimal v v key_suffix ≡ digits v v ++ key_suffix =
      decimal-append v v [] key_suffix in
    let read : captured (b'v' ∷ (digits v v ++ key_suffix)) ≡ some (digits v v) =
      captured_digits (digits v v) (decimal-StartsWell v v [] pos (omega arith))
        (decimal-IsDigits v v [] tt) in
    let value : value_of 0 (digits v v) ≡ v = value-decimal v v [] (omega arith) in
    rw (shape, read, value) (ground arith)

pub same_bytes_refl : (b : Blob) → same_bytes b b ≡ true
unfolding same_bytes
same_bytes_refl [] = refl
same_bytes_refl (x ∷ b) = ground (arith, same_bytes_refl b)

pub same_bytes_eq : (a b : Blob) → same_bytes a b ≡ true → a ≡ b
unfolding same_bytes
same_bytes_eq [] [] h = refl
same_bytes_eq [] (y ∷ b) h = cc
same_bytes_eq (x ∷ a) [] h = cc
same_bytes_eq (x ∷ a) (y ∷ b) h = ground (arith, same_bytes_eq a b)
