-- ===== src/Keys/Names.antt =====
-- The names of the key files in the ring's directory: versionFilename, and versionedKeyPattern with
-- the strconv.ParseUint on what it captures.
use acp_server.Base.{
  ℕ, zero, suc, ◌+◌, ◌-◌, ◌*◌, ◌/◌, ◌%◌, ◌^◌, Bool, true, false, ◌&&◌, Option, none, some, [], ◌∷◌,
  ◌==◌, if◌then◌else◌, ltb, leb,
}
use acp_server.Store.{Blob}

-- `%d`, the digits before `tail`; each round takes off one digit, so `n` rounds are enough for n.
unfoldable pub decimal : ℕ → ℕ → Blob → Blob
decimal zero n tail = (b'0' + n % 10) ∷ tail
decimal (suc rounds) n tail =
    let more = decimal rounds (n / 10) ((b'0' + n % 10) ∷ tail) in
    if ltb n 10 then (b'0' + n) ∷ tail else more

abbrev pub key_suffix : Blob
key_suffix = b'.' ∷ b'k' ∷ b'e' ∷ b'y' ∷ []

unfoldable pub version_filename : ℕ → Blob
version_filename v = b'v' ∷ decimal v v key_suffix

abbrev pub is_digit : ℕ → Bool
is_digit c = leb b'0' c && leb c b'9'

unfoldable pub same_bytes : Blob → Blob → Bool
same_bytes [] [] = true
same_bytes (a ∷ as_) (b ∷ bs) = a == b && same_bytes as_ bs
same_bytes _ _ = false

abbrev pub push_digit : ℕ → Option Blob → Option Blob
push_digit c none = none
push_digit c (some ds) = some (c ∷ ds)

-- `([0-9]*)\.key$`
unfoldable pub digits_before_suffix : Blob → Option Blob
digits_before_suffix [] = none
digits_before_suffix (c ∷ cs) =
    if is_digit c
    then push_digit c (digits_before_suffix cs)
    else (if same_bytes (c ∷ cs) key_suffix then some [] else none)

-- What `^v([1-9][0-9]*)\.key$` captures.
unfoldable pub captured : Blob → Option Blob
captured [] = none
captured (v ∷ []) = none
captured (v ∷ d ∷ cs) =
    if v == b'v' && (leb b'1' d && leb d b'9') then push_digit d (digits_before_suffix cs) else none

abbrev pub u32_size : ℕ
u32_size = 2 ^ 32

unfoldable pub value_of : ℕ → Blob → ℕ
value_of v [] = v
value_of v (d ∷ ds) = value_of (v * 10 + (d - b'0')) ds

-- strconv.ParseUint(digits, 10, 32): an error past 32 bits.
unfoldable pub parse_uint32 : Blob → Option ℕ
parse_uint32 ds = if ltb (value_of 0 ds) u32_size then some (value_of 0 ds) else none

-- What scanKeyring makes of the name of a file: no key of the ring, one with a version that does
-- not fit, or the key of a version.
pub data NameOf : Type 0 where
  unrelated : NameOf
  invalid : NameOf
  version : ℕ → NameOf

abbrev pub checked_version : Option ℕ → NameOf
checked_version none = invalid
checked_version (some v) = if v == 0 then invalid else version v

abbrev pub classify_digits : Option Blob → NameOf
classify_digits none = unrelated
classify_digits (some ds) = checked_version (parse_uint32 ds)

unfoldable pub name_of : Blob → NameOf
name_of file = classify_digits (captured file)
