-- ===== src/Sealing/Bytes.antt =====
-- Byte slices and the bytes of a string literal.
use Prim.Native.Char.{code}
use acp_server.Base.{
  ℕ, zero, suc, ◌≡◌, refl, String, Bool, true, false, [], ◌∷◌, ◌++◌, arith, length, ap,
}
use acp_server.Store.{Blob}

-- The bytes of a string of ASCII characters.
abbrev pub codes : String → Blob
codes String.[] = []
codes (String.◌∷◌ c s) = code c ∷ codes s

abbrev pub aad_prefix : Blob
aad_prefix = codes "acp-server|"

abbrev pub aad_separator : ℕ
aad_separator = b'|'

abbrev pub is_nil : Blob → Bool
is_nil [] = true
is_nil (b ∷ bs) = false

-- blob[i], inside of the slice.
unfoldable pub byte_at : Blob → ℕ → ℕ
byte_at [] i = 0
byte_at (b ∷ bs) zero = b
byte_at (b ∷ bs) (suc i) = byte_at bs i

-- blob[:n] and blob[n:]
unfoldable pub take : ℕ → Blob → Blob
take zero bs = []
take (suc n) [] = []
take (suc n) (b ∷ bs) = b ∷ take n bs

unfoldable pub drop : ℕ → Blob → Blob
drop zero bs = bs
drop (suc n) [] = []
drop (suc n) (b ∷ bs) = drop n bs

pub take-append : (n : ℕ) (front back : Blob) → length front ≡ n → take n (front ++ back) ≡ front
unfolding take
take-append zero [] back h = refl
take-append zero (b ∷ front) back h = absurd (omega arith)
take-append (suc n) [] back h = absurd (omega arith)
take-append (suc n) (b ∷ front) back h =
    ap (λ (l : Blob). b ∷ l) (take-append n front back (omega arith))

pub take_self : (n : ℕ) (bs : Blob) → length bs ≡ n → take n bs ≡ bs
unfolding take
take_self zero [] h = refl
take_self zero (b ∷ bs) h = absurd (omega arith)
take_self (suc n) [] h = absurd (omega arith)
take_self (suc n) (b ∷ bs) h = ap (λ (l : Blob). b ∷ l) (take_self n bs (omega arith))

pub drop-append : (n : ℕ) (front back : Blob) → length front ≡ n → drop n (front ++ back) ≡ back
unfolding drop
drop-append zero [] back h = refl
drop-append zero (b ∷ front) back h = absurd (omega arith)
drop-append (suc n) [] back h = absurd (omega arith)
drop-append (suc n) (b ∷ front) back h = drop-append n front back (omega arith)
