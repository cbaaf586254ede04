-- ===== src/Store/Results.antt =====
-- Calls that may fail and touch no table.
use acp_server.Base.{◌≡◌, refl, Bool, true, false}
use acp_server.Store.Types.{Error}
use acp_server.Store.Calls.{Result, ok, err}

module _ {ℓ κ} {A : Type ℓ} {B : Type κ} where
  infixl 5 ◌>>=◌ ◌>>◌
  abbrev pub ◌>>=◌ : Result A → (A → Result B) → Result B
  ◌>>=◌ (err e) step = err e
  ◌>>=◌ (ok a) step = step a

  abbrev pub ◌>>◌ : Result A → Result B → Result B
  ◌>>◌ (err e) next = err e
  ◌>>◌ (ok a) next = next

-- `if broken { return ..., e }`
abbrev pub refuse_if : Bool → Error → Result (Unit {0})
refuse_if true e = err e
refuse_if false e = ok tt

-- What a call that went through says of its first part.
pub bound {ℓ κ} :
    {A : Type ℓ} {B : Type κ} (r : Result A) (step : A → Result B) (b : B)
    → (r >>= step) ≡ ok b
    → (a : A) × (r ≡ ok a) × (step a ≡ ok b)
bound (err e) step b h = cc
bound (ok a) step b h = (a, refl, h)
