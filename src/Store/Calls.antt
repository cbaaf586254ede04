-- ===== src/Store/Calls.antt =====
-- Calls that may fail. What was written before an error stays written, so the database comes back
-- beside the error too; only a transaction takes its writes back.
use acp_server.Base.{◌≡◌, refl, Bool, Option, none, some, ◌⊎◌, inl, inr, if◌then◌else◌}
use acp_server.Store.Types.{Error, no_rows}
use acp_server.Store.Ledger.{Db}

pub data Result {ℓ} (A : Type ℓ) : Type ℓ where
  ok : A → Result A
  err : Error → Result A

abbrev pub Exec {ℓ} : Type ℓ → Type ℓ
Exec A = Db → Result A × Db

module _ {ℓ} {A : Type ℓ} where
  abbrev pub pure : A → Exec A
  pure a db = (ok a, db)

  abbrev pub raise : Error → Exec A
  raise e db = (err e, db)

  abbrev pub gets : (Db → A) → Exec A
  gets f db = (ok (f db), db)

  abbrev pub lift : Result A → Exec A
  lift r db = (r, db)

  abbrev pub or_raise : Option A → Error → Exec A
  or_raise none e = raise e
  or_raise (some a) e = pure a

  -- A query of one row.
  abbrev pub scan : (Db → Option A) → Exec A
  scan f db = or_raise (f db) no_rows db

module _ {ℓ κ} {A : Type ℓ} {B : Type κ} where
  abbrev pub continue : Result A → (A → Exec B) → Exec B
  continue (ok a) f db = f a db
  continue (err e) f db = (err e, db)

  infixl 5 ◌>>=◌ ◌>>◌
  abbrev pub ◌>>=◌ : Exec A → (A → Exec B) → Exec B
  ◌>>=◌ m f db = let (r, db') = m db in continue r f db'

  abbrev pub ◌>>◌ : Exec A → Exec B → Exec B
  ◌>>◌ m k db = let (r, db') = m db in continue r (λ _. k) db'

abbrev pub modify : (Db → Db) → Exec (Unit {0})
modify f db = (ok tt, f db)

abbrev pub raise_if : Bool → Error → Exec (Unit {0})
raise_if c e db = if c then (err e, db) else (ok tt, db)

module _ {ℓ} {A : Type ℓ} where
  -- The database after a transaction: every write, or none after an error.
  abbrev pub commit_or_rollback : Db → Result A → Db → Result A × Db
  commit_or_rollback before (ok a) after = (ok a, after)
  commit_or_rollback before (err e) after = (err e, before)

  -- db.Begin ... tx.Commit, with the deferred tx.Rollback on every error.
  abbrev pub transaction : Exec A → Exec A
  transaction m db = let (r, db') = m db in commit_or_rollback db r db'

  abbrev pub map_error : (Error → Error) → Result A → Result A
  map_error w (ok a) = ok a
  map_error w (err e) = err (w e)

  -- fmt.Errorf("...: %w", err)
  abbrev pub wrap_error : (Error → Error) → Exec A → Exec A
  wrap_error w m db = let (r, db') = m db in (map_error w r, db')

pub Result-cases {ℓ} :
    {A : Type ℓ} (r : Result A) → ((a : A) × (r ≡ ok a)) ⊎ ((e : Error) × (r ≡ err e))
Result-cases (ok a) = inl (a, refl)
Result-cases (err e) = inr (e, refl)

pub eq_of_ok {ℓ} : {A : Type ℓ} {a b : A} → ok a ≡ ok b → a ≡ b
eq_of_ok h = cc
