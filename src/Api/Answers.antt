-- ===== src/Api/Answers.antt =====
-- Reading the answer of a handler of internal/api back through its steps.
use acp_server.Base.{ℕ, ◌≡◌, refl, ap, Bool, true, false}
use acp_server.Store.{Db, Error, Result, ok, err}
use acp_server.Api.{Reply, json_ok, json_error, Handler, proceed, answered, refuse_if}

module _ {A B : Type 0} where
  pub proceed_ok :
      (r : Reply A × Db) (step : A → Handler B) (b : B) (db' : Db)
      → proceed r.0 step r.1 ≡ (json_ok b, db')
      → (a : A) × (db1 : Db) × (r ≡ (json_ok a, db1)) × (step a db1 ≡ (json_ok b, db'))
  proceed_ok (json_ok a, db1) step b db' h = (a, db1, refl, h)
  proceed_ok (json_error e code, db1) step b db' h = absurd (cc (ap (λ x. x.0) h))

  -- A service that was answered has come to a result.
  pub answered_ok :
      (code : Error → ℕ) (r : Result A × Db) (step : A → Handler B) (b : B) (db' : Db)
      → proceed (answered code r).0 step (answered code r).1 ≡ (json_ok b, db')
      → (a : A) × (r.0 ≡ ok a) × (step a r.1 ≡ (json_ok b, db'))
  answered_ok code (ok a, db1) step b db' h = (a, refl, h)
  answered_ok code (err e, db1) step b db' h = absurd (cc (ap (λ x. x.0) h))

pub past_refusal :
    {B : Type 0} (broken : Bool) (e : Error) (code : ℕ) (db : Db) (step : Unit {0} → Handler B)
    (b : B) (db' : Db)
    → proceed (refuse_if broken e code db).0 step (refuse_if broken e code db).1 ≡ (json_ok b, db')
    → (broken ≡ false) × (step tt db ≡ (json_ok b, db'))
past_refusal false e code db step b db' h = (refl, h)
past_refusal true e code db step b db' h = absurd (cc (ap (λ x. x.0) h))

-- What holds of the database along the steps of a handler.
pub proceed-keeps :
    {A B : Type 0} (P : Db → Type 0) (r : Reply A × Db) (step : A → Handler B)
    → P r.1
    → ((a : A) (db : Db) → P db → P (step a db).1)
    → P (proceed r.0 step r.1).1
proceed-keeps P (json_ok a, db) step h go = go a db h
proceed-keeps P (json_error e code, db) step h go = h

pub answered-keeps :
    {A : Type 0} (P : Db → Type 0) (code : Error → ℕ) (r : Result A × Db)
    → P r.1
    → P (answered code r).1
answered-keeps P code (ok a, db) h = h
answered-keeps P code (err e, db) h = h

pub refuse_if-keeps :
    (P : Db → Type 0) (broken : Bool) (e : Error) (code : ℕ) (db : Db)
    → P db
    → P (refuse_if broken e code db).1
refuse_if-keeps P false e code db h = h
refuse_if-keeps P true e code db h = h
