-- ===== src/Base/Sql.antt =====
-- Tables as lists of rows, the newest first, and the SQL forms that the server uses on them.
use Prim.Native.Nat.{ℕ, suc}
use mathlib.Core.Bool.{Bool, false, ◌||◌}
use mathlib.Core.Option.{Option, none, some}
use mathlib.Core.List.{List, [], ◌∷◌}
use acp_server.Base.Tests.{ltb, leb, if◌then◌else◌}
use acp_server.Base.Int.{ℤ, pos, ◌+ℤ◌}

module _ {ℓ} {A : Type ℓ} where
  -- SELECT * WHERE p
  unfoldable pub select : (A → Bool) → List A → List A
  select p [] = []
  select p (r ∷ rs) = if p r then r ∷ select p rs else select p rs

  -- The row that a one-row query scans.
  unfoldable pub first : (A → Bool) → List A → Option A
  first p [] = none
  first p (r ∷ rs) = if p r then some r else first p rs

  -- EXISTS
  unfoldable pub exists : (A → Bool) → List A → Bool
  exists p [] = false
  exists p (r ∷ rs) = p r || exists p rs

  -- COUNT(*)
  unfoldable pub count_where : (A → Bool) → List A → ℕ
  count_where p [] = 0
  count_where p (r ∷ rs) = if p r then suc (count_where p rs) else count_where p rs

  -- COALESCE(SUM(value), 0) WHERE p
  unfoldable pub sum_where : (A → Bool) → (A → ℤ) → List A → ℤ
  sum_where p value [] = pos 0
  sum_where p value (r ∷ rs) = if p r then value r +ℤ sum_where p value rs else sum_where p value rs

  -- UPDATE ... WHERE p
  unfoldable pub update_where : (A → Bool) → (A → A) → List A → List A
  update_where p f [] = []
  update_where p f (r ∷ rs) = (if p r then f r else r) ∷ update_where p f rs

  -- DELETE WHERE p
  unfoldable pub delete_where : (A → Bool) → List A → List A
  delete_where p [] = []
  delete_where p (r ∷ rs) = if p r then delete_where p rs else r ∷ delete_where p rs

  -- ORDER BY key, ascending
  unfoldable pub insert_by : (A → ℕ) → A → List A → List A
  insert_by key x [] = x ∷ []
  insert_by key x (r ∷ rs) = if leb (key r) (key x) then r ∷ insert_by key x rs else x ∷ r ∷ rs

  unfoldable pub order_by : (A → ℕ) → List A → List A
  order_by key [] = []
  order_by key (r ∷ rs) = insert_by key r (order_by key rs)

  -- ORDER BY key DESC LIMIT 1
  unfoldable pub last_by : (A → ℕ) → List A → Option A
  last_by key [] = none
  last_by key (r ∷ rs) = elim (last_by key rs) [
    | none ↦ some r
    | some s ↦ if ltb (key r) (key s) then some s else some r
  ]
