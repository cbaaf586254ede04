-- ===== src/Base/Queries.antt =====
-- Laws of the SQL forms, shared by the components.
use mathlib.Core.Path.{◌≡◌, refl, sym, ap}
use mathlib.Core.Logic.{inl, inr}
use mathlib.Core.Bool.{Bool, true, false}
use mathlib.Core.Option.{none, some}
use mathlib.Core.List.{List, [], ◌∷◌}
use native.Mathlib.Omega.{arith}
use acp_server.Base.Tests.{Bool-cases, eq_of_some}
use acp_server.Base.Sql.{first, exists, count_where, update_where, delete_where}

module _ {ℓ} {A : Type ℓ} where
  pub first-holds : (p : A → Bool) (rows : List A) (r : A) → first p rows ≡ some r → p r ≡ true
  unfolding first
  first-holds p [] r h = cc
  first-holds p (x ∷ rows) r h = ground (arith, first-holds p rows r)

  pub exists-first :
      (p : A → Bool) (rows : List A) (r : A) → first p rows ≡ some r → exists p rows ≡ true
  unfolding first exists
  exists-first p [] r h = cc
  exists-first p (x ∷ rows) r h = ground (arith, exists-first p rows r)

  pub first-update :
      (p : A → Bool) (f : A → A) (r : A) (rows : List A)
      → ((x : A) → p (f x) ≡ p x)
      → first p rows ≡ some r
      → first p (update_where p f rows) ≡ some (f r)
  unfolding first update_where
  first-update p f r [] keep h = cc
  first-update p f r (x ∷ rows) keep h = ground (arith, keep x, first-update p f r rows keep)

  -- A query of other rows, or of a key that the update keeps.
  pub first-update_other :
      (p q : A → Bool) (f : A → A) (rows : List A)
      → ((x : A) → p (f x) ≡ p x)
      → ((x : A) → p x ≡ true → q x ≡ false)
      → first p (update_where q f rows) ≡ first p rows
  unfolding first update_where
  first-update_other p q f [] keep apart = refl
  first-update_other p q f (x ∷ rows) keep apart =
      ground (arith, keep x, apart x, first-update_other p q f rows keep apart)

  pub first-delete_other :
      (p q : A → Bool) (rows : List A)
      → ((x : A) → p x ≡ true → q x ≡ false)
      → first p (delete_where q rows) ≡ first p rows
  unfolding first delete_where
  first-delete_other p q [] apart = refl
  first-delete_other p q (x ∷ rows) apart =
      ground (arith, apart x, first-delete_other p q rows apart)

  pub first-delete :
      (p q : A → Bool) (rows : List A)
      → ((x : A) → p x ≡ true → q x ≡ true)
      → first p (delete_where q rows) ≡ none
  unfolding first delete_where
  first-delete p q [] within = refl
  first-delete p q (x ∷ rows) within = ground (arith, within x, first-delete p q rows within)

  -- A query whose row the update reaches.
  pub first-update_reached :
      (p q : A → Bool) (f : A → A) (r : A) (rows : List A)
      → ((x : A) → p (f x) ≡ p x)
      → first p rows ≡ some r
      → q r ≡ true
      → first p (update_where q f rows) ≡ some (f r)
  unfolding first update_where
  first-update_reached p q f r [] keep h reached = cc
  first-update_reached p q f r (x ∷ rows) keep h reached = elim (Bool-cases (p x)) [
    | inl here ↦
        let same : x ≡ r = eq_of_some (rw here at h) in
        rw (same, reached, keep r, sym (ap p same), here) refl
    | inr other ↦ elim (Bool-cases (q x)) [
      | inl changed ↦
          rw (changed, keep x, other)
            (first-update_reached p q f r rows keep (rw other at h) reached)
      | inr kept ↦ rw (kept, other) (first-update_reached p q f r rows keep (rw other at h) reached)
    ]
  ]

  -- No row that the update reaches is left, if it changes every one of them.
  pub count-update :
      (q : A → Bool) (f : A → A) (rows : List A)
      → ((x : A) → q (f x) ≡ false)
      → count_where q (update_where q f rows) ≡ 0
  unfolding count_where update_where
  count-update q f [] away = refl
  count-update q f (x ∷ rows) away = elim (Bool-cases (q x)) [
    | inl reached ↦ rw (reached, away x) (count-update q f rows away)
    | inr kept ↦ rw (kept, kept) (count-update q f rows away)
  ]

  -- A row that a query finds is none of those that another test misses altogether.
  pub exists-false :
      (p q : A → Bool) (rows : List A) (r : A)
      → first p rows ≡ some r
      → exists q rows ≡ false
      → q r ≡ false
  unfolding first exists
  exists-false p q [] r h missed = cc
  exists-false p q (x ∷ rows) r h missed = ground (arith, exists-false p q rows r)
