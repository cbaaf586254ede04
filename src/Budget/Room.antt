-- ===== src/Budget/Room.antt =====
-- The counters of internal/budget/budget.go: when there is room for a charge, and what a charge and a
-- refund make of them.
use acp_server.Base.{◌≡◌, refl, true, false, some, List, [], ◌∷◌, Bool-cases, inl, inr, ◌⊎◌, arith}
use acp_server.Base.Int.{
  ℤ, pos, ◌+ℤ◌, ◌≤ℤ◌, ◌<ℤ◌, ◌-ℤ◌, +ℤ_parts, -ℤ_parts, leb_ℤ, sub64, InRange64, wrap64-InRange64,
  wrap64-le,
}
use acp_server.Base.Sql.{first, update_where}
use acp_server.Store.{Text, Db, Draw, Counter}
use acp_server.Budget.{counts, counter, spend, refund, is_exhausted, record_spend, release}

-- The counter of a covenant stays within its limit, where it has one, and is not negative.
abbrev pub WithinLimit : Counter → Type 0
WithinLimit c =
    (pos 0 ≤ℤ c.budget_spent) × (pos 0 <ℤ c.budget_limit → c.budget_spent ≤ℤ c.budget_limit)

pub first-update :
    (k : Text) (f : Counter → Counter) (c : Counter) (cs : List Counter)
    → ((x : Counter) → (f x).covenant_id ≡ x.covenant_id)
    → first (counts k) cs ≡ some c
    → first (counts k) (update_where (counts k) f cs) ≡ some (f c)
unfolding first update_where
first-update k f c [] keep h = cc
first-update k f c (x ∷ cs) keep h = ground (arith, keep x, first-update k f c cs keep)

pub counter-record_spend :
    (draw : Draw) (k : Text) (cost : ℤ) (id log_id : Text) (db : Db) (c : Counter)
    → pos 0 <ℤ cost
    → counter k db ≡ some c
    → counter k (record_spend draw k cost id log_id db) ≡ some (spend draw.now cost c)
unfolding record_spend
counter-record_spend draw k cost id log_id db c p h = elim (Bool-cases (leb_ℤ cost (pos 0))) [
  | inl free ↦ absurd (ground arith)
  | inr charged ↦
      rw charged (first-update k (spend draw.now cost) c db.budget_counters (λ x. refl) h)
]

pub counter-release :
    (draw : Draw) (k : Text) (amount : ℤ) (db : Db) (c : Counter)
    → pos 0 <ℤ amount
    → counter k db ≡ some c
    → counter k (release draw k amount db) ≡ some (refund draw.now amount c)
unfolding release
counter-release draw k amount db c p h = elim (Bool-cases (leb_ℤ amount (pos 0))) [
  | inl free ↦ absurd (ground arith)
  | inr charged ↦
      rw charged (first-update k (refund draw.now amount) c db.budget_counters (λ x. refl) h)
]

pub is_exhausted-true :
    (c : Counter) (cost : ℤ)
    → InRange64 (c.budget_limit -ℤ c.budget_spent)
    → is_exhausted c cost ≡ true
    → (pos 0 <ℤ c.budget_limit) × (c.budget_limit <ℤ c.budget_spent +ℤ cost)
unfolding is_exhausted sub64
is_exhausted-true c cost fits h =
    let exact = wrap64-InRange64 (c.budget_limit -ℤ c.budget_spent) fits in
    let h' = rw exact at h in
    ground (arith, -ℤ_parts c.budget_limit c.budget_spent, +ℤ_parts c.budget_spent cost)

pub is_exhausted-false :
    (c : Counter) (cost : ℤ)
    → InRange64 (c.budget_limit -ℤ c.budget_spent)
    → is_exhausted c cost ≡ false
    → (c.budget_limit ≤ℤ pos 0) ⊎ (c.budget_spent +ℤ cost ≤ℤ c.budget_limit)
unfolding is_exhausted sub64
is_exhausted-false c cost fits h =
    let exact = wrap64-InRange64 (c.budget_limit -ℤ c.budget_spent) fits in
    let h' = rw exact at h in
    ground (arith, -ℤ_parts c.budget_limit c.budget_spent, +ℤ_parts c.budget_spent cost)

-- Within the limit the difference may wrap around only to a smaller one.
pub is_exhausted-within :
    (c : Counter) (cost : ℤ)
    → WithinLimit c
    → is_exhausted c cost ≡ false
    → (c.budget_limit ≤ℤ pos 0) ⊎ (c.budget_spent +ℤ cost ≤ℤ c.budget_limit)
unfolding is_exhausted sub64
is_exhausted-within c cost within h = elim (Bool-cases (leb_ℤ c.budget_limit (pos 0))) [
  | inl unlimited ↦ inl (ground arith)
  | inr limited ↦
      let positive : pos 0 <ℤ c.budget_limit = ground arith in
      let fits = within.1 positive in
      let parts = -ℤ_parts c.budget_limit c.budget_spent in
      let below = wrap64-le (c.budget_limit -ℤ c.budget_spent) (omega arith) in
      ground (arith, +ℤ_parts c.budget_spent cost)
]
