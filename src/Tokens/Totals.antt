-- ===== src/Tokens/Totals.antt =====
-- `TotalByAgent` of internal/tokens/tokens.go: the sum of the ledger, grouped by agent.
use acp_server.Base.{
  ◌≡◌, refl, sym, ap, subst, fun_ext, ◌∙◌, Bool, true, false, List, [], ◌∷◌, map, ◌==◌, ==_iff,
  ==_refl, if◌then◌else◌, Bool-cases, inl, inr, arith,
}
use acp_server.Base.Int.{ℤ, pos, ◌+ℤ◌, +ℤ_assoc, int_laws}
use acp_server.Base.Sql.{select, exists, sum_where}
use acp_server.Store.{Text, Db, LedgerRow}
use acp_server.Tokens.{confirmed_of, confirmed_by, delta_of, balance, agents, total_by_agent}

-- The groups of the sum.
abbrev Lists : Text → List Text → Type 0
Lists a ids = exists (λ x. x == a) ids ≡ true

abbrev pub Distinct : List Text → Type 0
Distinct [] = Unit
Distinct (a ∷ ids) = (exists (λ x. x == a) ids ≡ false) × Distinct ids

sum_over : List Text → (Text → ℤ) → ℤ
sum_over [] f = pos 0
sum_over (a ∷ ids) f = f a +ℤ sum_over ids f

abbrev by_agent : Text → LedgerRow → Bool
by_agent a r = r.agent_id == a

bump : Text → ℤ → (Text → ℤ) → Text → ℤ
bump x d f a = if x == a then d +ℤ f a else f a

-- A bump at an agent that the list leaves out does not show; at one that it lists, it shows once.
sum_over-bump_absent :
    (x : Text) (d : ℤ) (f : Text → ℤ) (ids : List Text)
    → exists (λ y. y == x) ids ≡ false
    → sum_over ids (bump x d f) ≡ sum_over ids f
unfolding sum_over bump exists
sum_over-bump_absent x d f [] h = refl
sum_over-bump_absent x d f (a ∷ ids) h = ground (arith, sum_over-bump_absent x d f ids)

bump_self : (a x : Text) (d : ℤ) (f : Text → ℤ) → a ≡ x → bump x d f a ≡ d +ℤ f a
unfolding bump
bump_self a x d f h = ground arith

bump_other : (a x : Text) (d : ℤ) (f : Text → ℤ) → (a == x) ≡ false → bump x d f a ≡ f a
unfolding bump
bump_other a x d f h = ground arith

sum_over-bump :
    (x : Text) (d : ℤ) (f : Text → ℤ) (ids : List Text)
    → Distinct ids
    → Lists x ids
    → sum_over ids (bump x d f) ≡ d +ℤ sum_over ids f
unfolding sum_over exists
sum_over-bump x d f [] h l = cc
sum_over-bump x d f (a ∷ ids) (absent, h) l = elim (Bool-cases (a == x)) [
  | inl same ↦
      let here : a ≡ x = (==_iff a x).0 same in
      let gone : exists (λ y. y == x) ids ≡ false =
        subst (λ z. exists (λ y. y == z) ids ≡ false) here absent in
      rw (sum_over-bump_absent x d f ids gone, bump_self a x d f here)
        (+ℤ_assoc d (f a) (sum_over ids f))
  | inr apart ↦
      rw (sum_over-bump x d f ids h (rw apart at l), bump_other a x d f apart) (omega int_laws)
]

sum_over-ext :
    (f g : Text → ℤ) (ids : List Text) → ((a : Text) → f a ≡ g a) → sum_over ids f ≡ sum_over ids g
sum_over-ext f g ids h = rw (fun_ext h)

sum_over-zero : (ids : List Text) → sum_over ids (λ a. pos 0) ≡ pos 0
unfolding sum_over
sum_over-zero [] = refl
sum_over-zero (a ∷ ids) = rw (sum_over-zero ids) (omega int_laws)

-- Every row's agent is listed.
abbrev Covers : List Text → List LedgerRow → Type 0
Covers ids [] = Unit
Covers ids (r ∷ rs) = Lists r.agent_id ids × Covers ids rs

sum_over-Covers :
    (ids : List Text) (rows : List LedgerRow)
    → Distinct ids
    → Covers ids rows
    → sum_over ids (λ a. sum_where (by_agent a) delta_of rows) ≡ sum_where (λ r. true) delta_of rows
unfolding sum_where bump
sum_over-Covers ids [] h c = sum_over-zero ids
sum_over-Covers ids (r ∷ rows) h c =
    sum_over-ext _ (bump r.agent_id r.delta (λ a. sum_where (by_agent a) delta_of rows)) ids
      (λ a. refl)
    ∙ sum_over-bump r.agent_id r.delta (λ a. sum_where (by_agent a) delta_of rows) ids h c.0
    ∙ ap (λ n. r.delta +ℤ n) (sum_over-Covers ids rows h c.1)

Distinct-agents : (rows : List LedgerRow) → Distinct (agents rows)
unfolding agents
Distinct-agents [] = tt
Distinct-agents (r ∷ rows) = elim (Bool-cases (exists (λ a. a == r.agent_id) (agents rows))) [
  | inl listed ↦ rw listed (Distinct-agents rows)
  | inr absent ↦ rw absent (absent, Distinct-agents rows)
]

Covers-cons :
    (a : Text) (ids : List Text) (rows : List LedgerRow) → Covers ids rows → Covers (a ∷ ids) rows
unfolding exists
Covers-cons a ids [] c = tt
Covers-cons a ids (r ∷ rows) c = (ground (arith, c.0), Covers-cons a ids rows c.1)

Lists-head : (a : Text) (ids : List Text) → Lists a (a ∷ ids)
unfolding exists
Lists-head a ids = rw (==_refl a)

agents-listed :
    (r : LedgerRow) (rows : List LedgerRow)
    → Lists r.agent_id (agents rows)
    → agents (r ∷ rows) ≡ agents rows
unfolding agents
agents-listed r rows h = rw h

agents-absent :
    (r : LedgerRow) (rows : List LedgerRow)
    → exists (λ a. a == r.agent_id) (agents rows) ≡ false
    → agents (r ∷ rows) ≡ r.agent_id ∷ agents rows
unfolding agents
agents-absent r rows h = rw h

Covers-agents : (rows : List LedgerRow) → Covers (agents rows) rows
Covers-agents [] = tt
Covers-agents (r ∷ rows) = elim (Bool-cases (exists (λ a. a == r.agent_id) (agents rows))) [
  | inl listed ↦
      subst (λ ids. Covers ids (r ∷ rows)) (sym (agents-listed r rows listed))
        (listed, Covers-agents rows)
  | inr absent ↦
      subst (λ ids. Covers ids (r ∷ rows)) (sym (agents-absent r rows absent))
        (
          Lists-head r.agent_id (agents rows),
          Covers-cons r.agent_id (agents rows) rows (Covers-agents rows),
        )
]

balance-select :
    (k a : Text) (rows : List LedgerRow)
    → sum_where (confirmed_by k a) delta_of rows
      ≡ sum_where (by_agent a) delta_of (select (confirmed_of k) rows)
unfolding sum_where select
balance-select k a [] = refl
balance-select k a (r ∷ rows) = ground (arith, balance-select k a rows)

sum_where-select :
    (k : Text) (rows : List LedgerRow)
    → sum_where (λ r. true) delta_of (select (confirmed_of k) rows)
      ≡ sum_where (confirmed_of k) delta_of rows
unfolding sum_where select
sum_where-select k [] = refl
sum_where-select k (r ∷ rows) = ground (arith, sum_where-select k rows)

-- The sum of the values of a Go map.
abbrev pub sum_values : List (Text × ℤ) → ℤ
sum_values [] = pos 0
sum_values ((a, n) ∷ rest) = n +ℤ sum_values rest

sum_values-map :
    (f : Text → ℤ) (ids : List Text) → sum_values (map (λ a. (a, f a)) ids) ≡ sum_over ids f
unfolding sum_over
sum_values-map f [] = refl
sum_values-map f (a ∷ ids) = ap (λ n. f a +ℤ n) (sum_values-map f ids)

-- The agents that own a value in the map.
abbrev pub keys : List (Text × ℤ) → List Text
keys [] = []
keys ((a, n) ∷ rest) = a ∷ keys rest

keys-map : (f : Text → ℤ) (ids : List Text) → keys (map (λ a. (a, f a)) ids) ≡ ids
keys-map f [] = refl
keys-map f (a ∷ ids) = ap (λ rest. a ∷ rest) (keys-map f ids)

-- The totals by agent name each agent once, and add up to the sum of all confirmed rows of the
-- covenant: grouping loses and doubles nothing.
pub total_by_agent_conserves :
    (k : Text) (db : Db)
    → Distinct (keys (total_by_agent k db))
      × (sum_values (total_by_agent k db) ≡ sum_where (confirmed_of k) delta_of db.token_ledger)
unfolding total_by_agent balance
total_by_agent_conserves k db = (
  rw (keys-map (λ a. balance k a db) (agents own)) (Distinct-agents own),
  sum_values-map (λ a. balance k a db) (agents own)
      ∙ sum_over-ext (λ a. balance k a db) (λ a. sum_where (by_agent a) delta_of own) (agents own)
          (λ a. balance-select k a db.token_ledger)
      ∙ sum_over-Covers (agents own) own (Distinct-agents own) (Covers-agents own)
      ∙ sum_where-select k db.token_ledger,
)
  where
    own : List LedgerRow
    own = select (confirmed_of k) db.token_ledger
