-- ===== src/Budget/Rebuild.antt =====
-- `RebuildFromAuditLog` of internal/budget/budget.go: the counter from the log and the ledger.
use acp_server.Base.{
  ◌≡◌, refl, sym, ◌∙◌, Bool, true, false, not, ◌&&◌, ◌||◌, ◌⊎◌, inl, inr, some, arith, List, [],
  ◌∷◌, ◌++◌, map, ◌==◌, if◌then◌else◌, Bool-cases, subst, ==_iff,
}
use acp_server.Base.Int.{ℤ, pos, ◌+ℤ◌, int_laws, +ℤ_assoc, zero-+ℤ}
use acp_server.Base.Sql.{select, first, exists, sum_where}
use acp_server.Base.Queries.{first-update_other}
use acp_server.Store.{Text, Db, Draw, Counter, Entry, Outcome, LedgerRow, LedgerStatus, ok}
use acp_server.Budget.{
  counts, counter, charged_total, overwrite_spent, rebuild_from_audit_log, LogRow, log_row,
  or_unjoined, is_of_log, join_ledger, is_charged, cost_in, is_undone, succeeded,
}
use acp_server.Budget.Room.{first-update}

-- What the rows of the log that succeeded have cost, in all.
abbrev pub cost_of : Outcome → ℤ → ℤ
cost_of Outcome.success cost = cost
cost_of Outcome.rejected cost = pos 0

pub gross : Text → List Entry → ℤ
gross k [] = pos 0
gross k (a ∷ rest) =
    (if a.covenant_id == k then cost_of a.result a.cost_delta else pos 0) +ℤ gross k rest

-- Whether the ledger has taken the award of a row of the log back.
abbrev pub takes_back : LedgerStatus → Bool
takes_back LedgerStatus.pending = false
takes_back LedgerStatus.confirmed = false
takes_back LedgerStatus.rejected = true
takes_back LedgerStatus.reversed = true

abbrev pub was_taken_back : List LedgerRow → Entry → Bool
was_taken_back ledger a = exists (λ t. t.log_id == a.log_id && takes_back t.status) ledger

-- What those rows have cost whose award was taken back.
pub refunded : Text → List LedgerRow → List Entry → ℤ
refunded k ledger [] = pos 0
refunded k ledger (a ∷ rest) =
    (if a.covenant_id == k && was_taken_back ledger a then cost_of a.result a.cost_delta else pos 0)
    +ℤ refunded k ledger rest

-- UNIQUE(log_id) of the ledger.
abbrev pub HasUniqueLogs : List LedgerRow → Type 0
HasUniqueLogs [] = Unit
HasUniqueLogs (t ∷ ledger) =
    (exists (λ u. u.log_id == t.log_id) ledger ≡ false) × HasUniqueLogs ledger

no_match :
    (a : Entry) (ledger : List LedgerRow)
    → exists (λ u. u.log_id == a.log_id) ledger ≡ false
    → (select (is_of_log a) ledger ≡ []) × (was_taken_back ledger a ≡ false)
unfolding select exists
no_match a [] h = (refl, refl)
no_match a (t ∷ ledger) h =
    let apart : (t.log_id == a.log_id) ≡ false = ground (arith, h) in
    let (none_left, kept) = no_match a ledger (ground (arith, h)) in
    (rw apart none_left, rw apart kept)

-- A row of the log meets one row of the ledger at most.
one_match :
    (a : Entry) (ledger : List LedgerRow)
    → HasUniqueLogs ledger
    → ((select (is_of_log a) ledger ≡ []) × (was_taken_back ledger a ≡ false))
      ⊎ ((t : LedgerRow) × (select (is_of_log a) ledger ≡ t ∷ [])
          × (was_taken_back ledger a ≡ takes_back t.status))
unfolding select exists
one_match a [] unique = inl (refl, refl)
one_match a (t ∷ ledger) (alone, unique) = elim (Bool-cases (t.log_id == a.log_id)) [
  | inr apart ↦ rw apart (one_match a ledger unique)
  | inl same ↦
      let gone : exists (λ u. u.log_id == a.log_id) ledger ≡ false =
        subst (λ l. exists (λ u. u.log_id == l) ledger ≡ false) ((==_iff t.log_id a.log_id).0 same)
          alone in
      let (none_left, kept) = no_match a ledger gone in
      inr (t, rw (same, none_left) refl, rw (same, kept) (or_false (takes_back t.status)))
]
  where
    or_false : (b : Bool) → (b || false) ≡ b
    or_false true = refl
    or_false false = refl

sum_where-append :
    (p : LogRow → Bool) (f : LogRow → ℤ) (xs ys : List LogRow)
    → sum_where p f (xs ++ ys) ≡ sum_where p f xs +ℤ sum_where p f ys
unfolding sum_where
sum_where-append p f [] ys = sym (zero-+ℤ (sum_where p f ys))
sum_where-append p f (x ∷ xs) ys = elim (Bool-cases (p x)) [
  | inl here ↦
      rw (here, sum_where-append p f xs ys)
        (sym (+ℤ_assoc (f x) (sum_where p f xs) (sum_where p f ys)))
  | inr past ↦ rw past (sum_where-append p f xs ys)
]

-- The part of one row: what is summed up and what was refunded is what it has cost.
row_adds_up :
    (of_k : Bool) (o : Outcome) (cost : ℤ) (status : LedgerStatus)
    → (if of_k && (succeeded o && not (is_undone status)) then cost +ℤ pos 0 else pos 0)
        +ℤ (if of_k && takes_back status then cost_of o cost else pos 0)
      ≡ (if of_k then cost_of o cost else pos 0)
row_adds_up false o cost status = omega int_laws
row_adds_up true Outcome.success cost LedgerStatus.pending = omega int_laws
row_adds_up true Outcome.success cost LedgerStatus.confirmed = omega int_laws
row_adds_up true Outcome.success cost LedgerStatus.rejected = omega int_laws
row_adds_up true Outcome.success cost LedgerStatus.reversed = omega int_laws
row_adds_up true Outcome.rejected cost LedgerStatus.pending = omega int_laws
row_adds_up true Outcome.rejected cost LedgerStatus.confirmed = omega int_laws
row_adds_up true Outcome.rejected cost LedgerStatus.rejected = omega int_laws
row_adds_up true Outcome.rejected cost LedgerStatus.reversed = omega int_laws

abbrev own_rows : List LedgerRow → Entry → List LogRow
own_rows ledger a = or_unjoined a (map (log_row a) (select (is_of_log a) ledger))

own_adds_up :
    (k : Text) (ledger : List LedgerRow) (a : Entry)
    → HasUniqueLogs ledger
    → sum_where (is_charged k) cost_in (own_rows ledger a)
        +ℤ (if a.covenant_id == k && was_taken_back ledger a
            then cost_of a.result a.cost_delta
            else pos 0)
      ≡ (if a.covenant_id == k then cost_of a.result a.cost_delta else pos 0)
unfolding sum_where
own_adds_up k ledger a unique = elim (one_match a ledger unique) [
  | inl (unmatched, kept) ↦
      rw (unmatched, kept)
        (row_adds_up (a.covenant_id == k) a.result a.cost_delta LedgerStatus.confirmed)
  | inr (t, matched, taken) ↦
      rw (matched, taken) (row_adds_up (a.covenant_id == k) a.result a.cost_delta t.status)
]

add_pairs : (a b c d : ℤ) → a +ℤ b +ℤ (c +ℤ d) ≡ a +ℤ c +ℤ (b +ℤ d)
add_pairs a b c d = omega int_laws

charged_rows-refunded :
    (k : Text) (ledger : List LedgerRow) (log : List Entry)
    → HasUniqueLogs ledger
    → sum_where (is_charged k) cost_in (join_ledger ledger log) +ℤ refunded k ledger log
      ≡ gross k log
unfolding join_ledger refunded gross sum_where
charged_rows-refunded k ledger [] unique = omega int_laws
charged_rows-refunded k ledger (a ∷ rest) unique =
    let own = own_adds_up k ledger a unique in
    let others = charged_rows-refunded k ledger rest unique in
    rw (sum_where-append (is_charged k) cost_in (own_rows ledger a) (join_ledger ledger rest)) (
      add_pairs (sum_where (is_charged k) cost_in (own_rows ledger a))
        (sum_where (is_charged k) cost_in (join_ledger ledger rest))
        (if a.covenant_id == k && was_taken_back ledger a
          then cost_of a.result a.cost_delta
          else pos 0)
        (refunded k ledger rest)
      ∙ rw (own, others) refl)

exists-first :
    (k : Text) (cs : List Counter) (c : Counter)
    → first (counts k) cs ≡ some c
    → exists (counts k) cs ≡ true
unfolding first exists
exists-first k [] c h = cc
exists-first k (x ∷ cs) c h = ground (arith, exists-first k cs c)

-- Where no two rows of the ledger share a log id, the rebuild of a covenant with a counter returns
-- what its successful rows of the log have cost, less what those have cost whose award the ledger
-- has rejected or reversed; it sets the spending of the counter to that, keeps its limit and its
-- currency, and leaves the counters of other covenants as they were.
pub rebuild_accounts :
    (draw : Draw) (k : Text) (db : Db) (c : Counter)
    → HasUniqueLogs db.token_ledger
    → counter k db ≡ some c
    → let (r, db') = rebuild_from_audit_log draw k db in
      (total : ℤ) × (r ≡ ok total)
      × (total +ℤ refunded k db.token_ledger db.audit_logs ≡ gross k db.audit_logs)
      × (counter k db' ≡ some (record c { budget_spent = total; updated_at = draw.now }))
      × ((j : Text) → (k == j) ≡ false → counter j db' ≡ counter j db)
unfolding rebuild_from_audit_log charged_total
rebuild_accounts draw k db c unique h =
    let total = sum_where (is_charged k) cost_in (join_ledger db.token_ledger db.audit_logs) in
    rw (exists-first k db.budget_counters c h) (
      total,
      refl,
      charged_rows-refunded k db.token_ledger db.audit_logs unique,
      first-update k (overwrite_spent draw.now total) c db.budget_counters (λ x. refl) h,
      λ j apart.
          first-update_other (counts j) (counts k) (overwrite_spent draw.now total)
            db.budget_counters (λ x. refl) (λ x h. ground arith),
    )
