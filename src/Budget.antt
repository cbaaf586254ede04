-- ===== src/Budget.antt =====
-- internal/budget/budget.go: the budget gate of a covenant, which authorises first and settles later.
-- Amounts are exact integers; the difference that the gate forms is a Go int64.
pub mod Room
pub mod Gate
pub mod Rebuild
use acp_server.Base.{
  ℕ, String, Bool, true, false, not, ◌&&◌, ◌||◌, Option, none, some, List, [], ◌∷◌, ◌++◌, map, ◌==◌,
  str_eq, if◌then◌else◌,
}
use acp_server.Base.Int.{ℤ, pos, ◌+ℤ◌, ◌-ℤ◌, sub64, ltb_ℤ, leb_ℤ, eqb_ℤ, max_ℤ}
use acp_server.Base.Sql.{select, first, exists, sum_where, update_where}
use acp_server.Store.{
  Text, Time, empty, Db, Counter, Reservation, ReservationStatus, Entry, LedgerRow, LedgerStatus,
  Outcome, Draw, Value, Error, errorf, Exec, Result, ok, err, unique_violation, pure, gets, modify,
  raise_if, ◌>>=◌, ◌>>◌,
}

-- budget.State
pub record BudgetState : Type 0 where
  pub covenant_id : Text
  pub budget_limit : ℤ
  pub budget_spent : ℤ
  pub currency : String

-- `none` is the -1 that stands for "unlimited".
pub remaining : BudgetState → Option ℤ
remaining s = if eqb_ℤ s.budget_limit (pos 0) then none else some (s.budget_limit -ℤ s.budget_spent)

abbrev pub counts : Text → Counter → Bool
counts covenant_id c = c.covenant_id == covenant_id

abbrev pub counter : Text → Db → Option Counter
counter covenant_id db = first (counts covenant_id) db.budget_counters

-- INSERT OR IGNORE: an existing row stays as it is.
pub ensure_counter : Draw → Text → ℤ → String → Db → Db
ensure_counter draw covenant_id limit currency db =
    if exists (counts covenant_id) db.budget_counters
    then db
    else record db { budget_counters = row ∷ db.budget_counters }
  where
    row : Counter
    row = record {
      covenant_id = covenant_id;
      budget_limit = limit;
      budget_spent = pos 0;
      currency = if str_eq currency "" then "USD" else currency;
      updated_at = draw.now;
    }

abbrev pub reservation : Draw → Text → ℤ → Reservation
reservation draw covenant_id amount = record {
  id = draw.reservation_id;
  covenant_id = covenant_id;
  audit_log_id = empty;
  amount = amount;
  status = ReservationStatus.reserved;
  created_at = draw.now;
}

abbrev pub has_reservation : Text → Db → Bool
has_reservation id db = exists (λ r. r.id == id) db.budget_reservations

-- limit > 0 && (limit-spent) < estimatedCost
unfoldable pub is_exhausted : Counter → ℤ → Bool
is_exhausted c cost =
    ltb_ℤ (pos 0) c.budget_limit && ltb_ℤ (sub64 c.budget_limit c.budget_spent) cost

abbrev pub exhausted : Counter → ℤ → Error
exhausted c cost =
    errorf "budget exhausted: remaining=%d required=%d (cents)"
      (Value.int (sub64 c.budget_limit c.budget_spent) ∷ Value.int cost ∷ [])

-- The part of `CheckAndReserve` behind the query: an id of a reservation, or `empty` for none.
unfoldable pub reserve_for : Draw → Text → ℤ → Option Counter → Exec Text
unfolding is_exhausted
reserve_for draw covenant_id cost none = pure empty
reserve_for draw covenant_id cost (some c) = do
  raise_if (is_exhausted c cost) (exhausted c cost)
  taken ← gets (has_reservation draw.reservation_id)
  raise_if taken (unique_violation "budget_reservations.id")
  modify (λ db. record db {
    budget_reservations = reservation draw covenant_id cost ∷ db.budget_reservations;
  })
  pure draw.reservation_id

unfoldable pub check_and_reserve : Draw → Text → ℤ → Exec Text
unfolding reserve_for
check_and_reserve draw covenant_id cost db =
    if leb_ℤ cost (pos 0)
    then (ok empty, db)
    else reserve_for draw covenant_id cost (counter covenant_id db) db

abbrev pub spend : Time → ℤ → Counter → Counter
spend now cost c = record c { budget_spent = c.budget_spent +ℤ cost; updated_at = now }

abbrev settle : Text → Reservation → Reservation
settle log_id r = record r { status = ReservationStatus.settled; audit_log_id = log_id }

unfoldable pub record_spend : Draw → Text → ℤ → Text → Text → Db → Db
record_spend draw covenant_id cost reservation_id log_id db =
    if leb_ℤ cost (pos 0) then db else record db {
      budget_counters = update_where (counts covenant_id) (spend draw.now cost) db.budget_counters;
      budget_reservations =
          if reservation_id == empty
          then db.budget_reservations
          else update_where (λ r. r.id == reservation_id) (settle log_id) db.budget_reservations;
    }

abbrev pub refund : Time → ℤ → Counter → Counter
refund now amount c = record c {
  budget_spent = max_ℤ (pos 0) (c.budget_spent -ℤ amount);
  updated_at = now;
}

unfoldable pub release : Draw → Text → ℤ → Db → Db
release draw covenant_id amount db = if leb_ℤ amount (pos 0) then db else record db {
  budget_counters = update_where (counts covenant_id) (refund draw.now amount) db.budget_counters;
}

abbrev set_released : Reservation → Reservation
set_released r = record r { status = ReservationStatus.released }

unfoldable pub release_reservation : Text → Db → Db
release_reservation reservation_id db = if reservation_id == empty then db else record db {
  budget_reservations =
      update_where (λ r. r.id == reservation_id) set_released db.budget_reservations;
}

-- No row means unlimited: the zero state.
pub get_state : Text → Db → BudgetState
get_state covenant_id db = elim (counter covenant_id db) [
  | none ↦ record {
    covenant_id = covenant_id;
    budget_limit = pos 0;
    budget_spent = pos 0;
    currency = "";
  }
  | some c ↦ record {
    covenant_id = covenant_id;
    budget_limit = c.budget_limit;
    budget_spent = c.budget_spent;
    currency = c.currency;
  }
]

abbrev pub is_undone : LedgerStatus → Bool
is_undone LedgerStatus.rejected = true
is_undone LedgerStatus.reversed = true
is_undone _ = false

abbrev pub succeeded : Outcome → Bool
succeeded Outcome.success = true
succeeded Outcome.rejected = false

-- A row of the LEFT JOIN: a row of the log, and a row of the ledger with its log id or NULL.
pub record LogRow : Type 0 where
  pub log : Entry
  pub entry : Option LedgerRow

abbrev pub log_row : Entry → LedgerRow → LogRow
log_row a t = record { log = a; entry = some t }

abbrev pub or_unjoined : Entry → List LogRow → List LogRow
or_unjoined a [] = record { log = a; entry = none } ∷ []
or_unjoined a (r ∷ rows) = r ∷ rows

abbrev pub is_of_log : Entry → LedgerRow → Bool
is_of_log a t = t.log_id == a.log_id

unfoldable pub join_ledger : List LedgerRow → List Entry → List LogRow
join_ledger ledger [] = []
join_ledger ledger (a ∷ rest) =
    or_unjoined a (map (log_row a) (select (is_of_log a) ledger)) ++ join_ledger ledger rest

-- t.status IS NULL OR t.status NOT IN ('rejected', 'reversed')
abbrev pub stands : Option LedgerRow → Bool
stands none = true
stands (some t) = not (is_undone t.status)

abbrev pub is_charged : Text → LogRow → Bool
is_charged covenant_id r =
    r.log.covenant_id == covenant_id && (succeeded r.log.result && stands r.entry)

abbrev pub cost_in : LogRow → ℤ
cost_in r = r.log.cost_delta

unfoldable pub charged_total : Text → Db → ℤ
charged_total covenant_id db =
    sum_where (is_charged covenant_id) cost_in (join_ledger db.token_ledger db.audit_logs)

abbrev pub overwrite_spent : Time → ℤ → Counter → Counter
overwrite_spent now total c = record c { budget_spent = total; updated_at = now }

unfoldable pub rebuild_from_audit_log : Draw → Text → Exec ℤ
unfolding charged_total
rebuild_from_audit_log draw covenant_id db =
    let total = charged_total covenant_id db in
    if exists (counts covenant_id) db.budget_counters
    then (
      ok total,
      record db {
        budget_counters =
            update_where (counts covenant_id) (overwrite_spent draw.now total) db.budget_counters;
      },
    )
    else (
      err (
          errorf "rebuild: no budget_counter row for covenant %q (call EnsureCounter first)"
            (Value.text covenant_id ∷ [])),
      db,
    )
