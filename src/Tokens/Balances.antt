-- ===== src/Tokens/Balances.antt =====
-- The balances of internal/tokens/tokens.go: one contribution at a time, and grouped by agent.
use acp_server.Base.{
  ◌≡◌, refl, sym, ◌∙◌, false, ◌&&◌, ◌||◌, some, List, ◌∷◌, ◌==◌, ==_refl, if◌then◌else◌, arith,
}
use acp_server.Base.Int.{ℤ, ◌+ℤ◌, add64, InRange64, wrap64-InRange64, +ℤ_comm}
use acp_server.Base.Sql.{first, exists, sum_where}
use acp_server.Store.{Text, Db, Draw, LedgerRow, ok}
use acp_server.Tokens.{confirmed_by, balance, insert_ledger, passage, confirm_contribution}

-- The ids of a new ledger row are not in use.
abbrev pub IsFreshRow : Text → Text → Db → Type 0
IsFreshRow id log_id db = exists (λ r. r.id == id || r.log_id == log_id) db.token_ledger ≡ false

abbrev pub add_ledger : LedgerRow → Db → Db
add_ledger row db = record db { token_ledger = row ∷ db.token_ledger }

pub insert_ledger-fresh :
    (row : LedgerRow) (db : Db)
    → IsFreshRow row.id row.log_id db
    → insert_ledger row db ≡ (ok tt, add_ledger row db)
unfolding insert_ledger
insert_ledger-fresh row db h = rw h

pub confirm_contribution-fresh :
    (draw : Draw) (k a log_id ref : Text) (delta : ℤ) (db : Db)
    → IsFreshRow draw.ledger_id log_id db
    → confirm_contribution draw k a log_id ref delta db
      ≡ (ok tt, add_ledger (passage draw k a log_id ref delta (balance k a db)) db)
unfolding confirm_contribution
confirm_contribution-fresh draw k a log_id ref delta db h =
    insert_ledger-fresh (passage draw k a log_id ref delta (balance k a db)) db h

balance-add_ledger :
    (row : LedgerRow) (k a : Text) (db : Db)
    → balance k a (add_ledger row db)
      ≡ (if confirmed_by k a row then row.delta +ℤ balance k a db else balance k a db)
unfolding balance sum_where
balance-add_ledger row k a db = refl

pub balance-passage :
    (draw : Draw) (k a log_id ref : Text) (delta current : ℤ) (db : Db)
    → balance k a (add_ledger (passage draw k a log_id ref delta current) db)
      ≡ delta +ℤ balance k a db
balance-passage draw k a log_id ref delta current db = rw (balance-add_ledger, ==_refl k, ==_refl a)

pub balance-passage_other :
    (draw : Draw) (k a j b log_id ref : Text) (delta current : ℤ) (db : Db)
    → (j == k && b == a) ≡ false
    → balance j b (add_ledger (passage draw k a log_id ref delta current) db) ≡ balance j b db
balance-passage_other draw k a j b log_id ref delta current db apart =
    rw (balance-add_ledger) (ground arith)

first-passage :
    (draw : Draw) (k a log_id ref : Text) (delta current : ℤ) (rows : List LedgerRow)
    → first (λ r. r.log_id == log_id) (passage draw k a log_id ref delta current ∷ rows)
      ≡ some (passage draw k a log_id ref delta current)
unfolding first
first-passage draw k a log_id ref delta current rows = rw (==_refl log_id)

add64-small : (a b : ℤ) → InRange64 (a +ℤ b) → add64 a b ≡ b +ℤ a
unfolding add64
add64-small a b h = wrap64-InRange64 (a +ℤ b) h ∙ +ℤ_comm a b

-- A contribution raises the confirmed balance of its agent by its tokens and no other balance; the
-- balance that its row stores is the new one, if that fits a 64-bit integer.
pub confirm_contribution-balance :
    (draw : Draw) (k a log_id ref : Text) (delta : ℤ) (db : Db)
    → IsFreshRow draw.ledger_id log_id db
    → let (r, db') = confirm_contribution draw k a log_id ref delta db in
      (r ≡ ok tt)
      × (balance k a db' ≡ delta +ℤ balance k a db)
      × ((j b : Text) → (j == k && b == a) ≡ false → balance j b db' ≡ balance j b db)
      × (InRange64 (balance k a db +ℤ delta)
          → (row : LedgerRow) × (first (λ r'. r'.log_id == log_id) db'.token_ledger ≡ some row)
            × (row.balance_after ≡ balance k a db'))
confirm_contribution-balance draw k a log_id ref delta db fresh =
    rw (confirm_contribution-fresh draw k a log_id ref delta db fresh) (
      refl,
      balance-passage draw k a log_id ref delta (balance k a db) db,
      (λ j b apart. balance-passage_other draw k a j b log_id ref delta (balance k a db) db apart),
      (λ small. (
        passage draw k a log_id ref delta (balance k a db),
        first-passage draw k a log_id ref delta (balance k a db) db.token_ledger,
        add64-small (balance k a db) delta small
            ∙ sym (balance-passage draw k a log_id ref delta (balance k a db) db),
      )),
    )
