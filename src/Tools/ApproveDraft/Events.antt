-- ===== src/Tools/ApproveDraft/Events.antt =====
-- approve_draft leaves the events of the git twin alone.
use acp_server.Base.{
  ◌≡◌, refl, ap, ◌∙◌, ◌||◌, List, ◌==◌, arith, Bool-cases, Option-cases, inl, inr,
}
use acp_server.Base.Int.{pos, leb_ℤ}
use acp_server.Base.Sql.{exists}
use acp_server.Store.{Text, Db, TwinEvent, Host, Draw, Params, Result, ok, err}
use acp_server.Execution.{Context}
use acp_server.Execution.Untouched.{IsElsewhere, Keeps}
use acp_server.Tokens.{claim_pending, pending_draft, confirm_contribution, insert_ledger}
use acp_server.Tools.{int_param}
use acp_server.Tools.ApproveDraft.{
  Approval, approve_draft, check, execute, claim_chosen, after_claim, apply_award, after_award,
}

abbrev pub events : Db → List TwinEvent
events db = db.git_twin_events

pub events-IsElsewhere : IsElsewhere events
events-IsElsewhere = record {
  rates = λ rows db. refl;
  reserved = λ rows db. refl;
  spent = λ counters rows db. refl;
  logged = λ rows db. refl;
}

check-same : (ctx : Context) (params : Params) (db : Db) → (check ctx params db).1 ≡ db
unfolding check
check-same ctx params db = ground arith

claim-events : (k d : Text) (db : Db) → events (claim_pending k d db).1 ≡ events db
unfolding claim_pending
claim-events k d db = elim (Option-cases (pending_draft k d db)) [
  | inl missing ↦ rw missing refl
  | inr (row, found) ↦ rw found refl
]

after_claim-same :
    (host : Host) (params : Params) (d : Text) (r : Result Text) (db : Db)
    → (after_claim host params d r db).1 ≡ db
unfolding after_claim
after_claim-same host params d (ok x) db = refl
after_claim-same host params d (err e) db = refl

claim_chosen-events :
    (host : Host) (ctx : Context) (params : Params) (r : Result Text) (db : Db)
    → events (claim_chosen host ctx params r db).1 ≡ events db
unfolding claim_chosen
claim_chosen-events host ctx params (err e) db = refl
claim_chosen-events host ctx params (ok d) db =
    let (r, db1) = claim_pending ctx.covenant.covenant_id d db in
    ap events (after_claim-same host params d r db1) ∙ claim-events ctx.covenant.covenant_id d db

execute-events :
    (host : Host) (ctx : Context) (params : Params) (db : Db)
    → events (execute host ctx params db).1 ≡ events db
unfolding execute
execute-events host ctx params db =
    elim (Bool-cases (leb_ℤ (int_param host "unit_count" params) (pos 0))) [
      | inl few ↦ rw few refl
      | inr enough ↦ rw enough (claim_chosen-events host ctx params _ db)
    ]

after_award-same :
    (host : Host) (ctx : Context) (x : Approval) (r : Result (Unit {0})) (db : Db)
    → (after_award host ctx x r db).1 ≡ db
after_award-same host ctx x (ok u) db = refl
after_award-same host ctx x (err e) db = refl

insert_ledger-events : (row : _) (db : Db) → events (insert_ledger row db).1 ≡ events db
unfolding insert_ledger
insert_ledger-events row db =
    elim (Bool-cases (exists (λ r. r.id == row.id || r.log_id == row.log_id) db.token_ledger)) [
      | inl taken ↦ rw taken refl
      | inr fresh ↦ rw fresh refl
    ]

pub approve_draft-Keeps : (host : Host) (draw : Draw) → Keeps events (approve_draft host draw)
unfolding apply_award confirm_contribution
approve_draft-Keeps host draw = record {
  checked = λ ctx params db. ap events (check-same ctx params db);
  executed = execute-events host;
  applied = λ ctx e fx x params db.
      ap events (after_award-same host ctx x _ _) ∙ insert_ledger-events _ db;
}
