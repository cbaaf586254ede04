-- ===== src/Tools/ProposePassage.antt =====
-- tools/propose_passage.go: the clause that puts a draft up for approval.
use acp_server.Base.{
  ◌≡◌, refl, ap, ◌∙◌, false, not, some, [], ◌∷◌, ◌==◌, Bool-cases, inl, inr, if◌then◌else◌,
}
use acp_server.Base.Int.{ℤ, pos, leb_ℤ}
use acp_server.Base.Sql.{exists}
use acp_server.Store.{
  Text, Db, Entry, State, ◌is◌, Host, Draw, Params, Value, errorf, sprintf, Exec, ok, err, pure,
  Result-cases, ◌>>◌,
}
use acp_server.Tokens.{create_pending}
use acp_server.Execution.{SideEffects, Context, Tool}
use acp_server.Execution.Logged.{KeepsLog}
use acp_server.Execution.Untouched.{Keeps}
use acp_server.Execution.Charges.{KeepsBudget}
use acp_server.Tools.{int_param, cost_cents}

pub record Proposal : Type 0 where
  pub draft_id : Text
  pub unit_count : ℤ

-- No effects of its own: the engine fills in the cost and the state.
abbrev pub no_effects : Host → Context → SideEffects
no_effects host ctx = record {
  tokens_delta = pos 0;
  cost_delta = pos 0;
  cost_currency = "";
  net_delta = host.floats.of_int (pos 0);
  state_after = some ctx.covenant.state;
}

unfoldable pub check : Host → Context → Params → Exec (Unit {0})
check host ctx params db =
    if not (ctx.covenant.state is State.active)
    then (
      err (errorf "covenant must be ACTIVE, currently %s" (Value.state ctx.covenant.state ∷ [])),
      db,
    )
    else if leb_ℤ (int_param host "unit_count" params) (pos 0)
    then (err (errorf "unit_count must be > 0" []), db)
    else (ok tt, db)

abbrev pub apply : Draw → Context → Entry → SideEffects → Proposal → Params → Exec Proposal
apply draw ctx entry fx x params db =
    (create_pending draw ctx.covenant.covenant_id ctx.member.agent_id x.draft_id >> pure x) db

-- The optional fields "chapter", "summary" and "content_hash" of the data are left out: nothing
-- reads them.
abbrev pub propose_passage : Host → Draw → Tool Proposal
propose_passage host draw = record {
  tool_name = "propose_passage";
  tool_type = "clause";
  check_preconditions = check host;
  execute_logic = λ ctx params.
      pure (record { draft_id = draw.draft_id; unit_count = int_param host "unit_count" params });
  calculate_side_effects = λ ctx x params db. no_effects host ctx;
  apply_side_effects = apply draw;
  estimate_cost = λ ctx params. cost_cents host (pos 10) params;
  params_policy = record {
    store_hash_only = false;
    preview_fields = "unit_count" ∷ "chapter" ∷ "summary" ∷ "content_hash" ∷ [];
    sensitive_fields = [];
    hash_preview_fields = "content_hash" ∷ [];
  };
  detail = λ x.
      sprintf "Draft %s proposed with %d units."
        (Value.text x.draft_id ∷ Value.int x.unit_count ∷ []);
  is_final = λ x. false;
  enrich_receipt = λ x. ("draft_id", Value.text x.draft_id) ∷ [];
}

-- A proposal writes to no table but that of the drafts.
create_pending-cases :
    (draw : Draw) (k a d : Text) (db : Db)
    → ((create_pending draw k a d db).1.audit_logs ≡ db.audit_logs)
      × ((create_pending draw k a d db).1.budget_counters ≡ db.budget_counters)
      × ((create_pending draw k a d db).1.git_twin_events ≡ db.git_twin_events)
unfolding create_pending
create_pending-cases draw k a d db =
    elim (Bool-cases (exists (λ r. r.draft_id == d) db.pending_tokens)) [
      | inl taken ↦ rw taken (refl, refl, refl)
      | inr fresh ↦ rw fresh (refl, refl, refl)
    ]

check-same :
    (host : Host) (ctx : Context) (params : Params) (db : Db) → (check host ctx params db).1 ≡ db
unfolding check
check-same host ctx params db = elim (Bool-cases (ctx.covenant.state is State.active)) [
  | inr closed ↦ rw closed refl
  | inl live ↦ elim (Bool-cases (leb_ℤ (int_param host "unit_count" params) (pos 0))) [
    | inl few ↦ rw (live, few) refl
    | inr some_units ↦ rw (live, some_units) refl
  ]
]

apply-same :
    (draw : Draw) (ctx : Context) (e : Entry) (fx : SideEffects) (x : Proposal) (params : Params)
    (db : Db)
    → (apply draw ctx e fx x params db).1
      ≡ (create_pending draw ctx.covenant.covenant_id ctx.member.agent_id x.draft_id db).1
apply-same draw ctx e fx x params db =
    elim (Result-cases
      (create_pending draw ctx.covenant.covenant_id ctx.member.agent_id x.draft_id db).0) [
        | inl (u, done) ↦ rw done refl
        | inr (er, failed) ↦ rw failed refl
      ]

pub propose_passage-KeepsLog : (host : Host) (draw : Draw) → KeepsLog (propose_passage host draw)
propose_passage-KeepsLog host draw = record {
  checked = λ ctx params db. ap (λ d. d.audit_logs) (check-same host ctx params db);
  executed = λ ctx params db. refl;
  applied = λ ctx e fx x params db.
      ap (λ d. d.audit_logs) (apply-same draw ctx e fx x params db)
      ∙ (create_pending-cases draw ctx.covenant.covenant_id ctx.member.agent_id x.draft_id db).0;
}

pub propose_passage-KeepsBudget :
    (host : Host) (draw : Draw) → KeepsBudget (propose_passage host draw)
propose_passage-KeepsBudget host draw = record {
  checked = λ ctx params db. ap (λ d. d.budget_counters) (check-same host ctx params db);
  executed = λ ctx params db. refl;
  applied = λ ctx e fx x params db.
      ap (λ d. d.budget_counters) (apply-same draw ctx e fx x params db)
      ∙ (create_pending-cases draw ctx.covenant.covenant_id ctx.member.agent_id x.draft_id db).1;
}

pub propose_passage-Keeps :
    (host : Host) (draw : Draw) → Keeps (λ d. d.git_twin_events) (propose_passage host draw)
propose_passage-Keeps host draw = record {
  checked = λ ctx params db. ap (λ d. d.git_twin_events) (check-same host ctx params db);
  executed = λ ctx params db. refl;
  applied = λ ctx e fx x params db.
      ap (λ d. d.git_twin_events) (apply-same draw ctx e fx x params db)
      ∙ (create_pending-cases draw ctx.covenant.covenant_id ctx.member.agent_id x.draft_id db).2;
}
