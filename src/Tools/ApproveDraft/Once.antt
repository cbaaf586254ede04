-- ===== src/Tools/ApproveDraft/Once.antt =====
-- What an approval of tools/approve_draft.go does to the draft that it names.
use acp_server.Base.{
  ◌≡◌, refl, sym, ap, ◌∙◌, subst, true, false, ◌&&◌, none, some, ◌==◌, ◌⊎◌, Bool-cases,
  Option-cases, inl, inr, arith,
}
use acp_server.Base.Int.{pos, leb_ℤ}
use acp_server.Base.Sql.{delete_where}
use acp_server.Base.Queries.{first-delete}
use acp_server.Store.{Text, empty, Db, PendingDraft, Host, Params, Error, ok, err, eq_of_ok}
use acp_server.Tokens.{claim_pending, pending_draft}
use acp_server.Execution.{Context}
use acp_server.Tools.{int_param, text_param}
use acp_server.Tools.ApproveDraft.{
  Approval, approval, after_claim, claim_chosen, chosen_draft, execute,
}

claim_pending-cases :
    (k d : Text) (db : Db)
    → ((pending_draft k d db ≡ none) × ((e : Error) × (claim_pending k d db ≡ (err e, db))))
      ⊎ ((row : PendingDraft) × (pending_draft k d db ≡ some row)
          × (claim_pending k d db ≡ (
            ok row.agent_id,
            record db { pending_tokens = delete_where (λ r. r.draft_id == d) db.pending_tokens },
          )))
unfolding claim_pending
claim_pending-cases k d db = elim (Option-cases (pending_draft k d db)) [
  | inl missing ↦ inl (missing, rw missing (_, refl))
  | inr (row, found) ↦ inr (row, found, rw found refl)
]

-- A draft that was claimed is gone.
claimed_gone :
    (k d : Text) (db : Db) (row : PendingDraft)
    → claim_pending k d db ≡ (
      ok row.agent_id,
      record db { pending_tokens = delete_where (λ r. r.draft_id == d) db.pending_tokens },
    )
    → pending_draft k d (claim_pending k d db).1 ≡ none
claimed_gone k d db row claimed = rw claimed (
    first-delete (λ r. r.covenant_id == k && r.draft_id == d) (λ r. r.draft_id == d)
      db.pending_tokens (λ x h. ground arith))

module _ (host : Host) (ctx : Context) (params : Params) where
  -- What an approval by the id of a draft has found.
  pub record IsClaimed (db : Db) (x : Approval) : Type 0 where
    pub row : PendingDraft
    pub waiting : pending_draft ctx.covenant.covenant_id x.draft_id db ≡ some row
    pub proposer : x.proposer_agent_id ≡ row.agent_id
    pub named : x.draft_id ≡ text_param "draft_id" params

  execute-named :
      (db : Db)
      → text_param "log_id" params ≡ empty
      → leb_ℤ (int_param host "unit_count" params) (pos 0) ≡ false
      → execute host ctx params db
        ≡ claim_chosen host ctx params (ok (text_param "draft_id" params)) db
  unfolding execute chosen_draft
  execute-named db by_draft enough = rw (enough, by_draft) refl

  execute-few :
      (db : Db)
      → leb_ℤ (int_param host "unit_count" params) (pos 0) ≡ true
      → (e : Error) × (execute host ctx params db ≡ (err e, db))
  unfolding execute
  execute-few db few = rw few (_, refl)

  claim_chosen-IsClaimed :
      (db : Db) (x : Approval)
      → (claim_chosen host ctx params (ok (text_param "draft_id" params)) db).0 ≡ ok x
      → IsClaimed db x
        × (pending_draft ctx.covenant.covenant_id
              (text_param "draft_id" params)
              (claim_chosen host ctx params (ok (text_param "draft_id" params)) db).1
            ≡ none)
  unfolding claim_chosen after_claim
  claim_chosen-IsClaimed db x h =
      let k = ctx.covenant.covenant_id in
      let d = text_param "draft_id" params in
      elim (claim_pending-cases k d db) [
        | inl (missing, (e, failed)) ↦ absurd (cc (rw failed at h))
        | inr (row, found, claimed) ↦
            let same : approval host params d row.agent_id ≡ x = eq_of_ok (rw claimed at h) in
            (
              subst (IsClaimed db) same
                  (record { row = row; waiting = found; proposer = refl; named = refl }),
              rw claimed (rw claimed at (claimed_gone k d db row claimed)),
            )
      ]

  claim_chosen-missing :
      (db : Db) (d : Text)
      → pending_draft ctx.covenant.covenant_id d db ≡ none
      → (e : Error) × (claim_chosen host ctx params (ok d) db ≡ (err e, db))
  unfolding claim_chosen after_claim
  claim_chosen-missing db d missing = elim (claim_pending-cases ctx.covenant.covenant_id d db) [
    | inl (same, (e, failed)) ↦ (e, rw failed refl)
    | inr (row, found, claimed) ↦ absurd (cc (sym missing ∙ found))
  ]

-- An approval by the id of a draft finds that draft waiting in the covenant, names its agent as the
-- proposer, and takes it away: the same approval on the database that it leaves fails and changes
-- nothing, so that a draft is awarded once.
pub approve_draft_once :
    (host : Host) (ctx : Context) (params : Params) (db : Db) (x : Approval)
    → text_param "log_id" params ≡ empty
    → (execute host ctx params db).0 ≡ ok x
    → IsClaimed host ctx params db x
      × ((e : Error) × (execute host ctx params (execute host ctx params db).1
            ≡ (err e, (execute host ctx params db).1)))
approve_draft_once host ctx params db x by_draft h =
    elim (Bool-cases (leb_ℤ (int_param host "unit_count" params) (pos 0))) [
      | inl few ↦
          let (e, failed) = execute-few host ctx params db few in
          absurd (cc (sym h ∙ ap (λ r. r.0) failed))
      | inr enough ↦
          let run = execute-named host ctx params db by_draft enough in
          let db' = (execute host ctx params db).1 in
          let (claimed, gone) = claim_chosen-IsClaimed host ctx params db x (rw run at h) in
          let (e, refused) =
            claim_chosen-missing host ctx params db' (text_param "draft_id" params) (rw run gone) in
          (claimed, (e, execute-named host ctx params db' by_draft enough ∙ refused))
    ]
