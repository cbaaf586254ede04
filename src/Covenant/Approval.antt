-- ===== src/Covenant/Approval.antt =====
-- `ApproveAccessRequest` of internal/covenant/access_request.go: once, and as a whole or not at all.
use acp_server.Base.{
  suc, ◌≡◌, refl, sym, ap, ◌∙◌, true, false, ◌||◌, some, List, [], ◌∷◌, ◌++◌, ◌==◌, ==_refl,
  Bool-cases, Option-cases, inl, inr, ◌⊎◌, if◌then◌else◌,
}
use acp_server.Base.Int.{ℤ, pos, ltb_ℤ}
use acp_server.Base.Sql.{first, exists, update_where, count_where}
use acp_server.Base.Queries.{first-update}
use acp_server.Store.{
  Text, Db, Member, MemberStatus, AccessRequest, Identity, Tier, LedgerRow, Draw, Error, Result, ok,
  err,
}
use acp_server.Tokens.{insert_ledger}
use acp_server.Covenant.{tier_row}
use acp_server.Covenant.Members.{joined, tier_count, member_row}
use acp_server.Covenant.Slots.{insert_member-cases}
use acp_server.Covenant.Access.{
  is_pending, is_request, request_row, already_resolved, to_approved, entry_fee, book_entry_fee,
  approve_rows, identity_of, approve_found, get_access_request, approve_access_request,
}

-- The rows that the fee of a tier books.
pub fee_rows : Draw → Text → Text → Text → ℤ → List LedgerRow
fee_rows draw k request_id log_id fee =
    if ltb_ℤ (pos 0) fee then entry_fee draw k request_id log_id fee ∷ [] else []

book_entry_fee-cases :
    (draw : Draw) (k request_id log_id : Text) (fee : ℤ) (db : Db)
    → ((e : Error) × ((book_entry_fee draw k request_id log_id fee db).0 ≡ err e))
      ⊎ (book_entry_fee draw k request_id log_id fee db ≡ (
        ok tt,
        record db { token_ledger = fee_rows draw k request_id log_id fee ++ db.token_ledger },
      ))
unfolding book_entry_fee insert_ledger fee_rows
book_entry_fee-cases draw k request_id log_id fee db = elim (Bool-cases (ltb_ℤ (pos 0) fee)) [
  | inr free ↦ rw free (inr refl)
  | inl due ↦
      let row = entry_fee draw k request_id log_id fee in
      elim (Bool-cases (exists (λ r. r.id == row.id || r.log_id == row.log_id) db.token_ledger)) [
        | inl taken ↦ rw (due, taken) (inl (_, refl))
        | inr fresh ↦ rw (due, fresh) (inr refl)
      ]
]

module _ (draw : Draw) (k request_id log_id : Text) where
  -- The database after an approval, by the rows that it was made of.
  pub approved_db : Text → Tier → Db → Db
  approved_db plaintext tier db = record db {
    covenant_members =
        joined draw k plaintext tier.tier_id MemberStatus.active ∷ db.covenant_members;
    agent_access_requests =
        update_where (is_request k request_id) (to_approved draw.now log_id)
          db.agent_access_requests;
    token_ledger = fee_rows draw k request_id log_id tier.entry_fee_tokens ++ db.token_ledger;
  }

  approve_rows-cases :
      (plaintext : Text) (tier : Tier) (db : Db)
      → ((e : Error) × ((approve_rows draw k request_id log_id plaintext tier db).0 ≡ err e))
        ⊎ (approve_rows draw k request_id log_id plaintext tier db ≡ (
          ok (joined draw k plaintext tier.tier_id MemberStatus.active),
          approved_db plaintext tier db,
        ))
  unfolding approve_rows approved_db
  approve_rows-cases plaintext tier db =
      let m = joined draw k plaintext tier.tier_id MemberStatus.active in
      let db1 = record db {
        covenant_members = m ∷ db.covenant_members;
        agent_access_requests =
            update_where (is_request k request_id) (to_approved draw.now log_id)
              db.agent_access_requests;
      } in
      elim (insert_member-cases m db) [
        | inr (e, refused) ↦ rw refused (inl (_, refl))
        | inl done ↦
            elim (book_entry_fee-cases draw k request_id log_id tier.entry_fee_tokens db1) [
              | inl (e, failed) ↦ rw (done, failed) (inl (_, refl))
              | inr booked ↦ rw (done, booked) (inr refl)
            ]
      ]

  -- What an approval that succeeds has found and done.
  pub record IsApproved (db : Db) (r : Result Member) (db' : Db) : Type 0 where
    pub req : AccessRequest
    pub identity : Identity
    pub tier : Tier
    pub found : request_row k request_id db ≡ some req
    pub was_pending : is_pending req.status ≡ true
    pub applicant : identity_of req.platform_id_hash db ≡ some identity
    pub asked : tier_row k req.tier_id db ≡ some tier
    pub answer : r ≡ ok (joined draw k identity.platform_id tier.tier_id MemberStatus.active)
    pub written : db' ≡ approved_db identity.platform_id tier db

  approve_found-cases :
      (req : AccessRequest) (db : Db)
      → request_row k request_id db ≡ some req
      → ((e : Error) × (approve_found draw k request_id log_id req db ≡ (err e, db)))
        ⊎ (let (r, db') = approve_found draw k request_id log_id req db in IsApproved db r db')
  unfolding approve_found
  approve_found-cases req db h = elim (Bool-cases (is_pending req.status)) [
    | inr resolved ↦ rw resolved (inl (_, refl))
    | inl waiting ↦ elim (Option-cases (identity_of req.platform_id_hash db)) [
      | inl unknown ↦ rw (waiting, unknown) (inl (_, refl))
      | inr (identity, applicant) ↦ elim (Option-cases (tier_row k req.tier_id db)) [
        | inl no_tier ↦ rw (waiting, applicant, no_tier) (inl (_, refl))
        | inr (tier, asked) ↦
            rw (waiting, applicant, asked)
              (elim (approve_rows-cases identity.platform_id tier db) [
                | inl (e, failed) ↦ rw failed (inl (_, refl))
                | inr done ↦ inr (record {
                  req = req;
                  identity = identity;
                  tier = tier;
                  found = h;
                  was_pending = waiting;
                  applicant = applicant;
                  asked = asked;
                  answer = rw done refl;
                  written = rw done refl;
                })
              ])
      ]
    ]
  ]

  -- An approval either fails and changes nothing, or it has found the request pending, and adds the
  -- member, resolves the request and books the fee of the tier.
  pub approve-IsApproved :
      (db : Db)
      → ((e : Error) × (approve_access_request draw k request_id log_id db ≡ (err e, db)))
        ⊎ (let (r, db') = approve_access_request draw k request_id log_id db in IsApproved db r db')
  unfolding approve_access_request get_access_request
  approve-IsApproved db = elim (Option-cases (request_row k request_id db)) [
    | inl missing ↦ rw missing (inl (_, refl))
    | inr (req, found) ↦ rw found (approve_found-cases req db found)
  ]

  resolved-refused :
      (db : Db) (req : AccessRequest)
      → request_row k request_id db ≡ some req
      → is_pending req.status ≡ false
      → approve_access_request draw k request_id log_id db ≡ (err already_resolved, db)
  unfolding approve_access_request get_access_request approve_found
  resolved-refused db req found resolved = rw (found, resolved) refl

  request_row-approved :
      (db : Db) (req : AccessRequest) (plaintext : Text) (tier : Tier)
      → request_row k request_id db ≡ some req
      → request_row k request_id (approved_db plaintext tier db)
        ≡ some (to_approved draw.now log_id req)
  unfolding approved_db
  request_row-approved db req plaintext tier found =
      first-update (is_request k request_id) (to_approved draw.now log_id) req
        db.agent_access_requests (λ x. refl) found

  -- The new member is active under the identifier that was drawn.
  member_row-approved :
      (db : Db) (plaintext : Text) (tier : Tier)
      → member_row k draw.agent_id (approved_db plaintext tier db)
        ≡ some (joined draw k plaintext tier.tier_id MemberStatus.active)
  unfolding approved_db first
  member_row-approved db plaintext tier = rw (==_refl k, ==_refl draw.agent_id) refl

  -- One member more is in the tier, whatever its number of slots.
  tier_count-approved :
      (db : Db) (plaintext : Text) (tier : Tier)
      → tier_count k tier.tier_id (approved_db plaintext tier db)
        ≡ suc (tier_count k tier.tier_id db)
  unfolding approved_db count_where
  tier_count-approved db plaintext tier = rw (==_refl k, ==_refl tier.tier_id) refl

-- Once an approval has gone through, the applicant is an active member under the agent id that was
-- drawn, one member more is in the tier, even in a tier whose slots are all taken, and on the
-- database that it leaves another approval of the request is refused and changes nothing.
pub approve_once :
    (draw later : Draw) (k request_id log_id log_id' : Text) (db : Db) (m : Member)
    → (approve_access_request draw k request_id log_id db).0 ≡ ok m
    → let db' = (approve_access_request draw k request_id log_id db).1 in
      (tier : Tier) × (member_row k draw.agent_id db' ≡ some m)
      × (m.status ≡ MemberStatus.active)
      × (m.tier_id ≡ some tier.tier_id)
      × (tier_count k tier.tier_id db' ≡ suc (tier_count k tier.tier_id db))
      × (approve_access_request later k request_id log_id' db' ≡ (err already_resolved, db'))
approve_once draw later k request_id log_id log_id' db m h =
    elim (approve-IsApproved draw k request_id log_id db) [
      | inl (e, failed) ↦ absurd (cc (sym h ∙ ap (λ r. r.0) failed))
      | inr done ↦
          let made : joined draw k done.identity.platform_id done.tier.tier_id MemberStatus.active
              ≡ m =
            cc (sym done.answer ∙ h) in
          rw (done.written, sym made)
            (
              done.tier,
              member_row-approved draw k request_id log_id db done.identity.platform_id done.tier,
              refl,
              refl,
              tier_count-approved draw k request_id log_id db done.identity.platform_id done.tier,
              resolved-refused later k request_id log_id' _ (to_approved draw.now log_id done.req)
                  (request_row-approved draw k request_id log_id db done.req
                    done.identity.platform_id done.tier done.found)
                  refl,
            )
    ]
