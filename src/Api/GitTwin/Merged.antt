-- ===== src/Api/GitTwin/Merged.antt =====
-- handleGitTwinMerge in internal/api/git_twin.go: what a merge that went through leaves in
-- git_twin_events, and how a landed reference is answered.
use acp_server.Base.{
  String, ◌≡◌, refl, ap, subst, ◌∙◌, Bool, true, not, ◌&&◌, ◌||◌, Option, none, some, List, [], ◌∷◌,
  ◌==◌, ==_iff, Bool-cases, Option-cases, inl, inr,
}
use acp_server.Base.Sql.{first, exists}
use acp_server.Base.Queries.{first-update}
use acp_server.Store.{Text, empty, Time, Db, Member, TwinEvent, Host, Draw, Result, ok, err}
use acp_server.Covenant.{is_covenant}
use acp_server.Covenant.Members.{get_owner_agent_id, find_member_by_platform_id}
use acp_server.Execution.{Receipt}
use acp_server.Execution.Engine.{run}
use acp_server.Execution.Untouched.{run-keeps}
use acp_server.Tools.{text_param}
use acp_server.Tools.ProposePassage.{propose_passage}
use acp_server.Tools.ApproveDraft.{approve_draft}
use acp_server.Api.{
  Reply, json_ok, json_error, engine_status, always, internal_error, message, Handler, ◌>>◌,
}
use acp_server.Api.GitTwin.{
  validate_bridge_secret, proposed_event, default_ratio, propose_params, approve_params,
  MergeRequest, MergeReply, idempotent, merged, unmapped, is_event, event_row, upsert_event,
  reproposed, approve_event, to_approved, propose_and_approve, merge_author, merge_event,
  merge_checked,
}
use acp_server.Api.Answers.{answered_ok, past_refusal}
use acp_server.Tools.ApproveDraft.Events.{events, events-IsElsewhere, approve_draft-Keeps}

pub past_secret :
    {B : Type 0} (secret got : Text) (next : Handler B) (db : Db) (b : B) (db' : Db)
    → (validate_bridge_secret secret got >> next) db ≡ (json_ok b, db')
    → ((d : Db) → validate_bridge_secret secret got d ≡ (json_ok tt, d))
      × (next db ≡ (json_ok b, db'))
unfolding validate_bridge_secret
past_secret secret got next db b db' h = elim (Bool-cases (secret == empty)) [
  | inl off ↦ absurd (cc (ap (λ x. x.0) (rw off at h)))
  | inr on ↦ elim (Bool-cases (got == empty || not (got == secret))) [
    | inl wrong ↦ absurd (cc (ap (λ x. x.0) (rw (on, wrong) at h)))
    | inr right ↦ (λ d. rw (on, right) refl, rw (on, right) at h)
  ]
]

pub owner-same : (k : Text) (db : Db) → (get_owner_agent_id k db).1 ≡ db
unfolding get_owner_agent_id
owner-same k db = elim (Option-cases (first (is_covenant k) db.covenants)) [
  | inl missing ↦ rw (get_owner_agent_id, missing) refl
  | inr (c, found) ↦ elim (Bool-cases (c.owner_id == empty)) [
    | inr set ↦ rw (get_owner_agent_id, found, set) refl
    | inl old ↦
        elim (Option-cases (first (λ m. m.covenant_id == k && m.is_owner) db.covenant_members)) [
          | inl nobody ↦ rw (get_owner_agent_id, found, old, nobody) refl
          | inr (m, owner) ↦ rw (get_owner_agent_id, found, old, owner) refl
        ]
  ]
]

first-exists :
    (p : TwinEvent → Bool) (rows : List TwinEvent)
    → exists p rows ≡ true
    → (r : TwinEvent) × (first p rows ≡ some r)
unfolding first exists
first-exists p [] h = cc
first-exists p (r ∷ rows) h = elim (Bool-cases (p r)) [
  | inl here ↦ (r, rw here refl)
  | inr past ↦ let (q, found) = first-exists p rows (rw past at h) in (q, rw past found)
]

upsert-found :
    (e : TwinEvent) (db : Db)
    → (r : TwinEvent) × (event_row e.draft_ref (upsert_event e db) ≡ some r)
      × (r.propose_log_id ≡ e.propose_log_id)
unfolding upsert_event first
upsert-found e db = elim (Bool-cases (exists (is_event e.draft_ref) db.git_twin_events)) [
  | inl known ↦
      let (r, found) = first-exists (is_event e.draft_ref) db.git_twin_events known in
      (
        reproposed e r,
        rw known (
            first-update (is_event e.draft_ref) (reproposed e) r db.git_twin_events (λ x. refl)
              found),
        refl,
      )
  | inr fresh ↦ (e, rw fresh (rw ((==_iff e.draft_ref e.draft_ref).1 refl) refl), refl)
]

-- The row of a reference that an approval has landed on, with the two logs.
abbrev pub IsLanded : Text → Receipt → Receipt → Db → Type 0
IsLanded draft_ref p a db =
    (r : TwinEvent) × (event_row draft_ref db ≡ some r)
    × (r.is_approved ≡ true)
    × (r.propose_log_id ≡ p.log_hash)
    × (r.approve_log_id ≡ a.log_hash)

abbrev IsAnswered : Text → Reply MergeReply × Db → Type 0
IsAnswered draft_ref (json_ok (merged p a x), db) = IsLanded draft_ref p a db
IsAnswered draft_ref (json_ok (unmapped k d), db) = ⊥
IsAnswered draft_ref (json_ok (idempotent p a), db) = ⊥
IsAnswered draft_ref (json_error e code, db) = ⊥

approve-IsLanded :
    (now : Time) (draft_ref : Text) (p a : Receipt) (r : TwinEvent) (db : Db)
    → event_row draft_ref db ≡ some r
    → r.propose_log_id ≡ p.log_hash
    → IsLanded draft_ref p a (approve_event now draft_ref a.log_hash db)
unfolding approve_event
approve-IsLanded now draft_ref p a r db found same = (
  to_approved now a.log_hash r,
  first-update (is_event draft_ref) (to_approved now a.log_hash) r db.git_twin_events (λ x. refl)
      found,
  refl,
  same,
  refl,
)

module _ (host : Host) (secret : Text) (label : String → Text → Text) where
  landed_lem :
      (draw later : Draw) (req : MergeRequest) (author : Text) (db db' : Db) (p a : Receipt)
      (x : Text)
      → propose_and_approve host secret label draw later req author db
        ≡ (json_ok (merged p a x), db')
      → IsLanded req.draft_ref p a db'
  unfolding propose_and_approve
  landed_lem draw later req author db db' p a x h =
      let (proposal, ran, h1) =
        answered_ok engine_status
          (run host draw (label "bridge:propose:" req.draft_ref) (propose_passage host draw)
            (propose_params req) req.covenant_id author db)
          _ _ _ h in
      let proposed =
        (run host draw (label "bridge:propose:" req.draft_ref) (propose_passage host draw)
          (propose_params req) req.covenant_id author db).1 in
      let draft_id = text_param "draft_id" proposal.extra in
      let (named, h2) =
        past_refusal (draft_id == empty) (message "propose_passage did not return draft_id")
          internal_error proposed _ _ _ h1 in
      let event = proposed_event draw.now req author draft_id proposal.log_hash in
      let db2 = upsert_event event proposed in
      let (owner, got, h3) =
        answered_ok (always internal_error) (get_owner_agent_id req.covenant_id db2) _ _ _ h2 in
      let db3 = (get_owner_agent_id req.covenant_id db2).1 in
      let params =
        approve_params req (default_ratio host secret label req.acceptance_ratio) draft_id in
      let session = label "bridge:approve:" req.draft_ref in
      let (approval, approved, h4) =
        answered_ok engine_status
          (run host later session (approve_draft host later) params req.covenant_id owner db3) _ _ _
          h3 in
      let db4 =
        (run host later session (approve_draft host later) params req.covenant_id owner db3).1 in
      let (r, found, same) = upsert-found event proposed in
      let kept : events db4 ≡ events db2 =
        run-keeps events-IsElsewhere host later session (approve_draft host later) params
          (approve_draft-Keeps host later) req.covenant_id owner db3
        ∙ ap events (owner-same req.covenant_id db2) in
      subst (IsAnswered req.draft_ref) h4 (
        approve-IsLanded later.now req.draft_ref proposal approval r db4
          (ap (first (is_event req.draft_ref)) kept ∙ found) same)

  merge_author-IsAnswered :
      (draw later : Draw) (req : MergeRequest) (r : Result Member × Db) (db' : Db) (p a : Receipt)
      (x : Text)
      → merge_author host secret label draw later req r ≡ (json_ok (merged p a x), db')
      → IsLanded req.draft_ref p a db'
  merge_author-IsAnswered draw later req (err e, db) db' p a x h = absurd (cc (ap (λ y. y.0) h))
  merge_author-IsAnswered draw later req (ok member, db) db' p a x h =
      landed_lem draw later req member.agent_id db db' p a x h

  pub merge_event-IsAnswered :
      (draw later : Draw) (req : MergeRequest) (o : Option TwinEvent) (db db' : Db) (p a : Receipt)
      (x : Text)
      → merge_event host secret label draw later req o db ≡ (json_ok (merged p a x), db')
      → IsLanded req.draft_ref p a db'
  merge_event-IsAnswered draw later req (some e) db db' p a x h = absurd (cc (ap (λ y. y.0) h))
  merge_event-IsAnswered draw later req none db db' p a x h =
      merge_author-IsAnswered draw later req
        (find_member_by_platform_id req.covenant_id req.author_platform_id db) db' p a x h

  -- A landed reference is answered from its row.
  pub merge_checked-landed :
      (draw later : Draw) (req : MergeRequest) (db : Db) (p a : Receipt)
      → IsLanded req.draft_ref p a db
      → merge_checked host secret label draw later req db
        ≡ (json_ok (idempotent p.log_hash a.log_hash), db)
  merge_checked-landed draw later req db p a (r, found, approved, proposed, logged) =
      rw found (rw approved (rw (proposed, logged) refl))
