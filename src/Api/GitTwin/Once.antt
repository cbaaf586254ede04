-- ===== src/Api/GitTwin/Once.antt =====
-- The idempotency of handleGitTwinMerge in internal/api/git_twin.go along whatever follows a merge.
use acp_server.Base.{
  String, ◌≡◌, ◌≢◌, refl, sym, ap, subst, ◌∙◌, false, not, ◌||◌, Option, none, some, [], ◌==◌,
  ==_iff, arith, Bool-cases, inl, inr,
}
use acp_server.Base.Int.{pos, leb_ℤ, ◌<ℤ◌}
use acp_server.Base.Sql.{first, exists}
use acp_server.Base.Queries.{first-update_other}
use acp_server.Store.{
  Text, empty, Time, Db, Member, TwinEvent, Host, Draw, Result, ok, err, or_raise, errorf,
}
use acp_server.Covenant.Members.{get_owner_agent_id, find_member_by_platform_id}
use acp_server.Execution.{Receipt}
use acp_server.Execution.Engine.{run}
use acp_server.Execution.Untouched.{run-keeps}
use acp_server.Tools.{text_param}
use acp_server.Tools.ProposePassage.{propose_passage, propose_passage-Keeps}
use acp_server.Tools.ApproveDraft.{approve_draft}
use acp_server.Tools.ApproveDraft.Events.{events-IsElsewhere, approve_draft-Keeps}
use acp_server.Api.{
  json_ok, engine_status, always, answered, refuse_if, decode, internal_error, bad_request, message,
  Headers, ◌>>◌,
}
use acp_server.Api.GitTwin.{
  validate_bridge_secret, proposed_event, default_ratio, propose_params, approve_params,
  MergeRequest, idempotent, merged, is_event, event_row, upsert_event, landed, reproposed,
  approve_event, to_approved, propose_and_approve, merge_author, merge_event, merge_checked,
  handle_merge,
}
use acp_server.Api.GitTwin.Merged.{
  IsLanded, past_secret, owner-same, merge_event-IsAnswered, merge_checked-landed,
}
use acp_server.Api.Answers.{past_refusal, proceed-keeps, answered-keeps, refuse_if-keeps}

validate_bridge_secret-same :
    (secret got : Text) (db : Db) → (validate_bridge_secret secret got db).1 ≡ db
unfolding validate_bridge_secret
validate_bridge_secret-same secret got db = elim (Bool-cases (secret == empty)) [
  | inl off ↦ rw off refl
  | inr on ↦ elim (Bool-cases (got == empty || not (got == secret))) [
    | inl wrong ↦ rw (on, wrong) refl
    | inr right ↦ rw (on, right) refl
  ]
]

decode-same : {A : Type 0} (body : Option A) (db : Db) → (decode body db).1 ≡ db
decode-same none db = refl
decode-same (some a) db = refl

find_member_by_platform_id-same :
    (k platform : Text) (db : Db) → (find_member_by_platform_id k platform db).1 ≡ db
unfolding find_member_by_platform_id
find_member_by_platform_id-same k platform db = found_or_not (first _ db.covenant_members)
  where
    found_or_not :
        (o : Option Member)
        → (or_raise o (errorf "no active member with this platform_id" []) db).1 ≡ db
    found_or_not none = refl
    found_or_not (some m) = refl

row-upsert_other :
    (draft_ref : Text) (e : TwinEvent) (db : Db)
    → (e.draft_ref == draft_ref) ≡ false
    → event_row draft_ref (upsert_event e db) ≡ event_row draft_ref db
unfolding upsert_event first
row-upsert_other draft_ref e db apart =
    elim (Bool-cases (exists (is_event e.draft_ref) db.git_twin_events)) [
      | inr fresh ↦ rw (fresh, apart) refl
      | inl known ↦ rw known (
          first-update_other (is_event draft_ref) (is_event e.draft_ref) (reproposed e)
            db.git_twin_events (λ x. refl) (λ x h. ground arith))
    ]

row-approve_other :
    (draft_ref other log : Text) (now : Time) (db : Db)
    → (other == draft_ref) ≡ false
    → event_row draft_ref (approve_event now other log db) ≡ event_row draft_ref db
unfolding approve_event
row-approve_other draft_ref other log now db apart =
    first-update_other (is_event draft_ref) (is_event other) (to_approved now log)
      db.git_twin_events (λ x. refl) (λ x h. ground arith)

keep-IsLanded :
    (draft_ref : Text) (p a : Receipt) (db db' : Db)
    → event_row draft_ref db' ≡ event_row draft_ref db
    → IsLanded draft_ref p a db
    → IsLanded draft_ref p a db'
keep-IsLanded draft_ref p a db db' kept (r, found, approved, proposed, logged) =
    (r, kept ∙ found, approved, proposed, logged)

module _ (host : Host) (secret : Text) (label : String → Text → Text) where
  -- A merge of another reference keeps the row.
  module _ (draft_ref : Text) (db : Db) (draw later : Draw) (req : MergeRequest)
      (apart : (req.draft_ref == draft_ref) ≡ false) where
    abbrev HasRow : Db → Type 0
    HasRow d = event_row draft_ref d ≡ event_row draft_ref db

    propose_and_approve_other :
        (author : Text) → HasRow (propose_and_approve host secret label draw later req author db).1
    unfolding propose_and_approve
    propose_and_approve_other author =
        let propose =
          run host draw (label "bridge:propose:" req.draft_ref) (propose_passage host draw)
            (propose_params req) req.covenant_id author in
        proceed-keeps HasRow (answered engine_status (propose db)) _
          (answered-keeps HasRow engine_status (propose db) (
            ap (first (is_event draft_ref)) (
              run-keeps events-IsElsewhere host draw (label "bridge:propose:" req.draft_ref)
                (propose_passage host draw) (propose_params req) (propose_passage-Keeps host draw)
                req.covenant_id author db)))
          (λ proposal d1 h1.
            proceed-keeps HasRow
              (refuse_if (text_param "draft_id" proposal.extra == empty)
                (message "propose_passage did not return draft_id") internal_error d1)
              _
              (refuse_if-keeps HasRow (text_param "draft_id" proposal.extra == empty)
                (message "propose_passage did not return draft_id") internal_error d1 h1)
              (λ u d2 h2.
                let draft_id = text_param "draft_id" proposal.extra in
                let event = proposed_event draw.now req author draft_id proposal.log_hash in
                let db2 = upsert_event event d2 in
                let owner = get_owner_agent_id req.covenant_id db2 in
                let kept : HasRow owner.1 =
                  ap (event_row draft_ref) (owner-same req.covenant_id db2)
                  ∙ row-upsert_other draft_ref event d2 apart
                  ∙ h2 in
                proceed-keeps HasRow (answered (always internal_error) owner) _
                  (answered-keeps HasRow (always internal_error) owner kept)
                  (λ owner_id d3 h3.
                    let params =
                      approve_params req (default_ratio host secret label req.acceptance_ratio)
                        draft_id in
                    let session = label "bridge:approve:" req.draft_ref in
                    let approve =
                      run host later session (approve_draft host later) params req.covenant_id
                        owner_id in
                    proceed-keeps HasRow (answered engine_status (approve d3)) _
                      (answered-keeps HasRow engine_status (approve d3) (
                        ap (first (is_event draft_ref)) (
                          run-keeps events-IsElsewhere host later session (approve_draft host later)
                            params (approve_draft-Keeps host later) req.covenant_id owner_id d3)
                        ∙ h3))
                      (λ approval d4 h4.
                        row-approve_other draft_ref req.draft_ref approval.log_hash later.now d4
                          apart
                        ∙ h4))))

    merge_author_other :
        (r : Result Member × Db)
        → r.1 ≡ db
        → HasRow (merge_author host secret label draw later req r).1
    merge_author_other (err e, d) same = ap (event_row draft_ref) same
    merge_author_other (ok member, d) same =
        subst
          (λ x. HasRow (propose_and_approve host secret label draw later req member.agent_id x).1)
          (sym same) (propose_and_approve_other member.agent_id)

    merge_event_other :
        (o : Option TwinEvent) → HasRow (merge_event host secret label draw later req o db).1
    merge_event_other (some e) = refl
    merge_event_other none =
        merge_author_other (find_member_by_platform_id req.covenant_id req.author_platform_id db)
          (find_member_by_platform_id-same req.covenant_id req.author_platform_id db)

  merge_checked-IsLanded :
      (draft_ref : Text) (p a : Receipt) (draw later : Draw) (req : MergeRequest) (db : Db)
      → IsLanded draft_ref p a db
      → IsLanded draft_ref p a (merge_checked host secret label draw later req db).1
  merge_checked-IsLanded draft_ref p a draw later req db there =
      elim (Bool-cases (req.draft_ref == draft_ref)) [
        | inr apart ↦
            keep-IsLanded draft_ref p a db (merge_checked host secret label draw later req db).1
              (merge_event_other draft_ref db draw later req apart
                (landed (event_row req.draft_ref db)))
              there
        | inl same ↦
            let here : IsLanded req.draft_ref p a db =
              subst (λ t. IsLanded t p a db) (sym ((==_iff req.draft_ref draft_ref).0 same))
                there in
            rw (merge_checked-landed host secret label draw later req db p a here) there
      ]

  -- No merge takes a landed reference back.
  handle_merge-IsLanded :
      (draft_ref : Text) (p a : Receipt) (draw later : Draw) (h : Headers)
      (body : Option MergeRequest) (db : Db)
      → IsLanded draft_ref p a db
      → IsLanded draft_ref p a (handle_merge host secret label draw later h body db).1
  unfolding handle_merge
  handle_merge-IsLanded draft_ref p a draw later h body db there =
      let Landed : Db → Type 0 = λ d. IsLanded draft_ref p a d in
      proceed-keeps Landed (validate_bridge_secret secret h.bridge_secret db) _
        (rw (validate_bridge_secret-same secret h.bridge_secret db) there)
        (λ u d1 h1.
          proceed-keeps Landed (decode body d1) _ (rw (decode-same body d1) h1) (λ req d2 h2.
            let missing =
              req.covenant_id == empty
              || (req.author_platform_id == empty || req.draft_ref == empty) in
            let e1 = message "covenant_id, author_platform_id, and draft_ref are required" in
            let few = leb_ℤ req.unit_count (pos 0) in
            let e2 = message "unit_count must be > 0" in
            proceed-keeps Landed (refuse_if missing e1 bad_request d2)
              (λ u'. refuse_if few e2 bad_request >> merge_checked host secret label draw later req)
              (refuse_if-keeps Landed missing e1 bad_request d2 h2)
              (λ u' d3 h3.
                proceed-keeps Landed (refuse_if few e2 bad_request d3)
                  (λ u''. merge_checked host secret label draw later req)
                  (refuse_if-keeps Landed few e2 bad_request d3 h3)
                  (λ u'' d4 h4. merge_checked-IsLanded draft_ref p a draw later req d4 h4))))

  -- What may follow on a database: merges, of any references, and whatever else leaves the row of one
  -- reference as it is; the code writes to git_twin_events in merges only.
  pub data Later (draft_ref : Text) : Db → Db → Type 0 where
    at_once : (db : Db) → Later draft_ref db db
    merging :
        (db db' : Db)
        → Later draft_ref db db'
        → (draw later : Draw) (h : Headers) (body : Option MergeRequest)
        → Later draft_ref db (handle_merge host secret label draw later h body db').1
    leaving :
        (db db' db'' : Db)
        → Later draft_ref db db'
        → event_row draft_ref db'' ≡ event_row draft_ref db'
        → Later draft_ref db db''

  Later-IsLanded :
      (draft_ref : Text) (p a : Receipt) (db db' : Db)
      → Later draft_ref db db'
      → IsLanded draft_ref p a db
      → IsLanded draft_ref p a db'
  Later-IsLanded draft_ref p a db db' (at_once x) there = there
  Later-IsLanded draft_ref p a db db'' (merging x db' before draw later h body) there =
      handle_merge-IsLanded draft_ref p a draw later h body db'
        (Later-IsLanded draft_ref p a db db' before there)
  Later-IsLanded draft_ref p a db db'' (leaving x db' y before kept) there =
      keep-IsLanded draft_ref p a db' db'' kept (Later-IsLanded draft_ref p a db db' before there)

  -- When a merge has gone through, then after any later merges, of this reference or of others, and
  -- any other operations that leave the row of the reference as it is, a merge with the same
  -- reference and bridge secret, for whichever covenant and author, of a positive number of units, is
  -- answered as idempotent with the two logs of the first one, and changes nothing.
  pub handle_merge_once :
      (draw later : Draw) (h : Headers) (req : MergeRequest) (db db' : Db) (p a : Receipt)
      (x : Text) (now : Db) (draw' later' : Draw) (h' : Headers) (again : MergeRequest)
      → handle_merge host secret label draw later h (some req) db ≡ (json_ok (merged p a x), db')
      → Later req.draft_ref db' now
      → h'.bridge_secret ≡ h.bridge_secret
      → again.draft_ref ≡ req.draft_ref
      → again.covenant_id ≢ empty
      → again.author_platform_id ≢ empty
      → pos 0 <ℤ again.unit_count
      → handle_merge host secret label draw' later' h' (some again) now
        ≡ (json_ok (idempotent p.log_hash a.log_hash), now)
  unfolding handle_merge
  handle_merge_once draw later h req db db' p a x now draw' later' h' again merge after secrets same
        known author units =
      let (right, h1) = past_secret secret h.bridge_secret _ _ _ _ merge in
      let (named, h2) =
        past_refusal
          (req.covenant_id == empty || (req.author_platform_id == empty || req.draft_ref == empty))
          _ bad_request db _ _ _ h1 in
      let (positive, h3) = past_refusal (leb_ℤ req.unit_count (pos 0)) _ bad_request db _ _ _ h2 in
      let there =
        Later-IsLanded req.draft_ref p a db' now after
          (merge_event-IsAnswered host secret label draw later req _ db db' p a x h3) in
      let complete : (again.covenant_id == empty
            || (again.author_platform_id == empty || again.draft_ref == empty))
          ≡ false =
        ground arith in
      let enough : leb_ℤ again.unit_count (pos 0) ≡ false = ground arith in
      rw (secrets, right now, complete, enough)
        (merge_checked-landed host secret label draw' later' again now p a
          (subst (λ t. IsLanded t p a now) (sym same) there))
