-- ===== src/Tools/LeaveCovenant.antt =====
-- tools/leave_covenant.go: a member leaves, and is refused from then on.
use acp_server.Base.{
  ◌≡◌, refl, ap, ◌∙◌, Bool, true, false, some, [], ◌∷◌, ==_iff, if◌then◌else◌, arith,
}
use acp_server.Base.Int.{pos}
use acp_server.Base.Sql.{first, update_where}
use acp_server.Base.Queries.{first-update, first-holds}
use acp_server.Store.{
  Text, Db, Member, MemberStatus, Host, Draw, Params, Value, errorf, sprintf, Exec, ok, err, pure,
}
use acp_server.Audit.{has_log}
use acp_server.Audit.Chain.{log_event-fresh}
use acp_server.Budget.{check_and_reserve, record_spend}
use acp_server.Covenant.{covenant_row, is_covenant}
use acp_server.Covenant.Members.{is_active, is_member, member_row}
use acp_server.Execution.{Context, Receipt, Tool}
use acp_server.Execution.Engine.{
  run, admit, run_active, rate_gate, after_rate, after_check, after_gate, after_logic,
  after_calculation, after_log, after_effects, complete_effects, forbidden, success_entry,
}
use acp_server.Tools.{text_param}
use acp_server.Tools.ProposePassage.{no_effects}

abbrev pub is_left : MemberStatus → Bool
is_left MemberStatus.left = true
is_left _ = false

unfoldable pub check : Context → Exec (Unit {0})
check ctx db =
    if ctx.member.is_owner
    then (err (errorf "covenant owner cannot leave; transition to SETTLED instead" []), db)
    else if is_left ctx.member.status
    then (err (errorf "agent has already left this covenant" []), db)
    else (ok tt, db)

abbrev pub to_left : Member → Member
to_left m = record m { status = MemberStatus.left }

unfoldable pub leave_rows : Text → Text → Db → Db
leave_rows covenant_id agent_id db = record db {
  covenant_members = update_where (is_member covenant_id agent_id) to_left db.covenant_members;
}

-- The data of the tool; the covenant is only named in its detail.
pub record Departure : Type 0 where
  pub agent_id : Text
  pub covenant_id : Text
  pub reason : Text

abbrev pub departure : Context → Params → Departure
departure ctx params = record {
  agent_id = ctx.member.agent_id;
  covenant_id = ctx.covenant.covenant_id;
  reason = text_param "reason" params;
}

abbrev pub leave_covenant : Host → Tool Departure
leave_covenant host = record {
  tool_name = "leave_covenant";
  tool_type = "admin";
  check_preconditions = λ ctx params. check ctx;
  execute_logic = λ ctx params. pure (departure ctx params);
  calculate_side_effects = λ ctx x params db. no_effects host ctx;
  apply_side_effects = λ ctx entry fx x params db.
      (ok x, leave_rows ctx.covenant.covenant_id ctx.member.agent_id db);
  estimate_cost = λ ctx params. pos 0;
  params_policy = record {
    store_hash_only = false;
    preview_fields = "reason" ∷ [];
    sensitive_fields = [];
    hash_preview_fields = [];
  };
  detail = λ x.
      sprintf "Agent %s left covenant %s" (Value.text x.agent_id ∷ Value.text x.covenant_id ∷ []);
  is_final = λ x. true;
  enrich_receipt = λ x. ("status", Value.name "left") ∷ [];
}

-- A run of the tool by an active member that is not the owner goes through.
run_active-leave :
    (host : Host) (draw : Draw) (session_id : Text) (params : Params) (ctx : Context) (db : Db)
    → ctx.member.is_owner ≡ false
    → ctx.member.status ≡ MemberStatus.active
    → has_log draw.log_id db ≡ false
    → let (r, db') = run_active host draw session_id (leave_covenant host) params ctx db in
      ((x : Receipt) × (r ≡ ok x))
      × (db'.covenants ≡ db.covenants)
      × (db'.covenant_members
          ≡ update_where
              (is_member ctx.covenant.covenant_id ctx.member.agent_id)
              to_left
              db.covenant_members)
unfolding run_active rate_gate after_rate check after_check check_and_reserve after_gate after_logic
    complete_effects after_calculation after_log after_effects leave_rows record_spend
run_active-leave host draw session_id params ctx db guest live fresh =
    rw
      (
        guest,
        live,
        log_event-fresh host draw
            (success_entry host draw session_id (leave_covenant host) params ctx
              (complete_effects host draw session_id (leave_covenant host) params ctx (pos 0)
                (no_effects host ctx))
              (departure ctx params))
            db fresh,
      )
      ((_, refl), refl, refl)

left_forbidden :
    {R : Type 0} (host : Host) (draw : Draw) (session_id : Text) (tool : Tool R) (params : Params)
    (k a : Text) (db : Db) (c : _) (m : Member)
    → covenant_row k db ≡ some c
    → member_row k a db ≡ some m
    → is_active m.status ≡ false
    → run host draw session_id tool params k a db
      ≡ (err (forbidden host draw session_id tool params), db)
unfolding run admit
left_forbidden host draw session_id tool params k a db c m cov mem gone = rw (cov, mem, gone) refl

run-active :
    {R : Type 0} (host : Host) (draw : Draw) (session_id : Text) (tool : Tool R) (params : Params)
    (k a : Text) (db : Db) (ctx : Context)
    → covenant_row k db ≡ some ctx.covenant
    → member_row k a db ≡ some ctx.member
    → is_active ctx.member.status ≡ true
    → run host draw session_id tool params k a db
      ≡ run_active host draw session_id tool params ctx db
unfolding run admit
run-active host draw session_id tool params k a db ctx cov mem live = rw (cov, mem, live) refl

-- An active member that is not the owner leaves when it asks to, under a fresh log id. On the
-- database that this leaves, a run of any tool by that agent is refused, and changes nothing.
pub leave_is_final :
    {R : Type 0} (host : Host) (draw later : Draw) (session_id session_id' : Text)
    (params params' : Params) (tool : Tool R) (k a : Text) (db : Db) (ctx : Context)
    → covenant_row k db ≡ some ctx.covenant
    → member_row k a db ≡ some ctx.member
    → ctx.member.status ≡ MemberStatus.active
    → ctx.member.is_owner ≡ false
    → has_log draw.log_id db ≡ false
    → let (r, db') = run host draw session_id (leave_covenant host) params k a db in
      ((x : Receipt) × (r ≡ ok x))
      × (run host later session_id' tool params' k a db'
          ≡ (err (forbidden host later session_id' tool params'), db'))
leave_is_final host draw later session_id session_id' params params' tool k a db ctx cov mem live
      guest fresh =
    let (passed, covenants, members) =
      run_active-leave host draw session_id params ctx db guest live fresh in
    let db' = (run_active host draw session_id (leave_covenant host) params ctx db).1 in
    let hit = first-holds (is_member k a) db.covenant_members ctx.member mem in
    let here : ctx.covenant.covenant_id ≡ k =
      (==_iff _ _).0 (first-holds (is_covenant k) db.covenants ctx.covenant cov) in
    let agent : ctx.member.agent_id ≡ a = ground arith in
    let row : member_row k a db' ≡ some (to_left ctx.member) =
      ap (first (is_member k a)) (
        members
        ∙ ap (λ j. update_where (is_member j ctx.member.agent_id) to_left db.covenant_members) here
        ∙ ap (λ b. update_where (is_member k b) to_left db.covenant_members) agent)
      ∙ first-update (is_member k a) to_left ctx.member db.covenant_members (λ x. refl) mem in
    let active : is_active ctx.member.status ≡ true = rw live refl in
    rw (run-active host draw session_id (leave_covenant host) params k a db ctx cov mem active) (
      passed,
      left_forbidden host later session_id' tool params' k a db' ctx.covenant (to_left ctx.member)
          (rw covenants cov) row refl,
    )
