-- ===== src/Execution/Spending.antt =====
-- The budget of a covenant across one run of the engine.
use acp_server.Base.{◌≡◌, refl, true, some, Bool-cases, inl, inr, ◌⊎◌, arith}
use acp_server.Base.Int.{ℤ, pos, ◌+ℤ◌, ◌≤ℤ◌, ◌<ℤ◌, leb_ℤ, +ℤ_parts}
use acp_server.Store.{Text, Db, Counter, Host, Draw, Params, Error, Result, ok, err, Result-cases}
use acp_server.Budget.{counter, spend}
use acp_server.Budget.Room.{WithinLimit, first-update}
use acp_server.Covenant.{covenant_row}
use acp_server.Covenant.Members.{is_active, member_row}
use acp_server.Execution.{Context, Receipt, Tool}
use acp_server.Execution.Engine.{run_active, admit, run}
use acp_server.Execution.Charges.{KeepsBudget, charge, run_active-IsCharged}

-- The counter after a run: as before, or with the estimate added.
abbrev pub IsSettled : ℤ → Counter → Result Receipt → Counter → Type 0
IsSettled estimated c r c' =
    ((e : Error) × (r ≡ err e) × (c' ≡ c))
    ⊎ ((x : Receipt) × (r ≡ ok x)
        × (((estimated ≤ℤ pos 0) × (c' ≡ c))
            ⊎ ((pos 0 <ℤ estimated) × (c'.budget_spent ≡ c.budget_spent +ℤ estimated))))

counter-charge :
    (draw : Draw) (k : Text) (estimated : ℤ) (db : Db) (db' : Db) (c : Counter)
    → counter k db ≡ some c
    → db'.budget_counters ≡ charge draw k estimated db.budget_counters
    → ((estimated ≤ℤ pos 0) × (counter k db' ≡ some c))
      ⊎ ((pos 0 <ℤ estimated) × (counter k db' ≡ some (spend draw.now estimated c)))
counter-charge draw k estimated db db' c h e = elim (Bool-cases (leb_ℤ estimated (pos 0))) [
  | inl free ↦ inl (ground arith, rw (e, free) h)
  | inr due ↦ inr (
    ground arith,
    rw (e, due) (first-update k (spend draw.now estimated) c db.budget_counters (λ x. refl) h),
  )
]

within-spend :
    (draw : Draw) (c : Counter) (estimated : ℤ)
    → WithinLimit c
    → pos 0 <ℤ estimated
    → (estimated ≤ℤ pos 0)
      ⊎ ((c.budget_limit ≤ℤ pos 0) ⊎ (c.budget_spent +ℤ estimated ≤ℤ c.budget_limit))
    → WithinLimit (spend draw.now estimated c)
within-spend draw c estimated within due room = ground (arith, +ℤ_parts c.budget_spent estimated)

-- A run by an active member, under a budget within its limit: a run that fails charges nothing, one
-- that succeeds charges its estimate, if that is positive, and the budget is within its limit
-- then. The tool leaves the budget to the engine.
pub run_charges :
    {R : Type 0} (host : Host) (draw : Draw) (session_id : Text) (tool : Tool R) (params : Params)
    (k a : Text) (db : Db) (ctx : Context) (c : Counter)
    → covenant_row k db ≡ some ctx.covenant
    → member_row k a db ≡ some ctx.member
    → is_active ctx.member.status ≡ true
    → KeepsBudget tool
    → counter ctx.covenant.covenant_id db ≡ some c
    → WithinLimit c
    → let (r, db') = run host draw session_id tool params k a db in
      (c' : Counter) × (counter ctx.covenant.covenant_id db' ≡ some c')
      × WithinLimit c'
      × IsSettled (tool.estimate_cost ctx params) c r c'
unfolding run admit
run_charges host draw session_id tool params k a db ctx c cov mem live keeps h within =
    let (r, db') = run_active host draw session_id tool params ctx db in
    let estimated = tool.estimate_cost ctx params in
    let (counters, room) =
      run_active-IsCharged host draw session_id tool params ctx keeps (some c) db h in
    rw (cov, mem, live)
      (elim (Result-cases r) [
        | inr (e, failed) ↦ (c, rw (counters, failed) h, within, inl (e, failed, refl))
        | inl (x, done) ↦
            elim (counter-charge draw ctx.covenant.covenant_id estimated db db' c h
              (rw done at counters)) [
                | inl (free, row) ↦ (c, row, within, inr (x, done, inl (free, refl)))
                | inr (due, row) ↦ (
                  spend draw.now estimated c,
                  row,
                  within-spend draw c estimated within due (room x done within),
                  inr (x, done, inr (due, refl)),
                )
              ]
      ])
