-- ===== src/Covenant/Lifecycle.antt =====
-- Any sequence of calls of `Transition` of internal/covenant/covenant.go, for any covenants.
use acp_server.Base.{
  ℕ, suc, ◌+◌, ◌≤◌, ◌≡◌, refl, ◌∙◌, subst, Bool, true, false, Option, none, some, List, [], ◌∷◌,
  ◌==◌, ==_iff, Bool-cases, inl, inr, arith, ap, ◌&&◌, ◌⊎◌, if◌then◌else◌,
}
use acp_server.Store.{Text, Db, Covenant, State, Host, Draw, Result, ok, err, Error}
use acp_server.Covenant.{is_next, covenant_row, set_state, transition, advance}
use acp_server.Covenant.Forward.{
  rank, rank-is_next, rank-le, advance-cases, covenant_row-written_other, is_late, capture_failed,
  transition-IsAdvanced,
}

pub record Call : Type 0 where
  pub draw : Draw
  pub covenant_id : Text
  pub target : Option State

-- Whether a call succeeded, and whether it failed after it had written the state.
abbrev pub is_done : Result Covenant → Bool
is_done (ok c) = true
is_done (err e) = false

abbrev pub is_stuck : Result Covenant → Bool
is_stuck (ok c) = false
is_stuck (err e) = is_late e

abbrev pub tick : Bool → ℕ → ℕ
tick b n = if b then suc n else n

-- The calls for one covenant that succeeded, those that failed late, and the database after all
-- calls.
pub run_transitions : Host → Text → List Call → ℕ → ℕ → Db → ℕ × ℕ × Db
run_transitions host k [] n late db = (n, late, db)
run_transitions host k (c ∷ cs) n late db =
    let (r, db') = transition host c.draw c.covenant_id c.target db in
    run_transitions host k cs (tick (c.covenant_id == k && is_done r) n)
      (tick (c.covenant_id == k && is_stuck r) late) db'

covenant_row-advance_other :
    (host : Host) (draw : Draw) (j k : Text) (target : Option State) (o : Option Covenant) (db : Db)
    → (j == k) ≡ false
    → covenant_row k (advance host draw j target o db).1 ≡ covenant_row k db
unfolding advance
covenant_row-advance_other host draw j k target none db apart = refl
covenant_row-advance_other host draw j k target (some c) db apart =
    elim (advance-cases host draw j target db c) [
      | inl (e, failed, early, same) ↦ rw same refl
      | inr done ↦
          covenant_row-written_other draw.now j k done.goal db
            (advance host draw j target (some c) db).1 done.written apart
    ]

abbrev pub CountsOne : ℕ → ℕ → ℕ → ℕ → ℕ → ℕ → Type 0
CountsOne rank0 rank1 n n' late late' =
    (rank1 + n + late ≡ rank0 + n' + late')
    × (rank0 ≤ rank1)
    × ((late' ≡ late) ⊎ ((late' ≡ suc late) × (rank0 ≡ 2) × (rank1 ≡ 3)))

answer_counts :
    (draw : Draw) (c : Covenant) (goal : State) (r : Result Covenant) (n late : ℕ)
    → is_next c.state (some goal) ≡ true
    → (r ≡ ok (set_state draw.now goal c))
      ⊎ ((c.state ≡ State.active)
          × (goal ≡ State.locked)
          × (e : Error) × (r ≡ err (capture_failed e)))
    → CountsOne (rank c.state) (rank goal) n (tick (is_done r) n) late (tick (is_stuck r) late)
answer_counts draw c goal r n late next (inl done) =
    let one = rank-is_next c.state goal next in rw done (omega arith, omega arith, inl refl)
answer_counts draw c goal r n late next (inr (from, to, e, failed)) =
    let one = rank-is_next c.state goal next in
    let here : rank c.state ≡ 2 = ap rank from in
    let there : rank goal ≡ 3 = ap rank to in
    rw failed (omega arith, omega arith, inr (refl, here, there))

-- The state of the covenant moves by one for a call that counts, and not at all for any other.
one_call :
    (host : Host) (k : Text) (call : Call) (n late : ℕ) (db : Db) (c : Covenant)
    → covenant_row k db ≡ some c
    → let (r, db') = transition host call.draw call.covenant_id call.target db in
      (c' : Covenant) × (covenant_row k db' ≡ some c')
      × CountsOne
          (rank c.state)
          (rank c'.state)
          n
          (tick (call.covenant_id == k && is_done r) n)
          late
          (tick (call.covenant_id == k && is_stuck r) late)
unfolding transition
one_call host k call n late db c h = elim (Bool-cases (call.covenant_id == k)) [
  | inr other ↦ (
    c,
    covenant_row-advance_other host call.draw call.covenant_id k call.target _ db other ∙ h,
    rw other (refl, omega arith, inl refl),
  )
  | inl mine ↦
      let here : call.covenant_id ≡ k = (==_iff call.covenant_id k).0 mine in
      let (r, db') = transition host call.draw call.covenant_id call.target db in
      elim (transition-IsAdvanced host call.draw call.covenant_id call.target db c (rw here h)) [
        | inl (e, failed, early, same) ↦
            (c, rw same h, rw (mine, failed) (rw early (refl, omega arith, inl refl)))
        | inr (done, row) ↦ (
          set_state call.draw.now done.goal c,
          subst (λ j. covenant_row j db' ≡ some (set_state call.draw.now done.goal c)) here
              (row done.goal done.named),
          rw mine (answer_counts call.draw c done.goal r n late done.next done.answer),
        )
      ]
]

-- From before LOCKED at most one call fails late, and from there on none.
abbrev pub IsCounted : ℕ → ℕ → ℕ → ℕ → ℕ → ℕ → Type 0
IsCounted rank0 rank1 n n' late late' =
    (rank1 + n + late ≡ rank0 + n' + late') × ((late' ≡ late) ⊎ ((late' ≡ suc late) × (rank0 ≤ 2)))

run_transitions-rank :
    (host : Host) (k : Text) (cs : List Call) (n late : ℕ) (db : Db) (c : Covenant)
    → covenant_row k db ≡ some c
    → let (n', late', db') = run_transitions host k cs n late db in
      (c' : Covenant) × (covenant_row k db' ≡ some c')
      × IsCounted (rank c.state) (rank c'.state) n n' late late'
unfolding run_transitions
run_transitions-rank host k [] n late db c h = (c, h, (refl, inl refl))
run_transitions-rank host k (call ∷ cs) n late db c h =
    let (c1, h1, (e1, up, one)) = one_call host k call n late db c h in
    let (r, db') = transition host call.draw call.covenant_id call.target db in
    let (c2, h2, (e2, rest)) =
      run_transitions-rank host k cs (tick (call.covenant_id == k && is_done r) n)
        (tick (call.covenant_id == k && is_stuck r) late) db' c1 h1 in
    (c2, h2, (omega arith, ground arith))

-- Along any calls of `Transition`, a covenant stands as many states further along DRAFT, OPEN,
-- ACTIVE, LOCKED, SETTLED as transitions of it have succeeded, or have failed by the snapshot after
-- the state was written. At most one fails so, and only for a covenant that was not beyond ACTIVE;
-- together they are at most four.
pub transitions_in_order :
    (host : Host) (k : Text) (cs : List Call) (db : Db) (c : Covenant)
    → covenant_row k db ≡ some c
    → let (n, late, db') = run_transitions host k cs 0 0 db in
      (c' : Covenant) × (covenant_row k db' ≡ some c')
      × (rank c'.state ≡ rank c.state + n + late)
      × (rank c.state + n + late ≤ 4)
      × ((late ≡ 0) ⊎ ((late ≡ 1) × (rank c.state ≤ 2)))
transitions_in_order host k cs db c h =
    let (c', h', (e, late)) = run_transitions-rank host k cs 0 0 db c h in
    (c', h', omega arith, omega (arith, rank-le c'.state), late)
