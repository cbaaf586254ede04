-- ===== src/Covenant/Forward.antt =====
-- The order in which `Transition` of internal/covenant/covenant.go takes a covenant through its states.
use acp_server.Base.{
  ℕ, suc, Bool, ap, str_eq, List, [], ◌∷◌, ◌≤◌, ◌≡◌, refl, sym, ◌∙◌, true, false, not, ◌&&◌, Option,
  none, some, ◌==◌, Bool-cases, inl, inr, ◌⊎◌, arith,
}
use acp_server.Base.Sql.{update_where}
use acp_server.Base.Queries.{first-update, first-update_other}
use acp_server.Store.{
  Text, Time, Db, Covenant, Snapshot, State, ◌is◌, Host, Draw, Error, wrap, Result, Result-cases,
  ok, err,
}
use acp_server.Tokens.Snapshots.{
  Tally, capture_snapshot, insert_snapshot, insert_snapshots, tallies, snapshot_of, has_snapshot,
  is_blank,
}
use acp_server.Covenant.{
  is_covenant, covenant_row, has_tier, is_next, set_state, flip_state, captured, after_flip,
  invalid_transition, no_tiers, advance, transition,
}

abbrev pub rank : State → ℕ
rank State.draft = 0
rank State.opened = 1
rank State.active = 2
rank State.locked = 3
rank State.settled = 4

pub rank-is_next : (s t : State) → is_next s (some t) ≡ true → rank t ≡ suc (rank s)
rank-is_next State.draft State.draft h = cc
rank-is_next State.draft State.opened h = refl
rank-is_next State.draft State.active h = cc
rank-is_next State.draft State.locked h = cc
rank-is_next State.draft State.settled h = cc
rank-is_next State.opened State.draft h = cc
rank-is_next State.opened State.opened h = cc
rank-is_next State.opened State.active h = refl
rank-is_next State.opened State.locked h = cc
rank-is_next State.opened State.settled h = cc
rank-is_next State.active State.draft h = cc
rank-is_next State.active State.opened h = cc
rank-is_next State.active State.active h = cc
rank-is_next State.active State.locked h = refl
rank-is_next State.active State.settled h = cc
rank-is_next State.locked State.draft h = cc
rank-is_next State.locked State.opened h = cc
rank-is_next State.locked State.active h = cc
rank-is_next State.locked State.locked h = cc
rank-is_next State.locked State.settled h = refl
rank-is_next State.settled t h = cc

pub rank-le : (s : State) → rank s ≤ 4
rank-le State.draft = omega arith
rank-le State.opened = omega arith
rank-le State.active = omega arith
rank-le State.locked = omega arith
rank-le State.settled = omega arith

is_active_state : (s : State) → s is State.active ≡ true → s ≡ State.active
is_active_state State.draft h = cc
is_active_state State.opened h = cc
is_active_state State.active h = refl
is_active_state State.locked h = cc
is_active_state State.settled h = cc

is_locked_state : (s : State) → s is State.locked ≡ true → s ≡ State.locked
is_locked_state State.draft h = cc
is_locked_state State.opened h = cc
is_locked_state State.active h = cc
is_locked_state State.locked h = refl
is_locked_state State.settled h = cc

insert_snapshot-covenants :
    (s : Snapshot) (db : Db) → (insert_snapshot s db).1.covenants ≡ db.covenants
unfolding insert_snapshot
insert_snapshot-covenants s db = elim (Bool-cases (has_snapshot s.id db)) [
  | inl taken ↦ rw taken refl
  | inr fresh ↦ rw fresh refl
]

insert_snapshots-covenants :
    (host : Host) (draw : Draw) (k : Text) (n : ℕ) (ts : List Tally) (db : Db)
    → (insert_snapshots host draw k n ts db).1.covenants ≡ db.covenants
unfolding insert_snapshots insert_snapshot
insert_snapshots-covenants host draw k n [] db = refl
insert_snapshots-covenants host draw k n (t ∷ ts) db =
    let s = snapshot_of host draw n k t in
    let db1 = record db { token_snapshots = s ∷ db.token_snapshots } in
    elim (Bool-cases (is_blank t)) [
      | inl blank ↦ rw blank (insert_snapshots-covenants host draw k (suc n) ts db)
      | inr filled ↦ elim (Bool-cases (has_snapshot s.id db)) [
        | inl taken ↦ rw (filled, taken) refl
        | inr fresh ↦ elim (Result-cases (insert_snapshots host draw k (suc n) ts db1).0) [
          | inl (out, done) ↦
              rw (filled, fresh) (rw done (insert_snapshots-covenants host draw k (suc n) ts db1))
          | inr (e, failed) ↦
              rw (filled, fresh) (rw failed (insert_snapshots-covenants host draw k (suc n) ts db1))
        ]
      ]
    ]

captured-covenants : (r : Result (List Snapshot) × Db) → (captured r).1.covenants ≡ r.1.covenants
captured-covenants (ok taken, db) = refl
captured-covenants (err e, db) = refl

flip_state-covenants :
    (host : Host) (draw : Draw) (k : Text) (from t : State) (db : Db)
    → (flip_state host draw k from t db).1.covenants
      ≡ update_where (is_covenant k) (set_state draw.now t) db.covenants
unfolding flip_state capture_snapshot
flip_state-covenants host draw k from t db =
    elim (Bool-cases (from is State.active && t is State.locked)) [
      | inl locking ↦
          rw locking
            (captured-covenants _ ∙ insert_snapshots-covenants host draw k 0 (tallies k _) _)
      | inr other ↦ rw other refl
    ]

abbrev pub capture_failed : Error → Error
capture_failed e = wrap "capture snapshot: %w" e

-- An error of `Transition` that comes after the state was written.
abbrev pub is_late : Error → Bool
is_late (wrap format e) = str_eq format "capture snapshot: %w"
is_late e = false

captured_cases :
    (r : Result (List Snapshot) × Db)
    → ((captured r).0 ≡ ok tt) ⊎ ((e : Error) × ((captured r).0 ≡ err (capture_failed e)))
captured_cases (ok taken, db) = inl refl
captured_cases (err e, db) = inr (e, refl)

flip_state-result :
    (host : Host) (draw : Draw) (k : Text) (from t : State) (db : Db)
    → let (r, db') = flip_state host draw k from t db in
      (r ≡ ok tt)
      ⊎ ((from ≡ State.active) × (t ≡ State.locked) × (e : Error) × (r ≡ err (capture_failed e)))
unfolding flip_state
flip_state-result host draw k from t db = elim (Bool-cases (from is State.active)) [
  | inr past ↦ inl (rw past refl)
  | inl active ↦ elim (Bool-cases (t is State.locked)) [
    | inr other ↦ inl (rw (active, other) refl)
    | inl locking ↦
        rw (active, locking)
          (elim (captured_cases _) [
            | inl done ↦ inl done
            | inr (e, failed) ↦
                inr (is_active_state from active, is_locked_state t locking, e, failed)
          ])
  ]
]

-- What a transition that writes has found and done. Its answer is the covenant in the target state,
-- or, only from ACTIVE to LOCKED, the error of the snapshot.
pub record IsAdvanced (draw : Draw) (k : Text) (target : Option State) (db : Db) (c : Covenant)
    (r : Result Covenant) (db' : Db) : Type 0 where
  pub goal : State
  pub named : target ≡ some goal
  pub next : is_next c.state (some goal) ≡ true
  pub tiered : c.state is State.draft ≡ true → has_tier k db ≡ true
  pub answer :
      (r ≡ ok (set_state draw.now goal c))
      ⊎ ((c.state ≡ State.active)
          × (goal ≡ State.locked)
          × (e : Error) × (r ≡ err (capture_failed e)))
  pub written : db'.covenants ≡ update_where (is_covenant k) (set_state draw.now goal) db.covenants

after_flip-row : (c : Covenant) (r : Result (Unit {0}) × Db) → (after_flip c r).1 ≡ r.1
after_flip-row c (ok u, db) = refl
after_flip-row c (err e, db) = refl

after_flip-ok :
    (c : Covenant) (r : Result (Unit {0}) × Db) → r.0 ≡ ok tt → (after_flip c r).0 ≡ ok c
after_flip-ok c (ok u, db) h = refl
after_flip-ok c (err e, db) h = cc

after_flip-err :
    (c : Covenant) (r : Result (Unit {0}) × Db) (e : Error)
    → r.0 ≡ err e
    → (after_flip c r).0 ≡ err e
after_flip-err c (ok u, db) e h = cc
after_flip-err c (err f, db) e h = cc

pub advance-cases :
    (host : Host) (draw : Draw) (k : Text) (target : Option State) (db : Db) (c : Covenant)
    → let (r, db') = advance host draw k target (some c) db in
      ((e : Error) × (r ≡ err e) × (is_late e ≡ false) × (db' ≡ db))
      ⊎ IsAdvanced draw k target db c r db'
unfolding advance
advance-cases host draw k none db c = inl (invalid_transition c.state none, refl, refl, refl)
advance-cases host draw k (some t) db c = elim (Bool-cases (is_next c.state (some t))) [
  | inr skipped ↦ rw skipped (inl (invalid_transition c.state (some t), refl, refl, refl))
  | inl next ↦ elim (Bool-cases (c.state is State.draft && not (has_tier k db))) [
    | inl bare ↦ rw (next, bare) (inl (no_tiers, refl, refl, refl))
    | inr ready ↦
        let flipped = flip_state host draw k c.state t db in
        rw (next, ready)
          (inr (record {
            goal = t;
            named = refl;
            next = next;
            tiered = λ d. ground arith;
            answer = elim (flip_state-result host draw k c.state t db) [
              | inl done ↦ inl (after_flip-ok (set_state draw.now t c) flipped done)
              | inr (from, to, e, failed) ↦ inr (
                from,
                to,
                e,
                after_flip-err (set_state draw.now t c) flipped (capture_failed e) failed,
              )
            ];
            written =
                ap (λ d. d.covenants) (after_flip-row (set_state draw.now t c) flipped)
                ∙ flip_state-covenants host draw k c.state t db;
          }))
  ]
]

pub covenant_row-written :
    (now : Time) (k : Text) (t : State) (db db' : Db) (c : Covenant)
    → db'.covenants ≡ update_where (is_covenant k) (set_state now t) db.covenants
    → covenant_row k db ≡ some c
    → covenant_row k db' ≡ some (set_state now t c)
covenant_row-written now k t db db' c written h =
    rw written (first-update (is_covenant k) (set_state now t) c db.covenants (λ x. refl) h)

pub covenant_row-written_other :
    (now : Time) (k j : Text) (t : State) (db db' : Db)
    → db'.covenants ≡ update_where (is_covenant k) (set_state now t) db.covenants
    → (k == j) ≡ false
    → covenant_row j db' ≡ covenant_row j db
covenant_row-written_other now k j t db db' written apart = rw written (
    first-update_other (is_covenant j) (is_covenant k) (set_state now t) db.covenants (λ x. refl)
      (λ x h. ground arith))

-- A transition of a known covenant fails and changes nothing; or its target is the next state, a
-- covenant that leaves DRAFT has a tier, and the covenant is in the target state then, also when the
-- transition fails after that by the snapshot, which only one from ACTIVE to LOCKED does.
pub transition-IsAdvanced :
    (host : Host) (draw : Draw) (k : Text) (target : Option State) (db : Db) (c : Covenant)
    → covenant_row k db ≡ some c
    → let (r, db') = transition host draw k target db in
      ((e : Error) × (r ≡ err e) × (is_late e ≡ false) × (db' ≡ db))
      ⊎ (IsAdvanced draw k target db c r db'
          × ((t : State) → target ≡ some t → covenant_row k db' ≡ some (set_state draw.now t c)))
unfolding transition
transition-IsAdvanced host draw k target db c h =
    rw h (elim (advance-cases host draw k target db c) [
      | inl failed ↦ inl failed
      | inr done ↦ inr (
        done,
        λ t e.
            let same : done.goal ≡ t = cc (sym done.named ∙ e) in
            rw (sym same) (
              covenant_row-written draw.now k done.goal db
                (advance host draw k target (some c) db).1 c done.written h),
      )
    ])
