-- ===== src/Budget/Gate.antt =====
-- What the gate of internal/budget/budget.go guarantees to one caller, and to two at once.
use acp_server.Base.{
  ◌≡◌, refl, true, false, Option, none, some, ◌∷◌, ◌∙◌, ap, sym, ◌==◌, Bool-cases, inl, inr, ◌⊎◌,
  arith,
}
use acp_server.Base.Int.{ℤ, pos, ◌+ℤ◌, ◌≤ℤ◌, ◌<ℤ◌, ◌-ℤ◌, +ℤ_parts, leb_ℤ, InRange64}
use acp_server.Base.Sql.{exists}
use acp_server.Store.{Text, Db, Draw, Counter, ok, err, Error, unique_violation}
use acp_server.Budget.{
  counter, spend, is_exhausted, exhausted, reserve_for, check_and_reserve, record_spend,
  has_reservation, reservation,
}
use acp_server.Budget.Room.{
  WithinLimit, counter-record_spend, is_exhausted-true, is_exhausted-false, is_exhausted-within,
}

check_and_reserve-counter :
    (draw : Draw) (k : Text) (cost : ℤ) (db : Db) (c : Counter)
    → pos 0 <ℤ cost
    → counter k db ≡ some c
    → check_and_reserve draw k cost db ≡ reserve_for draw k cost (some c) db
unfolding check_and_reserve
check_and_reserve-counter draw k cost db c p h = elim (Bool-cases (leb_ℤ cost (pos 0))) [
  | inl free ↦ absurd (ground arith)
  | inr charged ↦ rw (charged, h)
]

reserve_for-exhausted :
    (draw : Draw) (k : Text) (cost : ℤ) (db : Db) (c : Counter)
    → is_exhausted c cost ≡ true
    → (e : Error) × (reserve_for draw k cost (some c) db ≡ (err e, db))
unfolding reserve_for
reserve_for-exhausted draw k cost db c h = (exhausted c cost, rw h)

reserve_for-taken :
    (draw : Draw) (k : Text) (cost : ℤ) (db : Db) (c : Counter)
    → is_exhausted c cost ≡ false
    → has_reservation draw.reservation_id db ≡ true
    → (e : Error) × (reserve_for draw k cost (some c) db ≡ (err e, db))
unfolding reserve_for
reserve_for-taken draw k cost db c room taken =
    (unique_violation "budget_reservations.id", rw (room, taken) refl)

reserve_for-open :
    (draw : Draw) (k : Text) (cost : ℤ) (db : Db) (c : Counter)
    → is_exhausted c cost ≡ false
    → has_reservation draw.reservation_id db ≡ false
    → ((reserve_for draw k cost (some c) db).0 ≡ ok draw.reservation_id)
      × ((reserve_for draw k cost (some c) db).1
          ≡ record db { budget_reservations = reservation draw k cost ∷ db.budget_reservations })
unfolding reserve_for
reserve_for-open draw k cost db c room fresh = (rw (room, fresh) refl, rw (room, fresh) refl)

-- What the gate decides for a charge of a covenant with a counter.
check_and_reserve-cases :
    (draw : Draw) (k : Text) (cost : ℤ) (db : Db) (c : Counter)
    → pos 0 <ℤ cost
    → counter k db ≡ some c
    → ((is_exhausted c cost ≡ false)
        × (has_reservation draw.reservation_id db ≡ false)
        × (check_and_reserve draw k cost db ≡ (
          ok draw.reservation_id,
          record db { budget_reservations = reservation draw k cost ∷ db.budget_reservations },
        )))
      ⊎ ((e : Error) × (check_and_reserve draw k cost db ≡ (err e, db))
          × ((is_exhausted c cost ≡ true) ⊎ (has_reservation draw.reservation_id db ≡ true)))
check_and_reserve-cases draw k cost db c p h =
    rw (check_and_reserve-counter draw k cost db c p h) (elim (Bool-cases (is_exhausted c cost)) [
      | inl full ↦
          let (e, refused) = reserve_for-exhausted draw k cost db c full in
          inr (e, refused, inl full)
      | inr room ↦ elim (Bool-cases (has_reservation draw.reservation_id db)) [
        | inl taken ↦
            let (e, refused) = reserve_for-taken draw k cost db c room taken in
            inr (e, refused, inr taken)
        | inr fresh ↦
            let (passed, written) = reserve_for-open draw k cost db c room fresh in
            inl (room, fresh, rw (sym passed, sym written) refl)
      ]
    ])

-- For a covenant with a counter whose limit less its spending fits an int64, the gate passes a
-- positive charge with a reservation that it writes, when the limit is not set or has room for the
-- charge and the id of the reservation is fresh; otherwise, when there is a limit that the charge
-- would pass or when the id is taken, it refuses and leaves the database as it was.
pub check_and_reserve_iff :
    (draw : Draw) (k : Text) (cost : ℤ) (db : Db) (c : Counter)
    → pos 0 <ℤ cost
    → counter k db ≡ some c
    → InRange64 (c.budget_limit -ℤ c.budget_spent)
    → ((check_and_reserve draw k cost db ≡ (
      ok draw.reservation_id,
      record db { budget_reservations = reservation draw k cost ∷ db.budget_reservations },
    ))
        × ((c.budget_limit ≤ℤ pos 0) ⊎ (c.budget_spent +ℤ cost ≤ℤ c.budget_limit))
        × (has_reservation draw.reservation_id db ≡ false))
      ⊎ ((e : Error) × (check_and_reserve draw k cost db ≡ (err e, db))
          × (((pos 0 <ℤ c.budget_limit) × (c.budget_limit <ℤ c.budget_spent +ℤ cost))
              ⊎ (has_reservation draw.reservation_id db ≡ true)))
check_and_reserve_iff draw k cost db c p h fits =
    elim (check_and_reserve-cases draw k cost db c p h) [
      | inl (room, fresh, passed) ↦ inl (passed, is_exhausted-false c cost fits room, fresh)
      | inr (e, refused, inl full) ↦ inr (e, refused, inl (is_exhausted-true c cost fits full))
      | inr (e, refused, inr taken) ↦ inr (e, refused, inr taken)
    ]

-- A charge that passes under a counter within its limit has room there.
pub passed-HasRoom :
    (draw : Draw) (k : Text) (cost : ℤ) (db : Db) (c : Counter) (id : Text)
    → pos 0 <ℤ cost
    → counter k db ≡ some c
    → WithinLimit c
    → (check_and_reserve draw k cost db).0 ≡ ok id
    → (c.budget_limit ≤ℤ pos 0) ⊎ (c.budget_spent +ℤ cost ≤ℤ c.budget_limit)
passed-HasRoom draw k cost db c id p h within through =
    elim (check_and_reserve-cases draw k cost db c p h) [
      | inl (room, fresh, passed) ↦ is_exhausted-within c cost within room
      | inr (e, refused, why) ↦ absurd (cc (sym through ∙ ap (λ r. r.0) refused))
    ]

reserve_for-counters :
    (draw : Draw) (k : Text) (cost : ℤ) (o : Option Counter) (db : Db)
    → (reserve_for draw k cost o db).1.budget_counters ≡ db.budget_counters
unfolding reserve_for
reserve_for-counters draw k cost none db = refl
reserve_for-counters draw k cost (some c) db = elim (Bool-cases (is_exhausted c cost)) [
  | inl full ↦ rw full
  | inr room ↦ elim (Bool-cases (has_reservation draw.reservation_id db)) [
    | inl taken ↦ rw (room, taken)
    | inr fresh ↦ rw (room, fresh)
  ]
]

-- The gate itself charges nothing.
pub counters-check_and_reserve :
    (draw : Draw) (k : Text) (cost : ℤ) (db : Db)
    → (check_and_reserve draw k cost db).1.budget_counters ≡ db.budget_counters
unfolding check_and_reserve
counters-check_and_reserve draw k cost db = elim (Bool-cases (leb_ℤ cost (pos 0))) [
  | inl free ↦ rw free
  | inr charged ↦ rw charged (reserve_for-counters draw k cost (counter k db) db)
]

pub counter-check_and_reserve :
    (draw : Draw) (k j : Text) (cost : ℤ) (db : Db)
    → counter j (check_and_reserve draw k cost db).1 ≡ counter j db
counter-check_and_reserve draw k j cost db = rw (counters-check_and_reserve draw k cost db)

-- A charge that the gate lets through and that is settled before any other one adds its cost to the
-- counter and keeps the counter within its limit.
pub settled-WithinLimit :
    (draw : Draw) (k : Text) (cost : ℤ) (db : Db) (c : Counter) (id log_id : Text)
    → pos 0 <ℤ cost
    → counter k db ≡ some c
    → WithinLimit c
    → (check_and_reserve draw k cost db).0 ≡ ok id
    → let db' = record_spend draw k cost id log_id (check_and_reserve draw k cost db).1 in
      (c' : Counter) × (counter k db' ≡ some c')
      × WithinLimit c'
      × (c'.budget_spent ≡ c.budget_spent +ℤ cost)
settled-WithinLimit draw k cost db c id log_id p h within through = (
  spend draw.now cost c,
  counter-record_spend draw k cost id log_id (check_and_reserve draw k cost db).1 c p
      (counter-check_and_reserve draw k k cost db ∙ h),
  elim (passed-HasRoom draw k cost db c id p h within through) [
    | inl unlimited ↦ ground (arith, +ℤ_parts c.budget_spent cost)
    | inr room ↦ ground (arith, +ℤ_parts c.budget_spent cost)
  ],
  refl,
)

-- A charge for which there is room passes the gate under a fresh id.
check_and_reserve-passes :
    (draw : Draw) (k : Text) (cost : ℤ) (db : Db) (c : Counter)
    → pos 0 <ℤ cost
    → counter k db ≡ some c
    → InRange64 (c.budget_limit -ℤ c.budget_spent)
    → c.budget_spent +ℤ cost ≤ℤ c.budget_limit
    → has_reservation draw.reservation_id db ≡ false
    → check_and_reserve draw k cost db ≡ (
      ok draw.reservation_id,
      record db { budget_reservations = reservation draw k cost ∷ db.budget_reservations },
    )
check_and_reserve-passes draw k cost db c p h range fits fresh =
    elim (check_and_reserve_iff draw k cost db c p h range) [
      | inl (passed, room, unused) ↦ passed
      | inr (e, refused, inl over) ↦ absurd (omega arith)
      | inr (e, refused, inr taken) ↦ absurd cc
    ]

-- Two charges that each fit, but not together, where the limit less the spending fits an int64: under
-- two different fresh ids both pass the gate when neither is settled before, since reservations do
-- not count, and the covenant then spends more than its limit.
pub reserved_twice_overspends :
    (first_draw second_draw : Draw) (k : Text) (a b : ℤ) (db : Db) (c : Counter)
    (log_id log_id' : Text)
    → pos 0 <ℤ a
    → pos 0 <ℤ b
    → counter k db ≡ some c
    → InRange64 (c.budget_limit -ℤ c.budget_spent)
    → c.budget_spent +ℤ a ≤ℤ c.budget_limit
    → c.budget_spent +ℤ b ≤ℤ c.budget_limit
    → c.budget_limit <ℤ c.budget_spent +ℤ a +ℤ b
    → has_reservation first_draw.reservation_id db ≡ false
    → has_reservation second_draw.reservation_id db ≡ false
    → (first_draw.reservation_id == second_draw.reservation_id) ≡ false
    → let (r, db1) = check_and_reserve first_draw k a db in
      let (r', db2) = check_and_reserve second_draw k b db1 in
      let db3 = record_spend first_draw k a first_draw.reservation_id log_id db2 in
      let db4 = record_spend second_draw k b second_draw.reservation_id log_id' db3 in
      (r ≡ ok first_draw.reservation_id)
      × (r' ≡ ok second_draw.reservation_id)
      × (c' : Counter) × (counter k db4 ≡ some c')
      × (c'.budget_limit <ℤ c'.budget_spent)
unfolding exists
reserved_twice_overspends d d' k a b db c log_id log_id' pa pb h range fits fits' over fresh fresh'
      apart =
    (
      ap (λ x. x.0) once,
      ap (λ x. x.0)
          (check_and_reserve-passes d' k b db1 c pb (counter-check_and_reserve d k k a db ∙ h) range
            fits' (ap (λ x. has_reservation d'.reservation_id x.1) once ∙ rw (apart, fresh') refl)),
      spend d'.now b (spend d.now a c),
      counter-record_spend d' k b d'.reservation_id log_id' db3 (spend d.now a c) pb (
          counter-record_spend d k a d.reservation_id log_id db2 c pa
            (counter-check_and_reserve d' k k b db1 ∙ counter-check_and_reserve d k k a db ∙ h)),
      over,
    )
  where
    once : check_and_reserve d k a db ≡ (
      ok d.reservation_id,
      record db { budget_reservations = reservation d k a ∷ db.budget_reservations },
    )
    once = check_and_reserve-passes d k a db c pa h range fits fresh

    db1 : Db
    db1 = (check_and_reserve d k a db).1

    db2 : Db
    db2 = (check_and_reserve d' k b db1).1

    db3 : Db
    db3 = record_spend d k a d.reservation_id log_id db2
