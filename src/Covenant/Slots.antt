-- ===== src/Covenant/Slots.antt =====
-- The slots of a tier: `Join` of internal/covenant/covenant.go keeps to them, and `ApproveAccessRequest`
-- of internal/covenant/access_request.go does not look at them.
use acp_server.Base.{
  ℕ, suc, ◌≡◌, refl, sym, ap, ◌∙◌, false, ◌&&◌, Option, none, some, List, ◌∷◌, ◌==◌, Bool-cases,
  inl, inr, ◌⊎◌, arith,
}
use acp_server.Base.Int.{ℤ, pos, ◌≤ℤ◌}
use acp_server.Base.Sql.{exists, count_where}
use acp_server.Store.{
  Text, Db, Covenant, Tier, Member, MemberStatus, State, ◌is◌, Host, Draw, Error, ok, err,
  Result-cases,
}
use acp_server.Covenant.{covenant_row, tier_row}
use acp_server.Covenant.Members.{
  seal_platform_id, insert_identity, upsert_platform_identity, insert_member, is_in_tier,
  tier_count, is_full, joined, enter, join_tier, join, clashes, resolves,
}

members-insert_identity :
    (i : _) (db : Db) → (insert_identity i db).covenant_members ≡ db.covenant_members
unfolding insert_identity
members-insert_identity i db =
    elim (Bool-cases (exists (λ r. r.platform_id == i.platform_id) db.platform_identities)) [
      | inl known ↦ rw known refl
      | inr new ↦ rw new refl
    ]

members-upsert :
    (host : Host) (draw : Draw) (p : Text) (db : Db)
    → (upsert_platform_identity host draw p db).1.covenant_members ≡ db.covenant_members
unfolding upsert_platform_identity
members-upsert host draw p db = elim (Result-cases (seal_platform_id host p)) [
  | inl (enc, sealed) ↦ rw sealed (members-insert_identity _ db)
  | inr (e, failed) ↦ rw failed refl
]

tiers-upsert :
    (host : Host) (draw : Draw) (p : Text) (db : Db)
    → (upsert_platform_identity host draw p db).1.access_tiers ≡ db.access_tiers
unfolding upsert_platform_identity insert_identity
tiers-upsert host draw p db = elim (Result-cases (seal_platform_id host p)) [
  | inl (enc, sealed) ↦
      elim (Bool-cases (exists (λ r. r.platform_id == p) db.platform_identities)) [
        | inl known ↦ rw (sealed, known) refl
        | inr new ↦ rw (sealed, new) refl
      ]
  | inr (e, failed) ↦ rw failed refl
]

-- An insertion adds its row, or nothing.
pub insert_member-cases :
    (m : Member) (db : Db)
    → (insert_member m db ≡ (ok tt, record db { covenant_members = m ∷ db.covenant_members }))
      ⊎ ((e : Error) × (insert_member m db ≡ (err e, db)))
unfolding insert_member
insert_member-cases m db = elim (Bool-cases (exists (clashes m) db.covenant_members)) [
  | inl clash ↦ rw clash (inr (_, refl))
  | inr free ↦ elim (Bool-cases (resolves m db)) [
    | inl resolved ↦ rw (free, resolved) (inl refl)
    | inr dangling ↦ rw (free, dangling) (inr (_, refl))
  ]
]

members-insert_member :
    (m : Member) (db : Db)
    → ((insert_member m db).1.covenant_members ≡ db.covenant_members)
      ⊎ ((insert_member m db).1.covenant_members ≡ m ∷ db.covenant_members)
members-insert_member m db = elim (insert_member-cases m db) [
  | inl done ↦ inr (ap (λ r. r.1.covenant_members) done)
  | inr (e, failed) ↦ inl (ap (λ r. r.1.covenant_members) failed)
]

tiers-insert_member : (m : Member) (db : Db) → (insert_member m db).1.access_tiers ≡ db.access_tiers
tiers-insert_member m db = elim (insert_member-cases m db) [
  | inl done ↦ ap (λ r. r.1.access_tiers) done
  | inr (e, failed) ↦ ap (λ r. r.1.access_tiers) failed
]

-- The members and the tiers after a join, by the rows that were found.
record IsJoined (draw : Draw) (k p t : Text) (tier : Tier) (db db' : Db) : Type 0 where
  room : is_full tier.max_slots (tier_count k t db) ≡ false
  row : tier_row k t db ≡ some tier
  grown : db'.covenant_members ≡ joined draw k p t MemberStatus.pending ∷ db.covenant_members

module _ (host : Host) (draw : Draw) (k p t : Text) where
  tiers-enter : (db : Db) → (enter host draw k p t db).1.access_tiers ≡ db.access_tiers
  unfolding enter
  tiers-enter db =
      let (r, db1) = upsert_platform_identity host draw p db in
      let m = joined draw k p t MemberStatus.pending in
      elim (Result-cases r) [
        | inr (e, failed) ↦ rw failed (tiers-upsert host draw p db)
        | inl (u, passed) ↦ elim (insert_member-cases m db1) [
          | inl done ↦ rw (passed, done) (tiers-upsert host draw p db)
          | inr (e, refused) ↦ rw (passed, refused) (tiers-upsert host draw p db)
        ]
      ]

  members-enter :
      (db : Db)
      → ((enter host draw k p t db).1.covenant_members ≡ db.covenant_members)
        ⊎ ((enter host draw k p t db).1.covenant_members
            ≡ joined draw k p t MemberStatus.pending ∷ db.covenant_members)
  unfolding enter
  members-enter db =
      let (r, db1) = upsert_platform_identity host draw p db in
      let m = joined draw k p t MemberStatus.pending in
      let same : db1.covenant_members ≡ db.covenant_members = members-upsert host draw p db in
      elim (Result-cases r) [
        | inr (e, failed) ↦ rw failed (inl same)
        | inl (u, passed) ↦ elim (insert_member-cases m db1) [
          | inl done ↦ rw (passed, done) (inr (ap (λ rows. m ∷ rows) same))
          | inr (e, refused) ↦ rw (passed, refused) (inl same)
        ]
      ]

  join_tier-cases :
      (cov : Option Covenant) (o : Option Tier) (db : Db)
      → tier_row k t db ≡ o
      → let db' = (join_tier host draw k p t cov o db).1 in
        (db'.access_tiers ≡ db.access_tiers)
        × ((db'.covenant_members ≡ db.covenant_members)
            ⊎ ((tier : Tier) × IsJoined draw k p t tier db db'))
  unfolding join_tier
  join_tier-cases none o db h = (refl, inl refl)
  join_tier-cases (some cov) none db h = elim (Bool-cases (cov.state is State.opened)) [
    | inl ready ↦ rw ready (refl, inl refl)
    | inr closed ↦ rw closed (refl, inl refl)
  ]
  join_tier-cases (some cov) (some tier) db h = elim (Bool-cases (cov.state is State.opened)) [
    | inr closed ↦ rw closed (refl, inl refl)
    | inl ready ↦ elim (Bool-cases (is_full tier.max_slots (tier_count k t db))) [
      | inl full ↦ rw (ready, full) (refl, inl refl)
      | inr room ↦
          rw (ready, room)
            (
              tiers-enter db,
              elim (members-enter db) [
                | inl same ↦ inl same
                | inr grown ↦ inr (tier, record { room = room; row = h; grown = grown })
              ],
            )
    ]
  ]

-- No tier with a number of slots has more members than slots.
abbrev pub KeepsSlots : Db → Type 0
KeepsSlots db =
    (k t : Text) (tier : Tier) (slots : ℤ)
    → tier_row k t db ≡ some tier
    → tier.max_slots ≡ some slots
    → pos (tier_count k t db) ≤ℤ slots

count-joined :
    (draw : Draw) (k p t j s : Text) (ms : List Member)
    → let m = joined draw k p t MemberStatus.pending in
      ((k ≡ j)
        × (t ≡ s)
        × (count_where (is_in_tier j s) (m ∷ ms) ≡ suc (count_where (is_in_tier j s) ms)))
      ⊎ (count_where (is_in_tier j s) (m ∷ ms) ≡ count_where (is_in_tier j s) ms)
unfolding count_where
count-joined draw k p t j s ms = elim (Bool-cases (k == j && t == s)) [
  | inl mine ↦ rw mine (inl (ground arith, ground arith, refl))
  | inr other ↦ rw other (inr refl)
]

is_full-false : (slots : ℤ) (n : ℕ) → is_full (some slots) n ≡ false → pos (suc n) ≤ℤ slots
is_full-false slots n h = ground arith

-- A join keeps every tier of every covenant within its slots, whatever the join comes to.
pub join-KeepsSlots :
    (host : Host) (draw : Draw) (k p t : Text) (db : Db)
    → KeepsSlots db
    → KeepsSlots (join host draw k p t db).1
unfolding join
join-KeepsSlots host draw k p t db keeps j s tier slots row limited =
    let (tiers, members) =
      join_tier-cases host draw k p t (covenant_row k db) (tier_row k t db) db refl in
    let row' : tier_row j s db ≡ some tier = rw tiers at row in
    let before = keeps j s tier slots row' limited in
    elim members [
      | inl same ↦ rw same before
      | inr (asked, done) ↦ rw done.grown (elim (count-joined draw k p t j s db.covenant_members) [
        | inr other ↦ rw other before
        | inl (here, there, more) ↦
            let found : tier_row k t db ≡ some tier = rw (here, there) row' in
            let same_tier : asked ≡ tier = cc (sym done.row ∙ found) in
            let room : is_full (some slots) (tier_count j s db) ≡ false =
              rw (same_tier, limited, here, there) at done.room in
            rw more (is_full-false slots (tier_count j s db) room)
      ])
    ]
