-- ===== src/GitTwin/Anchors/Acked.antt =====
-- What an acknowledgement of internal/gittwin/anchors.go settles.
use acp_server.Base.{
  ℕ, zero, suc, ◌≡◌, ◌≢◌, refl, false, some, List, [], ◌∷◌, ◌==◌, ==_refl, arith, All, Bool-cases,
  inl, inr, ap, leb,
}
use acp_server.Base.Int.{ℤ, pos, ltb_ℤ, pos_part}
use acp_server.Base.Sql.{first, select, update_where, insert_by, order_by}
use acp_server.Base.Queries.{first-update}
use acp_server.Store.{Text, empty, Time, Error, Db, Anchor, AnchorStatus, ok, err}
use acp_server.GitTwin.Anchors.{
  is_listed, first_n, list_pending_anchors, is_anchor, to_written, ack_anchor, ack_row,
  sha_required, overwrite_refused,
}

All-insert_by {ℓ} :
    {A : Type ℓ} (P : A → Type 0) (key : A → ℕ) (x : A) (rows : List A)
    → P x
    → All P rows
    → All P (insert_by key x rows)
unfolding insert_by
All-insert_by P key x [] h all = (h, tt)
All-insert_by P key x (r ∷ rows) h all = elim (Bool-cases (leb (key r) (key x))) [
  | inl before ↦ rw before (all.0, All-insert_by P key x rows h all.1)
  | inr behind ↦ rw behind (h, all)
]

All-order_by {ℓ} :
    {A : Type ℓ} (P : A → Type 0) (key : A → ℕ) (rows : List A)
    → All P rows
    → All P (order_by key rows)
unfolding order_by
All-order_by P key [] all = tt
All-order_by P key (r ∷ rows) all =
    All-insert_by P key r (order_by key rows) all.0 (All-order_by P key rows all.1)

All-first_n {ℓ} :
    {A : Type ℓ} (P : A → Type 0) (n : ℕ) (rows : List A) → All P rows → All P (first_n n rows)
unfolding first_n
All-first_n P zero rows all = tt
All-first_n P (suc n) [] all = tt
All-first_n P (suc n) (r ∷ rows) all = (all.0, All-first_n P n rows all.1)

-- An anchor of another id.
abbrev pub IsOther : Text → Anchor → Type 0
IsOther anchor_id a = a.anchor_id ≢ anchor_id

module _ (now : Time) (anchor_id sha : Text) where
  written_unlisted :
      (repo_url : Text) (rows : List Anchor)
      → All (IsOther anchor_id) (
          select
            (is_listed repo_url)
            (update_where (is_anchor anchor_id) (to_written now sha) rows))
  unfolding select update_where
  written_unlisted repo_url [] = tt
  written_unlisted repo_url (a ∷ rows) = elim (Bool-cases (is_anchor anchor_id a)) [
    | inl this ↦ rw this (
        let off : is_listed repo_url (to_written now sha a) ≡ false = ground arith in
        rw off (written_unlisted repo_url rows))
    | inr other ↦ rw other (elim (Bool-cases (is_listed repo_url a)) [
      | inl on ↦ rw on ((λ e. ground arith), written_unlisted repo_url rows)
      | inr off ↦ rw off (written_unlisted repo_url rows)
    ])
  ]

  written_rows : Db → Db
  written_rows db = record db {
    git_twin_anchors = update_where (is_anchor anchor_id) (to_written now sha) db.git_twin_anchors;
  }

  ack_pending :
      (db : Db) (a : Anchor)
      → first (is_anchor anchor_id) db.git_twin_anchors ≡ some a
      → a.status ≡ AnchorStatus.pending
      → sha ≢ empty
      → ack_anchor now anchor_id sha db ≡ (ok tt, written_rows db)
  unfolding ack_anchor written_rows
  ack_pending db a known waiting named =
      let given : (sha == empty) ≡ false = ground arith in
      rw (given, known) (ap (λ (s : AnchorStatus). ack_row now anchor_id sha s a db) waiting)

  ack_again :
      (later : Time) (db : Db) (a : Anchor)
      → first (is_anchor anchor_id) db.git_twin_anchors ≡ some (to_written now sha a)
      → sha ≢ empty
      → (ack_anchor later anchor_id sha db ≡ (ok tt, db))
        × ((other : Text)
            → other ≢ sha
            → (e : Error) × (ack_anchor later anchor_id other db ≡ (err e, db)))
  unfolding ack_anchor
  ack_again later db a known named =
      let given : (sha == empty) ≡ false = ground arith in
      (
        rw (given, known, ==_refl sha) refl,
        λ other differs. elim (Bool-cases (other == empty)) [
          | inl none_given ↦ (sha_required, rw none_given refl)
          | inr given' ↦
              let apart : (sha == other) ≡ false = ground arith in
              (overwrite_refused anchor_id sha other, rw (given', known, apart) refl)
        ],
      )

  pending_unlisted :
      (repo_url : Text) (limit : ℤ) (db : Db)
      → All (IsOther anchor_id) (list_pending_anchors repo_url limit (written_rows db))
  unfolding list_pending_anchors written_rows
  pending_unlisted repo_url limit db =
      let all =
        All-order_by (IsOther anchor_id) (λ a. a.enqueued_at)
          (select (is_listed repo_url)
            (update_where (is_anchor anchor_id) (to_written now sha) db.git_twin_anchors))
          (written_unlisted repo_url db.git_twin_anchors) in
      elim (Bool-cases (ltb_ℤ (pos 0) limit)) [
        | inl some_limit ↦ rw some_limit (All-first_n (IsOther anchor_id) (pos_part limit) _ all)
        | inr no_limit ↦ rw no_limit all
      ]

  -- A first acknowledgement of a pending anchor, with a commit, goes through: the anchor is written at
  -- that commit. On the database that this leaves, the same acknowledgement goes through without a
  -- change, one with another commit fails without a change, and no list of pending anchors has it.
  pub ack_is_final :
      (later : Time) (db : Db) (a : Anchor)
      → first (is_anchor anchor_id) db.git_twin_anchors ≡ some a
      → a.status ≡ AnchorStatus.pending
      → sha ≢ empty
      → let (r, db') = ack_anchor now anchor_id sha db in
        (r ≡ ok tt)
        × (first (is_anchor anchor_id) db'.git_twin_anchors ≡ some (to_written now sha a))
        × (ack_anchor later anchor_id sha db' ≡ (ok tt, db'))
        × ((other : Text)
            → other ≢ sha
            → (e : Error) × (ack_anchor later anchor_id other db' ≡ (err e, db')))
        × ((repo_url : Text) (limit : ℤ)
            → All (IsOther anchor_id) (list_pending_anchors repo_url limit db'))
  unfolding written_rows
  ack_is_final later db a known waiting named =
      let row =
        first-update (is_anchor anchor_id) (to_written now sha) a db.git_twin_anchors (λ x. refl)
          known in
      let again = ack_again later (written_rows db) a row named in
      rw (ack_pending db a known waiting named)
        (refl, row, again.0, again.1, λ repo_url limit. pending_unlisted repo_url limit db)
