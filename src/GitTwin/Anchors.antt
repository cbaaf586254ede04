-- ===== src/GitTwin/Anchors.antt =====
-- internal/gittwin/anchors.go: the anchors that bind a settlement to a commit; their notes are in
-- GitTwin/Anchors/Notes. JSON,
-- base64, SHA-256, ed25519 and the order of strings are the parameter `NoteCodec`.
use acp_server.Base.{
  ℕ, zero, suc, String, ◌+◌, Bool, true, false, not, ◌&&◌, ◌||◌, Option, none, some, List, [], ◌∷◌,
  ◌==◌, str_eq, if◌then◌else◌, length,
}
use acp_server.Base.Int.{ℤ, pos, ltb_ℤ, pos_part}
use acp_server.Base.Sql.{first, exists, select, update_where, order_by}
use acp_server.Store.{
  Text, empty, Time, Blob, Value, Error, wrap, errorf, no_rows, unique_violation, Db, Anchor,
  AnchorStatus, SettlementOutput, Snapshot, Draw, Result, ok, err, Exec, pure, raise, lift, gets,
  modify, raise_if, or_raise, wrap_error, map_error, ◌>>=◌, ◌>>◌,
}
use acp_server.Keys.{same_bytes}
use acp_server.Sealing.{drop, take}
mod Notes
pub mod Signed
pub mod Acked
unfoldable pub use Notes.*

abbrev pub is_output : Text → Text → SettlementOutput → Bool
is_output output_id covenant_id o = o.output_id == output_id && o.covenant_id == covenant_id

abbrev pub anchor_of : Draw → Text → AnchorNote → Text → Anchor
anchor_of draw repo_url note body = record {
  anchor_id = draw.anchor_id;
  covenant_id = note.covenant_id;
  settlement_output_id = note.settlement_output_id;
  repo_url = repo_url;
  settlement_hash = note.settlement_hash;
  snapshot_hash = note.snapshot_hash;
  note_body = body;
  status = AnchorStatus.pending;
  enqueued_at = draw.now;
  written_at = none;
  written_commit_sha = empty;
}

unfoldable pub insert_anchor : Anchor → Exec Anchor
insert_anchor a db =
    if exists (λ r. r.anchor_id == a.anchor_id) db.git_twin_anchors
    then (err (wrap "insert anchor: %w" (unique_violation "git_twin_anchors.anchor_id")), db)
    else (ok a, record db { git_twin_anchors = a ∷ db.git_twin_anchors })

module _ (codec : NoteCodec) where
  -- sort.Strings
  unfoldable pub insert_text : Text → List Text → List Text
  insert_text t [] = t ∷ []
  insert_text t (s ∷ rest) = if codec.text_lt s t then s ∷ insert_text t rest else t ∷ s ∷ rest

  unfoldable pub sort_texts : List Text → List Text
  sort_texts [] = []
  sort_texts (t ∷ rest) = insert_text t (sort_texts rest)

  unfoldable pub snapshot_hashes : Text → List Snapshot → List Text
  snapshot_hashes covenant_id [] = []
  snapshot_hashes covenant_id (s ∷ rest) =
      if s.covenant_id == covenant_id && not (s.snapshot_hash == empty)
      then s.snapshot_hash ∷ snapshot_hashes covenant_id rest
      else snapshot_hashes covenant_id rest

  abbrev pub hash_sorted : List Text → Text
  hash_sorted [] = empty
  hash_sorted (t ∷ rest) = codec.hash_lines (sort_texts (t ∷ rest))

  -- rollupSnapshotHash
  unfoldable pub rollup_snapshot_hash : Text → Db → Text
  rollup_snapshot_hash covenant_id db = hash_sorted (snapshot_hashes covenant_id db.token_snapshots)

  -- EnqueueAnchor
  unfoldable pub enqueue_anchor : Option Signer → Draw → Text → Text → Text → Exec Anchor
  enqueue_anchor signer draw covenant_id repo_url output_id = do
    raise_if (repo_url == empty) (errorf "enqueue anchor: repo_url required" [])
    found ← gets (λ db. first (is_output output_id covenant_id) db.settlement_outputs)
    out ← or_raise found (wrap "load settlement %q: %w" no_rows)
    rollup ← gets (rollup_snapshot_hash covenant_id)
    note ← lift (sign_note codec signer (note_of covenant_id output_id rollup out))
    body ← lift (wrapped "marshal anchor note: %w" (codec.marshal note))
    insert_anchor (anchor_of draw repo_url note body)

abbrev pub is_pending : AnchorStatus → Bool
is_pending AnchorStatus.pending = true
is_pending AnchorStatus.written = false

abbrev pub is_listed : Text → Anchor → Bool
is_listed repo_url a =
    if repo_url == empty then is_pending a.status else is_pending a.status && a.repo_url == repo_url

unfoldable pub first_n {ℓ} : {A : Type ℓ} → ℕ → List A → List A
first_n zero rows = []
first_n (suc n) [] = []
first_n (suc n) (r ∷ rows) = r ∷ first_n n rows

-- ListPendingAnchors; no limit where it is not positive.
unfoldable pub list_pending_anchors : Text → ℤ → Db → List Anchor
list_pending_anchors repo_url limit db =
    let rows = order_by (λ a. a.enqueued_at) (select (is_listed repo_url) db.git_twin_anchors) in
    if ltb_ℤ (pos 0) limit then first_n (pos_part limit) rows else rows

abbrev pub anchor_not_found : Error
anchor_not_found = errorf "anchor not found" []

abbrev pub is_anchor : Text → Anchor → Bool
is_anchor anchor_id a = a.anchor_id == anchor_id

abbrev pub to_written : Time → Text → Anchor → Anchor
to_written now sha a = record a {
  status = AnchorStatus.written;
  written_at = some now;
  written_commit_sha = sha;
}

abbrev pub overwrite_refused : Text → Text → Text → Error
overwrite_refused anchor_id existing sha =
    errorf "anchor %s already written at %s; refusing to overwrite with %s"
      (Value.text anchor_id ∷ Value.text existing ∷ Value.text sha ∷ [])

abbrev pub sha_required : Error
sha_required = errorf "written_commit_sha required" []

abbrev pub ack_row : Time → Text → Text → AnchorStatus → Anchor → Exec (Unit {0})
ack_row now anchor_id sha AnchorStatus.written a =
    raise_if (not (a.written_commit_sha == sha))
      (overwrite_refused anchor_id a.written_commit_sha sha)
ack_row now anchor_id sha AnchorStatus.pending a = modify (λ db. record db {
  git_twin_anchors = update_where (is_anchor anchor_id) (to_written now sha) db.git_twin_anchors;
})

abbrev pub ack_found : Time → Text → Text → Option Anchor → Exec (Unit {0})
ack_found now anchor_id sha none = raise anchor_not_found
ack_found now anchor_id sha (some a) = ack_row now anchor_id sha a.status a

-- AckAnchor
unfoldable pub ack_anchor : Time → Text → Text → Exec (Unit {0})
ack_anchor now anchor_id sha db =
    if sha == empty
    then (err sha_required, db)
    else ack_found now anchor_id sha (first (is_anchor anchor_id) db.git_twin_anchors) db
