-- ===== src/GitTwin/Anchors/Signed.antt =====
-- The signature on the note of an anchor: internal/gittwin/anchors.go against signing.go.
use acp_server.Base.{
  ℕ, zero, suc, ◌-◌, ◌≡◌, refl, subst, Bool, true, Option, none, some, List, [], ◌∷◌, ==_iff, arith,
  ◌==◌, Bool-cases, Option-cases, inl, inr, ap, sym, length,
}
use acp_server.Base.Int.{InRange64}
use acp_server.Sealing.{drop, take}
use acp_server.Base.Sql.{first, exists}
use acp_server.Store.{
  Text, empty, Blob, Error, Db, Anchor, AnchorStatus, SettlementOutput, Draw, Result, ok, err,
  Result-cases, eq_of_ok, wrap,
}
use acp_server.GitTwin.Anchors.{
  AnchorNote, NoteCodec, Signer, public_key, unsigned, canonical_unsigned_anchor, sign_note,
  signature_by, verify_anchor_signature, note_of, is_output, anchor_of, insert_anchor,
  enqueue_anchor, rollup_snapshot_hash, snapshot_hashes, hash_sorted, sort_texts, bytes_equal,
  AnchorSignature, parse_signing_key, check_halves,
}

-- A private key that ParseSigningKey accepts: 64 bytes, the second half the public key of the seed.
abbrev pub IsKey : NoteCodec → Signer → Type 0
IsKey codec priv =
    (length priv ≡ 64)
    × (bytes_equal (drop 32 (codec.key_from_seed (take 32 priv))) (drop 32 priv) ≡ true)

abbrev pub IsBase64 : NoteCodec → Option AnchorSignature → Type 0
IsBase64 codec none = Unit
IsBase64 codec (some s) =
    ((b : Blob) × (s.public_key ≡ codec.encode64 b)) × ((b : Blob) × (s.value ≡ codec.encode64 b))

-- A note that JSON keeps: its texts are valid UTF-8, its total is an int64, and its signature is in
-- base64.
abbrev pub IsKept : NoteCodec → AnchorNote → Type 0
IsKept codec n =
    (codec.is_utf8 n.covenant_id ≡ true)
    × (codec.is_utf8 n.settlement_output_id ≡ true)
    × (codec.is_utf8 n.settlement_hash ≡ true)
    × (codec.is_utf8 n.snapshot_hash ≡ true)
    × InRange64 n.total_tokens
    × IsBase64 codec n.signature

-- What the server relies on of JSON, base64, hex and ed25519: a note that JSON keeps is read back as
-- it was marshalled, what was encoded is decoded, a digest in hex and the empty text are valid UTF-8,
-- and a signature by a well-formed private key verifies under its public half.
pub record IsFaithful (codec : NoteCodec) : Type 0 where
  pub read_back :
      (n : AnchorNote) (t : Text)
      → IsKept codec n
      → codec.marshal n ≡ ok t
      → codec.unmarshal t ≡ ok n
  pub decoded : (b : Blob) → codec.decode64 (codec.encode64 b) ≡ ok b
  pub empty_utf8 : codec.is_utf8 empty ≡ true
  pub digest_utf8 : (ts : List Text) → codec.is_utf8 (codec.hash_lines ts) ≡ true
  pub verified :
      (priv : Signer) (t : Text)
      → IsKey codec priv
      → codec.verify (public_key priv) t (codec.sign priv t) ≡ true

parsed-IsKey :
    (codec : NoteCodec) (b64 : Blob) (priv : Signer)
    → parse_signing_key codec b64 ≡ ok priv
    → IsKey codec priv
unfolding parse_signing_key
parsed-IsKey codec b64 priv h = elim (Result-cases (codec.decode64 b64)) [
  | inr (e, failed) ↦ absurd (cc (rw failed at h))
  | inl (decoded, read) ↦ checked decoded (rw read at h)
]
  where
    checked : (decoded : Blob) → check_halves codec decoded ≡ ok priv → IsKey codec priv
    checked decoded h = elim (Bool-cases (length decoded == 64)) [
      | inr short ↦ absurd (cc (rw short at h))
      | inl full ↦
          elim (Bool-cases
            (bytes_equal (drop 32 (codec.key_from_seed (take 32 decoded))) (drop 32 decoded))) [
              | inr apart ↦ absurd (cc (rw (full, apart) at h))
              | inl same ↦
                  let this : decoded ≡ priv = eq_of_ok (rw (full, same) at h) in
                  subst (IsKey codec) this ((==_iff (length decoded) 64).0 full, same)
            ]
    ]

length-drop : (n : ℕ) (b : Blob) → length (drop n b) ≡ length b - n
unfolding drop
length-drop zero b = omega arith
length-drop (suc n) [] = omega arith
length-drop (suc n) (x ∷ b) = omega (arith, length-drop n b)

public_key-sized :
    (codec : NoteCodec) (priv : Signer) → IsKey codec priv → length (public_key priv) ≡ 32
public_key-sized codec priv key = omega (arith, length-drop 32 priv, key.0)

-- A settlement whose hash is valid UTF-8 and whose total is an int64.
abbrev pub IsNotable : NoteCodec → SettlementOutput → Type 0
IsNotable codec out = (codec.is_utf8 out.trigger_log_hash ≡ true) × InRange64 out.total_tokens

module _ (codec : NoteCodec) (faithful : IsFaithful codec) (b64 : Blob) (priv : Signer)
    (parsed : parse_signing_key codec b64 ≡ ok priv) where
  rollup-utf8 : (k : Text) (db : Db) → codec.is_utf8 (rollup_snapshot_hash codec k db) ≡ true
  unfolding rollup_snapshot_hash
  rollup-utf8 k db = hashed (snapshot_hashes codec k db.token_snapshots)
    where
      hashed : (ts : List Text) → codec.is_utf8 (hash_sorted codec ts) ≡ true
      hashed [] = faithful.empty_utf8
      hashed (t ∷ ts) = faithful.digest_utf8 (sort_texts codec (t ∷ ts))

  abbrev with_signature : AnchorNote → Text → AnchorNote
  with_signature note canonical = record note {
    signature = some (signature_by codec priv canonical);
  }

  signed_verifies :
      (note : AnchorNote) (canonical body : Text)
      → IsKept codec (with_signature note canonical)
      → codec.marshal (unsigned note) ≡ ok canonical
      → codec.marshal (with_signature note canonical) ≡ ok body
      → verify_anchor_signature codec body ≡ ok true
  unfolding verify_anchor_signature canonical_unsigned_anchor
  signed_verifies note canonical body kept rendered whole =
      let key = parsed-IsKey codec b64 priv parsed in
      let back = faithful.read_back (with_signature note canonical) body kept whole in
      rw (back, faithful.decoded (public_key priv))
        (rw (public_key-sized codec priv key, faithful.decoded (codec.sign priv canonical))
          (rw rendered (ap (λ (b : Bool). ok b) (faithful.verified priv canonical key))))

  sign_note_shape :
      (note signed : AnchorNote)
      → sign_note codec (some priv) note ≡ ok signed
      → (canonical : Text) × (codec.marshal (unsigned note) ≡ ok canonical)
        × (signed ≡ record note { signature = some (signature_by codec priv canonical) })
  unfolding sign_note canonical_unsigned_anchor
  sign_note_shape note signed h = elim (Result-cases (codec.marshal (unsigned note))) [
    | inl (canonical, done) ↦ (canonical, done, sym (eq_of_ok (rw done at h)))
    | inr (e, failed) ↦ absurd (refused e (rw failed at h))
  ]
    where
      refused :
          (e : Error)
          → ◌≡◌ {A = Result AnchorNote} (err (wrap "canonicalize anchor note: %w" e)) (ok signed)
          → ⊥
      refused e h = cc

  -- What EnqueueAnchor comes to: an error, and nothing was written; or a pending anchor in front of the
  -- others, which carries the facts of the settlement and whose note verifies.
  abbrev pub IsEnqueued : Text → Text → Db → Result Anchor × Db → Type 0
  IsEnqueued covenant_id output_id db (err e, db') = db' ≡ db
  IsEnqueued covenant_id output_id db (ok a, db') =
      (db' ≡ record db { git_twin_anchors = a ∷ db.git_twin_anchors })
      × (a.status ≡ AnchorStatus.pending)
      × ((out : SettlementOutput) × (first (is_output output_id covenant_id) db.settlement_outputs
            ≡ some out)
          × (a.settlement_hash ≡ out.trigger_log_hash))
      × (a.snapshot_hash ≡ rollup_snapshot_hash codec covenant_id db)
      × (verify_anchor_signature codec a.note_body ≡ ok true)

  module _ (draw : Draw) (covenant_id repo_url output_id : Text) (db : Db)
      (named : codec.is_utf8 covenant_id ≡ true) (listed : codec.is_utf8 output_id ≡ true) where
    abbrev plain_note : SettlementOutput → AnchorNote
    plain_note out = note_of covenant_id output_id (rollup_snapshot_hash codec covenant_id db) out

    insert-IsEnqueued :
        (out : SettlementOutput) (signed : AnchorNote) (body : Text)
        → first (is_output output_id covenant_id) db.settlement_outputs ≡ some out
        → sign_note codec (some priv) (plain_note out) ≡ ok signed
        → codec.marshal signed ≡ ok body
        → IsNotable codec out
        → IsEnqueued covenant_id output_id db
            (insert_anchor (anchor_of draw repo_url signed body) db)
    unfolding insert_anchor
    insert-IsEnqueued out signed body found signing whole notable =
        let (canonical, rendered, shape) = sign_note_shape (plain_note out) signed signing in
        let verifies =
          signed_verifies (plain_note out) canonical body
            (
              named,
              listed,
              notable.0,
              rollup-utf8 covenant_id db,
              notable.1,
              ((public_key priv, refl), (codec.sign priv canonical, refl)),
            )
            rendered (rw shape at whole) in
        elim (Bool-cases (exists (λ r. r.anchor_id == draw.anchor_id) db.git_twin_anchors)) [
          | inl taken ↦ rw taken refl
          | inr fresh ↦ rw fresh (
            refl,
            refl,
            (out, found, ap (λ (n : AnchorNote). n.settlement_hash) shape),
            ap (λ (n : AnchorNote). n.snapshot_hash) shape,
            verifies,
          )
        ]

    -- With a key that ParseSigningKey accepted, a codec that reads back the notes that JSON keeps and
    -- verifies what a well-formed key signs, identifiers in valid UTF-8, and a settlement, if there is
    -- one, with a hash in valid UTF-8 and a total that is an int64, EnqueueAnchor fails and changes
    -- nothing, or it adds a pending anchor that carries the hash of the covenant's settlement and the
    -- roll-up of its snapshots, and whose note VerifyAnchorSignature accepts.
    pub enqueue_anchor-IsEnqueued :
        ((out : SettlementOutput)
          → first (is_output output_id covenant_id) db.settlement_outputs ≡ some out
          → IsNotable codec out)
        → IsEnqueued covenant_id output_id db
            (enqueue_anchor codec (some priv) draw covenant_id repo_url output_id db)
    unfolding enqueue_anchor
    enqueue_anchor-IsEnqueued notable = elim (Bool-cases (repo_url == empty)) [
      | inl bare ↦ rw bare refl
      | inr given ↦
          elim (Option-cases (first (is_output output_id covenant_id) db.settlement_outputs)) [
            | inl missing ↦ rw (given, missing) refl
            | inr (out, found) ↦
                rw (given, found)
                  (elim (Result-cases (sign_note codec (some priv) (plain_note out))) [
                    | inr (e, failed) ↦ rw failed refl
                    | inl (signed, signing) ↦
                        rw signing (elim (Result-cases (codec.marshal signed)) [
                          | inr (e, failed) ↦ rw failed refl
                          | inl (body, whole) ↦ rw whole (
                              insert-IsEnqueued out signed body found signing whole
                                (notable out found))
                        ])
                  ])
          ]
    ]
