-- ===== src/Tests/Codec.antt =====
-- A codec that knows the note of one settlement, signed and unsigned; a signature is the text beside
-- the public key.
use acp_server.Base.{
  ◌≡◌, refl, Bool, true, false, ◌&&◌, Option, none, some, [], ◌∷◌, ◌==◌, ==_iff, arith, length,
  str_eq, eq_iff, if◌then◌else◌, ap, sym, Bool-cases, inl, inr,
}
use acp_server.Base.Int.{ℤ, pos, negsuc, eqb_ℤ}
use acp_server.Store.{
  Text, empty, Blob, Error, errorf, Result, ok, err, SettlementOutput, OutputStatus, eq_of_ok,
}
use acp_server.Keys.{same_bytes}
use acp_server.Keys.Naming.{same_bytes_refl, same_bytes_eq}
use acp_server.GitTwin.Anchors.{
  AnchorNote, AnchorSignature, NoteCodec, public_key, note_of, alg_ed25519,
}
use acp_server.GitTwin.Anchors.Signed.{IsFaithful}

abbrev pub output : SettlementOutput
output = record {
  output_id = 50;
  covenant_id = 1;
  trigger_log_id = 51;
  trigger_log_hash = 52;
  total_tokens = pos 40;
  owner_share_pct = 30;
  platform_share_pct = 0;
  contributor_pool_pct = 70;
  distributions = [];
  generated_at = 6;
  status = OutputStatus.confirmed;
  confirmed_at = some 7;
}

abbrev pub priv : Blob
priv =
    0 ∷ 0 ∷ 0 ∷ 0 ∷ 0 ∷ 0 ∷ 0 ∷ 0 ∷ 0 ∷ 0 ∷ 0 ∷ 0 ∷ 0 ∷ 0 ∷ 0 ∷ 0 ∷ 0 ∷ 0 ∷ 0 ∷ 0 ∷ 0 ∷ 0 ∷ 0 ∷ 0
    ∷ 0 ∷ 0 ∷ 0 ∷ 0 ∷ 0 ∷ 0 ∷ 0 ∷ 0 ∷ 1 ∷ 2 ∷ 3 ∷ 4 ∷ 5 ∷ 6 ∷ 7 ∷ 8 ∷ 1 ∷ 2 ∷ 3 ∷ 4 ∷ 5 ∷ 6 ∷ 7 ∷ 8
    ∷ 1 ∷ 2 ∷ 3 ∷ 4 ∷ 5 ∷ 6 ∷ 7 ∷ 8 ∷ 1 ∷ 2 ∷ 3 ∷ 4 ∷ 5 ∷ 6 ∷ 7 ∷ 8 ∷ []

abbrev pub plain : AnchorNote
plain = note_of 1 50 empty output

abbrev pub signed : AnchorNote
signed = record plain {
  signature = some (record {
    algorithm = alg_ed25519;
    public_key = public_key priv;
    value = 1 ∷ public_key priv;
  });
}

abbrev same_signature : Option AnchorSignature → Option AnchorSignature → Bool
same_signature none none = true
same_signature none (some t) = false
same_signature (some s) none = false
same_signature (some s) (some t) =
    str_eq s.algorithm t.algorithm
    && (same_bytes s.public_key t.public_key && same_bytes s.value t.value)

unfoldable pub same_note : AnchorNote → AnchorNote → Bool
same_note n m =
    str_eq n.note_type m.note_type
    && (n.covenant_id == m.covenant_id
        && (n.settlement_output_id == m.settlement_output_id
            && (n.settlement_hash == m.settlement_hash
                && (n.snapshot_hash == m.snapshot_hash
                    && (eqb_ℤ n.total_tokens m.total_tokens
                        && (n.generated_at == m.generated_at
                            && same_signature n.signature m.signature))))))

both : (a b : Bool) → (a && b) ≡ true → (a ≡ true) × (b ≡ true)
both true b h = (refl, h)
both false b h = cc

same_ℤ : (a b : ℤ) → eqb_ℤ a b ≡ true → a ≡ b
same_ℤ (pos m) (pos n) h = ground arith
same_ℤ (pos m) (negsuc n) h = ground arith
same_ℤ (negsuc m) (pos n) h = ground arith
same_ℤ (negsuc m) (negsuc n) h = ground arith

same_signature_eq : (a b : Option AnchorSignature) → same_signature a b ≡ true → a ≡ b
same_signature_eq none none h = refl
same_signature_eq none (some t) h = cc
same_signature_eq (some s) none h = cc
same_signature_eq (some s) (some t) h =
    let (e1, rest) = both _ _ h in
    let (e2, e3) = both _ _ rest in
    let p1 : s.algorithm ≡ t.algorithm = (eq_iff s.algorithm t.algorithm).0 e1 in
    let p2 = same_bytes_eq s.public_key t.public_key e2 in
    let p3 = same_bytes_eq s.value t.value e3 in
    λ i. some (record { algorithm = p1 i; public_key = p2 i; value = p3 i })

same_note_eq : (n m : AnchorNote) → same_note n m ≡ true → n ≡ m
unfolding same_note
same_note_eq n m h =
    let (e1, r1) = both (str_eq n.note_type m.note_type) _ h in
    let (e2, r2) = both (n.covenant_id == m.covenant_id) _ r1 in
    let (e3, r3) = both (n.settlement_output_id == m.settlement_output_id) _ r2 in
    let (e4, r4) = both (n.settlement_hash == m.settlement_hash) _ r3 in
    let (e5, r5) = both (n.snapshot_hash == m.snapshot_hash) _ r4 in
    let (e6, r6) = both (eqb_ℤ n.total_tokens m.total_tokens) _ r5 in
    let (e7, e8) = both (n.generated_at == m.generated_at) _ r6 in
    let p1 = (eq_iff n.note_type m.note_type).0 e1 in
    let p2 = (==_iff n.covenant_id m.covenant_id).0 e2 in
    let p3 = (==_iff n.settlement_output_id m.settlement_output_id).0 e3 in
    let p4 = (==_iff n.settlement_hash m.settlement_hash).0 e4 in
    let p5 = (==_iff n.snapshot_hash m.snapshot_hash).0 e5 in
    let p6 = same_ℤ n.total_tokens m.total_tokens e6 in
    let p7 = (==_iff n.generated_at m.generated_at).0 e7 in
    let p8 = same_signature_eq n.signature m.signature e8 in
    λ i. record {
      note_type = p1 i;
      covenant_id = p2 i;
      settlement_output_id = p3 i;
      settlement_hash = p4 i;
      snapshot_hash = p5 i;
      total_tokens = p6 i;
      generated_at = p7 i;
      signature = p8 i;
    }

abbrev pub unknown_note : Error
unknown_note = errorf "unknown note" []

unfoldable pub codec : NoteCodec
codec = record {
  marshal = λ n.
      if same_note n plain then ok 1 else (if same_note n signed then ok 2 else err unknown_note);
  unmarshal = λ t. if t == 1 then ok plain else (if t == 2 then ok signed else err unknown_note);
  encode64 = λ b. b;
  decode64 = λ b. ok b;
  key_from_seed = λ seed. priv;
  sign = λ key t. t ∷ public_key key;
  verify = λ pub_key t sig. same_bytes sig (t ∷ pub_key);
  hash_lines = λ ts. length ts;
  is_utf8 = λ t. true;
  text_lt = λ s t. false;
}

read_note : (n : AnchorNote) (t : Text) → codec.marshal n ≡ ok t → codec.unmarshal t ≡ ok n
unfolding codec
read_note n t h = elim (Bool-cases (same_note n plain)) [
  | inl e ↦
      let here : 1 ≡ t = eq_of_ok (rw e at h) in
      rw (sym here) (ap (λ (m : AnchorNote). ok m) (sym (same_note_eq n plain e)))
  | inr off ↦ elim (Bool-cases (same_note n signed)) [
    | inl e ↦
        let here : 2 ≡ t = eq_of_ok (rw (off, e) at h) in
        rw (sym here) (ap (λ (m : AnchorNote). ok m) (sym (same_note_eq n signed e)))
    | inr other ↦ absurd (unread (rw (off, other) at h))
  ]
]
  where
    unread : ◌≡◌ {A = Result Text} (err unknown_note) (ok t) → ⊥
    unread h = cc

pub codec-IsFaithful : IsFaithful codec
unfolding codec
codec-IsFaithful = record {
  read_back = λ n t kept. read_note n t;
  empty_utf8 = refl;
  digest_utf8 = λ ts. refl;
  decoded = λ b. refl;
  verified = λ key t well_formed. same_bytes_refl (t ∷ public_key key);
}
