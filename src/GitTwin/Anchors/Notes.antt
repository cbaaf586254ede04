-- ===== src/GitTwin/Anchors/Notes.antt =====
-- The notes of internal/gittwin/anchors.go and their signatures, internal/gittwin/signing.go. JSON,
-- base64, SHA-256, ed25519 and the order of strings are the parameter `NoteCodec`.
use acp_server.Base.{
  String, Bool, false, not, Option, none, some, List, [], ◌∷◌, ◌==◌, str_eq, if◌then◌else◌, length,
}
use acp_server.Base.Int.{ℤ, pos}
use acp_server.Store.{
  Text, Time, Blob, Value, wrap, errorf, SettlementOutput, Result, ok, err, map_error,
}
use acp_server.Keys.{same_bytes}
use acp_server.Sealing.{drop, take}

-- AnchorSignature and AnchorNoteV1
pub record AnchorSignature : Type 0 where
  pub algorithm : String
  pub public_key : Blob
  pub value : Blob

pub record AnchorNote : Type 0 where
  pub note_type : String
  pub covenant_id : Text
  pub settlement_output_id : Text
  pub settlement_hash : Text
  pub snapshot_hash : Text
  pub total_tokens : ℤ
  pub generated_at : Time
  pub signature : Option AnchorSignature

pub record NoteCodec : Type 0 where
  pub marshal : AnchorNote → Result Text
  pub unmarshal : Text → Result AnchorNote
  pub encode64 : Blob → Blob
  pub decode64 : Blob → Result Blob
  -- a private key of 64 bytes: the seed, and the public key behind it
  pub key_from_seed : Blob → Blob
  pub sign : Blob → Text → Blob
  pub verify : Blob → Text → Blob → Bool
  -- SHA-256 in hex of the texts, each with a newline, and the order of sort.Strings
  pub hash_lines : List Text → Text
  -- whether a text is valid UTF-8, as JSON needs it to keep the text
  pub is_utf8 : Text → Bool
  pub text_lt : Text → Text → Bool

-- ed25519Signer, by its private key
abbrev pub Signer : Type 0
Signer = Blob

abbrev pub alg_ed25519 : String
alg_ed25519 = "ed25519"

abbrev pub public_key : Signer → Blob
public_key priv = drop 32 priv

abbrev pub unsigned : AnchorNote → AnchorNote
unsigned note = record note { signature = none }

abbrev pub wrapped {ℓ} : {A : Type ℓ} → String → Result A → Result A
wrapped format r = map_error (wrap format) r

-- bytesEqual
unfoldable pub bytes_equal : Blob → Blob → Bool
bytes_equal a b = if length a == length b then same_bytes a b else false

abbrev pub bind_result {ℓ κ} : {A : Type ℓ} {B : Type κ} → Result A → (A → Result B) → Result B
bind_result (err e) step = err e
bind_result (ok a) step = step a

abbrev pub note_of : Text → Text → Text → SettlementOutput → AnchorNote
note_of covenant_id output_id rollup out = record {
  note_type = "acp.anchor.settlement.v1";
  covenant_id = covenant_id;
  settlement_output_id = output_id;
  settlement_hash = out.trigger_log_hash;
  snapshot_hash = rollup;
  total_tokens = out.total_tokens;
  generated_at = out.generated_at;
  signature = none;
}

module _ (codec : NoteCodec) where
  -- canonicalUnsignedAnchor
  unfoldable pub canonical_unsigned_anchor : AnchorNote → Result Text
  canonical_unsigned_anchor note = codec.marshal (unsigned note)

  abbrev pub check_halves : Blob → Result Signer
  check_halves decoded =
      if not (length decoded == 64)
      then err (
          errorf "parse %s: want %d bytes (seed32+pub32), got %d"
            (Value.int (pos (length decoded)) ∷ []))
      else (if bytes_equal (drop 32 (codec.key_from_seed (take 32 decoded))) (drop 32 decoded)
          then ok decoded
          else err (errorf "ed25519 key seed and pubkey halves do not match" []))

  -- ParseSigningKey
  unfoldable pub parse_signing_key : Blob → Result Signer
  parse_signing_key b64 =
      bind_result (wrapped "parse %s: base64: %w" (codec.decode64 b64)) check_halves

  abbrev pub signature_by : Signer → Text → AnchorSignature
  signature_by priv canonical = record {
    algorithm = alg_ed25519;
    public_key = codec.encode64 (public_key priv);
    value = codec.encode64 (codec.sign priv canonical);
  }

  abbrev pub sign_with : AnchorNote → Signer → Text → Result AnchorNote
  sign_with note priv canonical =
      ok (record note { signature = some (signature_by priv canonical) })

  -- The note of EnqueueAnchor with its signature, if there is a signer.
  unfoldable pub sign_note : Option Signer → AnchorNote → Result AnchorNote
  sign_note none note = ok note
  sign_note (some priv) note =
      bind_result (wrapped "canonicalize anchor note: %w" (canonical_unsigned_anchor note))
        (sign_with note priv)

  abbrev pub verify_bytes : AnchorNote → Blob → Blob → Result Bool
  verify_bytes note pub_key sig =
      bind_result (canonical_unsigned_anchor note)
        (λ canonical. ok (codec.verify pub_key canonical sig))

  abbrev pub verify_key : AnchorNote → AnchorSignature → Blob → Result Bool
  verify_key note s pub_key =
      if not (length pub_key == 32)
      then err (errorf "pubkey size: want %d got %d" (Value.int (pos (length pub_key)) ∷ []))
      else bind_result (wrapped "decode signature: %w" (codec.decode64 s.value))
          (verify_bytes note pub_key)

  abbrev pub verify_signed : AnchorNote → Option AnchorSignature → Result Bool
  verify_signed note none = err (errorf "note is unsigned" [])
  verify_signed note (some s) =
      if not (str_eq s.algorithm alg_ed25519)
      then err (errorf "unsupported algorithm %q" (Value.name s.algorithm ∷ []))
      else bind_result (wrapped "decode pubkey: %w" (codec.decode64 s.public_key))
          (verify_key note s)

  -- VerifyAnchorSignature
  unfoldable pub verify_anchor_signature : Text → Result Bool
  verify_anchor_signature note_json =
      bind_result (wrapped "parse anchor note: %w" (codec.unmarshal note_json))
        (λ note. verify_signed note note.signature)
