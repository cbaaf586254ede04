-- ===== src/Reencrypt/Targets.antt =====
-- DefaultTargets of internal/reencrypt/reencrypt.go: an UPDATE by primary key, as the SELECT sees it.
use acp_server.Base.{◌≡◌, refl, some, List, [], ◌∷◌, ◌==◌, map, Bool-cases, inl, inr}
use acp_server.Base.Sql.{update_where}
use acp_server.Store.{Text, Blob, Identity, AccessRequest}
use acp_server.Reencrypt.{identity_row, request_row, identity_target, request_target}
use acp_server.Reencrypt.Rewrite.{set_enc, IsTarget}

identities :
    (pk : Text) (blob : Blob) (rs : List Identity)
    → map identity_row
        (update_where (λ r. r.platform_id == pk) (λ r. record r { platform_id_enc = some blob }) rs)
      ≡ map (set_enc pk blob) (map identity_row rs)
unfolding update_where
identities pk blob [] = refl
identities pk blob (r ∷ rs) = elim (Bool-cases (r.platform_id == pk)) [
  | inl same ↦ rw (same, identities pk blob rs) refl
  | inr other ↦ rw (other, identities pk blob rs) refl
]

pub identity-IsTarget : IsTarget identity_target
identity-IsTarget pk blob db = identities pk blob db.platform_identities

requests :
    (pk : Text) (blob : Blob) (rs : List AccessRequest)
    → map request_row
        (update_where (λ r. r.request_id == pk) (λ r. record r { platform_id_enc = some blob }) rs)
      ≡ map (set_enc pk blob) (map request_row rs)
unfolding update_where
requests pk blob [] = refl
requests pk blob (r ∷ rs) = elim (Bool-cases (r.request_id == pk)) [
  | inl same ↦ rw (same, requests pk blob rs) refl
  | inr other ↦ rw (other, requests pk blob rs) refl
]

pub request-IsTarget : IsTarget request_target
request-IsTarget pk blob db = requests pk blob db.agent_access_requests
