-- ===== src/Execution/Policy.antt =====
-- internal/execution/policy.go: which parameters of a call the log shows, and how.
use acp_server.Base.{String, Bool, true, false, ◌||◌, List, [], ◌∷◌, str_eq, ltb, if◌then◌else◌}
use acp_server.Base.Sql.{exists}
use acp_server.Store.{Value, Preview, Params, PreviewMap, Host}
use acp_server.Execution.{ParamsPolicy}

abbrev pub default_params_policy : ParamsPolicy
default_params_policy = record {
  store_hash_only = false;
  preview_fields = [];
  sensitive_fields = "content" ∷ "text" ∷ "draft" ∷ "password" ∷ [];
  hash_preview_fields = "content_hash" ∷ [];
}

abbrev pub is_listed : String → List String → Bool
is_listed key keys = exists (λ k. str_eq k key) keys

abbrev pub is_empty : List String → Bool
is_empty [] = true
is_empty (k ∷ ks) = false

-- An empty whitelist lets every key through.
abbrev pub is_shown : ParamsPolicy → String → Bool
is_shown policy key = is_empty policy.preview_fields || is_listed key policy.preview_fields

-- truncateHash: the first 8 runes of the text, or all of a text that is no longer.
abbrev pub truncate_hash : Host → Value → Preview
truncate_hash host v = if ltb 8 (host.rune_length v) then Preview.truncated v else Preview.printed v

abbrev pub preview_value : Host → ParamsPolicy → String → Value → Preview
preview_value host policy key v =
    if is_listed key policy.sensitive_fields
    then Preview.masked (host.rune_length v)
    else if is_listed key policy.hash_preview_fields
    then truncate_hash host v
    else Preview.kept v

unfoldable pub preview_fields_of : Host → ParamsPolicy → Params → PreviewMap
preview_fields_of host policy [] = []
preview_fields_of host policy ((key, v) ∷ params) =
    let rest = preview_fields_of host policy params in
    if is_shown policy key then (key, preview_value host policy key v) ∷ rest else rest

unfoldable pub apply_params_policy : Host → Params → ParamsPolicy → PreviewMap
apply_params_policy host params policy =
    if policy.store_hash_only
    then ("params_hash", Preview.params_hash (host.hash_params params)) ∷ []
    else preview_fields_of host policy params
