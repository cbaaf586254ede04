-- ===== src/GitTwin/PlatformId.antt =====
-- internal/gittwin/platform_id.go: the shape of a platform id, `<provider>:<identifier>`.
use acp_server.Base.{
  ℕ, Bool, false, ◌||◌, Option, none, some, List, [], ◌∷◌, ◌++◌, ◌==◌, if◌then◌else◌,
}
use acp_server.Store.{Blob, Value, Error, Result, ok, err}
use acp_server.Sealing.{codes, is_nil}
use acp_server.Keys.{same_bytes}

abbrev pub colon : ℕ
colon = b':'

abbrev pub put_before : ℕ → Option (Blob × Blob) → Option (Blob × Blob)
put_before c none = none
put_before c (some (front, back)) = some (c ∷ front, back)

-- strings.IndexByte of a colon, as the parts before and behind it.
unfoldable pub cut_at_colon : Blob → Option (Blob × Blob)
cut_at_colon [] = none
cut_at_colon (c ∷ cs) = if c == colon then some ([], cs) else put_before c (cut_at_colon cs)

-- A cut at a colon with something on both sides of it: 0 < idx and idx < len - 1.
abbrev pub both_sides : Option (Blob × Blob) → Option (Blob × Blob)
both_sides none = none
both_sides (some ([], back)) = none
both_sides (some (c ∷ front, [])) = none
both_sides (some (c ∷ front, d ∷ back)) = some (c ∷ front, d ∷ back)

abbrev pub valid_provider_prefixes : List Blob
valid_provider_prefixes = codes "github" ∷ codes "gitlab" ∷ codes "gitea" ∷ codes "email" ∷ []

unfoldable pub is_one_of : Blob → List Blob → Bool
is_one_of provider [] = false
is_one_of provider (p ∷ ps) = same_bytes provider p || is_one_of provider ps

abbrev pub check_host : Blob → Option (Blob × Blob) → Result (Unit {0})
check_host pid none = err (
    Error.errorf "platform_id %q: gitea form is \"gitea:<host>:<username>\"" (Value.bytes pid ∷ []))
check_host pid (some parts) = ok tt

abbrev pub check_parts : Blob → Option (Blob × Blob) → Result (Unit {0})
check_parts pid none = err (
    Error.errorf "platform_id %q: missing \"<provider>:<identifier>\" separator"
      (Value.bytes pid ∷ []))
check_parts pid (some (provider, identifier)) =
    if same_bytes provider (codes "gitea")
    then check_host pid (both_sides (cut_at_colon identifier))
    else (if is_one_of provider valid_provider_prefixes
        then ok tt
        else err (
            Error.errorf "platform_id %q: unknown provider %q (allowed: %s)"
              (Value.bytes pid ∷ Value.bytes provider ∷ [])))

-- ValidatePlatformID
unfoldable pub validate_platform_id : Blob → Result (Unit {0})
validate_platform_id pid =
    if is_nil pid
    then err (Error.errorf "platform_id: empty" [])
    else check_parts pid (both_sides (cut_at_colon pid))

-- PlatformIDFromGitHubLogin
unfoldable pub platform_id_from_github_login : Blob → Blob
platform_id_from_github_login login = codes "github:" ++ login
