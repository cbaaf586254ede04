-- ===== src/Execution/Preview.antt =====
-- What internal/execution/policy.go lets into the log.
use acp_server.Base.{
  String, ◌≡◌, ◌≤◌, refl, sym, true, false, Option, none, some, eq_of_some, List, [], ◌∷◌,
  Bool-cases, inl, inr, ltb, arith,
}
use acp_server.Base.Sql.{select}
use acp_server.Store.{Value, Preview, Params, Host}
use acp_server.Execution.{ParamsPolicy}
use acp_server.Execution.Policy.{
  is_listed, is_shown, preview_value, preview_fields_of, apply_params_policy,
}

abbrev pub key_of {ℓ} : {A : Type ℓ} → String × A → String
key_of (key, v) = key

-- The value that a preview shows in full.
abbrev pub in_full : Preview → Option Value
in_full (Preview.kept v) = some v
in_full (Preview.printed v) = some v
in_full p = none

-- What the preview of a parameter may show: of a sensitive one only its length, and in full only one
-- that is not sensitive, and of those to be truncated only one of 8 runes at most.
abbrev pub IsHidden : Host → ParamsPolicy → String × Value → String × Preview → Type 0
IsHidden host policy (key, v) (shown_key, p) =
    (shown_key ≡ key)
    × (is_shown policy key ≡ true)
    × (is_listed key policy.sensitive_fields ≡ true → p ≡ Preview.masked (host.rune_length v))
    × ((w : Value)
        → in_full p ≡ some w
        → (w ≡ v)
          × (is_listed key policy.sensitive_fields ≡ false)
          × (is_listed key policy.hash_preview_fields ≡ true → host.rune_length v ≤ 8))

-- Two lists of one length whose members are related in order.
abbrev pub All2 {ℓ} : {A : Type ℓ} {B : Type ℓ} → (A → B → Type 0) → List A → List B → Type 0
All2 R [] [] = Unit
All2 R [] (y ∷ ys) = ⊥
All2 R (x ∷ xs) [] = ⊥
All2 R (x ∷ xs) (y ∷ ys) = R x y × All2 R xs ys

value-IsHidden :
    (host : Host) (policy : ParamsPolicy) (key : String) (v : Value)
    → is_shown policy key ≡ true
    → IsHidden host policy (key, v) (key, preview_value host policy key v)
value-IsHidden host policy key v shown = elim (Bool-cases (is_listed key policy.sensitive_fields)) [
  | inl sensitive ↦ rw sensitive (refl, shown, λ h. refl, λ w h. absurd cc)
  | inr open_key ↦ elim (Bool-cases (is_listed key policy.hash_preview_fields)) [
    | inr plain ↦
        rw (open_key, plain)
          (refl, shown, λ h. absurd cc, λ w h. (eq_of_some (sym h), refl, λ h. absurd cc))
    | inl hashed ↦ elim (Bool-cases (ltb 8 (host.rune_length v))) [
      | inl long ↦ rw (open_key, hashed, long) (refl, shown, λ h. absurd cc, λ w h. absurd cc)
      | inr short ↦
          rw (open_key, hashed, short)
            (
              refl,
              shown,
              λ h. absurd cc,
              λ w h. (eq_of_some (sym h), refl, λ h. ground (arith, short)),
            )
    ]
  ]
]

fields-IsHidden :
    (host : Host) (policy : ParamsPolicy) (params : Params)
    → All2
        (IsHidden host policy)
        (select (λ x. is_shown policy (key_of x)) params)
        (preview_fields_of host policy params)
unfolding preview_fields_of select
fields-IsHidden host policy [] = tt
fields-IsHidden host policy ((key, v) ∷ params) =
    let hidden = fields-IsHidden host policy params in
    elim (Bool-cases (is_shown policy key)) [
      | inl shown ↦ rw shown (value-IsHidden host policy key v shown, hidden)
      | inr dropped ↦ rw dropped hidden
    ]

-- A preview that is not only a hash has one entry, in order, for each parameter of the whitelist and
-- for no other: a sensitive one is shown only by the length of its value, and one in full only when
-- it is not sensitive and, if it is to be truncated, has 8 runes at most. One that is only a hash
-- shows nothing else.
pub preview_hides :
    (host : Host) (policy : ParamsPolicy) (params : Params)
    → (policy.store_hash_only ≡ false
        → All2
            (IsHidden host policy)
            (select (λ x. is_shown policy (key_of x)) params)
            (apply_params_policy host params policy))
      × (policy.store_hash_only ≡ true
          → apply_params_policy host params policy
            ≡ ("params_hash", Preview.params_hash (host.hash_params params)) ∷ [])
unfolding apply_params_policy preview_fields_of
preview_hides host policy params = (λ h. rw h (fields-IsHidden host policy params), λ h. rw h refl)
