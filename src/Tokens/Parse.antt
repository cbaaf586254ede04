-- ===== src/Tokens/Parse.antt =====
-- internal/tokens/rules.go: reading the rules of a covenant, validating a formula, and evaluating it.
use acp_server.Base.{
  ℕ, String, Bool, false, ◌||◌, Option, none, some, List, [], ◌∷◌, ◌==◌, str_eq, if◌then◌else◌,
}
use acp_server.Base.Int.{ℤ, pos}
use acp_server.Store.{Text, empty, Float, Host, TokenRule, errorf, wrap, Result, ok, err}
use acp_server.Tokens.Rules.{RuleVars, ◌>>=◌, eval_expr}

abbrev is_space : ℕ → Bool
is_space c = c == b' ' || (c == 9 || (c == 10 || c == 13))

unfoldable pub skip_spaces : List ℕ → List ℕ
skip_spaces [] = []
skip_spaces (c ∷ cs) = if is_space c then skip_spaces cs else c ∷ cs

abbrev pub is_array : List ℕ → Bool
is_array [] = false
is_array (c ∷ cs) = c == b'['

-- The map from a tool's name to its rule: a later rule of the same name replaces an earlier one.
unfoldable pub index_rules :
    List (String × TokenRule) → List TokenRule → Result (List (String × TokenRule))
index_rules out [] = ok out
index_rules out (r ∷ rs) =
    let rest = index_rules ((r.tool_name, r) ∷ out) rs in
    if str_eq r.tool_name "" then err (errorf "token_rules[%d]: tool_name is required" []) else rest

unfoldable pub parse_rules : Host → List ℕ → Result (List (String × TokenRule))
unfolding skip_spaces index_rules
parse_rules host raw =
    if is_array (skip_spaces raw)
    then (elim (host.unmarshal_rules raw) [
      | none ↦ err (errorf "token_rules_json: %w" [])
      | some rules ↦ index_rules [] rules
    ])
    else ok []

-- The entry of a Go map, with the newest entry of a name in front.
unfoldable pub rule_for : String → List (String × TokenRule) → Option TokenRule
rule_for name [] = none
rule_for name ((n, r) ∷ rs) = if str_eq n name then some r else rule_for name rs

unfoldable pub eval_formula : Host → Text → Float → RuleVars → Result Float
eval_formula host formula base_rate vars =
    if formula == empty
    then err (errorf "formula is empty" [])
    else elim (host.parse_expr formula) [
      | none ↦ err (errorf "parse: %w" [])
      | some e ↦ eval_expr host.floats e vars base_rate
    ]

abbrev pub wrap_result {ℓ} : {A : Type ℓ} → String → Result A → Result A
wrap_result format (ok a) = ok a
wrap_result format (err e) = err (wrap format e)

unfoldable pub evaluate : Host → TokenRule → RuleVars → Result ℤ
unfolding eval_formula
evaluate host r vars = do
  v ← wrap_result "token rule %q: %w" (eval_formula host r.formula r.base_rate vars)
  ok (host.floats.to_int (host.floats.round v))

abbrev pub zero_vars : Host → RuleVars
zero_vars host = record {
  word_count = pos 0;
  acceptance_ratio = host.floats.of_int (pos 0);
  tier_multiplier = host.floats.of_int (pos 0);
  call_count = pos 0;
}

-- The value that the dry run finds is dropped: only an error counts.
unfoldable pub validate_formula : Host → Text → Result Float
validate_formula host formula =
    if formula == empty
    then err (errorf "formula is required" [])
    else elim (host.parse_expr formula) [
      | none ↦ err (errorf "parse formula: %w" [])
      | some e ↦ eval_expr host.floats e (zero_vars host) (host.floats.of_int (pos 0))
    ]
