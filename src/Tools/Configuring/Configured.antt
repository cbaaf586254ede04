-- ===== src/Tools/Configuring/Configured.antt =====
-- The rules that tools/configure_token_rules.go lets through, as the formulas of
-- internal/tokens/rules.go evaluate them later.
use acp_server.Base.{
  ℕ, String, ◌≡◌, refl, ap, ◌∙◌, sym, subst, false, ◌⊎◌, inl, inr, Option, none, some, List, [],
  ◌∷◌, str_eq, eq_iff, Bool-cases, eq_of_some, if◌then◌else◌,
}
use acp_server.Base.Int.{ℤ}
use acp_server.Store.{Float, TokenRule, Host, Params, Value, wrap, Result, ok, err, eq_of_ok}
use acp_server.Tokens.Rules.{RuleVars, division_by_zero}
use acp_server.Tokens.Parse.{parse_rules, validate_formula, rule_for, evaluate}
use acp_server.Tokens.Validated.{validated_evaluates}
use acp_server.Tools.{param}
use acp_server.Tools.Configuring.{
  Rules, is_seen, first_error, validate_all, validated, check_parsed, check_marshalled,
  execute_rules,
}

-- An error of a rule, or of a later one, is one of all.
first_error-ok :
    (name : String) (r : Result Float) (rest : Result (Unit {0}))
    → first_error name r rest ≡ ok tt
    → ((w : Float) × (r ≡ ok w)) × (rest ≡ ok tt)
first_error-ok name (ok w) rest h = ((w, refl), h)
first_error-ok name (err e) rest h = cc

validate_all-found :
    (host : Host) (name : String) (r : TokenRule) (seen : List String)
    (rules : List (String × TokenRule))
    → validate_all host seen rules ≡ ok tt
    → is_seen name seen ≡ false
    → rule_for name rules ≡ some r
    → (w : Float) × (validate_formula host r.formula ≡ ok w)
unfolding validate_all is_seen rule_for
validate_all-found host name r seen [] fine new found = cc
validate_all-found host name r seen ((n, q) ∷ rest) fine new found =
    elim (Bool-cases (str_eq n name)) [
      | inl same ↦
          let e : n ≡ name = (eq_iff n name).0 same in
          let fresh : is_seen n seen ≡ false = subst (λ m. is_seen m seen ≡ false) (sym e) new in
          let this : q ≡ r = eq_of_some (rw same at found) in
          let passed =
            first_error-ok n (validate_formula host q.formula) (validate_all host (n ∷ seen) rest)
              (rw fresh at fine) in
          subst (λ (t : TokenRule). (w : Float) × (validate_formula host t.formula ≡ ok w)) this
            passed.0
      | inr other ↦
          validate_all-found host name r (n ∷ seen) rest (others fine) (rw other new)
            (rw other at found)
    ]
  where
    others :
        (if is_seen n seen
            then validate_all host (n ∷ seen) rest
            else first_error n
                (validate_formula host q.formula)
                (validate_all host (n ∷ seen) rest))
          ≡ ok tt
        → validate_all host (n ∷ seen) rest ≡ ok tt
    others h = elim (Bool-cases (is_seen n seen)) [
      | inl old ↦ rw old at h
      | inr fresh ↦
          (first_error-ok n (validate_formula host q.formula) (validate_all host (n ∷ seen) rest)
            (rw fresh at h)).1
    ]

validated_raw :
    (v : Result (Unit {0})) (raw : List ℕ) (x : Rules)
    → validated v raw ≡ ok x
    → (v ≡ ok tt) × (raw ≡ x.rules_json)
validated_raw (ok u) raw x h = (refl, ap (λ (y : Rules). y.rules_json) (eq_of_ok h))
validated_raw (err e) raw x h = cc

checked_rules :
    (host : Host) (raw : List ℕ) (p : Result (List (String × TokenRule))) (x : Rules)
    → check_parsed host raw p ≡ ok x
    → (rules : List (String × TokenRule)) × (p ≡ ok rules)
      × (validate_all host [] rules ≡ ok tt)
      × (raw ≡ x.rules_json)
checked_rules host raw (ok rules) x h =
    let (fine, same) = validated_raw (validate_all host [] rules) raw x h in
    (rules, refl, fine, same)
checked_rules host raw (err e) x h = cc

marshalled_rules :
    (host : Host) (m : Option (List ℕ)) (x : Rules)
    → check_marshalled host m ≡ ok x
    → (rules : List (String × TokenRule)) × (parse_rules host x.rules_json ≡ ok rules)
      × (validate_all host [] rules ≡ ok tt)
marshalled_rules host none x h = cc
marshalled_rules host (some raw) x h =
    let (rules, parsed, fine, same) = checked_rules host raw (parse_rules host raw) x h in
    (rules, ap (parse_rules host) (sym same) ∙ parsed, fine)

-- The rules that a call of configure_token_rules lets through can be read back, and each rule that
-- they give for a tool evaluates to a number at any variables, or fails by a division by zero.
pub configured_rules_evaluate :
    (host : Host) (marshal : Option Value → Option (List ℕ)) (params : Params) (x : Rules)
    → execute_rules host marshal params ≡ ok x
    → (rules : List (String × TokenRule)) × (parse_rules host x.rules_json ≡ ok rules)
      × ((name : String) (r : TokenRule) (vars : RuleVars)
          → rule_for name rules ≡ some r
          → ((n : ℤ) × (evaluate host r vars ≡ ok n))
            ⊎ (evaluate host r vars ≡ err (wrap "token rule %q: %w" division_by_zero)))
unfolding execute_rules is_seen
configured_rules_evaluate host marshal params x h =
    let (rules, parsed, fine) = marshalled_rules host (marshal (param "rules" params)) x h in
    (
      rules,
      parsed,
      λ name r vars found.
          let (w, dry) = validate_all-found host name r [] rules fine refl found in
          validated_evaluates host r vars w dry,
    )
