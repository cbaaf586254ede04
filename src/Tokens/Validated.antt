-- ===== src/Tokens/Validated.antt =====
-- What the dry run of a formula in internal/tokens/rules.go promises for its later evaluations.
use acp_server.Base.{
  String, ◌≡◌, refl, Bool, true, false, none, some, ◌==◌, ◌⊎◌, inl, inr, Option-cases, Bool-cases,
  str_eq, if◌then◌else◌,
}
use acp_server.Base.Int.{ℤ, pos}
use acp_server.Store.{
  Text, empty, Float, Floats, Host, Expr, number, other_literal, ident, paren, unary, binary, call,
  other_node, no_args, arg, UnaryOp, BinaryOp, TokenRule, Result, ok, err, wrap,
}
use acp_server.Tokens.Rules.{
  RuleVars, ◌>>=◌, eval_expr, eval_ident, eval_unary, eval_binary, eval_function, division_by_zero,
}
use acp_server.Tokens.Parse.{evaluate, validate_formula, wrap_result, zero_vars}

-- A value, or a division by zero.
abbrev pub ValueOrDivision : Result Float → Type 0
ValueOrDivision r = ((v : Float) × (r ≡ ok v)) ⊎ (r ≡ err division_by_zero)

bind-eq-ok :
    {V W : Type 0} {w : W} (r : Result V) (next : V → Result W)
    → (r >>= next) ≡ ok w
    → (v : V) × (r ≡ ok v) × (next v ≡ ok w)
bind-eq-ok (ok v) next h = (v, refl, h)
bind-eq-ok (err e) next h = cc

-- One name of the tables below: a value under one environment is a value under the other.
name_total :
    (b : Bool) (x y w : Float) (r r' : Result Float)
    → (r ≡ ok w → ValueOrDivision r')
    → (if b then ok x else r) ≡ ok w
    → ValueOrDivision (if b then ok y else r')
name_total true x y w r r' others h = inl (y, refl)
name_total false x y w r r' others h = others h

module _ (floats : Floats) where
  unary_total :
      (op : UnaryOp) (v w u : Float)
      → eval_unary floats op v ≡ ok w
      → ValueOrDivision (eval_unary floats op u)
  unary_total UnaryOp.minus v w u h = inl (floats.negate u, refl)
  unary_total UnaryOp.plus v w u h = inl (u, refl)
  unary_total UnaryOp.other v w u h = cc

  binary_total :
      (op : BinaryOp) (a b v x y : Float)
      → eval_binary floats op a b ≡ ok v
      → ValueOrDivision (eval_binary floats op x y)
  binary_total BinaryOp.add a b v x y h = inl (floats.add x y, refl)
  binary_total BinaryOp.sub a b v x y h = inl (floats.sub x y, refl)
  binary_total BinaryOp.mul a b v x y h = inl (floats.mul x y, refl)
  binary_total BinaryOp.quo a b v x y h = elim (Bool-cases (floats.eq y (floats.of_int (pos 0)))) [
    | inl zero_divisor ↦ inr (rw zero_divisor)
    | inr nonzero ↦ inl (floats.div x y, rw nonzero)
  ]
  binary_total BinaryOp.other a b v x y h = cc

  function_total :
      (name : String) (v w u : Float)
      → eval_function floats name v ≡ ok w
      → ValueOrDivision (eval_function floats name u)
  function_total name v w u h =
      name_total (str_eq name "floor") (floats.floor v) (floats.floor u) w _ _
        (name_total (str_eq name "ceil") (floats.ceil v) (floats.ceil u) w _ _
          (name_total (str_eq name "round") (floats.round v) (floats.round u) w _ _ (λ e. cc)))
        h

  ident_total :
      (name : String) (vars vars' : RuleVars) (base base' w : Float)
      → eval_ident floats name vars base ≡ ok w
      → ValueOrDivision (eval_ident floats name vars' base')
  ident_total name vars vars' base base' w h =
      name_total (str_eq name "word_count") (floats.of_int vars.word_count)
        (floats.of_int vars'.word_count) w _ _
        (name_total (str_eq name "acceptance_ratio") vars.acceptance_ratio vars'.acceptance_ratio w
          _ _
          (name_total (str_eq name "tier_multiplier") vars.tier_multiplier vars'.tier_multiplier w _
            _
            (name_total (str_eq name "call_count") (floats.of_int vars.call_count)
              (floats.of_int vars'.call_count) w _ _
              (name_total (str_eq name "base_rate") base base' w _ _ (λ e. cc)))))
        h

  bind_total :
      (m : Result Float) (f : Float → Result Float)
      → ValueOrDivision m
      → ((v : Float) → ValueOrDivision (f v))
      → ValueOrDivision (m >>= f)
  bind_total m f (inl (v, e)) h = rw e (h v)
  bind_total m f (inr e) h = rw e (inr refl)

  -- An expression with a value in one environment has a value, or divides by zero, in every other.
  eval_expr_total :
      (e : Expr) (vars vars' : RuleVars) (base base' w : Float)
      → eval_expr floats e vars base ≡ ok w
      → ValueOrDivision (eval_expr floats e vars' base')
  unfolding eval_expr
  eval_expr_total (number none) vars vars' base base' w h = cc
  eval_expr_total (number (some v)) vars vars' base base' w h = inl (v, refl)
  eval_expr_total other_literal vars vars' base base' w h = cc
  eval_expr_total (ident name) vars vars' base base' w h =
      ident_total name vars vars' base base' w h
  eval_expr_total (paren e) vars vars' base base' w h = eval_expr_total e vars vars' base base' w h
  eval_expr_total (unary op e) vars vars' base base' w h =
      let (v, first, second) = bind-eq-ok (eval_expr floats e vars base) (eval_unary floats op) h in
      bind_total (eval_expr floats e vars' base') (eval_unary floats op)
        (eval_expr_total e vars vars' base base' v first) (λ u. unary_total op v w u second)
  eval_expr_total (binary op a b) vars vars' base base' w h =
      let (v, left, rest) =
        bind-eq-ok (eval_expr floats a vars base)
          (λ lhs. eval_expr floats b vars base >>= eval_binary floats op lhs) h in
      let (u, right, done) =
        bind-eq-ok (eval_expr floats b vars base) (eval_binary floats op v) rest in
      bind_total (eval_expr floats a vars' base')
        (λ lhs. eval_expr floats b vars' base' >>= eval_binary floats op lhs)
        (eval_expr_total a vars vars' base base' v left)
        (λ x.
          bind_total (eval_expr floats b vars' base') (eval_binary floats op x)
            (eval_expr_total b vars vars' base base' u right) (λ y. binary_total op v u w x y done))
  eval_expr_total (call none args) vars vars' base base' w h = cc
  eval_expr_total (call (some name) no_args) vars vars' base base' w h = cc
  eval_expr_total (call (some name) (arg e no_args)) vars vars' base base' w h =
      let (v, first, second) =
        bind-eq-ok (eval_expr floats e vars base) (eval_function floats name) h in
      bind_total (eval_expr floats e vars' base') (eval_function floats name)
        (eval_expr_total e vars vars' base base' v first) (λ u. function_total name v w u second)
  eval_expr_total (call (some name) (arg e (arg f rest))) vars vars' base base' w h = cc
  eval_expr_total other_node vars vars' base base' w h = cc

-- A formula that the dry run accepts is a text that parses to an expression with a value.
validate_formula-ok :
    (host : Host) (formula : Text) (w : Float)
    → validate_formula host formula ≡ ok w
    → ((formula == empty) ≡ false)
      × (e : Expr) × (host.parse_expr formula ≡ some e)
      × (eval_expr host.floats e (zero_vars host) (host.floats.of_int (pos 0)) ≡ ok w)
unfolding validate_formula
validate_formula-ok host formula w h = elim (Bool-cases (formula == empty)) [
  | inl blank ↦ absurd (cc (rw blank at h))
  | inr filled ↦ elim (Option-cases (host.parse_expr formula)) [
    | inl unparsed ↦ absurd (cc (rw (filled, unparsed) at h))
    | inr (e, parsed) ↦ (filled, e, parsed, rw (filled, parsed) at h)
  ]
]

evaluate-parsed :
    (host : Host) (r : TokenRule) (vars : RuleVars) (e : Expr)
    → (r.formula == empty) ≡ false
    → host.parse_expr r.formula ≡ some e
    → evaluate host r vars ≡ (
        wrap_result "token rule %q: %w" (eval_expr host.floats e vars r.base_rate) >>= λ v.
        ok (host.floats.to_int (host.floats.round v)))
unfolding evaluate
evaluate-parsed host r vars e filled parsed = rw (filled, parsed)

-- The evaluation of a rule whose formula the dry run accepts, in any environment, gives a number or
-- fails by a division by zero: no unknown name or unsupported form is left.
pub validated_evaluates :
    (host : Host) (r : TokenRule) (vars : RuleVars) (w : Float)
    → validate_formula host r.formula ≡ ok w
    → ((n : ℤ) × (evaluate host r vars ≡ ok n))
      ⊎ (evaluate host r vars ≡ err (wrap "token rule %q: %w" division_by_zero))
validated_evaluates host r vars w h =
    let (filled, e, parsed, dry) = validate_formula-ok host r.formula w h in
    rw (evaluate-parsed host r vars e filled parsed)
      (elim (eval_expr_total host.floats e (zero_vars host) vars (host.floats.of_int (pos 0))
        r.base_rate w dry) [
          | inl (v, value) ↦ inl (host.floats.to_int (host.floats.round v), rw value)
          | inr division ↦ inr (rw division)
        ])
