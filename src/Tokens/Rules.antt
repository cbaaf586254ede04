-- ===== src/Tokens/Rules.antt =====
-- internal/tokens/rules.go: the token formulas of a covenant.
use acp_server.Base.{String, Option, none, some, [], ◌∷◌, str_eq, if◌then◌else◌}
use acp_server.Base.Int.{ℤ, pos}
use acp_server.Store.{
  Float, Floats, Expr, number, other_literal, ident, paren, unary, binary, call, other_node,
  no_args, arg, UnaryOp, BinaryOp, Value, Error, errorf, Result, ok, err,
}

pub record RuleVars : Type 0 where
  pub word_count : ℤ
  pub acceptance_ratio : Float
  pub tier_multiplier : Float
  pub call_count : ℤ

infixl 5 ◌>>=◌
abbrev pub ◌>>=◌ : {V W : Type 0} → Result V → (V → Result W) → Result W
err reason >>= next = err reason
ok value >>= next = next value

abbrev pub division_by_zero : Error
division_by_zero = errorf "division by zero" []

module _ (floats : Floats) where
  abbrev pub eval_ident : String → RuleVars → Float → Result Float
  eval_ident name vars base_rate =
      if str_eq name "word_count"
      then ok (floats.of_int vars.word_count)
      else if str_eq name "acceptance_ratio"
      then ok vars.acceptance_ratio
      else if str_eq name "tier_multiplier"
      then ok vars.tier_multiplier
      else if str_eq name "call_count"
      then ok (floats.of_int vars.call_count)
      else if str_eq name "base_rate"
      then ok base_rate
      else err (errorf "unknown identifier %q" (Value.name name ∷ []))

  abbrev pub eval_unary : UnaryOp → Float → Result Float
  eval_unary UnaryOp.minus v = ok (floats.negate v)
  eval_unary UnaryOp.plus v = ok v
  eval_unary UnaryOp.other v = err (errorf "unsupported unary operator %s" [])

  abbrev pub eval_binary : BinaryOp → Float → Float → Result Float
  eval_binary BinaryOp.add a b = ok (floats.add a b)
  eval_binary BinaryOp.sub a b = ok (floats.sub a b)
  eval_binary BinaryOp.mul a b = ok (floats.mul a b)
  eval_binary BinaryOp.quo a b =
      if floats.eq b (floats.of_int (pos 0)) then err division_by_zero else ok (floats.div a b)
  eval_binary BinaryOp.other a b = err (errorf "unsupported binary operator %s" [])

  abbrev pub eval_function : String → Float → Result Float
  eval_function name v =
      if str_eq name "floor"
      then ok (floats.floor v)
      else if str_eq name "ceil"
      then ok (floats.ceil v)
      else if str_eq name "round"
      then ok (floats.round v)
      else err (errorf "unsupported function %q" (Value.name name ∷ []))

  abbrev pub eval_literal : Option Float → Result Float
  eval_literal none = err (errorf "strconv.ParseFloat: invalid syntax" [])
  eval_literal (some v) = ok v

  unfoldable pub eval_expr : Expr → RuleVars → Float → Result Float
  eval_expr (number v) vars base_rate = eval_literal v
  eval_expr other_literal vars base_rate = err (errorf "unsupported literal %s" [])
  eval_expr (ident name) vars base_rate = eval_ident name vars base_rate
  eval_expr (paren e) vars base_rate = eval_expr e vars base_rate
  eval_expr (unary op e) vars base_rate = eval_expr e vars base_rate >>= eval_unary op
  eval_expr (binary op a b) vars base_rate =
      eval_expr a vars base_rate >>= λ lhs. eval_expr b vars base_rate >>= eval_binary op lhs
  eval_expr (call none args) vars base_rate = err (errorf "unsupported function expression" [])
  eval_expr (call (some name) (arg e no_args)) vars base_rate =
      eval_expr e vars base_rate >>= eval_function name
  eval_expr (call (some name) args) vars base_rate =
      err (errorf "function %s requires exactly 1 argument" (Value.name name ∷ []))
  eval_expr other_node vars base_rate = err (errorf "unsupported expression type %T" [])
