-- ===== src/Store/Formula.antt =====
-- The syntax of a token formula as go/ast gives it, as far as internal/tokens/rules.go tells its
-- nodes apart, and the rules that name such formulas.
use acp_server.Base.{String, Bool, Option}
use acp_server.Store.Types.{Text, Float}

pub data UnaryOp : Type 0 where
  minus plus other : UnaryOp

pub data BinaryOp : Type 0 where
  add sub mul quo other : BinaryOp

-- A number literal carries what strconv.ParseFloat makes of it; a call whose function is no
-- identifier has no name.
mutual
  pub data Expr : Type 0 where
    number : Option Float → Expr
    other_literal : Expr
    ident : String → Expr
    paren : Expr → Expr
    unary : UnaryOp → Expr → Expr
    binary : BinaryOp → Expr → Expr → Expr
    call : Option String → Exprs → Expr
    other_node : Expr

  pub data Exprs : Type 0 where
    no_args : Exprs
    arg : Expr → Exprs → Exprs

pub record TokenRule : Type 0 where
  pub tool_name : String
  pub formula : Text
  pub base_rate : Float
  pub pending : Bool
