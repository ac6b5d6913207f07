-- ===== src/Parser/Operators.antt =====
-- src/parser.rs: the levels of binary operators, and the prefix operators.
use tsumugi.Base.{ℕ, zero, suc, Option, none, some}
use tsumugi.Lexer.Token.{Token}
use tsumugi.Ast.{Expr, BinOpKind, UnaryOpKind}
use tsumugi.Parser.Outcome.{Parser, ok, out_of_fuel, run, ◌>>=◌, ◌>>◌}
use tsumugi.Parser.Reader.{peek_token, advance_spanned, here, with_fuel, check_expr_depth}

module _ {F : Type 0} where
  unfoldable pub or_op : Token F → Option BinOpKind
  or_op Token.or = some BinOpKind.or
  or_op _ = none

  unfoldable pub and_op : Token F → Option BinOpKind
  and_op Token.and = some BinOpKind.and
  and_op _ = none

  unfoldable pub comparison_op : Token F → Option BinOpKind
  comparison_op Token.eq = some BinOpKind.eq
  comparison_op Token.not_eq = some BinOpKind.not_eq
  comparison_op Token.lt = some BinOpKind.lt
  comparison_op Token.gt = some BinOpKind.gt
  comparison_op Token.lt_eq = some BinOpKind.lt_eq
  comparison_op Token.gt_eq = some BinOpKind.gt_eq
  comparison_op _ = none

  unfoldable pub add_sub_op : Token F → Option BinOpKind
  add_sub_op Token.plus = some BinOpKind.add
  add_sub_op Token.minus = some BinOpKind.sub
  add_sub_op _ = none

  unfoldable pub mul_div_op : Token F → Option BinOpKind
  mul_div_op Token.star = some BinOpKind.mul
  mul_div_op Token.slash = some BinOpKind.div
  mul_div_op Token.percent = some BinOpKind.rem
  mul_div_op _ = none

  -- The loop of a binary level: its operators, to the left.
  unfoldable pub more_operands :
      Parser F (Expr F) → (Token F → Option BinOpKind) → ℕ → Expr F → Parser F (Expr F)
  unfolding advance_spanned check_expr_depth
  more_operands operand op_of zero left i = out_of_fuel
  more_operands operand op_of (suc n) left i = elim (op_of (peek_token i)) [
    | none ↦ ok left i
    | some op ↦ run i do
      advance_spanned
      right ← operand
      l ← here
      e ← check_expr_depth (Expr.bin_op left op right) l
      more_operands operand op_of n e
  ]

  unfoldable pub parse_binary : (Token F → Option BinOpKind) → Parser F (Expr F) → Parser F (Expr F)
  unfolding more_operands with_fuel
  parse_binary op_of operand = do
    left ← operand
    with_fuel (λ n. more_operands operand op_of n left)

  unfoldable pub parse_mul_div : Parser F (Expr F) → Parser F (Expr F)
  unfolding parse_binary
  parse_mul_div = parse_binary mul_div_op

  unfoldable pub parse_add_sub : Parser F (Expr F) → Parser F (Expr F)
  unfolding parse_binary parse_mul_div
  parse_add_sub unary = parse_binary add_sub_op (parse_mul_div unary)

  unfoldable pub parse_comparison : Parser F (Expr F) → Parser F (Expr F)
  unfolding parse_binary parse_add_sub
  parse_comparison unary = parse_binary comparison_op (parse_add_sub unary)

  unfoldable pub parse_and : Parser F (Expr F) → Parser F (Expr F)
  unfolding parse_binary parse_comparison
  parse_and unary = parse_binary and_op (parse_comparison unary)

  unfoldable pub parse_or : Parser F (Expr F) → Parser F (Expr F)
  unfolding parse_binary parse_and
  parse_or unary = parse_binary or_op (parse_and unary)

  unfoldable pub unary_op_of : Token F → Option UnaryOpKind
  unary_op_of Token.not_word = some UnaryOpKind.not
  unary_op_of Token.minus = some UnaryOpKind.neg
  unary_op_of _ = none

  unfoldable pub parse_unary : Parser F (Expr F) → Parser F (Expr F) → Parser F (Expr F)
  unfolding advance_spanned check_expr_depth unary_op_of
  parse_unary deeper call i = elim (unary_op_of (peek_token i)) [
    | none ↦ call i
    | some op ↦
        run i do l ← here; advance_spanned; e ← deeper; check_expr_depth (Expr.unary_op op e) l
  ]
