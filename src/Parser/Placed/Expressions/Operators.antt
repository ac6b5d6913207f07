-- ===== src/Parser/Placed/Expressions/Operators.antt =====
-- src/parser.rs: the binary levels and the prefix operators.
use tsumugi.Base.{ℕ, zero, suc, ◌≡◌, refl, true, Option, none, arith, inl, inr, Option-cases}
use tsumugi.Lexer.Token.{Token, nil, cons, token}
use tsumugi.Ast.{Expr, BinOpKind, bin_op, unary_op}
use tsumugi.Parser.Outcome.{Parser, input}
use tsumugi.Parser.Reader.{left, advance_spanned}
use tsumugi.Parser.Operators.{
  more_operands, parse_binary, parse_or, parse_and, parse_comparison, parse_add_sub, parse_mul_div,
  parse_unary, unary_op_of, or_op, and_op, comparison_op, add_sub_op, mul_div_op,
}
use tsumugi.Parser.Ensures.{holds, Eats, Eats-Keeps}
use tsumugi.Parser.Within.{
  Within, Eats-Within, Keeps-Within, Within-bind, Within-here, Within-turn, with_fuel-Keeps,
  Eats-bind, Keeps-bind, Keeps-Bites, check_expr_depth-Keeps,
}
use tsumugi.Parser.Placed.{placed_expr}

module _ {F : Type 0} where
  abbrev pub IsPlacedExpr : Expr F → Type 0
  IsPlacedExpr e = placed_expr e ≡ true

  module _ (op_of : Token F → Option BinOpKind) (operand : Parser F (Expr F))
      (eats : Eats IsPlacedExpr operand) (no_op : op_of Token.eof ≡ none) where
    more_operands-Within :
        (n : ℕ) (e : Expr F)
        → IsPlacedExpr e
        → Within n IsPlacedExpr (more_operands operand op_of n e)
    unfolding more_operands left placed_expr advance_spanned
    more_operands-Within zero e p i m u h b = absurd (omega (arith, h, b))
    more_operands-Within (suc n) e p (input nil es) m u h b =
        rw (no_op, more_operands) (holds (input nil es) p h)
    more_operands-Within (suc n) e p (input (cons s ts) es) m u h b =
        elim (Option-cases (op_of (token s))) [
          | inl q ↦ rw (q, more_operands) (holds (input (cons s ts) es) p h)
          | inr (op, q) ↦
              rw (q, more_operands)
                (Within-turn
                  (Within-bind (Eats-Within eats) λ r pr. Within-bind Within-here λ l x.
                    Within-bind
                      (Keeps-Within (
                        check_expr_depth-Keeps IsPlacedExpr (bin_op e op r) l
                          (ground (arith, p, pr))))
                      λ e' p'. more_operands-Within n e' p')
                  ts es m u h b)
        ]

    parse_binary-Eats : Eats IsPlacedExpr (parse_binary op_of operand)
    unfolding parse_binary
    parse_binary-Eats = Eats-bind eats λ e p. with_fuel-Keeps λ n. more_operands-Within n e p

  module _ {operand : Parser F (Expr F)} (eats : Eats IsPlacedExpr operand) where
    parse_add_sub-Eats : Eats IsPlacedExpr (parse_add_sub operand)
    unfolding parse_add_sub parse_mul_div add_sub_op mul_div_op
    parse_add_sub-Eats =
        parse_binary-Eats add_sub_op _ (parse_binary-Eats mul_div_op operand eats refl) refl

    pub parse_or-Eats : Eats IsPlacedExpr (parse_or operand)
    unfolding parse_or parse_and parse_comparison or_op and_op comparison_op
    parse_or-Eats =
        parse_binary-Eats or_op _
          (parse_binary-Eats and_op _ (parse_binary-Eats comparison_op _ parse_add_sub-Eats refl)
            refl)
          refl

  pub parse_unary-Eats :
      {deeper call : Parser F (Expr F)}
      → Eats IsPlacedExpr deeper
      → Eats IsPlacedExpr call
      → Eats IsPlacedExpr (parse_unary deeper call)
  unfolding parse_unary unary_op_of placed_expr left
  parse_unary-Eats d c (input nil es) = c (input nil es)
  parse_unary-Eats {deeper} d c (input (cons s ts) es) =
      elim (Option-cases (unary_op_of (token s))) [
        | inl q ↦ rw (q, parse_unary) (c (input (cons s ts) es))
        | inr (op, q) ↦
            rw (q, parse_unary)
              (Keeps-Bites
                (Keeps-bind (Eats-Keeps d)
                  λ e p. check_expr_depth-Keeps IsPlacedExpr (unary_op op e) _ p)
                s ts es (cons s ts))
      ]
