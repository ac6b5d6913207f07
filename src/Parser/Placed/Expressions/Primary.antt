-- ===== src/Parser/Placed/Expressions/Primary.antt =====
-- src/parser.rs: literals, and the expressions that a token of their own begins.
use tsumugi.Base.{ℕ, suc, ◌≡◌, refl, Bool, true, List, codes, if◌then◌else◌, arith, inl, inr}
use tsumugi.Lexer.Token.{Token, Tokens, Spanned, nil, cons, line, token}
use tsumugi.Ast.{
  Expr, Block, Stmt, no_exprs, no_pairs, with_expr, with_pair, lambda, list, dict, fstr, call,
  ident,
}
use tsumugi.Parser.Outcome.{ParseError, Input, Parser, input, ok}
use tsumugi.Parser.Reader.{left, advance_spanned, next_is, peek_spanned}
use tsumugi.Parser.Exprs.{
  parse_list_literal, parse_dict_literal, parse_anonymous_fn, parse_fstr, primary_at, parse_primary,
}
use tsumugi.Parser.Ensures.{
  Ensures, rejected, holds, Any, Keeps, Eats, Bites, expect-Keeps, advance-Keeps, Ensures-if,
}
use tsumugi.Parser.Within.{
  Keeps-Within, Eats-Within, Within-pure, Within-bind, Within-here, Within-test, Within-Bites,
  Keeps-Bites, Keeps-bind, check_expr_depth-Keeps,
}
use tsumugi.Parser.Placed.{placed_expr, placed_exprs, placed_pairs, placed_block, placed_stmt}
use tsumugi.Parser.Placed.Expressions.Operators.{IsPlacedExpr}
use tsumugi.Parser.Placed.Expressions.Sequences.{
  parse_args-Keeps, more_items-Keeps, more_pairs-Keeps, parse_params-Keeps, parse_parts-Keeps,
}

module _ {F : Type 0} where
  abbrev pub IsPlacedBlock : Bool → Block F → Type 0
  IsPlacedBlock k b = placed_block k b ≡ true

  -- The `return` before the expression of a short body.
  skip_return-Keeps : Keeps Any (λ (j : Input F).
      if next_is Token.return_word j then advance_spanned j else ok (peek_spanned j) j)
  skip_return-Keeps i m u h =
      Ensures-if (next_is Token.return_word i) (λ q. advance-Keeps i m u h) λ q. holds i tt h

  module _ {expression : Parser F (Expr F)} (eats : Eats IsPlacedExpr expression) where
    parse_list_literal-Bites : Bites IsPlacedExpr (parse_list_literal expression)
    unfolding parse_list_literal placed_expr placed_exprs
    parse_list_literal-Bites = Within-Bites λ n.
        Within-test (next_is Token.r_bracket)
          (Within-bind (Keeps-Within advance-Keeps) λ x y. Within-pure (list no_exprs) refl)
          (Within-bind (Eats-Within eats) λ e p.
            Within-bind (Keeps-Within (more_items-Keeps eats)) λ es ps.
              Within-bind (Keeps-Within (expect-Keeps Token.r_bracket)) λ x y.
                Within-bind Within-here λ l z. Keeps-Within (
                  check_expr_depth-Keeps IsPlacedExpr (list (with_expr e es)) l
                    (ground (arith, p, ps))))

    parse_dict_literal-Bites : Bites IsPlacedExpr (parse_dict_literal expression)
    unfolding parse_dict_literal placed_expr placed_pairs
    parse_dict_literal-Bites = Within-Bites λ n.
        Within-test (next_is Token.r_brace)
          (Within-bind (Keeps-Within advance-Keeps) λ x y. Within-pure (dict no_pairs) refl)
          (Within-bind (Eats-Within eats) λ k pk.
            Within-bind (Keeps-Within (expect-Keeps Token.colon)) λ x y.
              Within-bind (Eats-Within eats) λ v pv.
                Within-bind (Keeps-Within (more_pairs-Keeps eats)) λ es ps.
                  Within-bind (Keeps-Within (expect-Keeps Token.r_brace)) λ x y.
                    Within-bind Within-here λ l z. Keeps-Within (
                      check_expr_depth-Keeps IsPlacedExpr (dict (with_pair k v es)) l
                        (ground (arith, pk, pv, ps))))

    parse_anonymous_fn-Bites :
        {body : Parser F (Block F)}
        → Keeps (IsPlacedBlock true) body
        → Bites IsPlacedExpr (parse_anonymous_fn expression body)
    unfolding parse_anonymous_fn placed_expr
    parse_anonymous_fn-Bites keeps s ts es =
        Within-Bites
          (λ n. Within-bind (Keeps-Within (expect-Keeps Token.l_paren)) λ x y.
            Within-bind (Keeps-Within parse_params-Keeps) λ params z.
              Within-bind (Keeps-Within (expect-Keeps Token.r_paren)) λ x y.
                Within-test (next_is Token.newline)
                  (Within-bind (Keeps-Within advance-Keeps) λ x y.
                    Within-bind (Keeps-Within keeps) λ b p.
                      Within-bind (Keeps-Within (expect-Keeps Token.end)) λ x y.
                        Keeps-Within
                          (check_expr_depth-Keeps IsPlacedExpr (lambda params b) (line s) p))
                  (Within-bind Within-here λ l z.
                    Within-bind (Keeps-Within skip_return-Keeps) λ x y.
                      Within-bind (Eats-Within eats) λ e p.
                        Within-bind (Keeps-Within (expect-Keeps Token.end)) λ x y. Keeps-Within (
                          check_expr_depth-Keeps IsPlacedExpr
                            (lambda params (Block.cons (Stmt.return_stmt e l) Block.nil)) (line s)
                            (returns e l p))))
          s ts es
      where
        returns :
            (e : Expr F) (l : ℕ)
            → IsPlacedExpr e
            → placed_block true (Block.cons (Stmt.return_stmt e l) Block.nil) ≡ true
        returns e l p = unfold placed_block in unfold placed_stmt in ground (arith, p)

    module _ {sub : Parser F (Expr F)} (eats_sub : Eats IsPlacedExpr sub)
        {body : Parser F (Block F)} (keeps : Keeps (IsPlacedBlock true) body) where
      primary_at-Ensures :
          (t : Token F) (l : ℕ) (s : Spanned F) (ts : Tokens F) (es : List (ParseError F))
          → Ensures IsPlacedExpr
              (suc (left ts))
              (suc (left ts))
              (cons s ts)
              (primary_at expression sub body t l (input (cons s ts) es))
      unfolding primary_at placed_expr placed_exprs parse_fstr advance_spanned
      primary_at-Ensures (Token.int k) l s ts es = holds (input ts es) refl (omega arith)
      primary_at-Ensures (Token.float x) l s ts es = holds (input ts es) refl (omega arith)
      primary_at-Ensures (Token.str x) l s ts es = holds (input ts es) refl (omega arith)
      primary_at-Ensures (Token.fstr ps) l s ts es =
          Keeps-Bites
            (Keeps-bind (parse_parts-Keeps eats_sub l ps)
              λ es p. check_expr_depth-Keeps IsPlacedExpr (fstr es) l p)
            s ts es _
      primary_at-Ensures Token.true_word l s ts es = holds (input ts es) refl (omega arith)
      primary_at-Ensures Token.false_word l s ts es = holds (input ts es) refl (omega arith)
      primary_at-Ensures Token.null l s ts es = holds (input ts es) refl (omega arith)
      primary_at-Ensures (Token.ident x) l s ts es = holds (input ts es) refl (omega arith)
      primary_at-Ensures Token.print l s ts es =
          Within-Bites
            (λ n. Within-bind (Keeps-Within (expect-Keeps Token.l_paren)) λ x y.
              Within-bind (Keeps-Within (parse_args-Keeps eats)) λ args ps.
                Within-bind (Keeps-Within (expect-Keeps Token.r_paren)) λ x y. Keeps-Within (
                  check_expr_depth-Keeps IsPlacedExpr (call (ident (codes "print")) args) l
                    (ground (arith, ps))))
            s ts es _
      primary_at-Ensures Token.l_paren l s ts es =
          Within-Bites
            (λ n.
              Within-bind (Eats-Within eats) λ e p.
                Within-bind (Keeps-Within (expect-Keeps Token.r_paren)) λ x y. Within-pure e p)
            s ts es _
      primary_at-Ensures Token.l_bracket l s ts es = parse_list_literal-Bites s ts es _
      primary_at-Ensures Token.l_brace l s ts es = parse_dict_literal-Bites s ts es _
      primary_at-Ensures Token.fn l s ts es = parse_anonymous_fn-Bites keeps s ts es _
      primary_at-Ensures (Token.error m) l s ts es = rejected (input ts es) (inl (omega arith))
      primary_at-Ensures (Token.unknown c) l s ts es = rejected (input ts es) (inl (omega arith))
      primary_at-Ensures _ l s ts es = rejected (input (cons s ts) es) (inr refl)

      pub parse_primary-Eats : Eats IsPlacedExpr (parse_primary expression sub body)
      unfolding parse_primary primary_at left
      parse_primary-Eats (input nil es) = rejected (input nil es) (inr refl)
      parse_primary-Eats (input (cons s ts) es) = primary_at-Ensures (token s) (line s) s ts es
