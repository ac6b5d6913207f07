-- ===== src/Parser/Placed/Statements/Forms.antt =====
-- src/parser.rs: the forms of statements.
use tsumugi.Base.{ℕ, ◌≡◌, refl, Bool, true, false, Text, arith}
use tsumugi.Lexer.Token.{Token, token, line}
use tsumugi.Ast.{
  Expr, Block, Stmt, let_stmt, assign, index_assign, return_stmt, if_stmt, while_stmt, for_stmt,
  fn_def, import_stmt, try_catch, expr_stmt, break_stmt, continue_stmt,
}
use tsumugi.Parser.Outcome.{ParseMessage, Parser, pure, ◌>>◌}
use tsumugi.Parser.Reader.{current_line, next_is, expect_newline_or_eof, fail}
use tsumugi.Parser.Stmts.{
  parse_let, parse_assign, parse_index_assign, parse_return, parse_else, if_from, parse_if,
  parse_while, parse_for, parse_break, parse_continue, parse_import, parse_try_catch, parse_fn_def,
  parse_expr_stmt,
}
use tsumugi.Parser.Blocks.{at_end, at_catch, at_else}
use tsumugi.Parser.Ensures.{
  Keeps, Eats, Bites, Ensures-if, expect-Keeps, expect_newline_or_eof-Keeps, take_name-Keeps,
  advance-Keeps,
}
use tsumugi.Parser.Within.{
  Within, Keeps-Within, Eats-Within, Within-bind, Within-here, Within-pure, Within-fail,
  Within-Bites, Within-Keeps, Eats-bind, Keeps-bind,
}
use tsumugi.Parser.Placed.{placed_stmt, placed_block}
use tsumugi.Parser.Placed.Expressions.Operators.{IsPlacedExpr}
use tsumugi.Parser.Placed.Expressions.Sequences.{parse_params-Keeps}
use tsumugi.Parser.Placed.Expressions.Primary.{IsPlacedBlock}
use tsumugi.Parser.Placed.Statements.Blocks.{IsPlacedStmt, open_block-Keeps, close_block-Keeps}

module _ {F : Type 0} (top : Bool) (k : Bool) where
  abbrev Placed : Stmt F → Type 0
  Placed = IsPlacedStmt top k

  pub parse_break-Bites : Bites Placed parse_break
  unfolding parse_break placed_stmt
  parse_break-Bites s ts es =
      Within-Bites
        (λ n.
          Within-bind (Keeps-Within expect_newline_or_eof-Keeps)
            λ x y. Within-pure (break_stmt (line s)) refl)
        s ts es

  pub parse_continue-Bites : Bites Placed parse_continue
  unfolding parse_continue placed_stmt
  parse_continue-Bites s ts es =
      Within-Bites
        (λ n.
          Within-bind (Keeps-Within expect_newline_or_eof-Keeps)
            λ x y. Within-pure (continue_stmt (line s)) refl)
        s ts es

  module _ {expression : Parser F (Expr F)} (eats : Eats IsPlacedExpr expression) where
    pub parse_let-Bites : Bites Placed (parse_let expression)
    unfolding parse_let placed_stmt
    parse_let-Bites s ts es =
        Within-Bites
          (λ n. Within-bind (Keeps-Within (take_name-Keeps ParseMessage.no_let_name)) λ name y.
            Within-bind (Keeps-Within (expect-Keeps Token.assign)) λ x y.
              Within-bind (Eats-Within eats) λ e p.
                Within-bind (Keeps-Within expect_newline_or_eof-Keeps)
                  λ x y. Within-pure (let_stmt name e (line s)) p)
          s ts es

    pub parse_assign-Bites : (name : Text) → Bites Placed (parse_assign name expression)
    unfolding parse_assign placed_stmt
    parse_assign-Bites name s ts es =
        Within-Bites
          (λ n. Within-bind (Keeps-Within advance-Keeps) λ x y.
            Within-bind (Eats-Within eats) λ e p.
              Within-bind (Keeps-Within expect_newline_or_eof-Keeps)
                λ x y. Within-pure (assign name e (line s)) p)
          s ts es

    pub parse_index_assign-Bites : (name : Text) → Bites Placed (parse_index_assign name expression)
    unfolding parse_index_assign placed_stmt
    parse_index_assign-Bites name s ts es =
        Within-Bites
          (λ n. Within-bind (Keeps-Within (expect-Keeps Token.l_bracket)) λ x y.
            Within-bind (Eats-Within eats) λ i pi.
              Within-bind (Keeps-Within (expect-Keeps Token.r_bracket)) λ x y.
                Within-bind (Keeps-Within (expect-Keeps Token.assign)) λ x y.
                  Within-bind (Eats-Within eats) λ e p.
                    Within-bind (Keeps-Within expect_newline_or_eof-Keeps)
                      λ x y. Within-pure (index_assign name i e (line s)) (ground (arith, pi, p)))
          s ts es

    -- In a function.
    pub parse_return-Bites : k ≡ true → Bites Placed (parse_return expression)
    unfolding parse_return placed_stmt
    parse_return-Bites inside s ts es =
        Within-Bites
          (λ n. Within-bind (Eats-Within eats) λ e p.
            Within-bind (Keeps-Within expect_newline_or_eof-Keeps)
              λ x y. Within-pure (return_stmt e (line s)) (ground (arith, inside, p)))
          s ts es

    pub parse_expr_stmt-Eats : Eats Placed (parse_expr_stmt expression)
    unfolding parse_expr_stmt placed_stmt
    parse_expr_stmt-Eats i =
        Eats-bind eats
          (λ e p. Within-Keeps λ n.
            Within-bind (Keeps-Within expect_newline_or_eof-Keeps)
              λ x y. Within-pure (expr_stmt e (current_line i)) p)
          i

    module _ {body : (Token F → Bool) → Parser F (Block F)}
        (keeps : (t : Token F → Bool) → Keeps (IsPlacedBlock k) (body t)) where
      pub parse_while-Bites : Bites Placed (parse_while expression body)
      unfolding parse_while placed_stmt
      parse_while-Bites s ts es =
          Within-Bites
            (λ n. Within-bind (Eats-Within eats) λ e p.
              Within-bind (Keeps-Within open_block-Keeps) λ x y.
                Within-bind (Keeps-Within (keeps at_end)) λ b pb.
                  Within-bind (Keeps-Within close_block-Keeps)
                    λ x y. Within-pure (while_stmt e b (line s)) (ground (arith, p, pb)))
            s ts es

      pub parse_for-Bites : Bites Placed (parse_for expression body)
      unfolding parse_for placed_stmt
      parse_for-Bites s ts es =
          Within-Bites
            (λ n. Within-bind (Keeps-Within (take_name-Keeps ParseMessage.no_for_var)) λ name y.
              Within-bind (Keeps-Within (expect-Keeps Token.in_word)) λ x y.
                Within-bind (Eats-Within eats) λ e p.
                  Within-bind (Keeps-Within open_block-Keeps) λ x y.
                    Within-bind (Keeps-Within (keeps at_end)) λ b pb.
                      Within-bind (Keeps-Within close_block-Keeps)
                        λ x y. Within-pure (for_stmt name e b (line s)) (ground (arith, p, pb)))
            s ts es

      module _ {elif_stmt : Parser F (Stmt F)}
          (elif_keeps : Keeps (IsPlacedStmt false k) elif_stmt) where
        parse_else-Keeps : Keeps (IsPlacedBlock k) (parse_else body elif_stmt)
        unfolding parse_else placed_block
        parse_else-Keeps i m u h =
            Ensures-if (next_is Token.elif i)
              (λ q.
                Keeps-bind elif_keeps
                  (λ s p.
                    Within-Keeps λ n. Within-pure (Block.cons s Block.nil) (ground (arith, p)))
                  i m u h)
              λ q.
                Ensures-if (next_is Token.else_word i)
                  (λ r.
                    Within-Keeps
                      (λ n. Within-bind (Keeps-Within advance-Keeps) λ x y.
                        Within-bind (Keeps-Within open_block-Keeps) λ x y.
                          Within-bind (Keeps-Within (keeps at_end)) λ b pb.
                            Within-bind (Keeps-Within close_block-Keeps) λ x y. Within-pure b pb)
                      i m u h)
                  (λ r.
                    Keeps-bind close_block-Keeps
                      (λ x y. Within-Keeps λ n. Within-pure Block.nil refl) i m u h)

        if_from-Within : (l n : ℕ) → Within n Placed (if_from expression body elif_stmt l)
        unfolding if_from placed_stmt
        if_from-Within l n = Within-bind (Eats-Within eats) λ e p.
            Within-bind (Keeps-Within open_block-Keeps) λ x y.
              Within-bind (Keeps-Within (keeps at_else)) λ t pt.
                Within-bind (Keeps-Within parse_else-Keeps)
                  λ b pb. Within-pure (if_stmt e t b l) (ground (arith, p, pt, pb))

        pub parse_if-Bites : Bites Placed (parse_if expression body elif_stmt)
        unfolding parse_if
        parse_if-Bites s ts es = Within-Bites (if_from-Within (line s)) s ts es

        pub parse_if-Keeps : Keeps Placed (parse_if expression body elif_stmt)
        unfolding parse_if
        parse_if-Keeps = Within-Keeps λ n.
            Within-bind Within-here
              λ l z. Within-bind (Keeps-Within advance-Keeps) λ x y. if_from-Within l n

  pub parse_try_catch-Bites :
      {body : (Token F → Bool) → Parser F (Block F)}
      → ((t : Token F → Bool) → Keeps (IsPlacedBlock k) (body t))
      → Bites Placed (parse_try_catch body)
  unfolding parse_try_catch placed_stmt
  parse_try_catch-Bites keeps s ts es =
      Within-Bites
        (λ n. Within-bind (Keeps-Within open_block-Keeps) λ x y.
          Within-bind (Keeps-Within (keeps at_catch)) λ t pt.
            Within-bind (Keeps-Within (expect-Keeps Token.catch)) λ x y.
              Within-bind (Keeps-Within (take_name-Keeps ParseMessage.no_catch_var)) λ name y.
                Within-bind (Keeps-Within open_block-Keeps) λ x y.
                  Within-bind (Keeps-Within (keeps at_end)) λ c pc.
                    Within-bind (Keeps-Within close_block-Keeps)
                      λ x y. Within-pure (try_catch t name c (line s)) (ground (arith, pt, pc)))
        s ts es

  pub parse_fn_def-Bites :
      {body : Parser F (Block F)}
      → Keeps (IsPlacedBlock true) body
      → Bites Placed (parse_fn_def body)
  unfolding parse_fn_def placed_stmt
  parse_fn_def-Bites keeps s ts es =
      Within-Bites
        (λ n. Within-bind (Keeps-Within (take_name-Keeps ParseMessage.no_fn_name)) λ name y.
          Within-bind (Keeps-Within (expect-Keeps Token.l_paren)) λ x y.
            Within-bind (Keeps-Within parse_params-Keeps) λ params y.
              Within-bind (Keeps-Within (expect-Keeps Token.r_paren)) λ x y.
                Within-bind (Keeps-Within open_block-Keeps) λ x y.
                  Within-bind (Keeps-Within keeps) λ b pb.
                    Within-bind (Keeps-Within close_block-Keeps)
                      λ x y. Within-pure (fn_def name params b (line s)) pb)
        s ts es

-- At the top level.
pub parse_import-Bites : {F : Type 0} (k : Bool) → Bites {F = F} (IsPlacedStmt true k) parse_import
unfolding parse_import placed_stmt
parse_import-Bites {F} k s ts es =
    Within-Bites
      (λ n. Within-bind (Keeps-Within advance-Keeps) λ a y. by_token (token a) (line s) n) s ts es
  where
    by_token :
        (t : Token F) (l n : ℕ)
        → Within {F = F} n (IsPlacedStmt {F = F} true k) (elim t [
          | Token.str path ↦ (do expect_newline_or_eof; pure (import_stmt path l))
          | _ ↦ fail l ParseMessage.no_import_path
        ])
    by_token (Token.str path) l n =
        Within-bind (Keeps-Within expect_newline_or_eof-Keeps)
          λ x y. Within-pure (import_stmt path l) refl
    by_token _ l n = Within-fail l ParseMessage.no_import_path
