-- ===== src/Parser/RoundTrip/Programs.antt =====
-- src/parser.rs: a printed expression as a program.
use tsumugi.Base.{
  ℕ, zero, suc, ◌*◌, ◌≤◌, ◌<◌, ◌≡◌, refl, Bool, true, false, Option, some, [], Result, arith,
}
use tsumugi.Lexer.Token.{Token, Tokens, spanned, nil, cons, line}
use tsumugi.Ast.{Expr, Block, Stmt, expr_stmt}
use tsumugi.Ast.Depth.Height.{height_expr, height_stmt}
use tsumugi.Ast.Depth.Laws.{stmt_depth_exceeds_limit-low}
use tsumugi.Parser.Outcome.{Input, Parser, input, ok}
use tsumugi.Parser.Reader.{
  first, left, same_token, is_at_end, drop_newlines, skip_newlines, with_fuel,
  expect_newline_or_eof, check_stmt_depth,
}
use tsumugi.Parser.Exprs.{postfix_of}
use tsumugi.Parser.Operators.{mul_div_op, add_sub_op, comparison_op, and_op, or_op}
use tsumugi.Parser.Stmts.{parse_expr_stmt, is_assign_stmt, is_index_assign_stmt}
use tsumugi.Parser.Grammar.{
  Grammar, deeper_by, grammar_of, parse_expr, parse_stmt, parse_stmt_inner, stmt_at, parse_stmts,
  with_parse_depth, outcome_of, parse,
}
use tsumugi.Parser.Printer.{is_plain, print_expr}
use tsumugi.Parser.RoundTrip.Steps.{Reads}
use tsumugi.Parser.RoundTrip.Levels.{Stops}
use tsumugi.Parser.RoundTrip.Expressions.{primary-print_expr, parse_expr-print_expr}
use tsumugi.Parser.RoundTrip.Lengths.{length-print_expr}

eof-Stops : (F : Type 0) → Stops {F = F} Token.eof
unfolding postfix_of mul_div_op add_sub_op comparison_op and_op or_op
eof-Stops F = (refl, refl, refl, refl, refl, refl)

module _ {F : Type 0} (l m : ℕ) where
  -- The end of the input, on line `m`.
  abbrev end_tokens : Tokens F
  end_tokens = cons (spanned Token.eof m) nil

  print_expr-line : (e : Expr F) → line (first (print_expr l e end_tokens)) ≡ l
  unfolding print_expr
  print_expr-line (Expr.bool true) = refl
  print_expr-line (Expr.bool false) = refl
  print_expr-line _ = refl

  print_expr_starts :
      (e : Expr F)
      → (drop_newlines (print_expr l e end_tokens) ≡ print_expr l e end_tokens)
        × (is_at_end (input (print_expr l e end_tokens) []) ≡ false)
  unfolding print_expr drop_newlines same_token
  print_expr_starts (Expr.bool true) = (refl, refl)
  print_expr_starts (Expr.bool false) = (refl, refl)
  print_expr_starts _ = (refl, refl)

  stmt_inner_print :
      (d : Option (Grammar F)) (top : Bool) (k : ℕ) (e : Expr F)
      → parse_stmt_inner d top k (input (print_expr l e end_tokens) [])
        ≡ parse_expr_stmt (parse_expr d k) (input (print_expr l e end_tokens) [])
  unfolding print_expr parse_stmt_inner stmt_at is_assign_stmt is_index_assign_stmt same_token
  stmt_inner_print d top k (Expr.bool true) = refl
  stmt_inner_print d top k (Expr.bool false) = refl
  stmt_inner_print d top k _ = refl

  check_stmt_depth-low :
      (s : Stmt F) (i : Input F) → height_stmt s ≤ 256 → check_stmt_depth s i ≡ ok s i
  unfolding check_stmt_depth
  check_stmt_depth-low s i h = rw (stmt_depth_exceeds_limit-low s h, check_stmt_depth) refl

  parse_expr_stmt-print_expr :
      (n : ℕ) (e : Expr F)
      → is_plain e ≡ true
      → 2 * height_expr e ≤ n
      → n ≤ 254
      → Reads []
          (parse_expr_stmt (parse_expr (deeper_by (suc n)) 0))
          (print_expr l e end_tokens)
          (expr_stmt e l)
          end_tokens
  unfolding parse_expr_stmt expect_newline_or_eof same_token
  parse_expr_stmt-print_expr n e p h b =
      let q =
        parse_expr-print_expr [] 0 l n e end_tokens (primary-print_expr [] 0 l n e end_tokens p h b)
          (eof-Stops F) (omega (arith, h, b)) in
      rw (q, print_expr-line e) refl

  parse_stmt-print_expr :
      (n : ℕ) (e : Expr F)
      → is_plain e ≡ true
      → 2 * height_expr e ≤ n
      → n ≤ 254
      → Reads []
          (parse_stmt (deeper_by (suc (suc n))) true 0)
          (print_expr l e end_tokens)
          (expr_stmt e l)
          end_tokens
  unfolding parse_stmt with_parse_depth deeper_by grammar_of height_stmt
  parse_stmt-print_expr n e p h b =
      rw (stmt_inner_print (deeper_by (suc n)) true 0 e, parse_expr_stmt-print_expr n e p h b)
        (check_stmt_depth-low (expr_stmt e l) (input end_tokens []) (omega (arith, h, b)))

  parse_stmts_end :
      (statement : Parser F (Stmt F)) (n : ℕ)
      → 0 < n
      → Reads [] (parse_stmts statement n) end_tokens Block.nil end_tokens
  unfolding parse_stmts same_token
  parse_stmts_end statement zero h = absurd (omega (arith, h))
  parse_stmts_end statement (suc n) h = refl

  parse_stmts_one :
      (statement : Parser F (Stmt F)) (n : ℕ) (ts : Tokens F) (s : Stmt F)
      → is_at_end (input ts []) ≡ false
      → Reads [] statement ts s end_tokens
      → 0 < n
      → Reads [] (parse_stmts statement (suc n)) ts (Block.cons s Block.nil) end_tokens
  unfolding parse_stmts skip_newlines drop_newlines same_token
  parse_stmts_one statement n ts s q p h =
      rw (q, p, parse_stmts_end statement n h, parse_stmts) refl

-- An expression without anonymous functions and f-strings, of a height of at most 127, written on
-- one line with parentheses round each operation, call and subscript, is parsed as the program of
-- that one expression statement, on that line, whatever the line of the end of the input.
pub parse-print_expr :
    {F : Type 0} (l m : ℕ) (e : Expr F)
    → is_plain e ≡ true
    → height_expr e ≤ 127
    → parse (print_expr l e (cons (spanned Token.eof m) nil))
      ≡ some (Result.ok (Block.cons (expr_stmt e l) Block.nil))
unfolding parse skip_newlines with_fuel outcome_of left
parse-print_expr {F} l m e p h =
    let (a, b) = print_expr_starts l m e in
    let ts = print_expr l e (end_tokens l m) in
    let c =
      parse_stmts_one l m (parse_stmt (deeper_by 256) true 0) (left ts) ts (expr_stmt e l) b
        (parse_stmt-print_expr l m 254 e p (omega (arith, h)) (omega arith))
        (omega (arith, length-print_expr l e (end_tokens {F = F} l m))) in
    rw (a, c) refl
