-- ===== src/Parser/Grammar.antt =====
-- src/parser.rs: the methods that recurse, tied together. What is left of the allowed depth is the
-- argument that the recursion goes down on: the depth of the parser is 256 less that.
use tsumugi.Base.{
  ℕ, zero, suc, ◌+◌, Bool, true, false, ltb, Option, none, some, List, [], ◌∷◌, Result,
  if◌then◌else◌,
}
use tsumugi.Limits.{max_ast_depth}
use tsumugi.Lexer.Token.{Token, Tokens, nil, cons, token}
use tsumugi.Ast.{Expr, Block, Stmt}
use tsumugi.Parser.Outcome.{
  ParseMessage, ParseError, Outcome, Parser, input, ok, failed, out_of_fuel, pure, run, ◌>>=◌, ◌>>◌,
}
use tsumugi.Parser.Reader.{
  rest, errors, peek_token, current_line, fail, here, same_token, is_at_end, skip_newlines,
  reject_line, push_error, with_fuel, check_expr_depth, check_stmt_depth,
}
use tsumugi.Parser.Exprs.{parse_call, parse_primary}
use tsumugi.Parser.Operators.{parse_or, parse_unary}
use tsumugi.Parser.Stmts.{
  parse_let, parse_assign, parse_index_assign, parse_return, parse_if, parse_while, parse_for,
  parse_break, parse_continue, parse_import, parse_try_catch, parse_fn_def, parse_expr_stmt,
  is_assign_stmt, is_index_assign_stmt,
}
use tsumugi.Parser.Blocks.{parse_block}

-- The parsers at one depth; the number is `fn_depth`.
pub record Grammar (F : Type 0) : Type 0 where
  pub unary : ℕ → Parser F (Expr F)
  pub stmt_inner : Bool → ℕ → Parser F (Stmt F)
  pub if_inner : ℕ → Parser F (Stmt F)

-- Where the search for the next statement stops.
pub data Recovery : Type 0 where
  stays steps_over goes_on : Recovery

module _ {F : Type 0} where
  -- `with_parse_depth`: the parser one level deeper, if the depth allows one.
  unfoldable pub with_parse_depth :
      {A : Type 0} → ParseMessage F → Option (Grammar F) → (Grammar F → Parser F A) → Parser F A
  with_parse_depth m none p i = fail (current_line i) m i
  with_parse_depth m (some g) p i = p g i

  unfoldable pub parse_expr : Option (Grammar F) → ℕ → Parser F (Expr F)
  unfolding with_parse_depth parse_or check_expr_depth
  parse_expr deeper k = do
    l ← here
    e ← with_parse_depth ParseMessage.expr_too_deep deeper (λ g. parse_or (g.unary k))
    check_expr_depth e l

  unfoldable pub parse_stmt : Option (Grammar F) → Bool → ℕ → Parser F (Stmt F)
  unfolding with_parse_depth check_stmt_depth
  parse_stmt deeper top k = do
    s ← with_parse_depth ParseMessage.nesting_too_deep deeper (λ g. g.stmt_inner top k)
    check_stmt_depth s

  unfoldable pub block_of : Option (Grammar F) → ℕ → (Token F → Bool) → Parser F (Block F)
  unfolding parse_block parse_stmt
  block_of deeper k = parse_block (parse_stmt deeper false k) (ltb 0 k)

  unfoldable pub if_of : Option (Grammar F) → ℕ → Parser F (Stmt F)
  unfolding parse_if parse_expr block_of with_parse_depth
  if_of deeper k =
      parse_if (parse_expr deeper k) (block_of deeper k)
        (with_parse_depth ParseMessage.nesting_too_deep deeper (λ g. g.if_inner k))

  -- `with_fn_context` raises `fn_depth` for the block of a function.
  unfoldable pub unary_of : Option (Grammar F) → ℕ → Parser F (Expr F)
  unfolding parse_unary parse_call parse_primary parse_expr block_of with_parse_depth same_token
  unary_of deeper k =
      parse_unary (with_parse_depth ParseMessage.expr_too_deep deeper (λ g. g.unary k)) (
        parse_call (parse_expr deeper k) (
          parse_primary (parse_expr deeper k) (parse_expr deeper 0)
            (block_of deeper (k + 1) (λ t. same_token t Token.end))))

  unfoldable pub stmt_at : Option (Grammar F) → Bool → ℕ → Token F → Parser F (Stmt F)
  unfolding parse_let parse_return parse_while parse_for parse_fn_def parse_break parse_continue
      parse_import parse_try_catch parse_assign parse_index_assign parse_expr_stmt parse_expr
      block_of if_of reject_line is_assign_stmt is_index_assign_stmt same_token
  stmt_at deeper top k Token.let_word = parse_let (parse_expr deeper k)
  stmt_at deeper top k Token.return_word = λ i.
      if ltb 0 k
      then parse_return (parse_expr deeper k) i
      else (run i do e ← reject_line ParseMessage.misplaced_return; λ j. failed e j)
  stmt_at deeper top k Token.if_word = if_of deeper k
  stmt_at deeper top k Token.while = parse_while (parse_expr deeper k) (block_of deeper k)
  stmt_at deeper top k Token.for = parse_for (parse_expr deeper k) (block_of deeper k)
  stmt_at deeper top k Token.fn =
      parse_fn_def (block_of deeper (k + 1) (λ t. same_token t Token.end))
  stmt_at deeper top k Token.break = parse_break
  stmt_at deeper top k Token.continue = parse_continue
  stmt_at deeper top k Token.import = λ i.
      if top
      then parse_import i
      else (run i do e ← reject_line ParseMessage.misplaced_import; λ j. failed e j)
  stmt_at deeper top k Token.try = parse_try_catch (block_of deeper k)
  stmt_at deeper top k (Token.ident name) = λ i.
      if is_assign_stmt i
      then parse_assign name (parse_expr deeper k) i
      else (if is_index_assign_stmt i
          then parse_index_assign name (parse_expr deeper k) i
          else parse_expr_stmt (parse_expr deeper k) i)
  stmt_at deeper top k t = parse_expr_stmt (parse_expr deeper k)

  unfoldable pub parse_stmt_inner : Option (Grammar F) → Bool → ℕ → Parser F (Stmt F)
  unfolding stmt_at
  parse_stmt_inner deeper top k i = stmt_at deeper top k (peek_token i) i

  unfoldable pub grammar_of : Option (Grammar F) → Grammar F
  unfolding unary_of parse_stmt_inner if_of
  grammar_of deeper = record {
    unary = unary_of deeper;
    stmt_inner = parse_stmt_inner deeper;
    if_inner = if_of deeper;
  }

  -- The parsers one level deeper than a depth with so many levels left.
  unfoldable pub deeper_by : ℕ → Option (Grammar F)
  unfolding grammar_of
  deeper_by zero = none
  deeper_by (suc n) = some (grammar_of (deeper_by n))

  unfoldable pub recovery_of : Token F → Recovery
  recovery_of Token.eof = stays
  recovery_of Token.newline = steps_over
  recovery_of Token.let_word = stays
  recovery_of Token.fn = stays
  recovery_of Token.if_word = stays
  recovery_of Token.while = stays
  recovery_of Token.for = stays
  recovery_of Token.return_word = stays
  recovery_of Token.import = stays
  recovery_of Token.try = stays
  recovery_of Token.break = stays
  recovery_of Token.continue = stays
  recovery_of _ = goes_on

  unfoldable pub drop_to_stmt : Tokens F → Tokens F
  unfolding recovery_of
  drop_to_stmt nil = nil
  drop_to_stmt (cons s ss) =
      let more = drop_to_stmt ss in
      elim (recovery_of (token s)) [ stays ↦ cons s ss | steps_over ↦ ss | goes_on ↦ more ]

  unfoldable pub synchronize : Parser F (Unit {0})
  unfolding drop_to_stmt
  synchronize i = ok tt (input (drop_to_stmt (rest i)) (errors i))

  -- The loop of `parse`; an error is kept, and the next statement looked for.
  unfoldable pub parse_stmts : Parser F (Stmt F) → ℕ → Parser F (Block F)
  unfolding same_token skip_newlines push_error synchronize
  parse_stmts statement zero i = out_of_fuel
  parse_stmts statement (suc n) i = elim (is_at_end i) [
    | true ↦ ok Block.nil i
    | false ↦ elim (statement i) [
      | out_of_fuel ↦ out_of_fuel
      | ok s j ↦ run j do skip_newlines; ss ← parse_stmts statement n; pure (Block.cons s ss)
      | failed e j ↦ run j do push_error e; synchronize; skip_newlines; parse_stmts statement n
    ]
  ]

  -- The program, or the errors; nothing would mean that a loop did not end.
  unfoldable pub outcome_of : Outcome F (Block F) → Option (Result (Block F) (List (ParseError F)))
  outcome_of (ok program (input ts [])) = some (Result.ok program)
  outcome_of (ok program (input ts (e ∷ es))) = some (Result.err (e ∷ es))
  outcome_of (failed e i) = none
  outcome_of out_of_fuel = none

  -- `Parser::new(tokens).parse()`
  unfoldable pub parse : Tokens F → Option (Result (Block F) (List (ParseError F)))
  unfolding skip_newlines with_fuel parse_stmts parse_stmt deeper_by outcome_of
  parse ts = outcome_of (
      run (input ts [])
        do skip_newlines; with_fuel (parse_stmts (parse_stmt (deeper_by max_ast_depth) true 0)))
