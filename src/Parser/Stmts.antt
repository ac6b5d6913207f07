-- ===== src/Parser/Stmts.antt =====
-- src/parser.rs: the forms of statements. The parsers of expressions, and of a block up to some tokens,
-- are arguments.
use tsumugi.Base.{ℕ, ◌+◌, ◌-◌, ◌==◌, [], Bool, false, ◌&&◌, if◌then◌else◌, Text}
use tsumugi.Lexer.Token.{Token, Tokens, nil, cons, token}
use tsumugi.Ast.{Expr, Block, Stmt}
use tsumugi.Parser.Outcome.{ParseMessage, Input, Parser, input, pure, run, ◌>>=◌, ◌>>◌}
use tsumugi.Parser.Reader.{
  rest, others, advance_spanned, fail, here, next_is, same_token, expect, expect_newline_or_eof,
  take_name,
}
use tsumugi.Parser.Exprs.{parse_params}
use tsumugi.Parser.Blocks.{at_end, at_catch, at_else, open_block, close_block}

module _ {F : Type 0} where
  unfoldable pub parse_let : Parser F (Expr F) → Parser F (Stmt F)
  unfolding advance_spanned take_name expect expect_newline_or_eof
  parse_let expression = do
    l ← here
    advance_spanned
    name ← take_name ParseMessage.no_let_name
    expect Token.assign
    value ← expression
    expect_newline_or_eof
    pure (Stmt.let_stmt name value l)

  -- The identifier is known to stand there.
  unfoldable pub parse_assign : Text → Parser F (Expr F) → Parser F (Stmt F)
  unfolding advance_spanned expect_newline_or_eof
  parse_assign name expression = do
    l ← here
    advance_spanned
    advance_spanned
    value ← expression
    expect_newline_or_eof
    pure (Stmt.assign name value l)

  unfoldable pub parse_index_assign : Text → Parser F (Expr F) → Parser F (Stmt F)
  unfolding advance_spanned expect expect_newline_or_eof
  parse_index_assign name expression = do
    l ← here
    advance_spanned
    expect Token.l_bracket
    index ← expression
    expect Token.r_bracket
    expect Token.assign
    value ← expression
    expect_newline_or_eof
    pure (Stmt.index_assign name index value l)

  unfoldable pub parse_return : Parser F (Expr F) → Parser F (Stmt F)
  unfolding advance_spanned expect_newline_or_eof
  parse_return expression = do
    l ← here
    advance_spanned
    value ← expression
    expect_newline_or_eof
    pure (Stmt.return_stmt value l)

  -- After the first body: an `elif` as an `if` of its own, an `else`, or neither.
  unfoldable pub parse_else :
      ((Token F → Bool) → Parser F (Block F)) → Parser F (Stmt F) → Parser F (Block F)
  unfolding advance_spanned same_token close_block open_block at_end
  parse_else body elif_stmt i =
      if next_is Token.elif i
      then (run i do s ← elif_stmt; pure (Block.cons s Block.nil))
      else (if next_is Token.else_word i
          then (run i do advance_spanned; open_block; b ← body at_end; close_block; pure b)
          else (run i do close_block; pure Block.nil))

  -- After the word `if` or `elif` on line `l`.
  unfoldable pub if_from :
      Parser F (Expr F)
      → ((Token F → Bool) → Parser F (Block F))
      → Parser F (Stmt F)
      → ℕ
      → Parser F (Stmt F)
  unfolding open_block parse_else at_else
  if_from expression body elif_stmt l = do
    condition ← expression
    open_block
    then_body ← body at_else
    else_body ← parse_else body elif_stmt
    pure (Stmt.if_stmt condition then_body else_body l)

  unfoldable pub parse_if :
      Parser F (Expr F)
      → ((Token F → Bool) → Parser F (Block F))
      → Parser F (Stmt F)
      → Parser F (Stmt F)
  unfolding advance_spanned if_from
  parse_if expression body elif_stmt = do
    l ← here
    advance_spanned
    if_from expression body elif_stmt l

  unfoldable pub parse_while :
      Parser F (Expr F) → ((Token F → Bool) → Parser F (Block F)) → Parser F (Stmt F)
  unfolding advance_spanned open_block close_block at_end
  parse_while expression body = do
    l ← here
    advance_spanned
    condition ← expression
    open_block
    b ← body at_end
    close_block
    pure (Stmt.while_stmt condition b l)

  unfoldable pub parse_for :
      Parser F (Expr F) → ((Token F → Bool) → Parser F (Block F)) → Parser F (Stmt F)
  unfolding advance_spanned take_name expect open_block close_block at_end
  parse_for expression body = do
    l ← here
    advance_spanned
    var ← take_name ParseMessage.no_for_var
    expect Token.in_word
    iter ← expression
    open_block
    b ← body at_end
    close_block
    pure (Stmt.for_stmt var iter b l)

  unfoldable pub parse_break : Parser F (Stmt F)
  unfolding advance_spanned expect_newline_or_eof
  parse_break = do l ← here; advance_spanned; expect_newline_or_eof; pure (Stmt.break_stmt l)

  unfoldable pub parse_continue : Parser F (Stmt F)
  unfolding advance_spanned expect_newline_or_eof
  parse_continue = do l ← here; advance_spanned; expect_newline_or_eof; pure (Stmt.continue_stmt l)

  unfoldable pub parse_import : Parser F (Stmt F)
  unfolding advance_spanned expect_newline_or_eof
  parse_import = do
    l ← here
    advance_spanned
    s ← advance_spanned
    elim (token s) [
      | Token.str path ↦ (do expect_newline_or_eof; pure (Stmt.import_stmt path l))
      | _ ↦ fail l ParseMessage.no_import_path
    ]

  unfoldable pub parse_try_catch : ((Token F → Bool) → Parser F (Block F)) → Parser F (Stmt F)
  unfolding advance_spanned take_name expect open_block close_block at_catch at_end
  parse_try_catch body = do
    l ← here
    advance_spanned
    open_block
    try_body ← body at_catch
    expect Token.catch
    var ← take_name ParseMessage.no_catch_var
    open_block
    catch_body ← body at_end
    close_block
    pure (Stmt.try_catch try_body var catch_body l)

  -- `body` reads a block of a function.
  unfoldable pub parse_fn_def : Parser F (Block F) → Parser F (Stmt F)
  unfolding advance_spanned take_name expect parse_params open_block close_block
  parse_fn_def body = do
    l ← here
    advance_spanned
    name ← take_name ParseMessage.no_fn_name
    expect Token.l_paren
    params ← parse_params
    expect Token.r_paren
    open_block
    b ← body
    close_block
    pure (Stmt.fn_def name params b l)

  unfoldable pub parse_expr_stmt : Parser F (Expr F) → Parser F (Stmt F)
  unfolding expect_newline_or_eof
  parse_expr_stmt expression = do
    l ← here
    e ← expression
    expect_newline_or_eof
    pure (Stmt.expr_stmt e l)

  -- Whether an `=` follows the next token.
  unfoldable pub is_assign_stmt : Input F → Bool
  unfolding same_token
  is_assign_stmt i = next_is Token.assign (input (others (rest i)) [])

  -- Whether an `=` follows the bracket that closes the first of `k` open ones.
  unfoldable pub closes_to_assign : ℕ → Tokens F → Bool
  unfolding same_token
  closes_to_assign k nil = false
  closes_to_assign k (cons s ss) =
      let k' =
        if same_token (token s) Token.l_bracket
        then k + 1
        else (if same_token (token s) Token.r_bracket then k - 1 else k) in
      let more = closes_to_assign k' ss in
      if same_token (token s) Token.r_bracket && k' == 0
      then next_is Token.assign (input ss [])
      else (if same_token (token s) Token.eof then false else more)

  unfoldable pub is_index_assign_stmt : Input F → Bool
  unfolding same_token closes_to_assign
  is_index_assign_stmt i =
      next_is Token.l_bracket (input (others (rest i)) []) && closes_to_assign 0 (others (rest i))
