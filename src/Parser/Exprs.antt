-- ===== src/Parser/Exprs.antt =====
-- src/parser.rs: the forms of expressions. The parsers of the parts are arguments: of a whole expression,
-- of an operand one level deeper, of a block of statements.
use tsumugi.Base.{ℕ, zero, suc, true, false, List, [], ◌∷◌, if◌then◌else◌, Text, codes}
use tsumugi.Lexer.Token.{
  Token, Tokens, Parts, FStrPart, spanned, nil, cons, no_parts, with_part, line,
}
use tsumugi.Ast.{
  Expr, Exprs, Pairs, FStrExprPart, FStrExprParts, Block, Stmt, no_exprs, with_expr, no_pairs,
  with_pair,
}
use tsumugi.Parser.Outcome.{
  ParseMessage, Parser, input, ok, failed, out_of_fuel, pure, run, ◌>>=◌, ◌>>◌,
}
use tsumugi.Parser.Reader.{
  peek_token, peek_spanned, current_line, advance_spanned, fail, here, next_is, same_token,
  is_at_end, expect, take_name, with_fuel, check_expr_depth,
}

pub data Postfix : Type 0 where
  calls indexes no_postfix : Postfix

module _ {F : Type 0} where
  -- After an argument: the arguments behind commas.
  unfoldable pub more_args : Parser F (Expr F) → ℕ → Parser F (Exprs F)
  unfolding advance_spanned same_token
  more_args expression zero i = out_of_fuel
  more_args expression (suc n) i = elim (next_is Token.comma i) [
    | false ↦ ok no_exprs i
    | true ↦
        run i do advance_spanned; e ← expression; es ← more_args expression n; pure (with_expr e es)
  ]

  unfoldable pub parse_args : Parser F (Expr F) → Parser F (Exprs F)
  unfolding more_args with_fuel same_token
  parse_args expression i =
      if next_is Token.r_paren i
      then ok no_exprs i
      else (run i do e ← expression; es ← with_fuel (more_args expression); pure (with_expr e es))

  unfoldable pub postfix_of : Token F → Postfix
  postfix_of Token.l_paren = calls
  postfix_of Token.l_bracket = indexes
  postfix_of _ = no_postfix

  unfoldable pub more_calls : Parser F (Expr F) → ℕ → Expr F → Parser F (Expr F)
  unfolding advance_spanned check_expr_depth postfix_of parse_args expect
  more_calls expression zero e i = out_of_fuel
  more_calls expression (suc n) e i = elim (postfix_of (peek_token i)) [
    | no_postfix ↦ ok e i
    | calls ↦ run i do
      l ← here
      advance_spanned
      args ← parse_args expression
      expect Token.r_paren
      e' ← check_expr_depth (Expr.call e args) l
      more_calls expression n e'
    | indexes ↦ run i do
      l ← here
      advance_spanned
      index ← expression
      expect Token.r_bracket
      e' ← check_expr_depth (Expr.index e index) l
      more_calls expression n e'
  ]

  unfoldable pub parse_call : Parser F (Expr F) → Parser F (Expr F) → Parser F (Expr F)
  unfolding more_calls with_fuel
  parse_call expression primary = do e ← primary; with_fuel (λ n. more_calls expression n e)

  -- A comma before the bracket is allowed.
  unfoldable pub more_items : Parser F (Expr F) → ℕ → Parser F (Exprs F)
  unfolding advance_spanned same_token
  more_items expression zero i = out_of_fuel
  more_items expression (suc n) i = elim (next_is Token.comma i) [
    | false ↦ ok no_exprs i
    | true ↦ run i do
      advance_spanned
      λ j. elim (next_is Token.r_bracket j) [
        | true ↦ ok no_exprs j
        | false ↦ run j do e ← expression; es ← more_items expression n; pure (with_expr e es)
      ]
  ]

  unfoldable pub parse_list_literal : Parser F (Expr F) → Parser F (Expr F)
  unfolding advance_spanned same_token more_items with_fuel expect check_expr_depth
  parse_list_literal expression = do
    advance_spanned
    λ i. elim (next_is Token.r_bracket i) [
      | true ↦ run i do advance_spanned; pure (Expr.list no_exprs)
      | false ↦ run i do
        e ← expression
        es ← with_fuel (more_items expression)
        expect Token.r_bracket
        l ← here
        check_expr_depth (Expr.list (with_expr e es)) l
    ]

  unfoldable pub more_pairs : Parser F (Expr F) → ℕ → Parser F (Pairs F)
  unfolding advance_spanned same_token expect
  more_pairs expression zero i = out_of_fuel
  more_pairs expression (suc n) i = elim (next_is Token.comma i) [
    | false ↦ ok no_pairs i
    | true ↦ run i do
      advance_spanned
      λ j. elim (next_is Token.r_brace j) [
        | true ↦ ok no_pairs j
        | false ↦ run j do
          key ← expression
          expect Token.colon
          value ← expression
          ps ← more_pairs expression n
          pure (with_pair key value ps)
      ]
  ]

  unfoldable pub parse_dict_literal : Parser F (Expr F) → Parser F (Expr F)
  unfolding advance_spanned same_token more_pairs with_fuel expect check_expr_depth
  parse_dict_literal expression = do
    advance_spanned
    λ i. elim (next_is Token.r_brace i) [
      | true ↦ run i do advance_spanned; pure (Expr.dict no_pairs)
      | false ↦ run i do
        key ← expression
        expect Token.colon
        value ← expression
        ps ← with_fuel (more_pairs expression)
        expect Token.r_brace
        l ← here
        check_expr_depth (Expr.dict (with_pair key value ps)) l
    ]

  unfoldable pub more_params : ℕ → Parser F (List Text)
  unfolding advance_spanned same_token take_name
  more_params zero i = out_of_fuel
  more_params (suc n) i = elim (next_is Token.comma i) [
    | false ↦ ok [] i
    | true ↦ run i do
      advance_spanned
      name ← take_name ParseMessage.no_param
      names ← more_params n
      pure (name ∷ names)
  ]

  unfoldable pub parse_params : Parser F (List Text)
  unfolding same_token take_name with_fuel more_params
  parse_params i =
      if next_is Token.r_paren i
      then ok [] i
      else (run i do
        name ← take_name ParseMessage.no_param
        names ← with_fuel more_params
        pure (name ∷ names))

  -- The body on its own lines, or one expression that is returned.
  unfoldable pub parse_anonymous_fn : Parser F (Expr F) → Parser F (Block F) → Parser F (Expr F)
  unfolding advance_spanned same_token expect parse_params check_expr_depth
  parse_anonymous_fn expression body = do
    lambda_line ← here
    advance_spanned
    expect Token.l_paren
    params ← parse_params
    expect Token.r_paren
    λ i. elim (next_is Token.newline i) [
      | true ↦ run i do
        advance_spanned
        b ← body
        expect Token.end
        check_expr_depth (Expr.lambda params b) lambda_line
      | false ↦ run i do
        l ← here
        λ j. (if next_is Token.return_word j then advance_spanned j else ok (peek_spanned j) j)
        e ← expression
        expect Token.end
        check_expr_depth (Expr.lambda params (Block.cons (Stmt.return_stmt e l) Block.nil))
            lambda_line
    ]

  -- The tokens of an expression with an end on the line of the last one.
  unfoldable pub with_eof : ℕ → Tokens F → Tokens F
  with_eof l nil = cons (spanned Token.eof l) nil
  with_eof l (cons s ss) = cons s (with_eof (line s) ss)

  -- Each expression has a parser of its own, whose errors are not looked at but for the one it
  -- stops with.
  unfoldable pub parse_parts : Parser F (Expr F) → ℕ → Parts F → Parser F (FStrExprParts F)
  unfolding with_eof same_token
  parse_parts sub l no_parts i = ok FStrExprParts.no_parts i
  parse_parts sub l (with_part (FStrPart.literal s) ps) i =
      run i do es ← parse_parts sub l ps; pure (FStrExprParts.with_part (FStrExprPart.literal s) es)
  parse_parts sub l (with_part (FStrPart.expr ts) ps) i = elim (sub (input (with_eof l ts) [])) [
    | out_of_fuel ↦ out_of_fuel
    | failed e j ↦ fail l (ParseMessage.in_fstring e) i
    | ok e j ↦ elim (is_at_end j) [
      | false ↦ fail l ParseMessage.extra_in_fstring i
      | true ↦
          run i
            do es ← parse_parts sub l ps; pure (FStrExprParts.with_part (FStrExprPart.expr e) es)
    ]
  ]

  unfoldable pub parse_fstr : Parser F (Expr F) → Parts F → ℕ → Parser F (Expr F)
  unfolding parse_parts check_expr_depth
  parse_fstr sub ps l = do es ← parse_parts sub l ps; check_expr_depth (Expr.fstr es) l

  -- `sub` reads an expression of an f-string, `body` a block of a function.
  unfoldable pub primary_at :
      Parser F (Expr F) → Parser F (Expr F) → Parser F (Block F) → Token F → ℕ → Parser F (Expr F)
  unfolding advance_spanned expect parse_args parse_fstr parse_list_literal parse_dict_literal
      parse_anonymous_fn check_expr_depth
  primary_at expression sub body (Token.int n) l = do advance_spanned; pure (Expr.int n)
  primary_at expression sub body (Token.float x) l = do advance_spanned; pure (Expr.float x)
  primary_at expression sub body (Token.str s) l = do advance_spanned; pure (Expr.str s)
  primary_at expression sub body (Token.fstr ps) l = do advance_spanned; parse_fstr sub ps l
  primary_at expression sub body Token.true_word l = do advance_spanned; pure (Expr.bool true)
  primary_at expression sub body Token.false_word l = do advance_spanned; pure (Expr.bool false)
  primary_at expression sub body Token.null l = do advance_spanned; pure Expr.null
  primary_at expression sub body (Token.ident s) l = do advance_spanned; pure (Expr.ident s)
  primary_at expression sub body Token.print l = do
    advance_spanned
    expect Token.l_paren
    args ← parse_args expression
    expect Token.r_paren
    check_expr_depth (Expr.call (Expr.ident (codes "print")) args) l
  primary_at expression sub body Token.l_paren l = do
    advance_spanned
    e ← expression
    expect Token.r_paren
    pure e
  primary_at expression sub body Token.l_bracket l = parse_list_literal expression
  primary_at expression sub body Token.l_brace l = parse_dict_literal expression
  primary_at expression sub body Token.fn l = parse_anonymous_fn expression body
  primary_at expression sub body (Token.error m) l = do
    advance_spanned
    fail l (ParseMessage.lexical m)
  primary_at expression sub body (Token.unknown c) l = do
    advance_spanned
    fail l (ParseMessage.unknown_char c)
  primary_at expression sub body t l = fail l (ParseMessage.unexpected t)

  unfoldable pub parse_primary :
      Parser F (Expr F) → Parser F (Expr F) → Parser F (Block F) → Parser F (Expr F)
  unfolding primary_at
  parse_primary expression sub body i =
      primary_at expression sub body (peek_token i) (current_line i) i
