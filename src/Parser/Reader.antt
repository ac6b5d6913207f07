-- ===== src/Parser/Reader.antt =====
-- src/parser.rs: looking at the next token and stepping over it.
use tsumugi.Base.{
  ℕ, suc, Bool, true, false, ◌&&◌, ◌||◌, none, some, List, [], ◌∷◌, ◌++◌, ◌==◌, if◌then◌else◌, Text,
}
use tsumugi.Lexer.Token.{Token, Spanned, Tokens, spanned, nil, cons, token, line}
use tsumugi.Ast.{Expr, Stmt, line_of}
use tsumugi.Ast.Depth.{expr_depth_exceeds_limit, stmt_depth_exceeds_limit}
use tsumugi.Ast.Depth.Height.{size_expr, size_stmt}
use tsumugi.Parser.Outcome.{
  ParseMessage, ParseError, Input, Parser, parse_error, input, ok, failed, out_of_fuel, pure, run,
  ◌>>=◌, ◌>>◌,
}

-- The constructor of a token.
unfoldable pub token_kind : {F : Type 0} → Token F → ℕ
token_kind (Token.int x) = 0
token_kind (Token.float x) = 1
token_kind (Token.str x) = 2
token_kind (Token.fstr x) = 3
token_kind Token.true_word = 4
token_kind Token.false_word = 5
token_kind Token.null = 6
token_kind (Token.ident x) = 7
token_kind Token.let_word = 8
token_kind Token.fn = 9
token_kind Token.return_word = 10
token_kind Token.if_word = 11
token_kind Token.else_word = 12
token_kind Token.elif = 13
token_kind Token.while = 14
token_kind Token.for = 15
token_kind Token.in_word = 16
token_kind Token.break = 17
token_kind Token.continue = 18
token_kind Token.end = 19
token_kind Token.and = 20
token_kind Token.or = 21
token_kind Token.not_word = 22
token_kind Token.print = 23
token_kind Token.import = 24
token_kind Token.try = 25
token_kind Token.catch = 26
token_kind Token.plus = 27
token_kind Token.minus = 28
token_kind Token.star = 29
token_kind Token.slash = 30
token_kind Token.percent = 31
token_kind Token.assign = 32
token_kind Token.eq = 33
token_kind Token.not_eq = 34
token_kind Token.lt = 35
token_kind Token.gt = 36
token_kind Token.lt_eq = 37
token_kind Token.gt_eq = 38
token_kind Token.l_paren = 39
token_kind Token.r_paren = 40
token_kind Token.l_bracket = 41
token_kind Token.r_bracket = 42
token_kind Token.l_brace = 43
token_kind Token.r_brace = 44
token_kind Token.comma = 45
token_kind Token.colon = 46
token_kind Token.newline = 47
token_kind Token.eof = 48
token_kind (Token.unknown x) = 49
token_kind (Token.error x) = 50

module _ {F : Type 0} where
  abbrev pub rest : Input F → Tokens F
  rest (input ts es) = ts

  abbrev pub errors : Input F → List (ParseError F)
  errors (input ts es) = es

  -- The number of tokens from `pos` on.
  unfoldable pub left : Tokens F → ℕ
  left nil = 0
  left (cons t ts) = suc (left ts)

  abbrev pub first : Tokens F → Spanned F
  first nil = spanned Token.eof 0
  first (cons s ss) = s

  abbrev pub others : Tokens F → Tokens F
  others nil = nil
  others (cons s ss) = ss

  abbrev pub peek_spanned : Input F → Spanned F
  peek_spanned i = first (rest i)

  abbrev pub peek_token : Input F → Token F
  peek_token i = token (peek_spanned i)

  abbrev pub current_line : Input F → ℕ
  current_line i = line (peek_spanned i)

  unfoldable pub advance_spanned : Parser F (Spanned F)
  advance_spanned i = ok (peek_spanned i) (input (others (rest i)) (errors i))

  -- `TsumugiError::parse`, returned.
  abbrev pub fail : {A : Type 0} → ℕ → ParseMessage F → Parser F A
  fail l m i = failed (parse_error l m) i

  abbrev pub here : Parser F ℕ
  here i = ok (current_line i) i

  -- A test of two tokens without contents.
  unfoldable pub same_token : Token F → Token F → Bool
  unfolding token_kind
  same_token s t = token_kind s == token_kind t

  -- `peek_token() == t`
  abbrev pub next_is : Token F → Input F → Bool
  next_is t i = same_token (peek_token i) t

  abbrev pub is_at_end : Input F → Bool
  is_at_end = next_is Token.eof

  -- The end of the input where a block is still open has a message of its own.
  unfoldable pub expect : Token F → Parser F (Unit {0})
  unfolding advance_spanned same_token
  expect t = do
    s ← advance_spanned
    λ j.
        if same_token (token s) t
        then ok tt j
        else (if same_token (token s) Token.eof
              && (same_token t Token.end || same_token t Token.catch)
            then fail (line s) ParseMessage.unfinished j
            else fail (line s) (ParseMessage.expected t (token s)) j)

  unfoldable pub expect_newline : Parser F (Unit {0})
  unfolding advance_spanned same_token
  expect_newline i =
      if next_is Token.newline i
      then (run i do advance_spanned; pure tt)
      else (if next_is Token.eof i
          then ok tt i
          else fail (current_line i) (ParseMessage.no_newline (peek_token i)) i)

  unfoldable pub expect_newline_or_eof : Parser F (Unit {0})
  unfolding advance_spanned same_token
  expect_newline_or_eof i =
      if next_is Token.newline i
      then (run i do advance_spanned; pure tt)
      else (if next_is Token.eof i
          then ok tt i
          else fail (current_line i) (ParseMessage.no_newline_or_eof (peek_token i)) i)

  unfoldable pub drop_newlines : Tokens F → Tokens F
  unfolding same_token
  drop_newlines nil = nil
  drop_newlines (cons s ss) =
      let more = drop_newlines ss in if same_token (token s) Token.newline then more else cons s ss

  unfoldable pub skip_newlines : Parser F (Unit {0})
  unfolding drop_newlines
  skip_newlines i = ok tt (input (drop_newlines (rest i)) (errors i))

  -- Up to the end of the line, and over it.
  unfoldable pub drop_line : Tokens F → Tokens F
  unfolding same_token
  drop_line nil = nil
  drop_line (cons s ss) =
      let more = drop_line ss in
      if same_token (token s) Token.newline
      then ss
      else (if same_token (token s) Token.eof then cons s ss else more)

  unfoldable pub discard_current_line : Parser F (Unit {0})
  unfolding drop_line
  discard_current_line i = ok tt (input (drop_line (rest i)) (errors i))

  -- `reject_non_top_level_import` and `reject_non_function_return`: the error, with the line stepped over.
  unfoldable pub reject_line : ParseMessage F → Parser F (ParseError F)
  unfolding discard_current_line
  reject_line m = do l ← here; discard_current_line; pure (parse_error l m)

  -- `self.errors.push(error)`
  unfoldable pub push_error : ParseError F → Parser F (Unit {0})
  push_error e i = ok tt (input (rest i) (errors i ++ e ∷ []))

  -- The name in the next token, whatever that is stepped over.
  unfoldable pub take_name : (Token F → ParseMessage F) → Parser F Text
  unfolding advance_spanned
  take_name m = do
    s ← advance_spanned
    elim (token s) [ Token.ident name ↦ pure name | other ↦ fail (line s) (m other) ]

  -- A loop of at most as many turns as there are tokens, and one.
  unfoldable pub with_fuel : {A : Type 0} → (ℕ → Parser F A) → Parser F A
  unfolding left
  with_fuel p i = p (suc (left (rest i))) i

  unfoldable pub check_expr_depth : Expr F → ℕ → Parser F (Expr F)
  unfolding expr_depth_exceeds_limit size_expr
  check_expr_depth e l i = elim (expr_depth_exceeds_limit (suc (size_expr e)) e) [
    | none ↦ out_of_fuel
    | some true ↦ fail l ParseMessage.expr_too_deep i
    | some false ↦ ok e i
  ]

  unfoldable pub check_stmt_depth : Stmt F → Parser F (Stmt F)
  unfolding stmt_depth_exceeds_limit size_stmt line_of
  check_stmt_depth s i = elim (stmt_depth_exceeds_limit (suc (size_stmt s)) s) [
    | none ↦ out_of_fuel
    | some true ↦ fail (line_of s) ParseMessage.nesting_too_deep i
    | some false ↦ ok s i
  ]
