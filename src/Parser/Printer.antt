-- ===== src/Parser/Printer.antt =====
-- The tokens of an expression with parentheses round each operation, as src/parser.rs reads them.
use tsumugi.Base.{ℕ, Bool, true, false, ◌&&◌}
use tsumugi.Lexer.Token.{Token, Tokens, spanned, cons}
use tsumugi.Ast.{
  Expr, Exprs, Pairs, BinOpKind, UnaryOpKind, int, float, str, bool, list, dict, ident, bin_op,
  unary_op, call, index, no_exprs, with_expr, no_pairs, with_pair,
}

module _ {F : Type 0} where
  unfoldable pub op_token : BinOpKind → Token F
  op_token BinOpKind.add = Token.plus
  op_token BinOpKind.sub = Token.minus
  op_token BinOpKind.mul = Token.star
  op_token BinOpKind.div = Token.slash
  op_token BinOpKind.rem = Token.percent
  op_token BinOpKind.eq = Token.eq
  op_token BinOpKind.not_eq = Token.not_eq
  op_token BinOpKind.lt = Token.lt
  op_token BinOpKind.gt = Token.gt
  op_token BinOpKind.lt_eq = Token.lt_eq
  op_token BinOpKind.gt_eq = Token.gt_eq
  op_token BinOpKind.and = Token.and
  op_token BinOpKind.or = Token.or

  unfoldable pub prefix_token : UnaryOpKind → Token F
  prefix_token UnaryOpKind.not = Token.not_word
  prefix_token UnaryOpKind.neg = Token.minus

-- Neither an anonymous function nor an f-string is in the expression.
unfoldable mutual
  pub is_plain : {F : Type 0} → Expr F → Bool
  is_plain (list es) = is_plain_list es
  is_plain (dict ps) = is_plain_dict ps
  is_plain (bin_op a o b) = is_plain a && is_plain b
  is_plain (unary_op o e) = is_plain e
  is_plain (call c es) = is_plain c && is_plain_list es
  is_plain (index o i) = is_plain o && is_plain i
  is_plain (Expr.lambda xs b) = false
  is_plain (Expr.fstr ps) = false
  is_plain _ = true

  pub is_plain_list : {F : Type 0} → Exprs F → Bool
  is_plain_list no_exprs = true
  is_plain_list (with_expr e es) = is_plain e && is_plain_list es

  pub is_plain_dict : {F : Type 0} → Pairs F → Bool
  is_plain_dict no_pairs = true
  is_plain_dict (with_pair k v ps) = is_plain k && (is_plain v && is_plain_dict ps)

-- On line `l`, before the tokens `r`.
unfoldable mutual
  pub print_expr : {F : Type 0} → ℕ → Expr F → Tokens F → Tokens F
  print_expr l (int n) r = cons (spanned (Token.int n) l) r
  print_expr l (float x) r = cons (spanned (Token.float x) l) r
  print_expr l (str s) r = cons (spanned (Token.str s) l) r
  print_expr l (bool true) r = cons (spanned Token.true_word l) r
  print_expr l (bool false) r = cons (spanned Token.false_word l) r
  print_expr l (ident s) r = cons (spanned (Token.ident s) l) r
  print_expr l (list es) r =
      cons (spanned Token.l_bracket l) (print_list l es (cons (spanned Token.r_bracket l) r))
  print_expr l (dict ps) r =
      cons (spanned Token.l_brace l) (print_dict l ps (cons (spanned Token.r_brace l) r))
  print_expr l (bin_op a o b) r = cons (spanned Token.l_paren l) (
      print_expr l a
        (cons (spanned (op_token o) l) (print_expr l b (cons (spanned Token.r_paren l) r))))
  print_expr l (unary_op o e) r =
      cons (spanned Token.l_paren l)
        (cons (spanned (prefix_token o) l) (print_expr l e (cons (spanned Token.r_paren l) r)))
  print_expr l (call c es) r = cons (spanned Token.l_paren l) (
      print_expr l c (
        cons (spanned Token.l_paren l)
          (print_list l es (cons (spanned Token.r_paren l) (cons (spanned Token.r_paren l) r)))))
  print_expr l (index o i) r = cons (spanned Token.l_paren l) (
      print_expr l o (
        cons (spanned Token.l_bracket l)
          (print_expr l i (cons (spanned Token.r_bracket l) (cons (spanned Token.r_paren l) r)))))
  print_expr l _ r = cons (spanned Token.null l) r

  -- With commas between.
  pub print_list : {F : Type 0} → ℕ → Exprs F → Tokens F → Tokens F
  print_list l no_exprs r = r
  print_list l (with_expr e es) r = print_expr l e (print_more l es r)

  pub print_more : {F : Type 0} → ℕ → Exprs F → Tokens F → Tokens F
  print_more l no_exprs r = r
  print_more l (with_expr e es) r =
      cons (spanned Token.comma l) (print_expr l e (print_more l es r))

  pub print_dict : {F : Type 0} → ℕ → Pairs F → Tokens F → Tokens F
  print_dict l no_pairs r = r
  print_dict l (with_pair k v ps) r =
      print_expr l k (cons (spanned Token.colon l) (print_expr l v (print_more_pairs l ps r)))

  pub print_more_pairs : {F : Type 0} → ℕ → Pairs F → Tokens F → Tokens F
  print_more_pairs l no_pairs r = r
  print_more_pairs l (with_pair k v ps) r =
      cons (spanned Token.comma l)
        (print_expr l k (cons (spanned Token.colon l) (print_expr l v (print_more_pairs l ps r))))
