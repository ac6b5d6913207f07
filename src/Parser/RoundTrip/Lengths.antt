-- ===== src/Parser/RoundTrip/Lengths.antt =====
-- src/parser.rs: how many tokens a printed expression takes at least.
use tsumugi.Base.{ℕ, ◌≤◌, ◌<◌, true, false, arith}
use tsumugi.Lexer.Token.{Token, Tokens, spanned, cons}
use tsumugi.Ast.{
  Expr, Exprs, Pairs, bool, list, dict, bin_op, unary_op, call, index, no_exprs, with_expr,
  no_pairs, with_pair,
}
use tsumugi.Parser.Reader.{left}
use tsumugi.Parser.Printer.{
  op_token, print_expr, print_list, print_more, print_dict, print_more_pairs,
}

-- A printed part takes tokens.
mutual
  unfolding print_expr left

  pub length-print_expr :
      {F : Type 0} (l : ℕ) (e : Expr F) (r : Tokens F) → left r < left (print_expr l e r)
  length-print_expr l (list es) r =
      omega (arith, length-print_list l es (cons (spanned Token.r_bracket l) r))
  length-print_expr l (dict ps) r =
      omega (arith, length-print_dict l ps (cons (spanned Token.r_brace l) r))
  length-print_expr l (bin_op a o b) r =
      let r' = cons (spanned Token.r_paren l) r in
      omega (
        arith,
        length-print_expr l b r',
        length-print_expr l a (cons (spanned (op_token o) l) (print_expr l b r')),
      )
  length-print_expr l (unary_op o e) r =
      omega (arith, length-print_expr l e (cons (spanned Token.r_paren l) r))
  length-print_expr l (call c es) r =
      let r' = cons (spanned Token.r_paren l) (cons (spanned Token.r_paren l) r) in
      omega (
        arith,
        length-print_list l es r',
        length-print_expr l c (cons (spanned Token.l_paren l) (print_list l es r')),
      )
  length-print_expr l (index o i) r =
      let r' = cons (spanned Token.r_bracket l) (cons (spanned Token.r_paren l) r) in
      omega (
        arith,
        length-print_expr l i r',
        length-print_expr l o (cons (spanned Token.l_bracket l) (print_expr l i r')),
      )
  length-print_expr l (bool true) r = omega arith
  length-print_expr l (bool false) r = omega arith
  length-print_expr l _ r = omega arith

  length-print_list :
      {F : Type 0} (l : ℕ) (es : Exprs F) (r : Tokens F) → left r ≤ left (print_list l es r)
  length-print_list l no_exprs r = omega arith
  length-print_list l (with_expr e es) r =
      omega (arith, length-print_more l es r, length-print_expr l e (print_more l es r))

  length-print_more :
      {F : Type 0} (l : ℕ) (es : Exprs F) (r : Tokens F) → left r ≤ left (print_more l es r)
  length-print_more l no_exprs r = omega arith
  length-print_more l (with_expr e es) r =
      omega (arith, length-print_more l es r, length-print_expr l e (print_more l es r))

  length-print_dict :
      {F : Type 0} (l : ℕ) (ps : Pairs F) (r : Tokens F) → left r ≤ left (print_dict l ps r)
  length-print_dict l no_pairs r = omega arith
  length-print_dict l (with_pair k v ps) r =
      let r' = print_expr l v (print_more_pairs l ps r) in
      omega (
        arith,
        length-print_more_pairs l ps r,
        length-print_expr l v (print_more_pairs l ps r),
        length-print_expr l k (cons (spanned Token.colon l) r'),
      )

  length-print_more_pairs :
      {F : Type 0} (l : ℕ) (ps : Pairs F) (r : Tokens F) → left r ≤ left (print_more_pairs l ps r)
  length-print_more_pairs l no_pairs r = omega arith
  length-print_more_pairs l (with_pair k v ps) r =
      let r' = print_expr l v (print_more_pairs l ps r) in
      omega (
        arith,
        length-print_more_pairs l ps r,
        length-print_expr l v (print_more_pairs l ps r),
        length-print_expr l k (cons (spanned Token.colon l) r'),
      )
