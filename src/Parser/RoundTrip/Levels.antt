-- ===== src/Parser/RoundTrip/Levels.antt =====
-- src/parser.rs: what the parsers of one depth make of the tokens of an expression, given what the
-- parsers of its parts make of theirs.
use tsumugi.Base.{ℕ, suc, ◌+◌, ◌≤◌, ◌≡◌, refl, true, false, Option, none, some, List}
use tsumugi.Lexer.Token.{Token, Tokens, spanned, cons, token}
use tsumugi.Ast.{
  Expr, Exprs, Pairs, UnaryOpKind, unary_op, call, index, no_exprs, with_expr, no_pairs, with_pair,
}
use tsumugi.Ast.Depth.Height.{height_expr}
use tsumugi.Parser.Outcome.{ParseError, Parser, input}
use tsumugi.Parser.Reader.{first, left, same_token, with_fuel, advance_spanned, expect}
use tsumugi.Parser.Operators.{
  or_op, and_op, comparison_op, add_sub_op, mul_div_op, parse_or, parse_unary, unary_op_of,
}
use tsumugi.Parser.Exprs.{
  no_postfix, postfix_of, parse_args, more_calls, parse_call, parse_primary, primary_at,
}
use tsumugi.Parser.Grammar.{Grammar, grammar_of, unary_of, parse_expr, block_of, with_parse_depth}
use tsumugi.Parser.Printer.{prefix_token, print_expr, print_more, print_more_pairs}
use tsumugi.Parser.RoundTrip.Steps.{Reads, check_expr_depth-low, to_or}

module _ {F : Type 0} where
  -- The token ends an operand, and an expression.
  abbrev pub Stops : Token F → Type 0
  Stops t =
      (postfix_of t ≡ no_postfix)
      × (mul_div_op t ≡ none)
      × (add_sub_op t ≡ none)
      × (comparison_op t ≡ none)
      × (and_op t ≡ none)
      × (or_op t ≡ none)

  -- The token begins an operand.
  abbrev pub Begins : Token F → Type 0
  Begins t =
      (unary_op_of t ≡ none)
      × (same_token t Token.r_paren ≡ false)
      × (same_token t Token.r_bracket ≡ false)
      × (same_token t Token.r_brace ≡ false)

  pub print_expr-Begins :
      (l : ℕ) (e : Expr F) (r : Tokens F) → Begins (token (first (print_expr l e r)))
  unfolding print_expr unary_op_of same_token
  print_expr-Begins l (Expr.int n) r = (refl, refl, refl, refl)
  print_expr-Begins l (Expr.bool true) r = (refl, refl, refl, refl)
  print_expr-Begins l (Expr.bool false) r = (refl, refl, refl, refl)
  print_expr-Begins l _ r = (refl, refl, refl, refl)

  pub print_more-Stops :
      (l : ℕ) (es : Exprs F) (t : Token F) (r : Tokens F)
      → Stops t
      → Stops (token (first (print_more l es (cons (spanned t l) r))))
  unfolding print_more postfix_of mul_div_op add_sub_op comparison_op and_op or_op
  print_more-Stops l no_exprs t r h = h
  print_more-Stops l (with_expr e es) t r h = (refl, refl, refl, refl, refl, refl)

  pub print_more_pairs-Stops :
      (l : ℕ) (ps : Pairs F) (t : Token F) (r : Tokens F)
      → Stops t
      → Stops (token (first (print_more_pairs l ps (cons (spanned t l) r))))
  unfolding print_more_pairs postfix_of mul_div_op add_sub_op comparison_op and_op or_op
  print_more_pairs-Stops l no_pairs t r h = h
  print_more_pairs-Stops l (with_pair k v ps) t r h = (refl, refl, refl, refl, refl, refl)

  -- The parser of a primary expression at a depth.
  abbrev pub primary : Option (Grammar F) → ℕ → Parser F (Expr F)
  primary d k =
      parse_primary (parse_expr d k) (parse_expr d 0)
        (block_of d (k + 1) (λ (t : Token F). same_token t Token.end))

  module _ (es : List (ParseError F)) (d : Option (Grammar F)) (k : ℕ) where
    more_calls_end :
        (n : ℕ) (e : Expr F) (r : Tokens F)
        → postfix_of (token (first r)) ≡ no_postfix
        → Reads es (more_calls (parse_expr d k) (suc n) e) r e r
    unfolding more_calls
    more_calls_end n e r q = rw (q, more_calls) refl

    pub unary_of-primary :
        (ts r : Tokens F) (e : Expr F)
        → Reads es (primary d k) ts e r
        → unary_op_of (token (first ts)) ≡ none
        → postfix_of (token (first r)) ≡ no_postfix
        → Reads es (unary_of d k) ts e r
    unfolding unary_of parse_unary parse_call with_fuel
    unary_of-primary ts r e p q q' = rw (q, parse_unary, p) (more_calls_end (left r) e r q')

    pub unary_of_call :
        (l : ℕ) (ts us r : Tokens F) (c : Expr F) (args : Exprs F)
        → Reads es (primary d k) ts c (cons (spanned Token.l_paren l) us)
        → unary_op_of (token (first ts)) ≡ none
        → Reads es (parse_args (parse_expr d k)) us args (cons (spanned Token.r_paren l) r)
        → postfix_of (token (first r)) ≡ no_postfix
        → height_expr (call c args) ≤ 256
        → Reads es (unary_of d k) ts (call c args) r
    unfolding unary_of parse_unary parse_call with_fuel more_calls postfix_of advance_spanned expect
        same_token left
    unary_of_call l ts us r c args p q a q' h =
        rw (q, parse_unary, p, a, check_expr_depth-low (call c args) l (input r es) h)
          (more_calls_end _ (call c args) r q')

    pub unary_of_index :
        (l : ℕ) (ts us r : Tokens F) (c i : Expr F)
        → Reads es (primary d k) ts c (cons (spanned Token.l_bracket l) us)
        → unary_op_of (token (first ts)) ≡ none
        → Reads es (parse_expr d k) us i (cons (spanned Token.r_bracket l) r)
        → postfix_of (token (first r)) ≡ no_postfix
        → height_expr (index c i) ≤ 256
        → Reads es (unary_of d k) ts (index c i) r
    unfolding unary_of parse_unary parse_call with_fuel more_calls postfix_of advance_spanned expect
        same_token left
    unary_of_index l ts us r c i p q a q' h =
        rw (q, parse_unary, p, a, check_expr_depth-low (index c i) l (input r es) h)
          (more_calls_end _ (index c i) r q')

    pub primary_of_parens :
        (l : ℕ) (ts r : Tokens F) (e : Expr F)
        → Reads es (parse_expr d k) ts e (cons (spanned Token.r_paren l) r)
        → Reads es (primary d k) (cons (spanned Token.l_paren l) ts) e r
    unfolding parse_primary primary_at advance_spanned expect same_token
    primary_of_parens l ts r e p = rw p refl

    -- One level up.
    pub parse_expr_or :
        (ts r : Tokens F) (e : Expr F)
        → Reads es (parse_or (unary_of d k)) ts e r
        → height_expr e ≤ 256
        → Reads es (parse_expr (some (grammar_of d)) k) ts e r
    unfolding parse_expr with_parse_depth grammar_of
    parse_expr_or ts r e p h = rw p (check_expr_depth-low e _ (input r es) h)

    pub parse_expr_unary :
        (ts r : Tokens F) (e : Expr F)
        → Reads es (unary_of d k) ts e r
        → Stops (token (first r))
        → height_expr e ≤ 256
        → Reads es (parse_expr (some (grammar_of d)) k) ts e r
    parse_expr_unary ts r e p (s, a, b, c, f, g) h =
        parse_expr_or ts r e (to_or es (unary_of d k) ts r e p a b c f g) h

    pub unary_of_prefix :
        (l : ℕ) (ts r : Tokens F) (o : UnaryOpKind) (e : Expr F)
        → Reads es (unary_of d k) ts e r
        → height_expr (unary_op o e) ≤ 256
        → Reads es
            (unary_of (some (grammar_of d)) k)
            (cons (spanned (prefix_token o) l) ts)
            (unary_op o e)
            r
    unfolding unary_of parse_unary unary_op_of prefix_token with_parse_depth advance_spanned
        grammar_of
    unary_of_prefix l ts r UnaryOpKind.not e p h = rw p (check_expr_depth-low _ l (input r es) h)
    unary_of_prefix l ts r UnaryOpKind.neg e p h = rw p (check_expr_depth-low _ l (input r es) h)
