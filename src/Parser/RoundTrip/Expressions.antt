-- ===== src/Parser/RoundTrip/Expressions.antt =====
-- src/parser.rs: printed expressions, at any depth that has room for them.
use tsumugi.Base.{ℕ, zero, suc, ◌+◌, ◌*◌, ◌≤◌, ◌<◌, ◌≡◌, refl, Bool, true, false, ◌&&◌, List, arith}
use tsumugi.Lexer.Token.{Token, Tokens, spanned, cons, token}
use tsumugi.Ast.{
  Expr, Exprs, Pairs, BinOpKind, int, float, str, bool, null, list, dict, ident, bin_op, unary_op,
  call, lambda, index, fstr, no_exprs, with_expr, no_pairs, with_pair,
}
use tsumugi.Ast.Depth.Height.{height_expr, height_exprs, height_pairs}
use tsumugi.Parser.Outcome.{ParseError}
use tsumugi.Parser.Reader.{first, left, advance_spanned}
use tsumugi.Parser.Operators.{mul_div_op, add_sub_op, comparison_op, and_op, or_op}
use tsumugi.Parser.Exprs.{
  no_postfix, postfix_of, more_args, parse_args, more_items, more_pairs, parse_primary, primary_at,
}
use tsumugi.Parser.Grammar.{parse_expr, deeper_by, unary_of}
use tsumugi.Parser.Printer.{
  op_token, prefix_token, is_plain, is_plain_list, is_plain_dict, print_expr, print_list,
  print_more, print_more_pairs,
}
use tsumugi.Parser.RoundTrip.Steps.{Reads, parse_or_operation}
use tsumugi.Parser.RoundTrip.Levels.{
  Stops, primary, print_expr-Begins, print_more-Stops, print_more_pairs-Stops, unary_of-primary,
  unary_of_call, unary_of_index, unary_of_prefix, primary_of_parens, parse_expr_or,
  parse_expr_unary,
}
use tsumugi.Parser.RoundTrip.Sequences.{
  more_args_end, more_args_next, parse_args_none, parse_args_some, more_items_end, more_items_next,
  more_pairs_end, more_pairs_next, primary_of_list_none, primary_of_list, primary_of_dict_none,
  primary_of_dict,
}
use tsumugi.Parser.RoundTrip.Lengths.{length-print_expr}

postfix_of-op_token : (F : Type 0) (o : BinOpKind) → postfix_of {F = F} (op_token o) ≡ no_postfix
unfolding postfix_of op_token
postfix_of-op_token F BinOpKind.add = refl
postfix_of-op_token F _ = refl

both : {a b : Bool} → (a && b) ≡ true → (a ≡ true) × (b ≡ true)
both {a} {b} h = (ground (arith, h), ground (arith, h))

module _ {F : Type 0} (es : List (ParseError F)) (k l : ℕ) where
  unary_of-print_expr :
      (m : ℕ) (e : Expr F) (v : Tokens F)
      → Reads es (primary (deeper_by m) k) (print_expr l e v) e v
      → postfix_of (token (first v)) ≡ no_postfix
      → Reads es (unary_of (deeper_by m) k) (print_expr l e v) e v
  unary_of-print_expr m e v p q =
      let (a, b, c, d) = print_expr-Begins l e v in
      unary_of-primary es (deeper_by m) k (print_expr l e v) v e p a q

  pub parse_expr-print_expr :
      (m : ℕ) (e : Expr F) (v : Tokens F)
      → Reads es (primary (deeper_by m) k) (print_expr l e v) e v
      → Stops (token (first v))
      → height_expr e ≤ 256
      → Reads es (parse_expr (deeper_by (suc m)) k) (print_expr l e v) e v
  unfolding deeper_by
  parse_expr-print_expr m e v p s h =
      let (a, b, c, d, f, g) = s in
      parse_expr_unary es (deeper_by m) k (print_expr l e v) v e (unary_of-print_expr m e v p a) s h

  r_paren-Stops : Stops {F = F} Token.r_paren
  unfolding postfix_of mul_div_op add_sub_op comparison_op and_op or_op
  r_paren-Stops = (refl, refl, refl, refl, refl, refl)

  r_bracket-Stops : Stops {F = F} Token.r_bracket
  unfolding postfix_of mul_div_op add_sub_op comparison_op and_op or_op
  r_bracket-Stops = (refl, refl, refl, refl, refl, refl)

  r_brace-Stops : Stops {F = F} Token.r_brace
  unfolding postfix_of mul_div_op add_sub_op comparison_op and_op or_op
  r_brace-Stops = (refl, refl, refl, refl, refl, refl)

  colon-Stops : Stops {F = F} Token.colon
  unfolding postfix_of mul_div_op add_sub_op comparison_op and_op or_op
  colon-Stops = (refl, refl, refl, refl, refl, refl)

  -- An operation inside its parentheses.
  parens_read :
      (m : ℕ) (ts r : Tokens F) (e : Expr F)
      → Reads es (unary_of (deeper_by m) k) ts e (cons (spanned Token.r_paren l) r)
      → height_expr e ≤ 256
      → Reads es (primary (deeper_by (suc m)) k) (cons (spanned Token.l_paren l) ts) e r
  unfolding deeper_by
  parens_read m ts r e p h = primary_of_parens es (deeper_by (suc m)) k l ts r e (
      parse_expr_unary es (deeper_by m) k ts (cons (spanned Token.r_paren l) r) e p r_paren-Stops h)

  mutual
    unfolding print_expr is_plain height_expr left deeper_by parse_primary primary_at
        advance_spanned

    pub primary-print_expr :
        (n : ℕ) (e : Expr F) (r : Tokens F)
        → is_plain e ≡ true
        → 2 * height_expr e ≤ n
        → n ≤ 254
        → Reads es (primary (deeper_by n) k) (print_expr l e r) e r
    primary-print_expr n (int x) r p h b = refl
    primary-print_expr n (float x) r p h b = refl
    primary-print_expr n (str x) r p h b = refl
    primary-print_expr n (ident x) r p h b = refl
    primary-print_expr n (bool true) r p h b = refl
    primary-print_expr n (bool false) r p h b = refl
    primary-print_expr n null r p h b = refl
    primary-print_expr n (lambda xs t) r p h b = cc
    primary-print_expr n (fstr ps) r p h b = cc
    primary-print_expr zero (bin_op x o y) r p h b = absurd (omega (arith, h))
    primary-print_expr (suc m) (bin_op x o y) r p h b =
        let (px, py) = both p in
        let v = cons (spanned Token.r_paren l) r in
        let u = cons (spanned (op_token o) l) (print_expr l y v) in
        primary_of_parens es (deeper_by (suc m)) k l (print_expr l x u) r (bin_op x o y) (
          parse_expr_or es (deeper_by m) k (print_expr l x u) v (bin_op x o y)
            (parse_or_operation es (unary_of (deeper_by m) k) l (print_expr l x u)
              (print_expr l y v) r o x y
              (unary_of-print_expr m x u
                (primary-print_expr m x u px (omega (arith, h)) (omega (arith, b)))
                (postfix_of-op_token F o))
              (unary_of-print_expr m y v
                (primary-print_expr m y v py (omega (arith, h)) (omega (arith, b))) r_paren-Stops.0)
              (omega (arith, h, b)))
            (omega (arith, h, b)))
    primary-print_expr zero (unary_op o e) r p h b = absurd (omega (arith, h))
    primary-print_expr (suc zero) (unary_op o e) r p h b = absurd (omega (arith, h))
    primary-print_expr (suc (suc m)) (unary_op o e) r p h b =
        let v = cons (spanned Token.r_paren l) r in
        parens_read (suc m) (cons (spanned (prefix_token o) l) (print_expr l e v)) r (unary_op o e)
          (unary_of_prefix es (deeper_by m) k l (print_expr l e v) v o e
            (unary_of-print_expr m e v
              (primary-print_expr m e v p (omega (arith, h)) (omega (arith, b))) r_paren-Stops.0)
            (omega (arith, h, b)))
          (omega (arith, h, b))
    primary-print_expr zero (call c xs) r p h b = absurd (omega (arith, h))
    primary-print_expr (suc m) (call c xs) r p h b =
        let (pc, pxs) = both p in
        let v = cons (spanned Token.r_paren l) r in
        let us = print_list l xs (cons (spanned Token.r_paren l) v) in
        let u = cons (spanned Token.l_paren l) us in
        let (x, y, z, w) = print_expr-Begins l c u in
        parens_read m (print_expr l c u) r (call c xs)
          (unary_of_call es (deeper_by m) k l (print_expr l c u) us v c xs
            (primary-print_expr m c u pc (omega (arith, h)) (omega (arith, b))) x
            (parse_args-print_list m xs v pxs (omega (arith, h)) (omega (arith, b))) r_paren-Stops.0
            (omega (arith, h, b)))
          (omega (arith, h, b))
    primary-print_expr zero (index o i) r p h b = absurd (omega (arith, h))
    primary-print_expr (suc zero) (index o i) r p h b = absurd (omega (arith, h))
    primary-print_expr (suc (suc m)) (index o i) r p h b =
        let (po, pi) = both p in
        let v = cons (spanned Token.r_paren l) r in
        let w = cons (spanned Token.r_bracket l) v in
        let u = cons (spanned Token.l_bracket l) (print_expr l i w) in
        let (x, y, z, t) = print_expr-Begins l o u in
        parens_read (suc m) (print_expr l o u) r (index o i)
          (unary_of_index es (deeper_by (suc m)) k l (print_expr l o u) (print_expr l i w) v o i
            (primary-print_expr (suc m) o u po (omega (arith, h)) (omega (arith, b))) x
            (parse_expr-print_expr m i w
              (primary-print_expr m i w pi (omega (arith, h)) (omega (arith, b))) r_bracket-Stops
              (omega (arith, h, b)))
            r_paren-Stops.0 (omega (arith, h, b)))
          (omega (arith, h, b))
    primary-print_expr n (list no_exprs) r p h b = primary_of_list_none es (deeper_by n) k l r
    primary-print_expr zero (list (with_expr e xs)) r p h b = absurd (omega (arith, h))
    primary-print_expr (suc m) (list (with_expr e xs)) r p h b =
        let (pe, pxs) = both p in
        let v = cons (spanned Token.r_bracket l) r in
        let u = print_more l xs v in
        let (x, y, z, w) = print_expr-Begins l e u in
        primary_of_list es (deeper_by (suc m)) k l (print_expr l e u) u r e xs z
          (parse_expr-print_expr m e u
            (primary-print_expr m e u pe (omega (arith, h)) (omega (arith, b)))
            (print_more-Stops l xs Token.r_bracket r r_bracket-Stops) (omega (arith, h, b)))
          (more_items-print_more (suc m) (suc (left u)) xs r pxs (omega (arith, h))
            (omega (arith, b)) (omega arith))
          (omega (arith, h, b))
    primary-print_expr n (dict no_pairs) r p h b = primary_of_dict_none es (deeper_by n) k l r
    primary-print_expr zero (dict (with_pair x y ps)) r p h b = absurd (omega (arith, h))
    primary-print_expr (suc m) (dict (with_pair x y ps)) r p h b =
        let (px, pyps) = both p in
        let (py, pps) = both pyps in
        let v = print_more_pairs l ps (cons (spanned Token.r_brace l) r) in
        let w = print_expr l y v in
        let u = cons (spanned Token.colon l) w in
        let (a, c, d, f) = print_expr-Begins l x u in
        primary_of_dict es (deeper_by (suc m)) k l (print_expr l x u) w v r x y ps f
          (parse_expr-print_expr m x u
            (primary-print_expr m x u px (omega (arith, h)) (omega (arith, b))) colon-Stops
            (omega (arith, h, b)))
          (parse_expr-print_expr m y v
            (primary-print_expr m y v py (omega (arith, h)) (omega (arith, b)))
            (print_more_pairs-Stops l ps Token.r_brace r r_brace-Stops) (omega (arith, h, b)))
          (more_pairs-print_more_pairs (suc m) (suc (left v)) ps r pps (omega (arith, h))
            (omega (arith, b)) (omega arith))
          (omega (arith, h, b))

    parse_args-print_list :
        (n : ℕ) (xs : Exprs F) (r : Tokens F)
        → is_plain_list xs ≡ true
        → 2 * height_exprs xs + 1 ≤ n
        → n ≤ 254
        → Reads es
            (parse_args (parse_expr (deeper_by n) k))
            (print_list l xs (cons (spanned Token.r_paren l) r))
            xs
            (cons (spanned Token.r_paren l) r)
    parse_args-print_list n no_exprs r p h b = parse_args_none es (parse_expr (deeper_by n) k) l r
    parse_args-print_list zero (with_expr e xs) r p h b = absurd (omega (arith, h))
    parse_args-print_list (suc m) (with_expr e xs) r p h b =
        let (pe, pxs) = both p in
        let v = cons (spanned Token.r_paren l) r in
        let u = print_more l xs v in
        let (x, y, z, w) = print_expr-Begins l e u in
        parse_args_some es (parse_expr (deeper_by (suc m)) k) l (print_expr l e u) u v e xs y
          (parse_expr-print_expr m e u
            (primary-print_expr m e u pe (omega (arith, h)) (omega (arith, b)))
            (print_more-Stops l xs Token.r_paren r r_paren-Stops) (omega (arith, h, b)))
          (more_args-print_more (suc m) (suc (left u)) xs r pxs (omega (arith, h))
            (omega (arith, b)) (omega arith))

    more_args-print_more :
        (n fuel : ℕ) (xs : Exprs F) (r : Tokens F)
        → is_plain_list xs ≡ true
        → 2 * height_exprs xs + 1 ≤ n
        → n ≤ 254
        → left (print_more l xs (cons (spanned Token.r_paren l) r)) < fuel
        → Reads es
            (more_args (parse_expr (deeper_by n) k) fuel)
            (print_more l xs (cons (spanned Token.r_paren l) r))
            xs
            (cons (spanned Token.r_paren l) r)
    more_args-print_more n zero xs r p h b f = absurd (omega (arith, f))
    more_args-print_more n (suc fuel) no_exprs r p h b f =
        more_args_end es (parse_expr (deeper_by n) k) l fuel r
    more_args-print_more zero (suc fuel) (with_expr e xs) r p h b f = absurd (omega (arith, h))
    more_args-print_more (suc m) (suc fuel) (with_expr e xs) r p h b f =
        let (pe, pxs) = both p in
        let v = cons (spanned Token.r_paren l) r in
        let u = print_more l xs v in
        more_args_next es (parse_expr (deeper_by (suc m)) k) l fuel (print_expr l e u) u v e xs
          (parse_expr-print_expr m e u
            (primary-print_expr m e u pe (omega (arith, h)) (omega (arith, b)))
            (print_more-Stops l xs Token.r_paren r r_paren-Stops) (omega (arith, h, b)))
          (more_args-print_more (suc m) fuel xs r pxs (omega (arith, h)) (omega (arith, b))
            (omega (arith, f, length-print_expr l e u)))

    more_items-print_more :
        (n fuel : ℕ) (xs : Exprs F) (r : Tokens F)
        → is_plain_list xs ≡ true
        → 2 * height_exprs xs + 1 ≤ n
        → n ≤ 254
        → left (print_more l xs (cons (spanned Token.r_bracket l) r)) < fuel
        → Reads es
            (more_items (parse_expr (deeper_by n) k) fuel)
            (print_more l xs (cons (spanned Token.r_bracket l) r))
            xs
            (cons (spanned Token.r_bracket l) r)
    more_items-print_more n zero xs r p h b f = absurd (omega (arith, f))
    more_items-print_more n (suc fuel) no_exprs r p h b f =
        more_items_end es (parse_expr (deeper_by n) k) l fuel r
    more_items-print_more zero (suc fuel) (with_expr e xs) r p h b f = absurd (omega (arith, h))
    more_items-print_more (suc m) (suc fuel) (with_expr e xs) r p h b f =
        let (pe, pxs) = both p in
        let v = cons (spanned Token.r_bracket l) r in
        let u = print_more l xs v in
        let (x, y, z, w) = print_expr-Begins l e u in
        more_items_next es (parse_expr (deeper_by (suc m)) k) l fuel (print_expr l e u) u v e xs z
          (parse_expr-print_expr m e u
            (primary-print_expr m e u pe (omega (arith, h)) (omega (arith, b)))
            (print_more-Stops l xs Token.r_bracket r r_bracket-Stops) (omega (arith, h, b)))
          (more_items-print_more (suc m) fuel xs r pxs (omega (arith, h)) (omega (arith, b))
            (omega (arith, f, length-print_expr l e u)))

    more_pairs-print_more_pairs :
        (n fuel : ℕ) (ps : Pairs F) (r : Tokens F)
        → is_plain_dict ps ≡ true
        → 2 * height_pairs ps + 1 ≤ n
        → n ≤ 254
        → left (print_more_pairs l ps (cons (spanned Token.r_brace l) r)) < fuel
        → Reads es
            (more_pairs (parse_expr (deeper_by n) k) fuel)
            (print_more_pairs l ps (cons (spanned Token.r_brace l) r))
            ps
            (cons (spanned Token.r_brace l) r)
    more_pairs-print_more_pairs n zero ps r p h b f = absurd (omega (arith, f))
    more_pairs-print_more_pairs n (suc fuel) no_pairs r p h b f =
        more_pairs_end es (parse_expr (deeper_by n) k) l fuel r
    more_pairs-print_more_pairs zero (suc fuel) (with_pair x y ps) r p h b f =
        absurd (omega (arith, h))
    more_pairs-print_more_pairs (suc m) (suc fuel) (with_pair x y ps) r p h b f =
        let (px, pyps) = both p in
        let (py, pps) = both pyps in
        let t = cons (spanned Token.r_brace l) r in
        let v = print_more_pairs l ps t in
        let w = print_expr l y v in
        let u = cons (spanned Token.colon l) w in
        let (a, c, d, g) = print_expr-Begins l x u in
        more_pairs_next es (parse_expr (deeper_by (suc m)) k) l fuel (print_expr l x u) w v t x y ps
          g
          (parse_expr-print_expr m x u
            (primary-print_expr m x u px (omega (arith, h)) (omega (arith, b))) colon-Stops
            (omega (arith, h, b)))
          (parse_expr-print_expr m y v
            (primary-print_expr m y v py (omega (arith, h)) (omega (arith, b)))
            (print_more_pairs-Stops l ps Token.r_brace r r_brace-Stops) (omega (arith, h, b)))
          (more_pairs-print_more_pairs (suc m) fuel ps r pps (omega (arith, h)) (omega (arith, b))
            (omega (arith, f, length-print_expr l y v, length-print_expr l x u)))
