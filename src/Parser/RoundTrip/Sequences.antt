-- ===== src/Parser/RoundTrip/Sequences.antt =====
-- src/parser.rs: the loops over arguments, elements and pairs, one turn at a time.
use tsumugi.Base.{ℕ, suc, ◌≤◌, ◌≡◌, refl, sym, subst, Bool, true, false, Option, List}
use tsumugi.Lexer.Token.{Token, Tokens, spanned, cons, token}
use tsumugi.Ast.{Expr, Exprs, Pairs, list, dict, no_exprs, with_expr, no_pairs, with_pair}
use tsumugi.Ast.Depth.Height.{height_expr}
use tsumugi.Parser.Outcome.{ParseError, Outcome, Parser, input, ok, run, pure, ◌>>=◌, ◌>>◌}
use tsumugi.Parser.Reader.{
  first, left, same_token, with_fuel, advance_spanned, expect, check_expr_depth, here, current_line,
}
use tsumugi.Parser.Exprs.{
  parse_args, more_args, more_items, parse_list_literal, more_pairs, parse_dict_literal,
  parse_primary, primary_at,
}
use tsumugi.Parser.Grammar.{Grammar, parse_expr}
use tsumugi.Parser.RoundTrip.Steps.{Reads, check_expr_depth-low}
use tsumugi.Parser.RoundTrip.Levels.{primary}

module _ {F : Type 0} (es : List (ParseError F)) where
  module _ (x : Parser F (Expr F)) (l : ℕ) where
    pub more_args_end :
        (n : ℕ) (r : Tokens F)
        → Reads es
            (more_args x (suc n))
            (cons (spanned Token.r_paren l) r)
            no_exprs
            (cons (spanned Token.r_paren l) r)
    unfolding more_args same_token
    more_args_end n r = refl

    pub more_args_next :
        (n : ℕ) (ts us r : Tokens F) (e : Expr F) (xs : Exprs F)
        → Reads es x ts e us
        → Reads es (more_args x n) us xs r
        → Reads es (more_args x (suc n)) (cons (spanned Token.comma l) ts) (with_expr e xs) r
    unfolding more_args same_token advance_spanned
    more_args_next n ts us r e xs p q = rw (p, q) refl

    pub parse_args_none :
        (r : Tokens F)
        → Reads es
            (parse_args x)
            (cons (spanned Token.r_paren l) r)
            no_exprs
            (cons (spanned Token.r_paren l) r)
    unfolding parse_args same_token
    parse_args_none r = refl

    pub parse_args_some :
        (ts us r : Tokens F) (e : Expr F) (xs : Exprs F)
        → same_token (token (first ts)) Token.r_paren ≡ false
        → Reads es x ts e us
        → Reads es (more_args x (suc (left us))) us xs r
        → Reads es (parse_args x) ts (with_expr e xs) r
    unfolding parse_args with_fuel
    parse_args_some ts us r e xs h p q = rw (h, parse_args, p, q) refl

    pub more_items_end :
        (n : ℕ) (r : Tokens F)
        → Reads es
            (more_items x (suc n))
            (cons (spanned Token.r_bracket l) r)
            no_exprs
            (cons (spanned Token.r_bracket l) r)
    unfolding more_items same_token
    more_items_end n r = refl

    pub more_items_next :
        (n : ℕ) (ts us r : Tokens F) (e : Expr F) (xs : Exprs F)
        → same_token (token (first ts)) Token.r_bracket ≡ false
        → Reads es x ts e us
        → Reads es (more_items x n) us xs r
        → Reads es (more_items x (suc n)) (cons (spanned Token.comma l) ts) (with_expr e xs) r
    unfolding more_items same_token advance_spanned
    more_items_next n ts us r e xs h p q =
        subst
          (λ (c : Bool).
            ◌≡◌ {A = Outcome F (Exprs F)}
              (elim c [
                | true ↦ ok no_exprs (input ts es)
                | false ↦ run (input ts es) do e ← x; xs ← more_items x n; pure (with_expr e xs)
              ])
              (ok (with_expr e xs) (input r es)))
          (sym h) (rw (p, q) refl)

    pub more_pairs_end :
        (n : ℕ) (r : Tokens F)
        → Reads es
            (more_pairs x (suc n))
            (cons (spanned Token.r_brace l) r)
            no_pairs
            (cons (spanned Token.r_brace l) r)
    unfolding more_pairs same_token
    more_pairs_end n r = refl

    pub more_pairs_next :
        (n : ℕ) (ts us vs r : Tokens F) (a b : Expr F) (ps : Pairs F)
        → same_token (token (first ts)) Token.r_brace ≡ false
        → Reads es x ts a (cons (spanned Token.colon l) us)
        → Reads es x us b vs
        → Reads es (more_pairs x n) vs ps r
        → Reads es (more_pairs x (suc n)) (cons (spanned Token.comma l) ts) (with_pair a b ps) r
    unfolding more_pairs same_token advance_spanned expect
    more_pairs_next n ts us vs r a b ps h p q m =
        subst
          (λ (c : Bool).
            ◌≡◌ {A = Outcome F (Pairs F)}
              (elim c [
                | true ↦ ok no_pairs (input ts es)
                | false ↦ run (input ts es) do
                  key ← x
                  expect Token.colon
                  value ← x
                  ps ← more_pairs x n
                  pure (with_pair key value ps)
              ])
              (ok (with_pair a b ps) (input r es)))
          (sym h) (rw (p, q, m) refl)

  module _ (d : Option (Grammar F)) (k : ℕ) (l : ℕ) where
    pub primary_of_list_none :
        (r : Tokens F)
        → Reads es
            (primary d k)
            (cons (spanned Token.l_bracket l) (cons (spanned Token.r_bracket l) r))
            (list no_exprs)
            r
    unfolding parse_primary primary_at parse_list_literal advance_spanned same_token
    primary_of_list_none r = refl

    pub primary_of_list :
        (ts us r : Tokens F) (e : Expr F) (xs : Exprs F)
        → same_token (token (first ts)) Token.r_bracket ≡ false
        → Reads es (parse_expr d k) ts e us
        → Reads es
            (more_items (parse_expr d k) (suc (left us)))
            us
            xs
            (cons (spanned Token.r_bracket l) r)
        → height_expr (list (with_expr e xs)) ≤ 256
        → Reads es (primary d k) (cons (spanned Token.l_bracket l) ts) (list (with_expr e xs)) r
    unfolding parse_primary primary_at parse_list_literal advance_spanned same_token with_fuel
        expect
    primary_of_list ts us r e xs h p q b =
        subst
          (λ (c : Bool).
            ◌≡◌ {A = Outcome F (Expr F)}
              (elim c [
                | true ↦ run (input ts es) do advance_spanned; pure (list no_exprs)
                | false ↦ run (input ts es) do
                  e ← parse_expr d k
                  xs ← with_fuel (more_items (parse_expr d k))
                  expect Token.r_bracket
                  l ← here
                  check_expr_depth (list (with_expr e xs)) l
              ])
              (ok (list (with_expr e xs)) (input r es)))
          (sym h)
          (rw (p, q)
            (check_expr_depth-low (list (with_expr e xs)) (current_line (input r es)) (input r es)
              b))

    pub primary_of_dict_none :
        (r : Tokens F)
        → Reads es
            (primary d k)
            (cons (spanned Token.l_brace l) (cons (spanned Token.r_brace l) r))
            (dict no_pairs)
            r
    unfolding parse_primary primary_at parse_dict_literal advance_spanned same_token
    primary_of_dict_none r = refl

    pub primary_of_dict :
        (ts us vs r : Tokens F) (a b : Expr F) (ps : Pairs F)
        → same_token (token (first ts)) Token.r_brace ≡ false
        → Reads es (parse_expr d k) ts a (cons (spanned Token.colon l) us)
        → Reads es (parse_expr d k) us b vs
        → Reads es
            (more_pairs (parse_expr d k) (suc (left vs)))
            vs
            ps
            (cons (spanned Token.r_brace l) r)
        → height_expr (dict (with_pair a b ps)) ≤ 256
        → Reads es (primary d k) (cons (spanned Token.l_brace l) ts) (dict (with_pair a b ps)) r
    unfolding parse_primary primary_at parse_dict_literal advance_spanned same_token with_fuel
        expect
    primary_of_dict ts us vs r a b ps h p q m w =
        subst
          (λ (c : Bool).
            ◌≡◌ {A = Outcome F (Expr F)}
              (elim c [
                | true ↦ run (input ts es) do advance_spanned; pure (dict no_pairs)
                | false ↦ run (input ts es) do
                  key ← parse_expr d k
                  expect Token.colon
                  value ← parse_expr d k
                  ps ← with_fuel (more_pairs (parse_expr d k))
                  expect Token.r_brace
                  l ← here
                  check_expr_depth (dict (with_pair key value ps)) l
              ])
              (ok (dict (with_pair a b ps)) (input r es)))
          (sym h)
          (rw (p, q, m)
            (check_expr_depth-low (dict (with_pair a b ps)) (current_line (input r es)) (input r es)
              w))
