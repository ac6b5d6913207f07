-- ===== src/Parser/Placed/Expressions/Sequences.antt =====
-- src/parser.rs: arguments, calls and subscripts, elements, pairs, parameters, parts of an f-string.
use tsumugi.Base.{ℕ, zero, suc, ◌≡◌, refl, true, arith, inl, inr, Bool-cases, []}
use tsumugi.Lexer.Token.{Token, Tokens, Parts, FStrPart, nil, cons, token, no_parts, with_part}
use tsumugi.Ast.{
  Expr, Exprs, Pairs, FStrExprParts, no_exprs, with_expr, no_pairs, with_pair, call, index,
}
use tsumugi.Parser.Outcome.{ParseMessage, Parser, Outcome, input}
use tsumugi.Parser.Reader.{left, advance_spanned, same_token, next_is, with_fuel, is_at_end}
use tsumugi.Parser.Exprs.{
  more_args, parse_args, Postfix, calls, indexes, no_postfix, postfix_of, more_calls, parse_call,
  more_items, more_pairs, more_params, parse_params, parse_parts, with_eof,
}
use tsumugi.Parser.Ensures.{
  Ensures, holds, rejected, Any, Keeps, Eats, Eats-Keeps, expect-Keeps, take_name-Keeps, Ensures-if,
}
use tsumugi.Parser.Within.{
  Within, Keeps-Within, Eats-Within, Within-pure, Within-bind, Within-turn, Within-test,
  with_fuel-Keeps, Eats-bind, Keeps-bind, check_expr_depth-Keeps,
}
use tsumugi.Parser.Placed.{placed_expr, placed_exprs, placed_pairs, placed_parts}
use tsumugi.Parser.Placed.Expressions.Operators.{IsPlacedExpr}

module _ {F : Type 0} where
  abbrev pub IsPlacedExprs : Exprs F → Type 0
  IsPlacedExprs es = placed_exprs es ≡ true

  abbrev pub IsPlacedPairs : Pairs F → Type 0
  IsPlacedPairs ps = placed_pairs ps ≡ true

  abbrev pub IsPlacedParts : FStrExprParts F → Type 0
  IsPlacedParts ps = placed_parts ps ≡ true

  module _ {expression : Parser F (Expr F)} (eats : Eats IsPlacedExpr expression) where
    more_args-Within : (n : ℕ) → Within n IsPlacedExprs (more_args expression n)
    unfolding more_args left placed_exprs advance_spanned same_token
    more_args-Within zero i m u h b = absurd (omega (arith, h, b))
    more_args-Within (suc n) (input nil es) m u h b = holds (input nil es) refl h
    more_args-Within (suc n) (input (cons s ts) es) m u h b =
        elim (Bool-cases (next_is Token.comma (input (cons s ts) es))) [
          | inr q ↦ rw (q, more_args) (holds (input (cons s ts) es) refl h)
          | inl q ↦
              rw (q, more_args)
                (Within-turn
                  (Within-bind (Eats-Within eats) λ e p.
                    Within-bind (more_args-Within n)
                      λ es' ps. Within-pure (with_expr e es') (ground (arith, p, ps)))
                  ts es m u h b)
        ]

    pub parse_args-Keeps : Keeps IsPlacedExprs (parse_args expression)
    unfolding parse_args placed_exprs
    parse_args-Keeps i m u h =
        Ensures-if (next_is Token.r_paren i) (λ q. holds i refl h)
          λ q.
            Keeps-bind (Eats-Keeps eats)
              (λ e p.
                Keeps-bind (with_fuel-Keeps more_args-Within)
                  λ es ps. λ j m' u' h'. holds j (ground (arith, p, ps)) h')
              i m u h

    more_calls-Within :
        (n : ℕ) (e : Expr F) → IsPlacedExpr e → Within n IsPlacedExpr (more_calls expression n e)
    unfolding more_calls left placed_expr advance_spanned postfix_of
    more_calls-Within zero e p i m u h b = absurd (omega (arith, h, b))
    more_calls-Within (suc n) e p (input nil es) m u h b = holds (input nil es) p h
    more_calls-Within (suc n) e p (input (cons s ts) es) m u h b =
        by_postfix (postfix_of (token s)) refl (more_calls-Within n)
      where
        by_postfix :
            (k : Postfix)
            → postfix_of (token s) ≡ k
            → ((e : Expr F) → IsPlacedExpr e → Within n IsPlacedExpr (more_calls expression n e))
            → Ensures IsPlacedExpr m m u (more_calls expression (suc n) e (input (cons s ts) es))
        by_postfix no_postfix q more = rw (q, more_calls) (holds (input (cons s ts) es) p h)
        by_postfix calls q more =
            rw (q, more_calls)
              (Within-turn
                (Within-bind (Keeps-Within parse_args-Keeps) λ args ps.
                  Within-bind (Keeps-Within (expect-Keeps Token.r_paren)) λ x y.
                    Within-bind
                      (Keeps-Within (
                        check_expr_depth-Keeps IsPlacedExpr (call e args) _
                          (ground (arith, p, ps))))
                      more)
                ts es m u h b)
        by_postfix indexes q more =
            rw (q, more_calls)
              (Within-turn
                (Within-bind (Eats-Within eats) λ k pk.
                  Within-bind (Keeps-Within (expect-Keeps Token.r_bracket)) λ x y.
                    Within-bind
                      (Keeps-Within
                        (check_expr_depth-Keeps IsPlacedExpr (index e k) _ (ground (arith, p, pk))))
                      more)
                ts es m u h b)

    pub parse_call-Eats :
        {primary : Parser F (Expr F)}
        → Eats IsPlacedExpr primary
        → Eats IsPlacedExpr (parse_call expression primary)
    unfolding parse_call
    parse_call-Eats e = Eats-bind e λ a p. with_fuel-Keeps λ n. more_calls-Within n a p

    more_items-Within : (n : ℕ) → Within n IsPlacedExprs (more_items expression n)
    unfolding more_items left placed_exprs advance_spanned same_token
    more_items-Within zero i m u h b = absurd (omega (arith, h, b))
    more_items-Within (suc n) (input nil es) m u h b = holds (input nil es) refl h
    more_items-Within (suc n) (input (cons s ts) es) m u h b =
        elim (Bool-cases (next_is Token.comma (input (cons s ts) es))) [
          | inr q ↦ rw (q, more_items) (holds (input (cons s ts) es) refl h)
          | inl q ↦
              rw (q, more_items)
                (Within-turn
                  (Within-test (next_is Token.r_bracket) (Within-pure no_exprs refl) (
                    Within-bind (Eats-Within eats) λ e p.
                      Within-bind (more_items-Within n)
                        λ es' ps. Within-pure (with_expr e es') (ground (arith, p, ps))))
                  ts es m u h b)
        ]

    pub more_items-Keeps : Keeps IsPlacedExprs (with_fuel (more_items expression))
    more_items-Keeps = with_fuel-Keeps more_items-Within

    more_pairs-Within : (n : ℕ) → Within n IsPlacedPairs (more_pairs expression n)
    unfolding more_pairs left placed_pairs advance_spanned same_token
    more_pairs-Within zero i m u h b = absurd (omega (arith, h, b))
    more_pairs-Within (suc n) (input nil es) m u h b = holds (input nil es) refl h
    more_pairs-Within (suc n) (input (cons s ts) es) m u h b =
        elim (Bool-cases (next_is Token.comma (input (cons s ts) es))) [
          | inr q ↦ rw (q, more_pairs) (holds (input (cons s ts) es) refl h)
          | inl q ↦
              rw (q, more_pairs)
                (Within-turn
                  (Within-test (next_is Token.r_brace) (Within-pure no_pairs refl) (
                    Within-bind (Eats-Within eats) λ k pk.
                      Within-bind (Keeps-Within (expect-Keeps Token.colon)) λ x y.
                        Within-bind (Eats-Within eats) λ v pv.
                          Within-bind (more_pairs-Within n)
                            λ ps pps. Within-pure (with_pair k v ps) (ground (arith, pk, pv, pps))))
                  ts es m u h b)
        ]

    pub more_pairs-Keeps : Keeps IsPlacedPairs (with_fuel (more_pairs expression))
    more_pairs-Keeps = with_fuel-Keeps more_pairs-Within

  more_params-Within : (n : ℕ) → Within n Any (more_params {F = F} n)
  unfolding more_params left advance_spanned same_token
  more_params-Within zero i m u h b = absurd (omega (arith, h, b))
  more_params-Within (suc n) (input nil es) m u h b = holds (input nil es) tt h
  more_params-Within (suc n) (input (cons s ts) es) m u h b =
      elim (Bool-cases (next_is Token.comma (input (cons s ts) es))) [
        | inr q ↦ rw (q, more_params) (holds (input (cons s ts) es) tt h)
        | inl q ↦
            rw (q, more_params)
              (Within-turn
                (Within-bind (Keeps-Within (take_name-Keeps ParseMessage.no_param))
                  λ x y. Within-bind (more_params-Within n) λ xs ys. Within-pure _ tt)
                ts es m u h b)
      ]

  pub parse_params-Keeps : Keeps Any (parse_params {F = F})
  unfolding parse_params
  parse_params-Keeps i m u h =
      Ensures-if (next_is Token.r_paren i) (λ q. holds i tt h)
        λ q.
          Keeps-bind (take_name-Keeps ParseMessage.no_param)
            (λ x y.
              Keeps-bind (with_fuel-Keeps more_params-Within) λ xs ys. λ j m' u' h'. holds j tt h')
            i m u h

  pub parse_parts-Keeps :
      {sub : Parser F (Expr F)}
      → Eats IsPlacedExpr sub
      → (l : ℕ) (ps : Parts F) → Keeps IsPlacedParts (parse_parts sub l ps)
  unfolding parse_parts placed_parts
  parse_parts-Keeps e l no_parts i m u h = holds i refl h
  parse_parts-Keeps e l (with_part (FStrPart.literal s) ps) i m u h =
      Keeps-bind (parse_parts-Keeps e l ps) (λ es p. λ j m' u' h'. holds j (ground (arith, p)) h') i
        m u h
  parse_parts-Keeps {sub} e l (with_part (FStrPart.expr ts) ps) i m u h =
      by_expression (sub (input (with_eof l ts) [])) refl (e (input (with_eof l ts) []))
        (parse_parts-Keeps e l ps)
    where
      by_expression :
          {a b : ℕ} {v : Tokens F} (o : Outcome F (Expr F))
          → sub (input (with_eof l ts) []) ≡ o
          → Ensures IsPlacedExpr a b v o
          → Keeps IsPlacedParts (parse_parts sub l ps)
          → Ensures IsPlacedParts m m u (parse_parts sub l (with_part (FStrPart.expr ts) ps) i)
      by_expression _ q (rejected j d) more = rw (q, parse_parts) (rejected i (inl h))
      by_expression _ q (holds j p d) more = elim (Bool-cases (is_at_end j)) [
        | inr r ↦ rw (q, r, parse_parts) (rejected i (inl h))
        | inl r ↦
            rw (q, r, parse_parts)
              (Keeps-bind more (λ es ps'. λ j' m' u' h'. holds j' (ground (arith, p, ps')) h') i m u
                h)
      ]
