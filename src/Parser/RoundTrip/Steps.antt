-- ===== src/Parser/RoundTrip/Steps.antt =====
-- src/parser.rs: what one level of the expression parser makes of the tokens that it is given.
use tsumugi.Base.{ℕ, suc, ◌≤◌, ◌≡◌, refl, Option, none, some, List}
use tsumugi.Lexer.Token.{Token, Spanned, Tokens, spanned, cons, token}
use tsumugi.Ast.{Expr, BinOpKind, bin_op}
use tsumugi.Ast.Depth.Height.{height_expr}
use tsumugi.Ast.Depth.Laws.{expr_depth_exceeds_limit-low}
use tsumugi.Parser.Outcome.{ParseError, Input, Parser, input, ok}
use tsumugi.Parser.Reader.{first, left, current_line, with_fuel, advance_spanned, check_expr_depth}
use tsumugi.Parser.Operators.{
  or_op, and_op, comparison_op, add_sub_op, mul_div_op, more_operands, parse_binary, parse_or,
  parse_and, parse_comparison, parse_add_sub, parse_mul_div,
}
use tsumugi.Parser.Printer.{op_token}

module _ {F : Type 0} where
  pub check_expr_depth-low :
      (e : Expr F) (l : ℕ) (i : Input F) → height_expr e ≤ 256 → check_expr_depth e l i ≡ ok e i
  unfolding check_expr_depth
  check_expr_depth-low e l i h = rw (expr_depth_exceeds_limit-low e h, check_expr_depth) refl

  module _ (es : List (ParseError F)) where
    -- The parser takes the tokens before `r`, as `e`.
    abbrev pub Reads : {A : Type 0} → Parser F A → Tokens F → A → Tokens F → Type 0
    Reads p ts e r = p (input ts es) ≡ ok e (input r es)

    module _ (operand : Parser F (Expr F)) (op_of : Token F → Option BinOpKind) where
      more_operands_end :
          (n : ℕ) (e : Expr F) (r : Tokens F)
          → op_of (token (first r)) ≡ none
          → Reads (more_operands operand op_of (suc n) e) r e r
      unfolding more_operands
      more_operands_end n e r q = rw (q, more_operands) refl

      more_operands_two :
          (n : ℕ) (r : Tokens F) (s : Spanned F) (us : Tokens F) (o : BinOpKind) (a b : Expr F)
          → op_of (token s) ≡ some o
          → Reads operand us b r
          → op_of (token (first r)) ≡ none
          → height_expr (bin_op a o b) ≤ 256
          → Reads (more_operands operand op_of (suc (suc n)) a) (cons s us) (bin_op a o b) r
      unfolding more_operands advance_spanned
      more_operands_two n r s us o a b q p q' h =
          let c = check_expr_depth-low (bin_op a o b) (current_line (input r es)) (input r es) h in
          rw (q, more_operands, p, c) (more_operands_end n (bin_op a o b) r q')

      parse_binary_one :
          (ts r : Tokens F) (e : Expr F)
          → Reads operand ts e r
          → op_of (token (first r)) ≡ none
          → Reads (parse_binary op_of operand) ts e r
      unfolding parse_binary with_fuel
      parse_binary_one ts r e p q = rw p (more_operands_end (left r) e r q)

      parse_binary_two :
          (ts r : Tokens F) (s : Spanned F) (us : Tokens F) (o : BinOpKind) (a b : Expr F)
          → Reads operand ts a (cons s us)
          → op_of (token s) ≡ some o
          → Reads operand us b r
          → op_of (token (first r)) ≡ none
          → height_expr (bin_op a o b) ≤ 256
          → Reads (parse_binary op_of operand) ts (bin_op a o b) r
      unfolding parse_binary with_fuel left
      parse_binary_two ts r s us o a b p q p' q' h =
          rw p (more_operands_two (left us) r s us o a b q p' q' h)

    module _ (operand : Parser F (Expr F)) (ts r : Tokens F) (e : Expr F)
        (p : Reads operand ts e r) where
      to_mul_div : mul_div_op (token (first r)) ≡ none → Reads (parse_mul_div operand) ts e r
      unfolding parse_mul_div
      to_mul_div a = parse_binary_one operand mul_div_op ts r e p a

      to_add_sub :
          mul_div_op (token (first r)) ≡ none
          → add_sub_op (token (first r)) ≡ none
          → Reads (parse_add_sub operand) ts e r
      unfolding parse_add_sub
      to_add_sub a b = parse_binary_one (parse_mul_div operand) add_sub_op ts r e (to_mul_div a) b

      to_comparison :
          mul_div_op (token (first r)) ≡ none
          → add_sub_op (token (first r)) ≡ none
          → comparison_op (token (first r)) ≡ none
          → Reads (parse_comparison operand) ts e r
      unfolding parse_comparison
      to_comparison a b c =
          parse_binary_one (parse_add_sub operand) comparison_op ts r e (to_add_sub a b) c

      to_and :
          mul_div_op (token (first r)) ≡ none
          → add_sub_op (token (first r)) ≡ none
          → comparison_op (token (first r)) ≡ none
          → and_op (token (first r)) ≡ none
          → Reads (parse_and operand) ts e r
      unfolding parse_and
      to_and a b c d =
          parse_binary_one (parse_comparison operand) and_op ts r e (to_comparison a b c) d

      pub to_or :
          mul_div_op (token (first r)) ≡ none
          → add_sub_op (token (first r)) ≡ none
          → comparison_op (token (first r)) ≡ none
          → and_op (token (first r)) ≡ none
          → or_op (token (first r)) ≡ none
          → Reads (parse_or operand) ts e r
      unfolding parse_or
      to_or a b c d f = parse_binary_one (parse_and operand) or_op ts r e (to_and a b c d) f

    module _ (operand : Parser F (Expr F)) (l : ℕ) (ts r : Tokens F) (e : Expr F) where
      -- Before a parenthesis that closes, a level is done when the tighter one is.
      abbrev BeforeParen : Parser F (Expr F) → Type 0
      BeforeParen p = Reads p ts e (cons (spanned Token.r_paren l) r)

      done_and : BeforeParen (parse_and operand) → BeforeParen (parse_or operand)
      unfolding parse_or or_op
      done_and p = parse_binary_one (parse_and operand) or_op ts _ e p refl

      done_comparison : BeforeParen (parse_comparison operand) → BeforeParen (parse_or operand)
      unfolding parse_or parse_and and_op
      done_comparison p =
          done_and (parse_binary_one (parse_comparison operand) and_op ts _ e p refl)

      done_add_sub : BeforeParen (parse_add_sub operand) → BeforeParen (parse_or operand)
      unfolding parse_or parse_comparison comparison_op
      done_add_sub p =
          done_comparison (parse_binary_one (parse_add_sub operand) comparison_op ts _ e p refl)

      done_mul_div : BeforeParen (parse_mul_div operand) → BeforeParen (parse_or operand)
      unfolding parse_or parse_add_sub add_sub_op
      done_mul_div p =
          done_add_sub (parse_binary_one (parse_mul_div operand) add_sub_op ts _ e p refl)

    module _ (operand : Parser F (Expr F)) (l : ℕ) (ts us r : Tokens F) (a b : Expr F)
        (q : Reads operand us b (cons (spanned Token.r_paren l) r)) (k : BinOpKind)
        (p : Reads operand ts a (cons (spanned (op_token k) l) us))
        (h : height_expr (bin_op a k b) ≤ 256) where
      abbrev Operation : Type 0
      Operation = BeforeParen operand l ts r (bin_op a k b) (parse_or operand)

      at_mul_div : mul_div_op {F = F} (op_token k) ≡ some k → Operation
      unfolding parse_mul_div mul_div_op
      at_mul_div f =
          done_mul_div operand l ts r (bin_op a k b)
            (parse_binary_two operand mul_div_op ts _ _ us k a b p f q refl h)

      at_add_sub :
          mul_div_op {F = F} (op_token k) ≡ none
          → add_sub_op {F = F} (op_token k) ≡ some k
          → Operation
      unfolding parse_add_sub mul_div_op add_sub_op
      at_add_sub x f = done_add_sub operand l ts r (bin_op a k b) (
          parse_binary_two (parse_mul_div operand) add_sub_op ts _ _ us k a b
            (to_mul_div operand ts _ a p x) f (to_mul_div operand us _ b q refl) refl h)

      at_comparison :
          mul_div_op {F = F} (op_token k) ≡ none
          → add_sub_op {F = F} (op_token k) ≡ none
          → comparison_op {F = F} (op_token k) ≡ some k
          → Operation
      unfolding parse_comparison mul_div_op add_sub_op comparison_op
      at_comparison x y f = done_comparison operand l ts r (bin_op a k b) (
          parse_binary_two (parse_add_sub operand) comparison_op ts _ _ us k a b
            (to_add_sub operand ts _ a p x y) f (to_add_sub operand us _ b q refl refl) refl h)

      at_and :
          mul_div_op {F = F} (op_token k) ≡ none
          → add_sub_op {F = F} (op_token k) ≡ none
          → comparison_op {F = F} (op_token k) ≡ none
          → and_op {F = F} (op_token k) ≡ some k
          → Operation
      unfolding parse_and mul_div_op add_sub_op comparison_op and_op
      at_and x y z f = done_and operand l ts r (bin_op a k b) (
          parse_binary_two (parse_comparison operand) and_op ts _ _ us k a b
            (to_comparison operand ts _ a p x y z) f (to_comparison operand us _ b q refl refl refl)
            refl h)

      at_or :
          mul_div_op {F = F} (op_token k) ≡ none
          → add_sub_op {F = F} (op_token k) ≡ none
          → comparison_op {F = F} (op_token k) ≡ none
          → and_op {F = F} (op_token k) ≡ none
          → or_op {F = F} (op_token k) ≡ some k
          → Operation
      unfolding parse_or mul_div_op add_sub_op comparison_op and_op or_op
      at_or x y z w f =
          parse_binary_two (parse_and operand) or_op ts _ _ us k a b
            (to_and operand ts _ a p x y z w) f (to_and operand us _ b q refl refl refl refl) refl h

    -- Whatever its level, an operation between two operands, before a parenthesis that closes.
    pub parse_or_operation :
        (operand : Parser F (Expr F)) (l : ℕ) (ts us r : Tokens F) (o : BinOpKind) (a b : Expr F)
        → Reads operand ts a (cons (spanned (op_token o) l) us)
        → Reads operand us b (cons (spanned Token.r_paren l) r)
        → height_expr (bin_op a o b) ≤ 256
        → Reads (parse_or operand) ts (bin_op a o b) (cons (spanned Token.r_paren l) r)
    unfolding or_op and_op comparison_op add_sub_op mul_div_op op_token
    parse_or_operation d l ts us r BinOpKind.mul a b p q h =
        at_mul_div d l ts us r a b q BinOpKind.mul p h refl
    parse_or_operation d l ts us r BinOpKind.div a b p q h =
        at_mul_div d l ts us r a b q BinOpKind.div p h refl
    parse_or_operation d l ts us r BinOpKind.rem a b p q h =
        at_mul_div d l ts us r a b q BinOpKind.rem p h refl
    parse_or_operation d l ts us r BinOpKind.add a b p q h =
        at_add_sub d l ts us r a b q BinOpKind.add p h refl refl
    parse_or_operation d l ts us r BinOpKind.sub a b p q h =
        at_add_sub d l ts us r a b q BinOpKind.sub p h refl refl
    parse_or_operation d l ts us r BinOpKind.eq a b p q h =
        at_comparison d l ts us r a b q BinOpKind.eq p h refl refl refl
    parse_or_operation d l ts us r BinOpKind.not_eq a b p q h =
        at_comparison d l ts us r a b q BinOpKind.not_eq p h refl refl refl
    parse_or_operation d l ts us r BinOpKind.lt a b p q h =
        at_comparison d l ts us r a b q BinOpKind.lt p h refl refl refl
    parse_or_operation d l ts us r BinOpKind.gt a b p q h =
        at_comparison d l ts us r a b q BinOpKind.gt p h refl refl refl
    parse_or_operation d l ts us r BinOpKind.lt_eq a b p q h =
        at_comparison d l ts us r a b q BinOpKind.lt_eq p h refl refl refl
    parse_or_operation d l ts us r BinOpKind.gt_eq a b p q h =
        at_comparison d l ts us r a b q BinOpKind.gt_eq p h refl refl refl
    parse_or_operation d l ts us r BinOpKind.and a b p q h =
        at_and d l ts us r a b q BinOpKind.and p h refl refl refl refl
    parse_or_operation d l ts us r BinOpKind.or a b p q h =
        at_or d l ts us r a b q BinOpKind.or p h refl refl refl refl refl
