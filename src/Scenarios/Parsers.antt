-- ===== src/Scenarios/Parsers.antt =====
-- Small sources for src/parser.rs.
use tsumugi.Base.{pos, ℕ, ◌≡◌, refl, some, codes, Result, List, [], ◌∷◌, arith, ◌⊎◌, ok}
use tsumugi.Lexer.Token.{Token, Tokens, spanned, nil, cons}
use tsumugi.Ast.Depth.Height.{height_expr}
use tsumugi.Parser.Printer.{is_plain, print_expr}
use tsumugi.Parser.RoundTrip.Programs.{parse-print_expr}
use tsumugi.Ast.{
  UnaryOpKind, BinOpKind, with_expr, no_exprs, expr_stmt, Block, Expr, fn_def, return_stmt, assign,
}
use tsumugi.Ast.Depth.{validate_program_depth}
use tsumugi.Ast.Depth.Height.{size_block}
use tsumugi.Parser.Outcome.{ParseError}
use tsumugi.Parser.Operators.{or_op, and_op, comparison_op, add_sub_op, mul_div_op}
use tsumugi.Parser.Grammar.{parse}
use tsumugi.Parser.Placed.Program.{parse-answers, validate_program_depth-parse, IsAccepted}

-- `fn f(x)`, `return x`, `end`, `y = f` on a line each
abbrev function_tokens : Tokens ℕ
function_tokens = cons (spanned Token.fn 1) (
    cons (spanned (Token.ident (codes "f")) 1) (
      cons (spanned Token.l_paren 1) (
        cons (spanned (Token.ident (codes "x")) 1) (
          cons (spanned Token.r_paren 1) (
            cons (spanned Token.newline 1) (
              cons (spanned Token.return_word 2) (
                cons (spanned (Token.ident (codes "x")) 2) (
                  cons (spanned Token.newline 2) (
                    cons (spanned Token.end 3) (
                      cons (spanned Token.newline 3) (
                        cons (spanned (Token.ident (codes "y")) 4) (
                          cons (spanned Token.assign 4) (
                            cons (spanned (Token.ident (codes "f")) 4)
                              (cons (spanned Token.eof 4) nil))))))))))))))

abbrev function_program : Block ℕ
function_program =
    Block.cons
      (fn_def (codes "f") (codes "x" ∷ [])
        (Block.cons (return_stmt (Expr.ident (codes "x")) 2) Block.nil) 1)
      (Block.cons (assign (codes "y") (Expr.ident (codes "f")) 4) Block.nil)

parse-function : parse function_tokens ≡ some (ok function_program)
unfolding parse or_op and_op comparison_op add_sub_op mul_div_op
parse-function = refl

parse-answers_example :
    ((program : Block ℕ) × (parse function_tokens ≡ some (Result.ok program)) × IsAccepted program)
    ⊎ ((e : ParseError ℕ) × (es : List (ParseError ℕ)) × (parse function_tokens
          ≡ some (Result.err (e ∷ es))))
parse-answers_example = parse-answers function_tokens

validate_program_depth-parse_example :
    validate_program_depth 9 function_program ≡ some (Result.ok tt)
unfolding size_block
validate_program_depth-parse_example =
    validate_program_depth-parse function_tokens function_program 9 parse-function (omega arith)

-- `not (f(1, x) - [y["k"]])`
abbrev sample : Expr ℕ
sample = Expr.unary_op UnaryOpKind.not (
    Expr.bin_op
      (Expr.call (Expr.ident (codes "f"))
        (with_expr (Expr.int (pos 1)) (with_expr (Expr.ident (codes "x")) no_exprs)))
      BinOpKind.sub
      (Expr.list (with_expr (Expr.index (Expr.ident (codes "y")) (Expr.str (codes "k"))) no_exprs)))

parse-print_expr_example :
    parse (print_expr 7 sample (cons (spanned Token.eof 8) nil))
    ≡ some (Result.ok (Block.cons (expr_stmt sample 7) Block.nil))
unfolding is_plain height_expr
parse-print_expr_example = parse-print_expr 7 8 sample refl (omega arith)
