-- ===== src/Scenarios/Lexers.antt =====
-- Small sources for src/lexer.rs.
use tsumugi.Base.{
  ℕ, ◌+◌, ◌≤◌, ◌≡◌, refl, arith, pos, some, none, Option, ◌∷◌, ◌++◌, codes, same_text, Text,
}
use tsumugi.Lexer.Token.{
  Tokens, spanned, cons, nil, fstr, with_part, no_parts, expr, int, str, eof, ident, newline,
  is_eof, is_newline,
}
use tsumugi.Lexer.Scan.{skip_spaces, scan_number, scan_expr, char_kind, scan_word}
use tsumugi.Lexer.Words.{number_token, parse_digits, word_token, find_word}
use tsumugi.Lexer.Stream.{next_token, tokenize, step, start_of, significant, expr_part}
use tsumugi.Lexer.Stream.Nesting.{nesting_tokens}
use tsumugi.Lexer.Stream.Outcome.{IsStream}
use tsumugi.Lexer.Stream.Total.{enough, tokenize_total, tokenize-nesting}
use tsumugi.Lexer.Stream.Strings.{escape, next_token-escape}

-- In place of the parser of floating-point numbers.
abbrev no_float : Text → Option ℕ
no_float s = none

abbrev source : Text
source = codes "f\"{1}\"\nx"

source_tokens : Tokens ℕ
source_tokens =
    cons (spanned (fstr (with_part (expr (cons (spanned (int (pos 1)) 1) nil)) no_parts)) 1)
      (cons (spanned newline 1) (cons (spanned (ident (codes "x")) 2) (cons (spanned eof 2) nil)))

enough-source : enough source ≤ 40
unfolding enough
enough-source = omega arith

tokenize_total_example :
    (ts : Tokens ℕ) × (tokenize no_float 40 0 1 source ≡ some ts) × IsStream 1 ts
tokenize_total_example = tokenize_total no_float source 40 enough-source

tokenize-source : tokenize no_float 40 0 1 source ≡ some source_tokens
unfolding tokenize source_tokens is_eof is_newline skip_spaces scan_number scan_expr char_kind
    scan_word number_token parse_digits word_token find_word same_text start_of significant
    expr_part
tokenize-source = refl

tokenize-nesting_example : nesting_tokens source_tokens + 0 ≤ 256
tokenize-nesting_example =
    tokenize-nesting no_float 40 0 1 source source_tokens (omega arith) enough-source
      tokenize-source

next_token-escape_example :
    next_token no_float 2 0 7 (b'"' ∷ (escape (codes "a\"b") ++ b'"' ∷ codes "+"))
    ≡ some (step (str (codes "a\"b")) 7 (codes "+"))
next_token-escape_example = next_token-escape no_float 0 0 7 (codes "a\"b") (codes "+")
