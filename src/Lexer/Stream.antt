-- ===== src/Lexer/Stream.antt =====
-- src/lexer.rs: the token at a position, f-strings with the lexers of their expressions, and the
-- whole stream. The position is what is left of the input. Fuel bounds the depth of the calls.
pub mod Nesting
pub mod Outcome
pub mod Total
pub mod Strings
use tsumugi.Base.{
  ℕ, zero, suc, ◌+◌, ◌≡◌, Bool, true, false, ◌||◌, Option, none, some, List, [], ◌∷◌, ◌++◌, ◌==◌,
  leb, if◌then◌else◌, ok, err, Text,
}
use tsumugi.Limits.{max_ast_depth}
use tsumugi.Lexer.Token.{
  Token, LexError, FStrPart, Parts, Spanned, Tokens, newline, eof, fstr, error, literal, expr,
  no_parts, with_part, spanned, nil, cons, is_eof, is_newline, token,
}
use tsumugi.Lexer.Scan.{
  CharKind, line_end, quote, brace_open, brace_close, backslash, other, char_kind, is_digit,
  is_letter, starts_with, rest_of, skip_spaces, skip_comment, scan_number, unescape, scan_string,
  scan_word, scan_expr,
}
use tsumugi.Lexer.Words.{word_token, read_symbol, number_token, string_token}

-- What the first character of a token says about it.
pub data Start : Type 0 where
  at_comment at_newline at_string at_number at_fstring at_word at_symbol : Start

unfoldable pub start_of : ℕ → Text → Start
start_of c cs =
    if c == b'#'
    then at_comment
    else (if c == b'\n'
        then at_newline
        else (if c == b'"'
            then at_string
            else (if is_digit c
                then at_number
                else (if is_letter c || c == b'_'
                    then (if c == b'f'
                        then (if starts_with b'"' cs then at_fstring else at_word)
                        else at_word)
                    else at_symbol))))

-- `unescape` of the next character.
abbrev pub escape_of : Text → Option ℕ
escape_of [] = none
escape_of (c ∷ cs) = unescape c

-- A token, the line after it, and what is left of the input.
pub record Step (F : Type 0) : Type 0 where
  pub next : Spanned F
  pub line : ℕ
  pub rest : Text

module _ {F : Type 0} where
  abbrev pub step : Token F → ℕ → Text → Step F
  step t line rest = record { next = spanned t line; line = line; rest = rest }

  abbrev pub push_part : Parts F → FStrPart F → Parts F
  push_part no_parts p = with_part p no_parts
  push_part (with_part q qs) p = with_part q (push_part qs p)

  -- The literal that was read so far becomes a part, unless it is empty.
  abbrev pub flush_literal : Text → Parts F → Parts F
  flush_literal [] ps = ps
  flush_literal (c ∷ cs) ps = push_part ps (literal (c ∷ cs))

  -- The filter on `Eof` and `Newline`.
  unfoldable pub significant : Tokens F → Tokens F
  unfolding is_eof is_newline
  significant nil = nil
  significant (cons s ss) =
      let rest = significant ss in
      if is_eof (token s) || is_newline (token s) then rest else cons s rest

  -- The tokens of an expression as the next part, or the error for none.
  unfoldable pub expr_part : Tokens F → Option (FStrPart F)
  expr_part nil = none
  expr_part (cons s ss) = some (expr (cons s ss))

module _ {F : Type 0} (parse_float : Text → Option F) where
  unfoldable mutual
    pub next_token : ℕ → ℕ → ℕ → Text → Option (Step F)
    next_token zero depth line cs = none
    next_token (suc n) depth line cs = token_at n depth line (skip_spaces cs)

    pub token_at : ℕ → ℕ → ℕ → Text → Option (Step F)
    token_at zero depth line cs = none
    token_at (suc n) depth line [] = some (step eof line [])
    token_at (suc n) depth line (c ∷ cs) = elim (start_of c cs) [
      | at_comment ↦ next_token n depth line (skip_comment (c ∷ cs))
      | at_newline ↦ some (record { next = spanned newline line; line = line + 1; rest = cs })
      | at_string ↦ some (step (string_token (scan_string cs)) line (scan_string cs).rest)
      | at_number ↦
          let l = scan_number false (c ∷ cs) in some (step (number_token parse_float l) line l.rest)
      | at_fstring ↦ elim (read_fstring n depth [] no_parts (rest_of cs)) [
        | none ↦ none
        | some (t, rest) ↦ some (step t line rest)
      ]
      | at_word ↦ let l = scan_word (c ∷ cs) in some (step (word_token l.text) line l.rest)
      | at_symbol ↦ let (t, rest) = read_symbol c cs in some (step t line rest)
    ]

    -- The loop of `read_fstring`, after the opening quote.
    pub read_fstring : ℕ → ℕ → Text → Parts F → Text → Option (Token F × Text)
    read_fstring zero depth lit ps cs = none
    read_fstring (suc n) depth lit ps [] = some (error LexError.open_fstring, [])
    read_fstring (suc n) depth lit ps (c ∷ cs) = elim (char_kind c) [
      | line_end ↦ some (error LexError.open_fstring, c ∷ cs)
      | quote ↦ some (fstr (flush_literal lit ps), cs)
      | brace_open ↦ elim (starts_with b'{' cs) [
        | true ↦ read_fstring n depth (lit ++ b'{' ∷ []) ps (rest_of cs)
        | false ↦ read_expr n depth (flush_literal lit ps) cs
      ]
      | brace_close ↦ elim (starts_with b'}' cs) [
        | true ↦ read_fstring n depth (lit ++ b'}' ∷ []) ps (rest_of cs)
        | false ↦ some (error LexError.stray_brace, c ∷ cs)
      ]
      | backslash ↦ elim (escape_of cs) [
        | some e ↦ read_fstring n depth (lit ++ e ∷ []) ps (rest_of cs)
        | none ↦ read_fstring n depth (lit ++ b'\\' ∷ []) ps cs
      ]
      | other ↦ read_fstring n depth (lit ++ c ∷ []) ps cs
    ]

    -- `read_fstring_expr`, and the rest of the f-string after it.
    pub read_expr : ℕ → ℕ → Parts F → Text → Option (Token F × Text)
    read_expr zero depth ps cs = none
    read_expr (suc n) depth ps cs =
        let (scanned, rest) = scan_expr 0 cs in
        elim scanned [
          | err e ↦ some (error e, rest)
          | ok chars ↦ elim (leb max_ast_depth depth) [
            | true ↦ some (error LexError.too_deep, rest)
            | false ↦ elim (tokenize n (depth + 1) 1 chars) [
              | none ↦ none
              | some ts ↦ elim (expr_part (significant ts)) [
                | none ↦ some (error LexError.empty_expr, rest)
                | some p ↦ read_fstring n depth [] (push_part ps p) rest
              ]
            ]
          ]
        ]

    pub tokenize : ℕ → ℕ → ℕ → Text → Option (Tokens F)
    tokenize zero depth line cs = none
    tokenize (suc n) depth line cs = elim (next_token n depth line cs) [
      | none ↦ none
      | some s ↦ elim (is_eof (token s.next)) [
        | true ↦ some (cons s.next nil)
        | false ↦ elim (tokenize n depth s.line s.rest) [
          | none ↦ none
          | some ts ↦ some (cons s.next ts)
        ]
      ]
    ]
