-- ===== src/Lexer/Scan.antt =====
-- src/lexer.rs: the readers that need no other token: blanks, numbers, strings, words, symbols,
-- and the characters of an expression in an f-string.
pub mod Shrink
use tsumugi.Base.{
  ℕ, zero, suc, ◌+◌, ◌-◌, ◌*◌, ◌^◌, ℤ, pos, Bool, true, false, not, ◌&&◌, ◌||◌, Option, none, some,
  List, [], ◌∷◌, ◌==◌, leb, if◌then◌else◌, Result, ok, err, same_text, codes, Text,
}
use tsumugi.Lexer.Token.{
  Token, LexError, int, float, str, true_word, false_word, null, ident, let_word, fn, return_word,
  if_word, else_word, elif, while, for, in_word, break, continue, end, and, or, not_word, print,
  import, try, catch, plus, minus, star, slash, percent, assign, eq, not_eq, lt, gt, lt_eq, gt_eq,
  l_paren, r_paren, l_bracket, r_bracket, l_brace, r_brace, comma, colon, unknown, error,
}

-- What the character means inside a string or an f-string.
pub data CharKind : Type 0 where
  line_end quote brace_open brace_close backslash other : CharKind

unfoldable pub char_kind : ℕ → CharKind
char_kind c =
    if c == b'\n'
    then line_end
    else (if c == b'"'
        then quote
        else (if c == b'{'
            then brace_open
            else (if c == b'}' then brace_close else (if c == b'\\' then backslash else other))))

abbrev pub is_digit : ℕ → Bool
is_digit c = leb b'0' c && leb c b'9'

abbrev pub is_letter : ℕ → Bool
is_letter c = (leb b'a' c && leb c b'z') || (leb b'A' c && leb c b'Z')

abbrev pub is_blank : ℕ → Bool
is_blank c = c == b' ' || (c == b'\t' || c == b'\r')

-- `peek() == Some(c)`
abbrev pub starts_with : ℕ → Text → Bool
starts_with c [] = false
starts_with c (x ∷ xs) = x == c

-- `advance()` where the character is known.
abbrev pub rest_of : Text → Text
rest_of [] = []
rest_of (x ∷ xs) = xs

unfoldable pub skip_spaces : Text → Text
skip_spaces [] = []
skip_spaces (c ∷ cs) = let rest = skip_spaces cs in if is_blank c then rest else c ∷ cs

unfoldable pub skip_comment : Text → Text
skip_comment [] = []
skip_comment (c ∷ cs) = let rest = skip_comment cs in if c == b'\n' then c ∷ cs else rest

-- The text that was read, a flag, and what is left of the input. The flag says that a number has a
-- point, or that a string was closed.
pub record Lexeme : Type 0 where
  pub text : Text
  pub flag : Bool
  pub rest : Text

abbrev pub push : ℕ → Lexeme → Lexeme
push c l = record l { text = c ∷ l.text }

abbrev pub digit_follows : Text → Bool
digit_follows [] = false
digit_follows (c ∷ cs) = is_digit c

-- A point belongs to the number if it is the first and a digit follows.
unfoldable pub scan_number : Bool → Text → Lexeme
scan_number is_float [] = record { text = []; flag = is_float; rest = [] }
scan_number is_float (c ∷ cs) =
    let more = push c (scan_number (is_float || c == b'.') cs) in
    if is_digit c || (c == b'.' && (not is_float && digit_follows cs))
    then more
    else record { text = []; flag = is_float; rest = c ∷ cs }

-- `\n`, `\t`, `\\` and `\"`: the character that stands after the backslash, and what it means.
unfoldable pub unescape : ℕ → Option ℕ
unescape c =
    if c == b'n'
    then some b'\n'
    else (if c == b't'
        then some b'\t'
        else (if c == b'\\' then some b'\\' else (if c == b'"' then some b'"' else none)))

-- After the opening quote. A string does not pass the end of the line.
unfoldable pub scan_string : Text → Lexeme
scan_string [] = record { text = []; flag = false; rest = [] }
scan_string (c ∷ []) = elim (char_kind c) [
  | line_end ↦ record { text = []; flag = false; rest = c ∷ [] }
  | quote ↦ record { text = []; flag = true; rest = [] }
  | _ ↦ push c (scan_string [])
]
scan_string (c ∷ x ∷ cs) = elim (char_kind c) [
  | line_end ↦ record { text = []; flag = false; rest = c ∷ x ∷ cs }
  | quote ↦ record { text = []; flag = true; rest = x ∷ cs }
  | backslash ↦ elim (unescape x) [
    | some e ↦ push e (scan_string cs)
    | none ↦ push c (scan_string (x ∷ cs))
  ]
  | _ ↦ push c (scan_string (x ∷ cs))
]

unfoldable pub scan_word : Text → Lexeme
scan_word [] = record { text = []; flag = false; rest = [] }
scan_word (c ∷ cs) =
    let more = push c (scan_word cs) in
    if is_letter c || (is_digit c || c == b'_')
    then more
    else record { text = []; flag = false; rest = c ∷ cs }

-- What was read of an expression, or why it ended, and what is left of the input.
abbrev pub ExprScan : Type 0
ExprScan = Result Text LexError × Text

abbrev pub keep : ℕ → ExprScan → ExprScan
keep c (ok cs, rest) = (ok (c ∷ cs), rest)
keep c (err e, rest) = (err e, rest)

-- Up to the brace that closes the expression; `k` braces are open inside it.
unfoldable mutual
  pub scan_expr : ℕ → Text → ExprScan
  scan_expr k [] = (err LexError.open_expr, [])
  scan_expr k (c ∷ cs) = elim (char_kind c) [
    | line_end ↦ (err LexError.open_expr, c ∷ cs)
    | brace_open ↦ keep c (scan_expr (k + 1) cs)
    | brace_close ↦ elim (k == 0) [ true ↦ (ok [], cs) | false ↦ keep c (scan_expr (k - 1) cs) ]
    | quote ↦ keep c (scan_expr_string k cs)
    | _ ↦ keep c (scan_expr k cs)
  ]

  -- The string inside the expression, taken as it is; an escaped character may be any.
  pub scan_expr_string : ℕ → Text → ExprScan
  scan_expr_string k [] = (err LexError.open_expr_string, [])
  scan_expr_string k (c ∷ []) = elim (char_kind c) [
    | line_end ↦ (err LexError.open_expr_string, c ∷ [])
    | quote ↦ keep c (scan_expr k [])
    | _ ↦ keep c (scan_expr_string k [])
  ]
  scan_expr_string k (c ∷ x ∷ cs) = elim (char_kind c) [
    | line_end ↦ (err LexError.open_expr_string, c ∷ x ∷ cs)
    | quote ↦ keep c (scan_expr k (x ∷ cs))
    | backslash ↦ keep c (keep x (scan_expr_string k cs))
    | _ ↦ keep c (scan_expr_string k (x ∷ cs))
  ]
