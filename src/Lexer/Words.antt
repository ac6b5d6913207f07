-- ===== src/Lexer/Words.antt =====
-- src/lexer.rs: the tokens of words, symbols, numbers and strings that were read.
use tsumugi.Base.{
  ℕ, ◌+◌, ◌-◌, ◌*◌, ◌^◌, pos, Option, none, some, List, [], ◌∷◌, leb, if◌then◌else◌, same_text,
  codes, Text,
}
use tsumugi.Lexer.Token.{
  Token, LexError, int, float, str, true_word, false_word, null, ident, let_word, fn, return_word,
  if_word, else_word, elif, while, for, in_word, break, continue, end, and, or, not_word, print,
  import, try, catch, plus, minus, star, slash, percent, assign, eq, not_eq, lt, gt, lt_eq, gt_eq,
  l_paren, r_paren, l_bracket, r_bracket, l_brace, r_brace, comma, colon, unknown, error,
}
use tsumugi.Lexer.Scan.{Lexeme, starts_with, rest_of}

abbrev pub i64_max : ℕ
i64_max = 2 ^ 63 - 1

-- `str::parse::<i64>` on digits: each step is checked.
unfoldable pub parse_digits : ℕ → Text → Option ℕ
parse_digits n [] = some n
parse_digits n (c ∷ cs) =
    let n' = n * 10 + (c - b'0') in
    let rest = parse_digits n' cs in if leb n' i64_max then rest else none

module _ {F : Type 0} where
  -- The first entry for a key.
  unfoldable pub find_word : Text → List (Text × Token F) → Option (Token F)
  find_word s [] = none
  find_word s ((w, t) ∷ ts) = let rest = find_word s ts in if same_text s w then some t else rest

  abbrev pub keywords : List (Text × Token F)
  keywords =
      (codes "let", let_word)
      ∷ (codes "fn", fn)
      ∷ (codes "return", return_word)
      ∷ (codes "if", if_word)
      ∷ (codes "else", else_word)
      ∷ (codes "elif", elif)
      ∷ (codes "while", while)
      ∷ (codes "for", for)
      ∷ (codes "in", in_word)
      ∷ (codes "break", break)
      ∷ (codes "continue", continue)
      ∷ (codes "end", end)
      ∷ (codes "and", and)
      ∷ (codes "or", or)
      ∷ (codes "not", not_word)
      ∷ (codes "true", true_word)
      ∷ (codes "false", false_word)
      ∷ (codes "null", null)
      ∷ (codes "print", print)
      ∷ (codes "import", import)
      ∷ (codes "try", try)
      ∷ (codes "catch", catch)
      ∷ []

  unfoldable pub word_token : Text → Token F
  unfolding find_word
  word_token s = elim (find_word s keywords) [ some t ↦ t | none ↦ ident s ]

  abbrev pub symbols : List (Text × Token F)
  symbols =
      (codes "+", plus)
      ∷ (codes "-", minus)
      ∷ (codes "*", star)
      ∷ (codes "/", slash)
      ∷ (codes "%", percent)
      ∷ (codes "(", l_paren)
      ∷ (codes ")", r_paren)
      ∷ (codes "[", l_bracket)
      ∷ (codes "]", r_bracket)
      ∷ (codes "{", l_brace)
      ∷ (codes "}", r_brace)
      ∷ (codes ":", colon)
      ∷ (codes ",", comma)
      ∷ (codes "=", assign)
      ∷ (codes "<", lt)
      ∷ (codes ">", gt)
      ∷ []

  -- The symbols of two characters.
  abbrev pub with_equals : List (Text × Token F)
  with_equals = (codes "=", eq) ∷ (codes "!", not_eq) ∷ (codes "<", lt_eq) ∷ (codes ">", gt_eq) ∷ []

  abbrev pub one_symbol : ℕ → Token F
  one_symbol c = elim (find_word (c ∷ []) symbols) [ some t ↦ t | none ↦ unknown c ]

  -- The token of a symbol, and what is left of the input after it.
  unfoldable pub read_symbol : ℕ → Text → Token F × Text
  unfolding find_word
  read_symbol c cs =
      if starts_with b'=' cs
      then (elim (find_word (c ∷ []) with_equals) [
        | some t ↦ (t, rest_of cs)
        | none ↦ (one_symbol c, cs)
      ])
      else (one_symbol c, cs)

  unfoldable pub number_token : (Text → Option F) → Lexeme → Token F
  unfolding parse_digits
  number_token parse_float l =
      if l.flag
      then (elim (parse_float l.text) [
        | some x ↦ float x
        | none ↦ error (LexError.bad_float l.text)
      ])
      else (elim (parse_digits 0 l.text) [
        | some n ↦ int (pos n)
        | none ↦ error (LexError.int_range l.text)
      ])

  unfoldable pub string_token : Lexeme → Token F
  string_token l = if l.flag then str l.text else error LexError.open_string
