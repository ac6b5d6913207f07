-- ===== src/Lexer/Scan/Shrink.antt =====
-- src/lexer.rs: no reader gives back more than it was given.
use tsumugi.Base.{
  ℕ, ◌+◌, ◌-◌, ◌≤◌, ◌≡◌, refl, Bool, ◌||◌, [], ◌∷◌, ◌==◌, ok, err, length, arith, Text, Bool-cases,
  Option-cases, inl, inr, ◌⊎◌,
}
use tsumugi.Lexer.Scan.{
  CharKind, ExprScan, char_kind, unescape, skip_spaces, skip_comment, scan_number, scan_string,
  scan_word, scan_expr, scan_expr_string, rest_of, keep,
}
use tsumugi.Lexer.Words.{read_symbol, find_word, with_equals}

pub length-skip_spaces : (cs : Text) → length (skip_spaces cs) ≤ length cs
unfolding skip_spaces
length-skip_spaces [] = omega arith
length-skip_spaces (c ∷ cs) = ground (arith, length-skip_spaces cs)

pub length-skip_comment : (cs : Text) → length (skip_comment cs) ≤ length cs
unfolding skip_comment
length-skip_comment [] = omega arith
length-skip_comment (c ∷ cs) = ground (arith, length-skip_comment cs)

pub length-rest_of : (cs : Text) → length (rest_of cs) ≤ length cs
length-rest_of [] = omega arith
length-rest_of (c ∷ cs) = omega arith

pub length-scan_number : (b : Bool) (cs : Text) → length (scan_number b cs).rest ≤ length cs
unfolding scan_number
length-scan_number b [] = omega arith
length-scan_number b (c ∷ cs) = ground (arith, length-scan_number (b || c == b'.') cs)

pub length-scan_word : (cs : Text) → length (scan_word cs).rest ≤ length cs
unfolding scan_word
length-scan_word [] = omega arith
length-scan_word (c ∷ cs) = ground (arith, length-scan_word cs)

pub CharKind-cases :
    (k : CharKind)
    → (k ≡ CharKind.line_end)
      ⊎ ((k ≡ CharKind.quote)
          ⊎ ((k ≡ CharKind.brace_open)
              ⊎ ((k ≡ CharKind.brace_close) ⊎ ((k ≡ CharKind.backslash) ⊎ (k ≡ CharKind.other)))))
CharKind-cases CharKind.line_end = inl refl
CharKind-cases CharKind.quote = inr (inl refl)
CharKind-cases CharKind.brace_open = inr (inr (inl refl))
CharKind-cases CharKind.brace_close = inr (inr (inr (inl refl)))
CharKind-cases CharKind.backslash = inr (inr (inr (inr (inl refl))))
CharKind-cases CharKind.other = inr (inr (inr (inr (inr refl))))

pub length-scan_string : (cs : Text) → length (scan_string cs).rest ≤ length cs
unfolding scan_string
length-scan_string [] = omega arith
length-scan_string (c ∷ []) = ground (arith, CharKind-cases (char_kind c))
length-scan_string (c ∷ x ∷ cs) = ground (
  arith,
  CharKind-cases (char_kind c),
  Option-cases (unescape x),
  length-scan_string cs,
  length-scan_string (x ∷ cs),
)

-- What a scan leaves, with what it has read and the closing brace.
abbrev pub consumed : ExprScan → ℕ
consumed (ok chars, rest) = length chars + 1 + length rest
consumed (err e, rest) = length rest

consumed-keep : (c : ℕ) (s : ExprScan) → consumed (keep c s) ≤ consumed s + 1
consumed-keep c (ok cs, rest) = omega arith
consumed-keep c (err e, rest) = omega arith

mutual
  unfolding scan_expr scan_expr_string

  pub consumed-scan_expr : (k : ℕ) (cs : Text) → consumed (scan_expr k cs) ≤ length cs
  consumed-scan_expr k [] = omega arith
  consumed-scan_expr k (c ∷ cs) = ground (
    arith,
    CharKind-cases (char_kind c),
    Bool-cases (k == 0),
    consumed-scan_expr (k + 1) cs,
    consumed-scan_expr (k - 1) cs,
    consumed-scan_expr k cs,
    consumed-scan_expr_string k cs,
    consumed-keep c (scan_expr (k + 1) cs),
    consumed-keep c (scan_expr (k - 1) cs),
    consumed-keep c (scan_expr k cs),
    consumed-keep c (scan_expr_string k cs),
  )

  pub consumed-scan_expr_string : (k : ℕ) (cs : Text) → consumed (scan_expr_string k cs) ≤ length cs
  consumed-scan_expr_string k [] = omega arith
  consumed-scan_expr_string k (c ∷ []) = ground (
    arith,
    CharKind-cases (char_kind c),
    consumed-scan_expr k [],
    consumed-scan_expr_string k [],
    consumed-keep c (scan_expr k []),
    consumed-keep c (scan_expr_string k []),
  )
  consumed-scan_expr_string k (c ∷ x ∷ cs) = ground (
    arith,
    CharKind-cases (char_kind c),
    consumed-scan_expr k (x ∷ cs),
    consumed-scan_expr_string k (x ∷ cs),
    consumed-scan_expr_string k cs,
    consumed-keep c (scan_expr k (x ∷ cs)),
    consumed-keep c (scan_expr_string k (x ∷ cs)),
    consumed-keep c (keep x (scan_expr_string k cs)),
    consumed-keep x (scan_expr_string k cs),
  )

pub length-read_symbol :
    (F : Type 0) (c : ℕ) (cs : Text) → length (read_symbol {F = F} c cs).1 ≤ length cs
unfolding read_symbol
length-read_symbol F c [] = omega arith
length-read_symbol F c (x ∷ cs) =
    ground (arith, Option-cases (find_word {F = F} (c ∷ []) with_equals))
