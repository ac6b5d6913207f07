-- ===== src/Lexer/Stream/Strings.antt =====
-- src/lexer.rs: a text that is written as a string literal is read back.
use tsumugi.Base.{
  ℕ, suc, ◌≡◌, refl, ap, true, false, Option, some, [], ◌∷◌, ◌++◌, ◌==◌, if◌then◌else◌, arith, Text,
  Bool-cases, ==_iff, inl, inr, ◌∙◌,
}
use tsumugi.Lexer.Token.{str}
use tsumugi.Lexer.Scan.{char_kind, unescape, scan_string, push, skip_spaces}
use tsumugi.Lexer.Words.{string_token}
use tsumugi.Lexer.Stream.{next_token, start_of, step}

-- The characters that cannot stand for themselves in a literal, with a backslash before them.
unfoldable pub escape : Text → Text
escape [] = []
escape (c ∷ cs) =
    let rest = escape cs in
    if c == b'\n'
    then b'\\' ∷ b'n' ∷ rest
    else (if c == b'"'
        then b'\\' ∷ b'"' ∷ rest
        else (if c == b'\\' then b'\\' ∷ b'\\' ∷ rest else c ∷ rest))

-- Characters without a meaning in a string stand for themselves.
scan_string-push :
    (c : ℕ) (cs : Text)
    → (c == b'\n') ≡ false
    → (c == b'"') ≡ false
    → (c == b'\\') ≡ false
    → scan_string (c ∷ cs) ≡ push c (scan_string cs)
unfolding scan_string char_kind
scan_string-push c [] a b d = ground (arith, a, b, d)
scan_string-push c (x ∷ cs) a b d = ground (arith, a, b, d)

close_string :
    (rest : Text) → scan_string (b'"' ∷ rest) ≡ (record { text = []; flag = true; rest = rest })
unfolding scan_string char_kind
close_string [] = refl
close_string (c ∷ cs) = refl

scan_string-escape :
    (s rest : Text)
    → scan_string (escape s ++ b'"' ∷ rest) ≡ (record { text = s; flag = true; rest = rest })
unfolding escape scan_string char_kind unescape
scan_string-escape [] rest = close_string rest
scan_string-escape (c ∷ s) rest =
    let ih = ap (push c) (scan_string-escape s rest) in
    elim (Bool-cases (c == b'\n')) [
      | inl h ↦ let same = (==_iff c b'\n').0 h in rw (h, same) (rw same at ih)
      | inr a ↦ elim (Bool-cases (c == b'"')) [
        | inl h ↦ let same = (==_iff c b'"').0 h in rw (a, h, same) (rw same at ih)
        | inr b ↦ elim (Bool-cases (c == b'\\')) [
          | inl h ↦ let same = (==_iff c b'\\').0 h in rw (a, b, h, same) (rw same at ih)
          | inr d ↦ rw (a, b, d) (scan_string-push c (escape s ++ b'"' ∷ rest) a b d ∙ ih)
        ]
      ]
    ]

-- Any text, written between quotes with its newlines, quotes and backslashes escaped, is read by
-- the lexer as the string token of that text, whatever follows, and nothing of what follows is
-- taken.
pub next_token-escape :
    {F : Type 0} (f : Text → Option F) (n depth l : ℕ) (s rest : Text)
    → next_token f (suc (suc n)) depth l (b'"' ∷ (escape s ++ b'"' ∷ rest))
      ≡ some (step (str s) l rest)
unfolding next_token skip_spaces start_of string_token
next_token-escape f n depth l s rest = rw (scan_string-escape s rest) refl
