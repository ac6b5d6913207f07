-- ===== src/Lexer/Stream/Nesting.antt =====
-- src/lexer.rs: how deep f-strings stand in each other, and the tokens without any.
use tsumugi.Base.{
  ℕ, suc, ◌≤◌, ◌≡◌, refl, max, Bool, true, false, Option, none, some, List, [], ◌∷◌, arith, Text,
  same_text, Bool-cases, Option-cases, inl, inr, ◌&&◌,
}
use tsumugi.Lexer.Token.{
  Token, FStrPart, Parts, Spanned, Tokens, newline, eof, fstr, literal, expr, no_parts, with_part,
  spanned, nil, cons, is_eof, is_newline, token,
}
use tsumugi.Lexer.Scan.{Lexeme, starts_with, rest_of}
use tsumugi.Lexer.Words.{
  find_word, keywords, symbols, with_equals, one_symbol, word_token, read_symbol, number_token,
  string_token, parse_digits,
}
use tsumugi.Lexer.Stream.{push_part, flush_literal, significant}

unfoldable mutual
  -- 0 for a token that is not an f-string, and for one without expressions.
  pub nesting : {F : Type 0} → Token F → ℕ
  nesting (fstr ps) = nesting_parts ps
  nesting _ = 0

  pub nesting_parts : {F : Type 0} → Parts F → ℕ
  nesting_parts no_parts = 0
  nesting_parts (with_part p ps) = max (nesting_part p) (nesting_parts ps)

  pub nesting_part : {F : Type 0} → FStrPart F → ℕ
  nesting_part (literal s) = 0
  nesting_part (expr ts) = suc (nesting_tokens ts)

  pub nesting_tokens : {F : Type 0} → Tokens F → ℕ
  nesting_tokens nil = 0
  nesting_tokens (cons s ss) = max (nesting_spanned s) (nesting_tokens ss)

  pub nesting_spanned : {F : Type 0} → Spanned F → ℕ
  nesting_spanned (spanned t l) = nesting t

-- Neither an end nor an f-string with expressions.
pub record IsPlain {F : Type 0} (t : Token F) : Type 0 where
  pub not_eof : is_eof t ≡ false
  pub not_newline : is_newline t ≡ false
  pub flat : nesting t ≡ 0

module _ {F : Type 0} where
  pub nesting_parts-push_part :
      (ps : Parts F) (p : FStrPart F)
      → nesting_parts (push_part ps p) ≡ max (nesting_parts ps) (nesting_part p)
  unfolding nesting
  nesting_parts-push_part no_parts p = omega arith
  nesting_parts-push_part (with_part q qs) p = omega (arith, nesting_parts-push_part qs p)

  pub nesting_parts-flush_literal :
      (lit : Text) (ps : Parts F) → nesting_parts (flush_literal lit ps) ≡ nesting_parts ps
  unfolding nesting
  nesting_parts-flush_literal [] ps = refl
  nesting_parts-flush_literal (c ∷ cs) ps =
      omega (arith, nesting_parts-push_part ps (literal (c ∷ cs)))

  pub nesting_tokens-significant :
      (ts : Tokens F) → nesting_tokens (significant ts) ≤ nesting_tokens ts
  unfolding nesting significant
  nesting_tokens-significant nil = omega arith
  nesting_tokens-significant (cons s ss) = ground (
    arith,
    nesting_tokens-significant ss,
    Bool-cases (is_eof (token s)),
    Bool-cases (is_newline (token s)),
  )

  plain : Token F → Bool
  plain (fstr ps) = false
  plain newline = false
  plain eof = false
  plain _ = true

  plain-IsPlain : (t : Token F) → plain t ≡ true → IsPlain t
  unfolding plain is_eof is_newline nesting
  plain-IsPlain (fstr ps) h = cc
  plain-IsPlain newline h = cc
  plain-IsPlain eof h = cc
  plain-IsPlain _ h = record { not_eof = refl; not_newline = refl; flat = refl }

  all_plain : List (Text × Token F) → Bool
  all_plain [] = true
  all_plain (e ∷ es) = plain e.1 && all_plain es

  find_word-plain :
      (s : Text) (ts : List (Text × Token F)) (t : Token F)
      → all_plain ts ≡ true
      → find_word s ts ≡ some t
      → plain t ≡ true
  unfolding find_word all_plain
  find_word-plain s [] t a e = cc
  find_word-plain s ((w, u) ∷ ts) t a e = elim (Bool-cases (same_text s w)) [
    | inl b ↦ let same : u ≡ t = ground (arith, e, b) in ground (arith, a, same)
    | inr b ↦ find_word-plain s ts t (ground (arith, a)) (ground (arith, e, b))
  ]

  -- A token from a table of plain ones, or a plain one in its place.
  or_default-plain :
      (o : Option (Token F)) (d : Token F)
      → plain d ≡ true
      → ((t : Token F) → o ≡ some t → plain t ≡ true)
      → plain (elim o [ some t ↦ t | none ↦ d ]) ≡ true
  or_default-plain none d h f = h
  or_default-plain (some t) d h f = f t refl

  or_pair-plain :
      (o : Option (Token F)) (d : Token F) (r r' : Text)
      → plain d ≡ true
      → ((t : Token F) → o ≡ some t → plain t ≡ true)
      → (let p : Token F × Text = elim o [ some t ↦ (t, r) | none ↦ (d, r') ] in plain p.0 ≡ true)
  or_pair-plain none d r r' h f = h
  or_pair-plain (some t) d r r' h f = f t refl

  pub word_token-IsPlain : (s : Text) → IsPlain (word_token {F = F} s)
  unfolding word_token all_plain plain
  word_token-IsPlain s =
      plain-IsPlain (word_token s) (
        or_default-plain (find_word s keywords) _ refl (λ t e. find_word-plain s keywords t refl e))

  pub read_symbol-IsPlain : (c : ℕ) (cs : Text) → IsPlain (read_symbol {F = F} c cs).0
  unfolding read_symbol all_plain plain
  read_symbol-IsPlain c cs =
      let one : plain (one_symbol {F = F} c) ≡ true =
        or_default-plain (find_word (c ∷ []) symbols) _ refl
          (λ t e. find_word-plain (c ∷ []) symbols t refl e) in
      let two =
        or_pair-plain (find_word (c ∷ []) with_equals) (one_symbol c) (rest_of cs) cs one
          (λ t e. find_word-plain (c ∷ []) with_equals t refl e) in
      plain-IsPlain (read_symbol c cs).0
        (ground (arith, two, one, Bool-cases (starts_with b'=' cs)))

  pub string_token-IsPlain : (l : Lexeme) → IsPlain (string_token {F = F} l)
  unfolding string_token plain
  string_token-IsPlain l = elim (Bool-cases l.flag) [
    | inl b ↦ rw b (plain-IsPlain _ refl)
    | inr b ↦ rw b (plain-IsPlain _ refl)
  ]

  pub number_token-IsPlain : (f : Text → Option F) (l : Lexeme) → IsPlain (number_token f l)
  unfolding number_token plain
  number_token-IsPlain f l = elim (Bool-cases l.flag) [
    | inl b ↦ elim (Option-cases (f l.text)) [
      | inl n ↦ rw (b, n) (plain-IsPlain _ refl)
      | inr (x, n) ↦ rw (b, n) (plain-IsPlain _ refl)
    ]
    | inr b ↦ elim (Option-cases (parse_digits 0 l.text)) [
      | inl n ↦ rw (b, n) (plain-IsPlain _ refl)
      | inr (x, n) ↦ rw (b, n) (plain-IsPlain _ refl)
    ]
  ]
