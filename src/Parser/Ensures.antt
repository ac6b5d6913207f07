-- ===== src/Parser/Ensures.antt =====
-- src/parser.rs: what a parser promises of its result and of the tokens that it leaves.
use tsumugi.Base.{
  ℕ, suc, ◌≤◌, ◌<◌, ◌≡◌, refl, Bool, true, false, ◌&&◌, ◌||◌, List, arith, ◌⊎◌, inl, inr,
  if◌then◌else◌, Text,
}
use tsumugi.Lexer.Token.{Token, Spanned, Tokens, nil, cons, token, line}
use tsumugi.Parser.Outcome.{
  parse_error, ParseMessage, ParseError, Input, Outcome, Parser, input, ok, failed, bind, pure, run,
}
use tsumugi.Parser.Reader.{
  first, rest, left, others, advance_spanned, expect, expect_newline, expect_newline_or_eof,
  drop_newlines, drop_line, skip_newlines, reject_line, discard_current_line, take_name, same_token,
  next_is,
}

-- A result has `P` and leaves fewer than `m` tokens. A failure leaves fewer than `n`, or just `u`.
pub data Ensures {F A : Type 0} (P : A → Type 0) (m n : ℕ) (u : Tokens F)
    : Outcome F A → Type 0 where
  holds : {a : A} (j : Input F) → P a → left (rest j) < m → Ensures P m n u (ok a j)
  rejected :
      {e : ParseError F} (j : Input F)
      → (left (rest j) < n) ⊎ (rest j ≡ u)
      → Ensures P m n u (failed e j)

abbrev pub Any : {A : Type 0} → A → Type 0
Any a = Unit {0}

module _ {F : Type 0} where
  -- It may take no token.
  abbrev pub Keeps : {A : Type 0} → (A → Type 0) → Parser F A → Type 0
  Keeps P p = (i : Input F) (m : ℕ) (u : Tokens F) → left (rest i) < m → Ensures P m m u (p i)

  -- A result has taken a token, a failure has too, or has left all as it was.
  abbrev pub Eats : {A : Type 0} → (A → Type 0) → Parser F A → Type 0
  Eats P p = (i : Input F) → Ensures P (left (rest i)) (left (rest i)) (rest i) (p i)

  -- Where there is a token, both have taken one.
  abbrev pub Bites : {A : Type 0} → (A → Type 0) → Parser F A → Type 0
  Bites P p =
      (s : Spanned F) (ts : Tokens F) (es : List (ParseError F)) (u : Tokens F)
      → Ensures P (suc (left ts)) (suc (left ts)) u (p (input (cons s ts) es))

  module _ {A : Type 0} {P : A → Type 0} where
    pub Ensures-mono :
        {m n m' n' : ℕ} {u u' : Tokens F} {o : Outcome F A}
        → m ≤ m'
        → n ≤ n'
        → ((ts : Tokens F) → ts ≡ u → (left ts < n') ⊎ (ts ≡ u'))
        → Ensures P m n u o
        → Ensures P m' n' u' o
    Ensures-mono a b c (holds j p h) = holds j p (omega (arith, a, h))
    Ensures-mono a b c (rejected j (inl h)) = rejected j (inl (omega (arith, b, h)))
    Ensures-mono a b c (rejected j (inr h)) = rejected j (c (rest j) h)

    pub Ensures-bind :
        {B : Type 0} {Q : B → Type 0} {m m' n : ℕ} {u : Tokens F} {o : Outcome F A}
        {k : A → Input F → Outcome F B}
        → Ensures P m n u o
        → ((a : A) (j : Input F) → P a → left (rest j) < m → Ensures Q m' n u (k a j))
        → Ensures Q m' n u (bind o k)
    Ensures-bind (holds {a} j p h) f = f a j p h
    Ensures-bind (rejected j h) f = rejected j h

    pub Ensures-weaken :
        {Q : A → Type 0} {m n : ℕ} {u : Tokens F} {o : Outcome F A}
        → ((a : A) → P a → Q a)
        → Ensures P m n u o
        → Ensures Q m n u o
    Ensures-weaken f (holds {a} j p h) = holds j (f a p) h
    Ensures-weaken f (rejected j h) = rejected j h

    pub Eats-Keeps : {p : Parser F A} → Eats P p → Keeps P p
    Eats-Keeps {p} e i m u h =
        Ensures-mono (omega (arith, h)) (omega (arith, h)) (λ ts q. inl (rw q h)) (e i)

    -- Both bounds loosened where a token was taken before.
    pub Keeps-after :
        {p : Parser F A} {m n : ℕ}
        → Keeps P p
        → (i : Input F) (u : Tokens F) → left (rest i) < m
        → m ≤ n
        → Ensures P m n u (p i)
    Keeps-after {p} {m} {n} k i u h b = Ensures-mono (omega arith) b (λ ts q. inr q) (k i m u h)

  pub length-drop_newlines : (ts : Tokens F) → left (drop_newlines ts) ≤ left ts
  unfolding drop_newlines left
  length-drop_newlines nil = omega arith
  length-drop_newlines (cons s ss) = ground (arith, length-drop_newlines ss)

  pub length-drop_line : (ts : Tokens F) → left (drop_line ts) ≤ left ts
  unfolding drop_line left
  length-drop_line nil = omega arith
  length-drop_line (cons s ss) = ground (arith, length-drop_line ss)

  length-others : (ts : Tokens F) → left (others ts) ≤ left ts
  unfolding left
  length-others nil = omega arith
  length-others (cons s ss) = omega arith

  pub advance-Keeps : Keeps Any (advance_spanned {F = F})
  unfolding advance_spanned
  advance-Keeps (input ts es) m u h =
      holds (input (others ts) es) tt (omega (arith, h, length-others ts))

  pub Ensures-if :
      {A : Type 0} {P : A → Type 0} {m n : ℕ} {u : Tokens F} (b : Bool) {x y : Outcome F A}
      → (b ≡ true → Ensures P m n u x)
      → (b ≡ false → Ensures P m n u y)
      → Ensures P m n u (if b then x else y)
  Ensures-if true h k = h refl
  Ensures-if false h k = k refl

  pub expect-Keeps : (t : Token F) → Keeps Any (expect t)
  unfolding expect advance_spanned
  expect-Keeps t (input ts es) m u h =
      let j = input (others ts) es in
      let b : left (rest j) < m = omega (arith, h, length-others ts) in
      Ensures-if (same_token (token (first ts)) t) (λ e. holds j tt b)
        λ e.
          Ensures-if
            (same_token (token (first ts)) Token.eof
              && (same_token t Token.end || same_token t Token.catch))
            (λ d. rejected j (inl b)) (λ d. rejected j (inl b))

  pub expect_newline-Keeps : Keeps Any (expect_newline {F = F})
  unfolding expect_newline
  expect_newline-Keeps i m u h =
      Ensures-if (next_is Token.newline i)
        (λ e. Ensures-bind (advance-Keeps i m u h) λ s j p b. holds j tt b)
        λ e. Ensures-if (next_is Token.eof i) (λ d. holds i tt h) (λ d. rejected i (inl h))

  pub expect_newline_or_eof-Keeps : Keeps Any (expect_newline_or_eof {F = F})
  unfolding expect_newline_or_eof
  expect_newline_or_eof-Keeps i m u h =
      Ensures-if (next_is Token.newline i)
        (λ e. Ensures-bind (advance-Keeps i m u h) λ s j p b. holds j tt b)
        λ e. Ensures-if (next_is Token.eof i) (λ d. holds i tt h) (λ d. rejected i (inl h))

  pub skip_newlines-Keeps : Keeps Any (skip_newlines {F = F})
  unfolding skip_newlines
  skip_newlines-Keeps (input ts es) m u h =
      holds (input (drop_newlines ts) es) tt (omega (arith, h, length-drop_newlines ts))

  pub reject_line-Keeps : (e : ParseMessage F) → Keeps Any (reject_line e)
  unfolding reject_line discard_current_line
  reject_line-Keeps e (input ts es) m u h =
      holds (input (drop_line ts) es) tt (omega (arith, h, length-drop_line ts))

  pub take_name-Keeps : (f : Token F → ParseMessage F) → Keeps Any (take_name f)
  unfolding take_name
  take_name-Keeps f i m u h =
      Ensures-bind (advance-Keeps i m u h) λ s j p b. by_token (token s) s j b
    where
      by_token :
          (t : Token F) (s : Spanned F) (j : Input F)
          → left (rest j) < m
          → Ensures Any m m u (
              run {A = Text} j (elim t [
                | Token.ident name ↦ pure name
                | other ↦ λ i. failed (parse_error (line s) (f other)) i
              ]))
      by_token (Token.ident name) s j b = holds j tt b
      by_token _ s j b = rejected j (inl b)
