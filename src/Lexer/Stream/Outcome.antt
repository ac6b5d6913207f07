-- ===== src/Lexer/Stream/Outcome.antt =====
-- src/lexer.rs: what the readers of a token promise, and how the promises are put together.
use tsumugi.Base.{
  ℕ, ◌+◌, ◌≤◌, ◌<◌, ◌≡◌, refl, subst, true, false, Option, none, some, if◌then◌else◌, arith, Text,
  length, Bool-cases, inl, inr, ◌⊎◌,
}
use tsumugi.Lexer.Token.{
  Token, LexError, FStrPart, Spanned, Tokens, error, expr, spanned, nil, cons, is_eof, is_newline,
  token, line,
}
use tsumugi.Lexer.Stream.{Step, significant, expr_part}
use tsumugi.Lexer.Stream.Nesting.{
  nesting, nesting_part, nesting_tokens, IsPlain, nesting_tokens-significant,
}

-- The line after a token.
abbrev pub after : {F : Type 0} → Token F → ℕ → ℕ
after t l = if is_newline t then l + 1 else l

-- The tokens stand on their lines, the last and only the last is `Eof`.
pub data IsStream {F : Type 0} : ℕ → Tokens F → Type 0 where
  last : {l : ℕ} (s : Spanned F) → line s ≡ l → is_eof (token s) ≡ true → IsStream l (cons s nil)
  then_more :
      {l : ℕ} {ss : Tokens F} (s : Spanned F)
      → line s ≡ l
      → is_eof (token s) ≡ false
      → IsStream (after (token s) l) ss
      → IsStream l (cons s ss)

module _ {F : Type 0} where
  -- A token was read at `line` from `size` characters, in a lexer at `depth`.
  abbrev pub IsStep : ℕ → ℕ → ℕ → Option (Step F) → Type 0
  IsStep size depth l none = true ≡ false
  IsStep size depth l (some s) =
      (line s.next ≡ l)
      × (s.line ≡ after (token s.next) l)
      × ((is_eof (token s.next) ≡ true) ⊎ (length s.rest < size))
      × (length s.rest ≤ size)
      × (nesting (token s.next) + depth ≤ 256)

  -- The token of an f-string was read.
  abbrev pub IsRead : ℕ → ℕ → Option (Token F × Text) → Type 0
  IsRead size depth none = true ≡ false
  IsRead size depth (some (t, rest)) =
      (is_eof t ≡ false) × (is_newline t ≡ false) × (nesting t + depth ≤ 256) × (length rest ≤ size)

  abbrev pub IsAll : ℕ → ℕ → Option (Tokens F) → Type 0
  IsAll depth l none = true ≡ false
  IsAll depth l (some ts) = IsStream l ts × (nesting_tokens ts + depth ≤ 256)

  pub IsRead-mono :
      (size size' depth : ℕ) (o : Option (Token F × Text))
      → size ≤ size'
      → IsRead size depth o
      → IsRead size' depth o
  IsRead-mono size size' depth none h r = r
  IsRead-mono size size' depth (some (t, rest)) h (a, b, c, d) = (a, b, c, omega (arith, d, h))

  pub IsStep-mono :
      (size size' depth l : ℕ) (o : Option (Step F))
      → size ≤ size'
      → IsStep size depth l o
      → IsStep size' depth l o
  IsStep-mono size size' depth l none h r = r
  IsStep-mono size size' depth l (some s) h (a, b, c, d, e) =
      (a, b, ground (arith, c, h), omega (arith, d, h), e)

  pub plain-IsStep :
      (t : Token F) (rest : Text) (depth l size : ℕ)
      → depth ≤ 256
      → IsPlain t
      → length rest < size
      → IsStep size depth l (some (record { next = spanned t l; line = l; rest = rest }))
  plain-IsStep t rest depth l size h p b =
      (refl, ground (arith, p.not_newline), inr b, omega (arith, b), omega (arith, p.flat, h))

  pub fstring-IsStep :
      (o : Option (Token F × Text)) (depth l size size' : ℕ)
      → size < size'
      → IsRead size depth o
      → IsStep size' depth l (elim o [
        | none ↦ none
        | some (t, rest) ↦ some (record { next = spanned t l; line = l; rest = rest })
      ])
  fstring-IsStep none depth l size size' h r = r
  fstring-IsStep (some (t, rest)) depth l size size' h (a, b, c, d) =
      (refl, ground (arith, b), inr (omega (arith, d, h)), omega (arith, d, h), c)

  after_tokens :
      (k : FStrPart F → Option (Token F × Text)) (ts : Tokens F) (size depth : ℕ) (rest : Text)
      → depth < 256
      → length rest ≤ size
      → nesting_tokens ts + (depth + 1) ≤ 256
      → ((p : FStrPart F) → nesting_part p + depth ≤ 256 → IsRead size depth (k p))
      → IsRead size depth
          (elim (expr_part ts) [ none ↦ some (error LexError.empty_expr, rest) | some p ↦ k p ])
  unfolding expr_part nesting is_eof is_newline
  after_tokens k nil size depth rest h b c f = (refl, refl, omega (arith, h), b)
  after_tokens k (cons s ss) size depth rest h b c f = f (expr (cons s ss)) (omega (arith, c))

  pub after_expr :
      (k : FStrPart F → Option (Token F × Text)) (o : Option (Tokens F)) (size depth : ℕ)
      (rest : Text)
      → depth < 256
      → length rest ≤ size
      → IsAll ((depth + 1)) 1 o
      → ((p : FStrPart F) → nesting_part p + depth ≤ 256 → IsRead size depth (k p))
      → IsRead size depth (elim o [
        | none ↦ none
        | some ts ↦ elim (expr_part (significant ts)) [
          | none ↦ some (error LexError.empty_expr, rest)
          | some p ↦ k p
        ]
      ])
  after_expr k none size depth rest h b r f = r
  after_expr k (some ts) size depth rest h b (r, c) f =
      after_tokens k (significant ts) size depth rest h b
        (omega (arith, nesting_tokens-significant ts, c)) f

  one_more :
      (s : Spanned F) (o : Option (Tokens F)) (depth l : ℕ)
      → line s ≡ l
      → is_eof (token s) ≡ false
      → nesting (token s) + depth ≤ 256
      → IsAll depth (after (token s) l) o
      → IsAll depth l (elim o [ none ↦ none | some ts ↦ some (cons s ts) ])
  unfolding nesting
  one_more s none depth l a e b r = r
  one_more (spanned t k) (some ts) depth l a e b (r, c) =
      (then_more (spanned t k) a e r, omega (arith, b, c))

  only_one :
      (s : Spanned F) (depth l : ℕ)
      → line s ≡ l
      → is_eof (token s) ≡ true
      → nesting (token s) + depth ≤ 256
      → IsAll depth l (some (cons s nil))
  unfolding nesting
  only_one (spanned t k) depth l a e b = (last (spanned t k) a e, omega (arith, b))

  pub after_step :
      (k : Step F → Option (Tokens F)) (o : Option (Step F)) (size depth l : ℕ)
      → IsStep size depth l o
      → ((s : Step F) → length s.rest < size → IsAll depth s.line (k s))
      → IsAll depth l (elim o [
        | none ↦ none
        | some s ↦ elim (is_eof (token s.next)) [
          | true ↦ some (cons s.next nil)
          | false ↦ elim (k s) [ none ↦ none | some ts ↦ some (cons s.next ts) ]
        ]
      ])
  after_step k none size depth l r f = r
  after_step k (some s) size depth l (a, b, c, d, e) f = elim (Bool-cases (is_eof (token s.next))) [
    | inl z ↦ rw z (only_one s.next depth l a z e)
    | inr z ↦
        let smaller : length s.rest < size = ground (arith, c, z) in
        let more = subst (λ x. IsAll depth x (k s)) b (f s smaller) in
        rw z (one_more s.next (k s) depth l a z e more)
  ]
