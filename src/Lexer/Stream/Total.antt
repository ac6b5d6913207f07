-- ===== src/Lexer/Stream/Total.antt =====
-- src/lexer.rs: the lexer comes to an end, with the tokens on their lines.
use tsumugi.Base.{
  ℕ, zero, suc, ◌+◌, ◌*◌, ◌≤◌, ◌<◌, ◌≡◌, refl, subst, false, Option, some, [], ◌∷◌, ◌++◌, arith,
  Text, leb, length, Bool-cases, Option-cases, ◌||◌, ◌==◌, Result-cases, inl, inr, ◌⊎◌, ok, err,
}
use tsumugi.Lexer.Token.{LexError, Parts, Tokens, no_parts, is_eof, is_newline}
use tsumugi.Lexer.Scan.{
  char_kind, ExprScan, starts_with, rest_of, skip_spaces, skip_comment, scan_number, scan_string,
  scan_word, scan_expr,
}
use tsumugi.Lexer.Words.{word_token, read_symbol, number_token, string_token}
use tsumugi.Lexer.Scan.Shrink.{
  length-skip_spaces, length-skip_comment, length-rest_of, length-scan_number, length-scan_word,
  length-scan_string, length-read_symbol, consumed-scan_expr, CharKind-cases, consumed,
}
use tsumugi.Lexer.Stream.{
  Start, start_of, escape_of, push_part, flush_literal, next_token, token_at, read_fstring,
  read_expr, tokenize, at_comment, at_newline, at_string, at_number, at_fstring, at_word, at_symbol,
}
use tsumugi.Lexer.Stream.Nesting.{
  nesting, nesting_parts, nesting_tokens, nesting_parts-push_part, nesting_parts-flush_literal,
  word_token-IsPlain, read_symbol-IsPlain, string_token-IsPlain, number_token-IsPlain,
}
use tsumugi.Lexer.Stream.Outcome.{
  IsStream, IsStep, IsRead, IsAll, IsRead-mono, IsStep-mono, plain-IsStep, fstring-IsStep,
  after_expr, after_step,
}

Start-cases :
    (s : Start)
    → (s ≡ at_comment)
      ⊎ ((s ≡ at_newline)
          ⊎ ((s ≡ at_string)
              ⊎ ((s ≡ at_number) ⊎ ((s ≡ at_fstring) ⊎ ((s ≡ at_word) ⊎ (s ≡ at_symbol))))))
Start-cases at_comment = inl refl
Start-cases at_newline = inr (inl refl)
Start-cases at_string = inr (inr (inl refl))
Start-cases at_number = inr (inr (inr (inl refl)))
Start-cases at_fstring = inr (inr (inr (inr (inl refl))))
Start-cases at_word = inr (inr (inr (inr (inr (inl refl)))))
Start-cases at_symbol = inr (inr (inr (inr (inr (inr refl)))))

comment_start :
    (c : ℕ) (cs : Text) → start_of c cs ≡ at_comment → length (skip_comment (c ∷ cs)) ≤ length cs
unfolding start_of skip_comment
comment_start c cs h = ground (arith, h, length-skip_comment cs)

number_start :
    (c : ℕ) (cs : Text)
    → start_of c cs ≡ at_number
    → length (scan_number false (c ∷ cs)).rest ≤ length cs
unfolding start_of scan_number
number_start c cs h = ground (arith, h, length-scan_number (false || c == b'.') cs)

word_start :
    (c : ℕ) (cs : Text) → start_of c cs ≡ at_word → length (scan_word (c ∷ cs)).rest ≤ length cs
unfolding start_of scan_word
word_start c cs h = ground (arith, h, length-scan_word cs)

fstring_start : (c : ℕ) (cs : Text) → start_of c cs ≡ at_fstring → length (rest_of cs) < length cs
unfolding start_of
fstring_start c [] h = ground (arith, h)
fstring_start c (x ∷ cs) h = omega arith

err-consumed : (s : ExprScan) (e : LexError) → s.0 ≡ err e → length s.1 ≤ consumed s
err-consumed (ok chars, rest) e h = omega arith
err-consumed (err e', rest) e h = omega arith

ok-consumed :
    (s : ExprScan) (chars : Text) → s.0 ≡ ok chars → length chars + 1 + length s.1 ≤ consumed s
ok-consumed (ok chars', rest) chars h = ground (arith, h)
ok-consumed (err e', rest) chars h = cc

module _ {F : Type 0} (f : Text → Option F) where
  mutual
    unfolding next_token is_eof is_newline nesting

    next_token-IsStep :
        (n depth l : ℕ) (cs : Text)
        → depth ≤ 256
        → 3 * length cs + 3 ≤ n
        → IsStep (length cs) depth l (next_token f n depth l cs)
    next_token-IsStep zero depth l cs h b = absurd (omega (arith, b))
    next_token-IsStep (suc n) depth l cs h b =
        let less = length-skip_spaces cs in
        IsStep-mono (length (skip_spaces cs)) (length cs) depth l
          (token_at f n depth l (skip_spaces cs)) less
          (token_at-IsStep n depth l (skip_spaces cs) h (omega (arith, less, b)))

    token_at-IsStep :
        (n depth l : ℕ) (cs : Text)
        → depth ≤ 256
        → 3 * length cs + 2 ≤ n
        → IsStep (length cs) depth l (token_at f n depth l cs)
    token_at-IsStep zero depth l cs h b = absurd (omega (arith, b))
    token_at-IsStep (suc n) depth l [] h b = (refl, refl, inl refl, omega arith, omega (arith, h))
    token_at-IsStep (suc n) depth l (c ∷ cs) h b = elim (Start-cases (start_of c cs)) [
      | inl q ↦
          let less = comment_start c cs q in
          rw (q, token_at)
            (IsStep-mono (length (skip_comment (c ∷ cs))) (length (c ∷ cs)) depth l
              (next_token f n depth l (skip_comment (c ∷ cs))) (omega (arith, less))
              (next_token-IsStep n depth l (skip_comment (c ∷ cs)) h (omega (arith, less, b))))
      | inr (inl q) ↦
          rw (q, token_at) (refl, refl, inr (omega arith), omega arith, omega (arith, h))
      | inr (inr (inl q)) ↦
          rw (q, token_at)
            (plain-IsStep (string_token (scan_string cs)) (scan_string cs).rest depth l
              (length (c ∷ cs)) h (string_token-IsPlain (scan_string cs))
              (omega (arith, length-scan_string cs)))
      | inr (inr (inr (inl q))) ↦
          let r = scan_number false (c ∷ cs) in
          rw (q, token_at)
            (plain-IsStep (number_token f r) r.rest depth l (length (c ∷ cs)) h
              (number_token-IsPlain f r) (omega (arith, number_start c cs q)))
      | inr (inr (inr (inr (inl q)))) ↦
          let less = fstring_start c cs q in
          rw (q, token_at)
            (fstring-IsStep (read_fstring f n depth [] no_parts (rest_of cs)) depth l
              (length (rest_of cs)) (length (c ∷ cs)) (omega (arith, less))
              (read_fstring-IsRead n depth [] no_parts (rest_of cs) h (omega (arith, h))
                (omega (arith, less, b))))
      | inr (inr (inr (inr (inr (inl q))))) ↦
          let r = scan_word (c ∷ cs) in
          rw (q, token_at)
            (plain-IsStep (word_token r.text) r.rest depth l (length (c ∷ cs)) h
              (word_token-IsPlain r.text) (omega (arith, word_start c cs q)))
      | inr (inr (inr (inr (inr (inr q))))) ↦
          rw (q, token_at)
            (plain-IsStep (read_symbol c cs).0 (read_symbol {F = F} c cs).1 depth l
              (length (c ∷ cs)) h (read_symbol-IsPlain c cs)
              (omega (arith, length-read_symbol F c cs)))
    ]

    read_fstring-IsRead :
        (n depth : ℕ) (lit : Text) (ps : Parts F) (cs : Text)
        → depth ≤ 256
        → nesting_parts ps + depth ≤ 256
        → 3 * length cs + 1 ≤ n
        → IsRead (length cs) depth (read_fstring f n depth lit ps cs)
    read_fstring-IsRead zero depth lit ps cs h p b = absurd (omega (arith, b))
    read_fstring-IsRead (suc n) depth lit ps [] h p b = (refl, refl, omega (arith, h), omega arith)
    read_fstring-IsRead (suc n) depth lit ps (c ∷ cs) h p b =
        let more =
          λ (lit' : Text) (ps' : Parts F) (cs' : Text) (less : length cs' ≤ length cs)
              (p' : nesting_parts ps' + depth ≤ 256).
            IsRead-mono (length cs') (length (c ∷ cs)) depth (read_fstring f n depth lit' ps' cs')
              (omega (arith, less))
              (read_fstring-IsRead n depth lit' ps' cs' h p' (omega (arith, less, b))) in
        let shorter = length-rest_of cs in
        elim (CharKind-cases (char_kind c)) [
          | inl q ↦ rw (q, read_fstring) (refl, refl, omega (arith, h), omega arith)
          | inr (inl q) ↦
              rw (q, read_fstring)
                (refl, refl, omega (arith, nesting_parts-flush_literal lit ps, p), omega arith)
          | inr (inr (inl q)) ↦ elim (Bool-cases (starts_with b'{' cs)) [
            | inl z ↦ rw (q, read_fstring, z) (more (lit ++ b'{' ∷ []) ps (rest_of cs) shorter p)
            | inr z ↦
                rw (q, read_fstring, z)
                  (IsRead-mono (length cs) (length (c ∷ cs)) depth
                    (read_expr f n depth (flush_literal lit ps) cs) (omega arith)
                    (read_expr-IsRead n depth (flush_literal lit ps) cs h
                      (omega (arith, nesting_parts-flush_literal lit ps, p)) (omega (arith, b))))
          ]
          | inr (inr (inr (inl q))) ↦ elim (Bool-cases (starts_with b'}' cs)) [
            | inl z ↦ rw (q, read_fstring, z) (more (lit ++ b'}' ∷ []) ps (rest_of cs) shorter p)
            | inr z ↦ rw (q, read_fstring, z) (refl, refl, omega (arith, h), omega arith)
          ]
          | inr (inr (inr (inr (inl q)))) ↦ elim (Option-cases (escape_of cs)) [
            | inl z ↦ rw (q, read_fstring, z) (more (lit ++ b'\\' ∷ []) ps cs (omega arith) p)
            | inr (e, z) ↦ rw (q, read_fstring, z) (more (lit ++ e ∷ []) ps (rest_of cs) shorter p)
          ]
          | inr (inr (inr (inr (inr q)))) ↦
              rw (q, read_fstring) (more (lit ++ c ∷ []) ps cs (omega arith) p)
        ]

    read_expr-IsRead :
        (n depth : ℕ) (ps : Parts F) (cs : Text)
        → depth ≤ 256
        → nesting_parts ps + depth ≤ 256
        → 3 * length cs + 2 ≤ n
        → IsRead (length cs) depth (read_expr f n depth ps cs)
    read_expr-IsRead zero depth ps cs h p b = absurd (omega (arith, b))
    read_expr-IsRead (suc n) depth ps cs h p b =
        let used = consumed-scan_expr 0 cs in
        let rest = (scan_expr 0 cs).1 in
        elim (Result-cases (scan_expr 0 cs).0) [
          | inr (e, q) ↦
              rw (q, read_expr)
                (
                  refl,
                  refl,
                  omega (arith, h),
                  omega (arith, used, err-consumed (scan_expr 0 cs) e q),
                )
          | inl (chars, q) ↦
              let split = ok-consumed (scan_expr 0 cs) chars q in
              elim (Bool-cases (leb 256 depth)) [
                | inl z ↦
                    rw (q, read_expr, z) (refl, refl, omega (arith, h), omega (arith, used, split))
                | inr z ↦
                    let low : depth < 256 = ground (arith, z) in
                    rw (q, read_expr, z)
                      (after_expr (λ part. read_fstring f n depth [] (push_part ps part) rest)
                        (tokenize f n (depth + 1) 1 chars) (length cs) depth rest low
                        (omega (arith, used, split))
                        (tokenize-IsAll n (depth + 1) 1 chars (omega (arith, low))
                          (omega (arith, used, split, b)))
                        (λ part deep.
                          IsRead-mono (length rest) (length cs) depth
                            (read_fstring f n depth [] (push_part ps part) rest)
                            (omega (arith, used, split))
                            (read_fstring-IsRead n depth [] (push_part ps part) rest h
                              (omega (arith, nesting_parts-push_part ps part, deep, p))
                              (omega (arith, used, split, b)))))
              ]
        ]

    tokenize-IsAll :
        (n depth l : ℕ) (cs : Text)
        → depth ≤ 256
        → 3 * length cs + 4 ≤ n
        → IsAll depth l (tokenize f n depth l cs)
    tokenize-IsAll zero depth l cs h b = absurd (omega (arith, b))
    tokenize-IsAll (suc n) depth l cs h b =
        after_step (λ s. tokenize f n depth s.line s.rest) (next_token f n depth l cs) (length cs)
          depth l (next_token-IsStep n depth l cs h (omega (arith, b)))
          (λ s less. tokenize-IsAll n depth s.line s.rest h (omega (arith, b, less)))

-- The fuel that is enough for a source.
unfoldable pub enough : Text → ℕ
enough cs = 3 * length cs + 4

-- With fuel of at least three times the length of the source and four, the lexer gives a list of
-- tokens for any source: the last token and only the last is the end of the input, and the line of
-- each token is one more than the number of newline tokens before it.
pub tokenize_total :
    {F : Type 0} (f : Text → Option F) (cs : Text) (n : ℕ)
    → enough cs ≤ n
    → (ts : Tokens F) × (tokenize f n 0 1 cs ≡ some ts) × IsStream 1 ts
unfolding enough
tokenize_total f cs n h =
    let all = tokenize-IsAll f n 0 1 cs (omega arith) h in
    elim (Option-cases (tokenize f n 0 1 cs)) [
      | inl q ↦ absurd (ground (arith, subst (IsAll 0 1) q all))
      | inr (ts, q) ↦ (ts, q, (subst (IsAll 0 1) q all).0)
    ]

-- The tokens that a lexer gives, at a depth of at most 256 and with enough fuel, hold f-strings
-- nested in each other's expressions no deeper than 256 less its depth.
pub tokenize-nesting :
    {F : Type 0} (f : Text → Option F) (n depth l : ℕ) (cs : Text) (ts : Tokens F)
    → depth ≤ 256
    → enough cs ≤ n
    → tokenize f n depth l cs ≡ some ts
    → nesting_tokens ts + depth ≤ 256
unfolding enough
tokenize-nesting f n depth l cs ts h b q =
    (subst (IsAll depth l) q (tokenize-IsAll f n depth l cs h b)).1
