-- ===== src/Parser/Placed/Program.antt =====
-- src/parser.rs: the loop over the statements of a program, and what it returns.
use tsumugi.Base.{
  ℕ, zero, suc, ◌≤◌, ◌<◌, ◌≡◌, ◌≢◌, refl, subst, true, false, some, List, [], ◌∷◌, ◌++◌, Result,
  arith, ◌⊎◌, inl, inr, Bool-cases, if◌then◌else◌,
}
use tsumugi.Lexer.Token.{Token, Spanned, Tokens, nil, cons, token}
use tsumugi.Ast.{Block, Stmt}
use tsumugi.Ast.Depth.{validate_program_depth}
use tsumugi.Ast.Depth.Height.{height_stmt, height_block, size_block}
use tsumugi.Ast.Depth.Laws.{validate_program_depth-cases}
use tsumugi.Parser.Outcome.{ParseError, Input, Outcome, Parser, input, ok}
use tsumugi.Parser.Reader.{
  left, rest, errors, same_token, is_at_end, drop_newlines, skip_newlines, push_error, with_fuel,
}
use tsumugi.Parser.Grammar.{
  Recovery, stays, steps_over, goes_on, recovery_of, drop_to_stmt, synchronize, parse_stmt,
  parse_stmts, deeper_by, grammar_of, outcome_of, parse, with_parse_depth,
}
use tsumugi.Parser.Ensures.{Ensures, holds, rejected, Ensures-bind, length-drop_newlines}
use tsumugi.Parser.Within.{check_stmt_depth-Keeps}
use tsumugi.Parser.Placed.{placed_stmt, placed_program}
use tsumugi.Parser.Placed.Statements.Blocks.{IsPlacedStmt}
use tsumugi.Parser.Placed.Statements.Levels.{is_keyword, IsSound, deeper_by-IsSound}

module _ {F : Type 0} where
  abbrev IsFine : Stmt F → Type 0
  IsFine s = (placed_stmt true false s ≡ true) × (height_stmt s ≤ 256)

  abbrev pub IsAccepted : Block F → Type 0
  IsAccepted b = (placed_program b ≡ true) × (height_block b ≤ 256)

  length-drop_to_stmt : (ts : Tokens F) → left (drop_to_stmt ts) ≤ left ts
  unfolding drop_to_stmt left
  length-drop_to_stmt nil = omega arith
  length-drop_to_stmt (cons s ts) =
      by_recovery (recovery_of (token s)) refl (length-drop_to_stmt ts)
    where
      by_recovery :
          (r : Recovery)
          → recovery_of (token s) ≡ r
          → left (drop_to_stmt ts) ≤ left ts
          → left (drop_to_stmt (cons s ts)) ≤ suc (left ts)
      by_recovery stays q h = rw (q, drop_to_stmt) (omega arith)
      by_recovery steps_over q h = rw (q, drop_to_stmt) (omega arith)
      by_recovery goes_on q h = rw (q, drop_to_stmt) (omega (arith, h))

  -- The search for a statement stays only at the end or at a word that begins one.
  recovery_of-cases :
      (t : Token F) → is_keyword t ≡ false → same_token t Token.eof ≡ false → recovery_of t ≢ stays
  unfolding is_keyword same_token recovery_of
  recovery_of-cases Token.eof h k e = cc
  recovery_of-cases _ h k e = cc

  drop_to_stmt_moves :
      (s : Spanned F) (ts : Tokens F)
      → recovery_of (token s) ≢ stays
      → left (drop_to_stmt (cons s ts)) ≤ left ts
  unfolding drop_to_stmt left
  drop_to_stmt_moves s ts n = by_recovery (recovery_of (token s)) refl
    where
      by_recovery :
          (r : Recovery) → recovery_of (token s) ≡ r → left (drop_to_stmt (cons s ts)) ≤ left ts
      by_recovery stays q = absurd (n q)
      by_recovery steps_over q = rw (q, drop_to_stmt) (omega arith)
      by_recovery goes_on q = rw (q, drop_to_stmt) (length-drop_to_stmt ts)

  parse_stmt-Ensures :
      (n : ℕ) (s : Spanned F) (ts : Tokens F) (es : List (ParseError F)) (u : Tokens F)
      → (is_keyword (token s) ≡ false → u ≡ cons s ts)
      → Ensures IsFine
          (suc (left ts))
          (suc (left ts))
          u
          (parse_stmt (deeper_by (suc n)) true 0 (input (cons s ts) es))
  unfolding parse_stmt deeper_by with_parse_depth left
  parse_stmt-Ensures n s ts es u h =
      Ensures-bind
        (IsSound.stmt_takes (deeper_by-IsSound (suc n) (grammar_of (deeper_by n)) refl) true 0 s ts
          es u h)
        λ st j p d. check_stmt_depth-Keeps (IsPlacedStmt true false) st p j (suc (left ts)) u d

  -- The tokens that a statement leaves, looked through for the next one.
  after_failure :
      (s : Spanned F) (ts us u : Tokens F)
      → same_token (token s) Token.eof ≡ false
      → (is_keyword (token s) ≡ false → u ≡ cons s ts)
      → (is_keyword (token s) ≡ true → u ≡ nil)
      → (left us < suc (left ts)) ⊎ (us ≡ u)
      → left (drop_newlines (drop_to_stmt us)) ≤ left ts
  unfolding left drop_to_stmt
  after_failure s ts us u end h k (inl d) =
      omega (arith, d, length-drop_to_stmt us, length-drop_newlines (drop_to_stmt us))
  after_failure s ts us u end h k (inr e) = elim (Bool-cases (is_keyword (token s))) [
    | inl q ↦ rw (e, k q) (omega (arith, length-drop_newlines {F = F} nil))
    | inr q ↦
        rw (e, h q)
          (omega (
            arith,
            drop_to_stmt_moves s ts (recovery_of-cases (token s) q end),
            length-drop_newlines (drop_to_stmt (cons s ts)),
          ))
  ]

  -- With a turn for each token, the loop comes to an end.
  pub parse_stmts-accepts :
      (depth n : ℕ) (i : Input F)
      → left (rest i) < n
      → (b : Block F) × (j : Input F) × (parse_stmts (parse_stmt (deeper_by (suc depth)) true 0) n i
          ≡ ok b j)
        × IsAccepted b
  unfolding parse_stmts skip_newlines push_error synchronize same_token left placed_program
      height_block
  parse_stmts-accepts depth zero i h = absurd (omega (arith, h))
  parse_stmts-accepts depth (suc n) (input nil es) h =
      (Block.nil, input nil es, refl, (refl, omega arith))
  parse_stmts-accepts depth (suc n) (input (cons s ts) es) h =
      elim (Bool-cases (is_at_end (input (cons s ts) es))) [
        | inl q ↦ (Block.nil, input (cons s ts) es, rw (q, parse_stmts) refl, (refl, omega arith))
        | inr q ↦
            by_outcome (statement (input (cons s ts) es)) refl
              (parse_stmt-Ensures depth s ts es u before) q (λ j d. parse_stmts-accepts depth n j d)
      ]
    where
      statement : Parser F (Stmt F)
      statement = parse_stmt (deeper_by (suc depth)) true 0

      u : Tokens F
      u = if is_keyword (token s) then nil else cons s ts

      before : is_keyword (token s) ≡ false → u ≡ cons s ts
      before q = rw q refl

      by_outcome :
          (o : Outcome F (Stmt F))
          → statement (input (cons s ts) es) ≡ o
          → Ensures IsFine (suc (left ts)) (suc (left ts)) u o
          → is_at_end (input (cons s ts) es) ≡ false
          → ((j : Input F)
              → left (rest j) < n
              → (b : Block F) × (k : Input F) × (parse_stmts statement n j ≡ ok b k) × IsAccepted b)
          → (b : Block F) × (j : Input F) × (parse_stmts statement (suc n) (input (cons s ts) es)
              ≡ ok b j)
            × IsAccepted b
      by_outcome _ e (holds {a} j (p, t) d) q more =
          let (b, k, r, (pb, tb)) =
            more (input (drop_newlines (rest j)) (errors j))
              (omega (arith, d, h, length-drop_newlines (rest j))) in
          (
            Block.cons a b,
            k,
            rw (q, e, r, parse_stmts) refl,
            (ground (arith, p, pb), ground (arith, t, tb)),
          )
      by_outcome _ e (rejected {e = x} j d) q more =
          let l = after_failure s ts (rest j) u q before (λ r. rw r refl) d in
          let (b, k, r, pb) =
            more (input (drop_newlines (drop_to_stmt (rest j))) (errors j ++ x ∷ []))
              (omega (arith, l, h)) in
          (b, k, rw (q, e, r, parse_stmts) refl, pb)

-- Whatever the tokens, the parser ends and answers. It returns a program whose `return` and
-- `import` statements stand where they may, and in which no way down is longer than 256 nodes; or
-- it returns errors, at least one.
pub parse-answers :
    {F : Type 0} (ts : Tokens F)
    → ((program : Block F) × (parse ts ≡ some (Result.ok program)) × IsAccepted program)
      ⊎ ((e : ParseError F) × (es : List (ParseError F)) × (parse ts ≡ some (Result.err (e ∷ es))))
unfolding parse skip_newlines with_fuel outcome_of
parse-answers {F} ts =
    let (b, j, q, p) =
      parse_stmts-accepts 255 (suc (left (drop_newlines ts))) (input (drop_newlines ts) [])
        (omega arith) in
    by_errors b j q p
  where
    by_errors :
        (b : Block F) (j : Input F)
        → parse_stmts
            (parse_stmt (deeper_by 256) true 0)
            (suc (left (drop_newlines ts)))
            (input (drop_newlines ts) [])
          ≡ ok b j
        → IsAccepted b
        → ((program : Block F) × (parse ts ≡ some (Result.ok program)) × IsAccepted program)
          ⊎ ((e : ParseError F) × (es : List (ParseError F)) × (parse ts
                ≡ some (Result.err (e ∷ es))))
    by_errors b (input us []) q p = inl (b, rw (q, parse, outcome_of) refl, p)
    by_errors b (input us (e ∷ es)) q p = inr (e, es, rw (q, parse, outcome_of) refl)

parse-IsAccepted :
    {F : Type 0} (ts : Tokens F) (program : Block F)
    → parse ts ≡ some (Result.ok program)
    → IsAccepted program
parse-IsAccepted ts program h = elim (parse-answers ts) [
  | inl (b, q, p) ↦ subst IsAccepted (cc) p
  | inr (e, es, q) ↦ cc
]

-- If the tokens are accepted as a program, then the depth check of whole programs, given more
-- turns than the program has nodes, accepts it too.
pub validate_program_depth-parse :
    {F : Type 0} (ts : Tokens F) (program : Block F) (n : ℕ)
    → parse ts ≡ some (Result.ok program)
    → size_block program < n
    → validate_program_depth n program ≡ some (Result.ok tt)
validate_program_depth-parse ts program n h f =
    let (p, low) = parse-IsAccepted ts program h in
    elim (validate_program_depth-cases n program f) [
      | inl (t, q) ↦ q
      | inr (t, q) ↦ absurd (omega (arith, low, t))
    ]
