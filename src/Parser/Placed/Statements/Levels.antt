-- ===== src/Parser/Placed/Statements/Levels.antt =====
-- src/parser.rs: a statement, an expression and the rest of an `if`, at each depth.
use tsumugi.Base.{
  ℕ, zero, suc, ◌+◌, ◌≤◌, ◌≡◌, refl, subst, Bool, true, false, ltb, Option, none, some, List, arith,
  inl, inr,
}
use tsumugi.Lexer.Token.{Token, Spanned, Tokens, spanned, nil, cons, token}
use tsumugi.Ast.{Stmt}
use tsumugi.Ast.Depth.Height.{height_stmt}
use tsumugi.Parser.Outcome.{ParseMessage, ParseError, Input, Parser, input, failed, run, ◌>>=◌}
use tsumugi.Parser.Reader.{left, current_line, same_token, reject_line, discard_current_line}
use tsumugi.Parser.Stmts.{is_assign_stmt, is_index_assign_stmt}
use tsumugi.Parser.Blocks.{at_end}
use tsumugi.Parser.Grammar.{
  Grammar, with_parse_depth, parse_expr, parse_stmt, block_of, if_of, unary_of, stmt_at,
  parse_stmt_inner, grammar_of, deeper_by,
}
use tsumugi.Parser.Ensures.{Ensures, rejected, Keeps, Eats, Ensures-if, Ensures-weaken}
use tsumugi.Parser.Within.{Eats-bind, check_expr_depth-Keeps, check_stmt_depth-Keeps}
use tsumugi.Parser.Placed.Expressions.Operators.{IsPlacedExpr, parse_or-Eats, parse_unary-Eats}
use tsumugi.Parser.Placed.Expressions.Sequences.{parse_call-Eats}
use tsumugi.Parser.Placed.Expressions.Primary.{IsPlacedBlock, parse_primary-Eats}
use tsumugi.Parser.Placed.Statements.Blocks.{IsPlacedStmt, parse_block-Keeps, drop_line_moves}
use tsumugi.Parser.Placed.Statements.Forms.{
  parse_let-Bites, parse_assign-Bites, parse_index_assign-Bites, parse_return-Bites,
  parse_while-Bites, parse_for-Bites, parse_if-Bites, parse_if-Keeps, parse_break-Bites,
  parse_continue-Bites, parse_import-Bites, parse_try_catch-Bites, parse_fn_def-Bites,
  parse_expr_stmt-Eats,
}

-- The words that begin a statement.
unfoldable pub is_keyword : {F : Type 0} → Token F → Bool
is_keyword Token.let_word = true
is_keyword Token.return_word = true
is_keyword Token.if_word = true
is_keyword Token.while = true
is_keyword Token.for = true
is_keyword Token.fn = true
is_keyword Token.break = true
is_keyword Token.continue = true
is_keyword Token.import = true
is_keyword Token.try = true
is_keyword _ = false

-- What the parsers of one depth promise.
pub record IsSound {F : Type 0} (g : Grammar F) : Type 0 where
  pub unary_eats : (k : ℕ) → Eats IsPlacedExpr (g.unary k)
  pub stmt_takes :
      (top : Bool) (k : ℕ) (s : Spanned F) (ts : Tokens F) (es : List (ParseError F)) (u : Tokens F)
      → (is_keyword (token s) ≡ false → u ≡ cons s ts)
      → Ensures
          (IsPlacedStmt top (ltb 0 k))
          (suc (left ts))
          (suc (left ts))
          u
          (g.stmt_inner top k (input (cons s ts) es))
  pub stmt_ends :
      (top : Bool) (k : ℕ) (es : List (ParseError F))
      → Ensures (IsPlacedStmt top (ltb 0 k)) 0 0 nil (g.stmt_inner top k (input nil es))
  pub if_keeps : (k : ℕ) → Keeps (IsPlacedStmt false (ltb 0 k)) (g.if_inner k)

module _ {F : Type 0} where
  module _ {A : Type 0} {P : A → Type 0} (m : ParseMessage F) where
    with_parse_depth-Eats :
        (d : Option (Grammar F)) {f : Grammar F → Parser F A}
        → ((g : Grammar F) → d ≡ some g → Eats P (f g))
        → Eats P (with_parse_depth m d f)
    unfolding with_parse_depth
    with_parse_depth-Eats none e i = rejected i (inr refl)
    with_parse_depth-Eats (some g) e i = e g refl i

    with_parse_depth-Keeps :
        (d : Option (Grammar F)) {f : Grammar F → Parser F A}
        → ((g : Grammar F) → d ≡ some g → Keeps P (f g))
        → Keeps P (with_parse_depth m d f)
    unfolding with_parse_depth
    with_parse_depth-Keeps none e i b u h = rejected i (inl h)
    with_parse_depth-Keeps (some g) e i b u h = e g refl i b u h

  pub stmt_inner-Eats :
      (g : Grammar F)
      → IsSound g
      → (top : Bool) (k : ℕ) → Eats (IsPlacedStmt top (ltb 0 k)) (g.stmt_inner top k)
  unfolding left
  stmt_inner-Eats g r top k (input nil es) = r.stmt_ends top k es
  stmt_inner-Eats g r top k (input (cons s ts) es) =
      r.stmt_takes top k s ts es (cons s ts) (λ q. refl)

  module _ (deeper : Option (Grammar F))
      (sound : (g : Grammar F) → deeper ≡ some g → IsSound g) where
    parse_expr-Eats : (k : ℕ) → Eats IsPlacedExpr (parse_expr deeper k)
    unfolding parse_expr
    parse_expr-Eats k i =
        Eats-bind
          (with_parse_depth-Eats ParseMessage.expr_too_deep deeper
            λ g e. parse_or-Eats (IsSound.unary_eats (sound g e) k))
          (λ e p. check_expr_depth-Keeps IsPlacedExpr e (current_line i) p) i

    pub parse_stmt-Eats :
        (top : Bool) (k : ℕ)
        → Eats (λ s. IsPlacedStmt top (ltb 0 k) s × (height_stmt s ≤ 256)) (parse_stmt deeper top k)
    unfolding parse_stmt
    parse_stmt-Eats top k =
        Eats-bind
          (with_parse_depth-Eats ParseMessage.nesting_too_deep deeper
            λ g e. stmt_inner-Eats g (sound g e) top k)
          λ s p. check_stmt_depth-Keeps (IsPlacedStmt top (ltb 0 k)) s p

    block_of-Keeps :
        (k : ℕ) (t : Token F → Bool) → Keeps (IsPlacedBlock (ltb 0 k)) (block_of deeper k t)
    unfolding block_of
    block_of-Keeps k t =
        parse_block-Keeps (ltb 0 k) t
          λ i. Ensures-weaken (λ s (p, h). p) (parse_stmt-Eats false k i)

    body_of-Keeps :
        (k : ℕ) (t : Token F → Bool) → Keeps (IsPlacedBlock true) (block_of deeper (k + 1) t)
    body_of-Keeps k t =
        subst (λ (b : Bool). Keeps (IsPlacedBlock b) (block_of deeper (k + 1) t)) (ground arith)
          (block_of-Keeps (k + 1) t)

    unary_of-Eats : (k : ℕ) → Eats IsPlacedExpr (unary_of deeper k)
    unfolding unary_of at_end
    unary_of-Eats k =
        parse_unary-Eats
          (with_parse_depth-Eats ParseMessage.expr_too_deep deeper
            λ g e. IsSound.unary_eats (sound g e) k)
          (parse_call-Eats (parse_expr-Eats k)
            (parse_primary-Eats (parse_expr-Eats k) (parse_expr-Eats 0) (body_of-Keeps k at_end)))

    elif_of-Keeps :
        (k : ℕ)
        → Keeps
            (IsPlacedStmt false (ltb 0 k))
            (with_parse_depth ParseMessage.nesting_too_deep deeper (λ g. g.if_inner k))
    elif_of-Keeps k =
        with_parse_depth-Keeps ParseMessage.nesting_too_deep deeper
          λ g e. IsSound.if_keeps (sound g e) k

    reject_line-Ensures :
        {P : Stmt F → Type 0} (m : ParseMessage F) (s : Spanned F) (ts : Tokens F)
        (es : List (ParseError F)) (u : Tokens F)
        → same_token (token s) Token.eof ≡ false
        → Ensures P
            (suc (left ts))
            (suc (left ts))
            u
            (run (input (cons s ts) es) do e ← reject_line m; λ j. failed e j)
    unfolding reject_line discard_current_line
    reject_line-Ensures m s ts es u h = rejected _ (inl (omega (arith, drop_line_moves s ts h)))

    stmt_at-Ensures :
        (top : Bool) (k : ℕ) (t : Token F) (l : ℕ) (ts : Tokens F) (es : List (ParseError F))
        (u : Tokens F)
        → (is_keyword t ≡ false → u ≡ cons (spanned t l) ts)
        → Ensures
            (IsPlacedStmt top (ltb 0 k))
            (suc (left ts))
            (suc (left ts))
            u
            (stmt_at deeper top k t (input (cons (spanned t l) ts) es))
    unfolding stmt_at is_keyword same_token left if_of at_end
    stmt_at-Ensures top k Token.let_word l ts es u h =
        parse_let-Bites top (ltb 0 k) (parse_expr-Eats k) (spanned Token.let_word l) ts es u
    stmt_at-Ensures top k Token.return_word l ts es u h =
        Ensures-if (ltb 0 k)
          (λ q.
            parse_return-Bites top (ltb 0 k) (parse_expr-Eats k) q (spanned Token.return_word l) ts
              es u)
          (λ q.
            reject_line-Ensures ParseMessage.misplaced_return (spanned Token.return_word l) ts es u
              refl)
    stmt_at-Ensures top k Token.if_word l ts es u h =
        parse_if-Bites top (ltb 0 k) (parse_expr-Eats k) (block_of-Keeps k) (elif_of-Keeps k)
          (spanned Token.if_word l) ts es u
    stmt_at-Ensures top k Token.while l ts es u h =
        parse_while-Bites top (ltb 0 k) (parse_expr-Eats k) (block_of-Keeps k)
          (spanned Token.while l) ts es u
    stmt_at-Ensures top k Token.for l ts es u h =
        parse_for-Bites top (ltb 0 k) (parse_expr-Eats k) (block_of-Keeps k) (spanned Token.for l)
          ts es u
    stmt_at-Ensures top k Token.fn l ts es u h =
        parse_fn_def-Bites top (ltb 0 k) (body_of-Keeps k at_end) (spanned Token.fn l) ts es u
    stmt_at-Ensures top k Token.break l ts es u h =
        parse_break-Bites top (ltb 0 k) (spanned Token.break l) ts es u
    stmt_at-Ensures top k Token.continue l ts es u h =
        parse_continue-Bites top (ltb 0 k) (spanned Token.continue l) ts es u
    stmt_at-Ensures true k Token.import l ts es u h =
        parse_import-Bites (ltb 0 k) (spanned Token.import l) ts es u
    stmt_at-Ensures false k Token.import l ts es u h =
        reject_line-Ensures ParseMessage.misplaced_import (spanned Token.import l) ts es u refl
    stmt_at-Ensures top k Token.try l ts es u h =
        parse_try_catch-Bites top (ltb 0 k) (block_of-Keeps k) (spanned Token.try l) ts es u
    stmt_at-Ensures top k (Token.ident name) l ts es u h =
        let i : Input F = input (cons (spanned (Token.ident name) l) ts) es in
        Ensures-if (is_assign_stmt i)
          (λ q.
            parse_assign-Bites top (ltb 0 k) (parse_expr-Eats k) name (spanned (Token.ident name) l)
              ts es u)
          λ q.
            Ensures-if (is_index_assign_stmt i)
              (λ q.
                parse_index_assign-Bites top (ltb 0 k) (parse_expr-Eats k) name
                  (spanned (Token.ident name) l) ts es u)
              λ q. rw (h refl) (parse_expr_stmt-Eats top (ltb 0 k) (parse_expr-Eats k) i)
    stmt_at-Ensures top k t l ts es u h =
        rw (h refl) (
          parse_expr_stmt-Eats top (ltb 0 k) (parse_expr-Eats k) (input (cons (spanned t l) ts) es))

    grammar_of-IsSound : IsSound (grammar_of deeper)
    unfolding grammar_of parse_stmt_inner stmt_at left if_of
    grammar_of-IsSound = record {
      unary_eats = unary_of-Eats;
      stmt_takes = λ top k s ts es u h. take top k s ts es u h;
      stmt_ends = λ top k es. parse_expr_stmt-Eats top (ltb 0 k) (parse_expr-Eats k) (input nil es);
      if_keeps = λ k.
          parse_if-Keeps false (ltb 0 k) (parse_expr-Eats k) (block_of-Keeps k) (elif_of-Keeps k);
    }
      where
        take :
            (top : Bool) (k : ℕ) (s : Spanned F) (ts : Tokens F) (es : List (ParseError F))
            (u : Tokens F)
            → (is_keyword (token s) ≡ false → u ≡ cons s ts)
            → Ensures
                (IsPlacedStmt top (ltb 0 k))
                (suc (left ts))
                (suc (left ts))
                u
                (parse_stmt_inner deeper top k (input (cons s ts) es))
        take top k (spanned t l) ts es u h = stmt_at-Ensures top k t l ts es u h

  pub deeper_by-IsSound : (n : ℕ) (g : Grammar F) → deeper_by n ≡ some g → IsSound g
  unfolding deeper_by
  deeper_by-IsSound zero g e = cc
  deeper_by-IsSound (suc n) g e =
      subst IsSound (cc) (grammar_of-IsSound (deeper_by n) (deeper_by-IsSound n))
