-- ===== src/Parser/Placed/Statements/Blocks.antt =====
-- src/parser.rs: the loop of a block, and what stands round a block.
use tsumugi.Base.{ℕ, zero, suc, ◌≤◌, ◌≡◌, ◌≢◌, refl, Bool, true, false, arith, inl}
use tsumugi.Lexer.Token.{Token, Spanned, Tokens, nil, cons, token}
use tsumugi.Ast.{Block, Stmt}
use tsumugi.Parser.Outcome.{ParseError, Input, Parser, input, run, ◌>>◌}
use tsumugi.Parser.Reader.{
  left, drop_line, same_token, reject_line, push_error, skip_newlines, discard_current_line,
}
use tsumugi.Parser.Blocks.{
  Turn, block_ends, bad_import, bad_return, stmt_follows, turn_of, more_stmts, parse_block,
  open_block, close_block,
}
use tsumugi.Parser.Ensures.{
  Ensures, holds, Any, Keeps, Eats, Ensures-bind, Ensures-mono, length-drop_line,
  skip_newlines-Keeps, expect-Keeps, expect_newline-Keeps, expect_newline_or_eof-Keeps,
}
use tsumugi.Parser.Within.{
  Within, Keeps-Within, Within-bind, Within-pure, Within-less, with_fuel-Keeps, Keeps-bind,
}
use tsumugi.Parser.Placed.{placed_stmt, placed_block}
use tsumugi.Parser.Placed.Expressions.Primary.{IsPlacedBlock}

module _ {F : Type 0} where
  abbrev pub IsPlacedStmt : (top in_fn : Bool) → Stmt F → Type 0
  IsPlacedStmt top k s = placed_stmt top k s ≡ true

  -- The end of the input is the only token that a dropped line does not take.
  pub drop_line_moves :
      (s : Spanned F) (ts : Tokens F)
      → same_token (token s) Token.eof ≡ false
      → left (drop_line (cons s ts)) ≤ left ts
  unfolding drop_line left
  drop_line_moves s ts h = ground (arith, h, length-drop_line ts)

  pub open_block-Keeps : Keeps Any (open_block {F = F})
  unfolding open_block
  open_block-Keeps = Keeps-bind expect_newline-Keeps λ x y. skip_newlines-Keeps

  pub close_block-Keeps : Keeps Any (close_block {F = F})
  unfolding close_block
  close_block-Keeps = Keeps-bind (expect-Keeps Token.end) λ x y. expect_newline_or_eof-Keeps

  push_error-Keeps : (e : ParseError F) → Keeps Any (push_error e)
  unfolding push_error
  push_error-Keeps e i m u h = holds _ tt h

  turn_of_not_eof :
      (stops : Token F → Bool) (in_fn : Bool) (t : Token F)
      → turn_of stops in_fn t ≢ block_ends
      → same_token t Token.eof ≡ false
  unfolding turn_of
  turn_of_not_eof stops in_fn t h = ground (arith, h)

  module _ (in_fn : Bool) (stops : Token F → Bool) {statement : Parser F (Stmt F)}
      (eats : Eats (IsPlacedStmt false in_fn) statement) where
    more_stmts-Within :
        (n : ℕ) → Within n (IsPlacedBlock in_fn) (more_stmts statement stops in_fn n)
    unfolding more_stmts left placed_block turn_of same_token reject_line discard_current_line
    more_stmts-Within zero i m u h b = absurd (omega (arith, h, b))
    more_stmts-Within (suc n) (input nil es) m u h b = holds (input nil es) refl h
    more_stmts-Within (suc n) (input (cons s ts) es) m u h b =
        by_turn (turn_of stops in_fn (token s)) refl (more_stmts-Within n)
      where
        i : Input F
        i = input (cons s ts) es

        after_bad :
            (e : ParseError F)
            → turn_of stops in_fn (token s) ≢ block_ends
            → Within n (IsPlacedBlock in_fn) (more_stmts statement stops in_fn n)
            → Ensures (IsPlacedBlock in_fn) m m u (
                run
                  (input (drop_line (cons s ts)) es)
                  do push_error e; skip_newlines; more_stmts statement stops in_fn n)
        after_bad e q more =
            Within-less
              (Within-bind (Keeps-Within (push_error-Keeps e))
                λ x y. Within-bind (Keeps-Within skip_newlines-Keeps) λ x y. more)
              (input (drop_line (cons s ts)) es) m u
              (omega (arith, h, drop_line_moves s ts (turn_of_not_eof stops in_fn (token s) q))) b

        by_turn :
            (k : Turn)
            → turn_of stops in_fn (token s) ≡ k
            → Within n (IsPlacedBlock in_fn) (more_stmts statement stops in_fn n)
            → Ensures (IsPlacedBlock in_fn) m m u (more_stmts statement stops in_fn (suc n) i)
        by_turn block_ends q more = rw (q, more_stmts) (holds i refl h)
        by_turn bad_import q more = rw (q, more_stmts) (after_bad _ (λ e. cc) more)
        by_turn bad_return q more = rw (q, more_stmts) (after_bad _ (λ e. cc) more)
        by_turn stmt_follows q more =
            rw (q, more_stmts)
              (Ensures-bind
                (Ensures-mono {m' = suc (left ts)} (omega arith) (omega (arith, h))
                  (λ t e. inl (rw e h)) (eats i))
                λ st j p d.
                  Within-less
                    (Within-bind (Keeps-Within skip_newlines-Keeps) λ x y.
                      Within-bind more
                        λ b ps. Within-pure (Block.cons st b) (ground (arith, p, ps)))
                    j m u (omega (arith, h, d)) b)

    pub parse_block-Keeps : Keeps (IsPlacedBlock in_fn) (parse_block statement in_fn stops)
    unfolding parse_block
    parse_block-Keeps = with_fuel-Keeps more_stmts-Within
