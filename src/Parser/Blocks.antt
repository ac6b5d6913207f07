-- ===== src/Parser/Blocks.antt =====
-- src/parser.rs: the loop of a block, and what stands round it.
use tsumugi.Base.{ℕ, zero, suc, Bool, ◌||◌, ◌&&◌, not, if◌then◌else◌}
use tsumugi.Lexer.Token.{Token}
use tsumugi.Ast.{Block, Stmt}
use tsumugi.Parser.Outcome.{ParseMessage, Parser, ok, out_of_fuel, pure, run, ◌>>=◌, ◌>>◌}
use tsumugi.Parser.Reader.{
  peek_token, same_token, expect, expect_newline, expect_newline_or_eof, skip_newlines, reject_line,
  push_error, with_fuel,
}

-- What the loop of a block does at a token.
pub data Turn : Type 0 where
  block_ends bad_import bad_return stmt_follows : Turn

module _ {F : Type 0} where
  -- Up to one of the tokens that `stops` accepts, or the end.
  unfoldable pub turn_of : (Token F → Bool) → Bool → Token F → Turn
  unfolding same_token
  turn_of stops in_fn t =
      if same_token t Token.eof || stops t
      then block_ends
      else (if same_token t Token.import
          then bad_import
          else (if not in_fn && same_token t Token.return_word then bad_return else stmt_follows))

  unfoldable pub more_stmts : Parser F (Stmt F) → (Token F → Bool) → Bool → ℕ → Parser F (Block F)
  unfolding turn_of reject_line push_error skip_newlines
  more_stmts statement stops in_fn zero i = out_of_fuel
  more_stmts statement stops in_fn (suc n) i = elim (turn_of stops in_fn (peek_token i)) [
    | block_ends ↦ ok Block.nil i
    | bad_import ↦ run i do
      e ← reject_line ParseMessage.misplaced_import
      push_error e
      skip_newlines
      more_stmts statement stops in_fn n
    | bad_return ↦ run i do
      e ← reject_line ParseMessage.misplaced_return
      push_error e
      skip_newlines
      more_stmts statement stops in_fn n
    | stmt_follows ↦ run i do
      s ← statement
      skip_newlines
      ss ← more_stmts statement stops in_fn n
      pure (Block.cons s ss)
  ]

  unfoldable pub parse_block : Parser F (Stmt F) → Bool → (Token F → Bool) → Parser F (Block F)
  unfolding more_stmts with_fuel
  parse_block statement in_fn stops = with_fuel (more_stmts statement stops in_fn)

  -- `&[Token::End]`, `&[Token::Catch]` and `&[Token::Else, Token::Elif, Token::End]`
  unfoldable pub at_end : Token F → Bool
  unfolding same_token
  at_end t = same_token t Token.end

  unfoldable pub at_catch : Token F → Bool
  unfolding same_token
  at_catch t = same_token t Token.catch

  unfoldable pub at_else : Token F → Bool
  unfolding same_token
  at_else t = same_token t Token.else_word || (same_token t Token.elif || same_token t Token.end)

  -- What follows the body of a statement: `end` and the end of the line.
  unfoldable pub close_block : Parser F (Unit {0})
  unfolding expect expect_newline_or_eof
  close_block = do expect Token.end; expect_newline_or_eof

  -- The lines before a block.
  unfoldable pub open_block : Parser F (Unit {0})
  unfolding expect_newline skip_newlines
  open_block = do expect_newline; skip_newlines
