-- ===== src/Parser/Outcome.antt =====
-- src/parser.rs: what a parsing method returns, with what it leaves of the parser's state. An error
-- is its line and its message, named by what it says.
use tsumugi.Base.{ℕ, List}
use tsumugi.Lexer.Token.{Token, Tokens, LexError}

mutual
  pub data ParseMessage (F : Type 0) : Type 0 where
    expr_too_deep nesting_too_deep misplaced_import misplaced_return : ParseMessage F
    unfinished extra_in_fstring no_import_path : ParseMessage F
    no_let_name no_for_var no_fn_name no_catch_var no_param : Token F → ParseMessage F
    no_newline no_newline_or_eof unexpected : Token F → ParseMessage F
    expected : (wanted actual : Token F) → ParseMessage F
    unknown_char : ℕ → ParseMessage F
    lexical : LexError → ParseMessage F
    in_fstring : ParseError F → ParseMessage F

  -- `TsumugiError::parse(line, message)`
  pub data ParseError (F : Type 0) : Type 0 where
    parse_error : (line : ℕ) → ParseMessage F → ParseError F

-- The tokens from `pos` on, and the errors that were recovered from.
pub data Input (F : Type 0) : Type 0 where
  input : Tokens F → List (ParseError F) → Input F

-- `out_of_fuel` has no counterpart in the program.
pub data Outcome (F : Type 0) (A : Type 0) : Type 0 where
  ok : A → Input F → Outcome F A
  failed : ParseError F → Input F → Outcome F A
  out_of_fuel : Outcome F A

abbrev pub Parser : Type 0 → Type 0 → Type 0
Parser F A = Input F → Outcome F A

abbrev pub bind : {F A B : Type 0} → Outcome F A → (A → Input F → Outcome F B) → Outcome F B
bind (ok a j) k = k a j
bind (failed e j) k = failed e j
bind out_of_fuel k = out_of_fuel

module _ {F : Type 0} where
  abbrev pub pure : {A : Type 0} → A → Parser F A
  pure a i = ok a i

  -- A chain of `?`.
  infixl 1 ◌>>=◌ ◌>>◌
  abbrev pub ◌>>=◌ : {A B : Type 0} → Parser F A → (A → Parser F B) → Parser F B
  p >>= f = λ i. bind (p i) f

  abbrev pub ◌>>◌ : {A B : Type 0} → Parser F A → Parser F B → Parser F B
  p >> q = p >>= λ _. q

  abbrev pub run : {A : Type 0} → Input F → Parser F A → Outcome F A
  run i p = p i
