-- ===== src/Lexer/Token.antt =====
-- src/token.rs: the tokens, with the type of the floating-point numbers as a parameter. A
-- character is its code. The messages of `Token::Error` are named by what they say.
use tsumugi.Base.{ℕ, ℤ, Bool, true, false}
use tsumugi.Base.{Text}

pub data LexError : Type 0 where
  bad_float int_range : Text → LexError
  open_string open_fstring stray_brace : LexError
  open_expr open_expr_string too_deep empty_expr : LexError

mutual
  pub data FStrPart (F : Type 0) : Type 0 where
    literal : Text → FStrPart F
    expr : Tokens F → FStrPart F

  -- `Vec<FStrPart>`
  pub data Parts (F : Type 0) : Type 0 where
    no_parts : Parts F
    with_part : FStrPart F → Parts F → Parts F

  pub data Token (F : Type 0) : Type 0 where
    int : ℤ → Token F
    float : F → Token F
    str : Text → Token F
    fstr : Parts F → Token F
    true_word false_word null : Token F
    ident : Text → Token F
    let_word fn return_word if_word else_word elif while for in_word break continue end : Token F
    and or not_word print import try catch : Token F
    plus minus star slash percent assign eq not_eq lt gt lt_eq gt_eq : Token F
    l_paren r_paren l_bracket r_bracket l_brace r_brace comma colon : Token F
    newline eof : Token F
    unknown : ℕ → Token F
    error : LexError → Token F

  pub data Spanned (F : Type 0) : Type 0 where
    spanned : (token : Token F) (line : ℕ) → Spanned F

  -- `Vec<Spanned>`
  pub data Tokens (F : Type 0) : Type 0 where
    nil : Tokens F
    cons : Spanned F → Tokens F → Tokens F

module _ {F : Type 0} where
  abbrev pub token : Spanned F → Token F
  token (spanned t l) = t

  abbrev pub line : Spanned F → ℕ
  line (spanned t l) = l

  -- `token == Token::Eof`
  unfoldable pub is_eof : Token F → Bool
  is_eof eof = true
  is_eof _ = false

  unfoldable pub is_newline : Token F → Bool
  is_newline newline = true
  is_newline _ = false
