-- ===== src/Ast.antt =====
-- src/ast.rs: the syntax tree, with the type of the floating-point numbers as a parameter.
pub mod Depth
use tsumugi.Base.{ℕ, ℤ, Bool, List, Text}

pub data BinOpKind : Type 0 where
  add sub mul div rem eq not_eq lt gt lt_eq gt_eq and or : BinOpKind  -- `rem` is `Mod`

pub data UnaryOpKind : Type 0 where
  neg not : UnaryOpKind

mutual
  pub data Stmt (F : Type 0) : Type 0 where
    let_stmt assign : (name : Text) (value : Expr F) (line : ℕ) → Stmt F
    index_assign : (name : Text) (index value : Expr F) (line : ℕ) → Stmt F
    return_stmt : (value : Expr F) (line : ℕ) → Stmt F
    if_stmt : (condition : Expr F) (then_body else_body : Block F) (line : ℕ) → Stmt F
    while_stmt : (condition : Expr F) (body : Block F) (line : ℕ) → Stmt F
    for_stmt : (var : Text) (iter : Expr F) (body : Block F) (line : ℕ) → Stmt F
    fn_def : (name : Text) (params : List Text) (body : Block F) (line : ℕ) → Stmt F
    break_stmt continue_stmt : (line : ℕ) → Stmt F
    import_stmt : (path : Text) (line : ℕ) → Stmt F
    try_catch : (try_body : Block F) (var : Text) (catch_body : Block F) (line : ℕ) → Stmt F
    expr_stmt : (expr : Expr F) (line : ℕ) → Stmt F

  -- `Rc<[Stmt]>`, and a program.
  pub data Block (F : Type 0) : Type 0 where
    nil : Block F
    cons : Stmt F → Block F → Block F

  pub data Expr (F : Type 0) : Type 0 where
    int : ℤ → Expr F
    float : F → Expr F
    str : Text → Expr F
    bool : Bool → Expr F
    null : Expr F
    list : Exprs F → Expr F
    dict : Pairs F → Expr F
    ident : Text → Expr F
    bin_op : (left : Expr F) (op : BinOpKind) (right : Expr F) → Expr F
    unary_op : (op : UnaryOpKind) (expr : Expr F) → Expr F
    call : (callee : Expr F) (args : Exprs F) → Expr F
    lambda : (params : List Text) (body : Block F) → Expr F
    index : (object at : Expr F) → Expr F
    fstr : FStrExprParts F → Expr F

  -- `Vec<Expr>`
  pub data Exprs (F : Type 0) : Type 0 where
    no_exprs : Exprs F
    with_expr : Expr F → Exprs F → Exprs F

  -- `Vec<(Expr, Expr)>`
  pub data Pairs (F : Type 0) : Type 0 where
    no_pairs : Pairs F
    with_pair : (key value : Expr F) → Pairs F → Pairs F

  pub data FStrExprPart (F : Type 0) : Type 0 where
    literal : Text → FStrExprPart F
    expr : Expr F → FStrExprPart F

  -- `Vec<FStrExprPart>`
  pub data FStrExprParts (F : Type 0) : Type 0 where
    no_parts : FStrExprParts F
    with_part : FStrExprPart F → FStrExprParts F → FStrExprParts F

unfoldable pub line_of : {F : Type 0} → Stmt F → ℕ
line_of (let_stmt n v l) = l
line_of (assign n v l) = l
line_of (index_assign n i v l) = l
line_of (return_stmt v l) = l
line_of (if_stmt c t e l) = l
line_of (while_stmt c b l) = l
line_of (for_stmt x i b l) = l
line_of (fn_def n p b l) = l
line_of (break_stmt l) = l
line_of (continue_stmt l) = l
line_of (import_stmt p l) = l
line_of (try_catch t x c l) = l
line_of (expr_stmt e l) = l
