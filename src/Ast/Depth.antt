-- ===== src/Ast/Depth.antt =====
-- src/ast.rs: the check of a tree's depth with a worklist, which the parser and the engine make before
-- anything recurses over the tree. The head of the list is the end of the vector.
pub mod Height
pub mod Reach
pub mod Laws
use tsumugi.Base.{
  ℕ, zero, suc, ◌+◌, Bool, true, false, Option, none, some, List, [], ◌∷◌, Result, ok, err, ltb,
}
use tsumugi.Limits.{max_ast_depth}
use tsumugi.Ast.{
  Stmt, Block, Expr, Exprs, Pairs, FStrExprPart, FStrExprParts, let_stmt, assign, index_assign,
  return_stmt, if_stmt, while_stmt, for_stmt, fn_def, break_stmt, continue_stmt, import_stmt,
  try_catch, expr_stmt, nil, cons, list, dict, bin_op, unary_op, call, lambda, index, fstr,
  no_exprs, with_expr, no_pairs, with_pair, literal, expr, no_parts, with_part, line_of,
}

pub data AstNode (F : Type 0) : Type 0 where
  stmt_node : Stmt F → AstNode F
  expr_node : Expr F → AstNode F

-- `(AstNode, depth, line)`
pub record Work (F : Type 0) : Type 0 where
  pub node : AstNode F
  pub depth : ℕ
  pub line : ℕ

abbrev is_found : Option (Option ℕ) → Option Bool
is_found none = none
is_found (some none) = some false
is_found (some (some line)) = some true

module _ {F : Type 0} where
  abbrev pub push_expr : Expr F → ℕ → ℕ → List (Work F) → List (Work F)
  push_expr e d l ws = record { node = expr_node e; depth = d; line = l } ∷ ws

  -- `for child in body.iter().rev() { worklist.push(..) }`, and so for the other vectors.
  unfoldable pub push_block : Block F → ℕ → List (Work F) → List (Work F)
  push_block nil d ws = ws
  push_block (cons s ss) d ws =
      record { node = stmt_node s; depth = d; line = line_of s } ∷ push_block ss d ws

  unfoldable pub push_exprs : Exprs F → ℕ → ℕ → List (Work F) → List (Work F)
  push_exprs no_exprs d l ws = ws
  push_exprs (with_expr e es) d l ws = push_expr e d l (push_exprs es d l ws)

  unfoldable pub push_pairs : Pairs F → ℕ → ℕ → List (Work F) → List (Work F)
  push_pairs no_pairs d l ws = ws
  push_pairs (with_pair k v ps) d l ws = push_expr k d l (push_expr v d l (push_pairs ps d l ws))

  unfoldable pub push_parts : FStrExprParts F → ℕ → ℕ → List (Work F) → List (Work F)
  push_parts no_parts d l ws = ws
  push_parts (with_part (literal s) ps) d l ws = push_parts ps d l ws
  push_parts (with_part (expr e) ps) d l ws = push_expr e d l (push_parts ps d l ws)

  unfoldable pub push_stmt_children : Stmt F → ℕ → ℕ → List (Work F) → List (Work F)
  unfolding push_block
  push_stmt_children (let_stmt n v k) d l ws = push_expr v d l ws
  push_stmt_children (assign n v k) d l ws = push_expr v d l ws
  push_stmt_children (return_stmt v k) d l ws = push_expr v d l ws
  push_stmt_children (index_assign n i v k) d l ws = push_expr i d l (push_expr v d l ws)
  push_stmt_children (if_stmt c t e k) d l ws = push_expr c d l (push_block t d (push_block e d ws))
  push_stmt_children (while_stmt c b k) d l ws = push_expr c d l (push_block b d ws)
  push_stmt_children (for_stmt x i b k) d l ws = push_expr i d l (push_block b d ws)
  push_stmt_children (fn_def n p b k) d l ws = push_block b d ws
  push_stmt_children (try_catch t x c k) d l ws = push_block t d (push_block c d ws)
  push_stmt_children (expr_stmt e k) d l ws = push_expr e d l ws
  push_stmt_children (break_stmt k) d l ws = ws
  push_stmt_children (continue_stmt k) d l ws = ws
  push_stmt_children (import_stmt p k) d l ws = ws

  unfoldable pub push_expr_children : Expr F → ℕ → ℕ → List (Work F) → List (Work F)
  unfolding push_block push_exprs push_pairs push_parts
  push_expr_children (list es) d l ws = push_exprs es d l ws
  push_expr_children (dict ps) d l ws = push_pairs ps d l ws
  push_expr_children (bin_op a o b) d l ws = push_expr a d l (push_expr b d l ws)
  push_expr_children (unary_op o e) d l ws = push_expr e d l ws
  push_expr_children (call c es) d l ws = push_expr c d l (push_exprs es d l ws)
  push_expr_children (lambda ps b) d l ws = push_block b d ws
  push_expr_children (index o i) d l ws = push_expr o d l (push_expr i d l ws)
  push_expr_children (fstr ps) d l ws = push_parts ps d l ws
  push_expr_children _ d l ws = ws

  unfoldable pub push_children : AstNode F → ℕ → ℕ → List (Work F) → List (Work F)
  unfolding push_stmt_children push_expr_children
  push_children (stmt_node s) d l ws = push_stmt_children s d l ws
  push_children (expr_node e) d l ws = push_expr_children e d l ws

  -- The loop, with fuel for its turns: the line of the first node that is too deep, if there is one.
  unfoldable pub excessive_depth_line : ℕ → List (Work F) → Option (Option ℕ)
  unfolding push_children
  excessive_depth_line zero ws = none
  excessive_depth_line (suc n) [] = some none
  excessive_depth_line (suc n) (w ∷ ws) = elim (ltb max_ast_depth w.depth) [
    | true ↦ some (some w.line)
    | false ↦ excessive_depth_line n (push_children w.node (w.depth + 1) w.line ws)
  ]

  -- An error is the line that it is reported for.
  unfoldable pub validate_program_depth : ℕ → Block F → Option (Result (Unit {0}) ℕ)
  unfolding excessive_depth_line push_block
  validate_program_depth n program = elim (excessive_depth_line n (push_block program 1 [])) [
    | none ↦ none
    | some none ↦ some (ok tt)
    | some (some line) ↦ some (err line)
  ]

  unfoldable pub expr_depth_exceeds_limit : ℕ → Expr F → Option Bool
  unfolding excessive_depth_line
  expr_depth_exceeds_limit n e = is_found (excessive_depth_line n (push_expr e 1 0 []))

  unfoldable pub stmt_depth_exceeds_limit : ℕ → Stmt F → Option Bool
  unfolding excessive_depth_line push_block
  stmt_depth_exceeds_limit n s = is_found (excessive_depth_line n (push_block (cons s nil) 1 []))
