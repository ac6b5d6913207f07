-- ===== src/Ast/Depth/Height.antt =====
-- src/ast.rs: the height and the size of a tree, by recursion.
use tsumugi.Base.{ℕ, ◌+◌, max}
use tsumugi.Ast.{
  Stmt, Block, Expr, Exprs, Pairs, FStrExprPart, FStrExprParts, let_stmt, assign, index_assign,
  return_stmt, if_stmt, while_stmt, for_stmt, fn_def, break_stmt, continue_stmt, import_stmt,
  try_catch, expr_stmt, nil, cons, list, dict, bin_op, unary_op, call, lambda, index, fstr,
  no_exprs, with_expr, no_pairs, with_pair, literal, expr, no_parts, with_part,
}
use tsumugi.Ast.Depth.{AstNode, stmt_node, expr_node}

-- The number of nodes on the longest way down, by recursion over the tree.
unfoldable mutual
  pub height_stmt : {F : Type 0} → Stmt F → ℕ
  height_stmt (let_stmt n v l) = height_expr v + 1
  height_stmt (assign n v l) = height_expr v + 1
  height_stmt (return_stmt v l) = height_expr v + 1
  height_stmt (index_assign n i v l) = max (height_expr i) (height_expr v) + 1
  height_stmt (if_stmt c t e l) = max (height_expr c) (max (height_block t) (height_block e)) + 1
  height_stmt (while_stmt c b l) = max (height_expr c) (height_block b) + 1
  height_stmt (for_stmt x i b l) = max (height_expr i) (height_block b) + 1
  height_stmt (fn_def n p b l) = height_block b + 1
  height_stmt (try_catch t x c l) = max (height_block t) (height_block c) + 1
  height_stmt (expr_stmt e l) = height_expr e + 1
  height_stmt (break_stmt l) = 1
  height_stmt (continue_stmt l) = 1
  height_stmt (import_stmt p l) = 1

  pub height_block : {F : Type 0} → Block F → ℕ
  height_block nil = 0
  height_block (cons s ss) = max (height_stmt s) (height_block ss)

  pub height_expr : {F : Type 0} → Expr F → ℕ
  height_expr (list es) = height_exprs es + 1
  height_expr (dict ps) = height_pairs ps + 1
  height_expr (bin_op a o b) = max (height_expr a) (height_expr b) + 1
  height_expr (unary_op o e) = height_expr e + 1
  height_expr (call c es) = max (height_expr c) (height_exprs es) + 1
  height_expr (lambda ps b) = height_block b + 1
  height_expr (index o i) = max (height_expr o) (height_expr i) + 1
  height_expr (fstr ps) = height_parts ps + 1
  height_expr _ = 1

  pub height_exprs : {F : Type 0} → Exprs F → ℕ
  height_exprs no_exprs = 0
  height_exprs (with_expr e es) = max (height_expr e) (height_exprs es)

  pub height_pairs : {F : Type 0} → Pairs F → ℕ
  height_pairs no_pairs = 0
  height_pairs (with_pair k v ps) = max (height_expr k) (max (height_expr v) (height_pairs ps))

  pub height_part : {F : Type 0} → FStrExprPart F → ℕ
  height_part (literal s) = 0
  height_part (expr e) = height_expr e

  pub height_parts : {F : Type 0} → FStrExprParts F → ℕ
  height_parts no_parts = 0
  height_parts (with_part p ps) = max (height_part p) (height_parts ps)

-- The number of nodes of the tree.
unfoldable mutual
  pub size_stmt : {F : Type 0} → Stmt F → ℕ
  size_stmt (let_stmt n v l) = size_expr v + 1
  size_stmt (assign n v l) = size_expr v + 1
  size_stmt (return_stmt v l) = size_expr v + 1
  size_stmt (index_assign n i v l) = size_expr i + size_expr v + 1
  size_stmt (if_stmt c t e l) = size_expr c + size_block t + size_block e + 1
  size_stmt (while_stmt c b l) = size_expr c + size_block b + 1
  size_stmt (for_stmt x i b l) = size_expr i + size_block b + 1
  size_stmt (fn_def n p b l) = size_block b + 1
  size_stmt (try_catch t x c l) = size_block t + size_block c + 1
  size_stmt (expr_stmt e l) = size_expr e + 1
  size_stmt (break_stmt l) = 1
  size_stmt (continue_stmt l) = 1
  size_stmt (import_stmt p l) = 1

  pub size_block : {F : Type 0} → Block F → ℕ
  size_block nil = 0
  size_block (cons s ss) = size_stmt s + size_block ss

  pub size_expr : {F : Type 0} → Expr F → ℕ
  size_expr (list es) = size_exprs es + 1
  size_expr (dict ps) = size_pairs ps + 1
  size_expr (bin_op a o b) = size_expr a + size_expr b + 1
  size_expr (unary_op o e) = size_expr e + 1
  size_expr (call c es) = size_expr c + size_exprs es + 1
  size_expr (lambda ps b) = size_block b + 1
  size_expr (index o i) = size_expr o + size_expr i + 1
  size_expr (fstr ps) = size_parts ps + 1
  size_expr _ = 1

  pub size_exprs : {F : Type 0} → Exprs F → ℕ
  size_exprs no_exprs = 0
  size_exprs (with_expr e es) = size_expr e + size_exprs es

  pub size_pairs : {F : Type 0} → Pairs F → ℕ
  size_pairs no_pairs = 0
  size_pairs (with_pair k v ps) = size_expr k + size_expr v + size_pairs ps

  pub size_part : {F : Type 0} → FStrExprPart F → ℕ
  size_part (literal s) = 0
  size_part (expr e) = size_expr e

  pub size_parts : {F : Type 0} → FStrExprParts F → ℕ
  size_parts no_parts = 0
  size_parts (with_part p ps) = size_part p + size_parts ps

abbrev pub height_node : {F : Type 0} → AstNode F → ℕ
height_node (stmt_node s) = height_stmt s
height_node (expr_node e) = height_expr e

abbrev pub size_node : {F : Type 0} → AstNode F → ℕ
size_node (stmt_node s) = size_stmt s
size_node (expr_node e) = size_expr e
