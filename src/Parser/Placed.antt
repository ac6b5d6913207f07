-- ===== src/Parser/Placed.antt =====
-- src/parser.rs: where `return` and `import` stand in a tree.
pub mod Expressions
pub mod Statements
pub mod Program
use tsumugi.Base.{Bool, true, false, ◌&&◌}
use tsumugi.Ast.{
  Stmt, Block, Expr, Exprs, Pairs, FStrExprPart, FStrExprParts, let_stmt, assign, index_assign,
  return_stmt, if_stmt, while_stmt, for_stmt, fn_def, import_stmt, try_catch, expr_stmt, nil, cons,
  list, dict, bin_op, unary_op, call, lambda, index, fstr, no_exprs, with_expr, no_pairs, with_pair,
  literal, expr, no_parts, with_part,
}

-- A `return` only in the body of a function, named or not; an `import` only if `top` allows it.
unfoldable mutual
  pub placed_stmt : {F : Type 0} → (top in_fn : Bool) → Stmt F → Bool
  placed_stmt top k (let_stmt n v l) = placed_expr v
  placed_stmt top k (assign n v l) = placed_expr v
  placed_stmt top k (index_assign n i v l) = placed_expr i && placed_expr v
  placed_stmt top k (return_stmt v l) = k && placed_expr v
  placed_stmt top k (if_stmt c t e l) = placed_expr c && (placed_block k t && placed_block k e)
  placed_stmt top k (while_stmt c b l) = placed_expr c && placed_block k b
  placed_stmt top k (for_stmt x i b l) = placed_expr i && placed_block k b
  placed_stmt top k (fn_def n xs b l) = placed_block true b
  placed_stmt top k (import_stmt path l) = top
  placed_stmt top k (try_catch t x c l) = placed_block k t && placed_block k c
  placed_stmt top k (expr_stmt e l) = placed_expr e
  placed_stmt top k _ = true

  -- A block is never at the top level.
  pub placed_block : {F : Type 0} → Bool → Block F → Bool
  placed_block k nil = true
  placed_block k (cons s ss) = placed_stmt false k s && placed_block k ss

  pub placed_expr : {F : Type 0} → Expr F → Bool
  placed_expr (list es) = placed_exprs es
  placed_expr (dict ps) = placed_pairs ps
  placed_expr (bin_op a o b) = placed_expr a && placed_expr b
  placed_expr (unary_op o e) = placed_expr e
  placed_expr (call c es) = placed_expr c && placed_exprs es
  placed_expr (lambda xs b) = placed_block true b
  placed_expr (index o i) = placed_expr o && placed_expr i
  placed_expr (fstr ps) = placed_parts ps
  placed_expr _ = true

  pub placed_exprs : {F : Type 0} → Exprs F → Bool
  placed_exprs no_exprs = true
  placed_exprs (with_expr e es) = placed_expr e && placed_exprs es

  pub placed_pairs : {F : Type 0} → Pairs F → Bool
  placed_pairs no_pairs = true
  placed_pairs (with_pair k v ps) = placed_expr k && (placed_expr v && placed_pairs ps)

  pub placed_part : {F : Type 0} → FStrExprPart F → Bool
  placed_part (literal s) = true
  placed_part (expr e) = placed_expr e

  pub placed_parts : {F : Type 0} → FStrExprParts F → Bool
  placed_parts no_parts = true
  placed_parts (with_part p ps) = placed_part p && placed_parts ps

-- The statements of a program.
unfoldable pub placed_program : {F : Type 0} → Block F → Bool
unfolding placed_stmt
placed_program nil = true
placed_program (cons s ss) = placed_stmt true false s && placed_program ss
