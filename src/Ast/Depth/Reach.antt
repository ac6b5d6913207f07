-- ===== src/Ast/Depth/Reach.antt =====
-- src/ast.rs: what a turn of the worklist does to its size and to how deep it reaches.
use tsumugi.Base.{ℕ, ◌+◌, ◌≡◌, max, List, [], ◌∷◌, arith}
use tsumugi.Ast.{
  Stmt, Block, Expr, Exprs, Pairs, FStrExprParts, let_stmt, assign, index_assign, return_stmt,
  if_stmt, while_stmt, for_stmt, fn_def, break_stmt, continue_stmt, import_stmt, try_catch,
  expr_stmt, nil, cons, list, dict, bin_op, unary_op, call, lambda, index, fstr, no_exprs,
  with_expr, no_pairs, with_pair, literal, expr, no_parts, with_part,
}
use tsumugi.Ast.Depth.{
  Work, push_block, push_exprs, push_pairs, push_parts, push_stmt_children, push_expr_children,
}
use tsumugi.Ast.Depth.Height.{
  height_stmt, height_block, height_expr, height_exprs, height_pairs, height_parts, height_node,
  size_stmt, size_block, size_expr, size_exprs, size_pairs, size_parts, size_node,
}

module _ {F : Type 0} where
  -- How deep the nodes under the worklist reach, one more than the deepest.
  unfoldable pub reach : List (Work F) → ℕ
  reach [] = 0
  reach (w ∷ ws) = max (w.depth + height_node w.node) (reach ws)

  unfoldable pub size : List (Work F) → ℕ
  size [] = 0
  size (w ∷ ws) = size_node w.node + size ws

  pub reach-push_block :
      (b : Block F) (d : ℕ) (ws : List (Work F))
      → max d (reach (push_block b d ws)) ≡ max (d + height_block b) (reach ws)
  unfolding reach push_block height_block
  reach-push_block nil d ws = omega arith
  reach-push_block (cons s ss) d ws = omega (arith, reach-push_block ss d ws)

  reach-push_exprs :
      (es : Exprs F) (d l : ℕ) (ws : List (Work F))
      → max d (reach (push_exprs es d l ws)) ≡ max (d + height_exprs es) (reach ws)
  unfolding reach push_exprs height_exprs
  reach-push_exprs no_exprs d l ws = omega arith
  reach-push_exprs (with_expr e es) d l ws = omega (arith, reach-push_exprs es d l ws)

  reach-push_pairs :
      (ps : Pairs F) (d l : ℕ) (ws : List (Work F))
      → max d (reach (push_pairs ps d l ws)) ≡ max (d + height_pairs ps) (reach ws)
  unfolding reach push_pairs height_pairs
  reach-push_pairs no_pairs d l ws = omega arith
  reach-push_pairs (with_pair k v ps) d l ws = omega (arith, reach-push_pairs ps d l ws)

  reach-push_parts :
      (ps : FStrExprParts F) (d l : ℕ) (ws : List (Work F))
      → max d (reach (push_parts ps d l ws)) ≡ max (d + height_parts ps) (reach ws)
  unfolding reach push_parts height_parts
  reach-push_parts no_parts d l ws = omega arith
  reach-push_parts (with_part (literal s) ps) d l ws = omega (arith, reach-push_parts ps d l ws)
  reach-push_parts (with_part (expr e) ps) d l ws = omega (arith, reach-push_parts ps d l ws)

  pub size-push_block :
      (b : Block F) (d : ℕ) (ws : List (Work F)) → size (push_block b d ws) ≡ size_block b + size ws
  unfolding size push_block size_block
  size-push_block nil d ws = omega arith
  size-push_block (cons s ss) d ws = omega (arith, size-push_block ss d ws)

  size-push_exprs :
      (es : Exprs F) (d l : ℕ) (ws : List (Work F))
      → size (push_exprs es d l ws) ≡ size_exprs es + size ws
  unfolding size push_exprs size_exprs
  size-push_exprs no_exprs d l ws = omega arith
  size-push_exprs (with_expr e es) d l ws = omega (arith, size-push_exprs es d l ws)

  size-push_pairs :
      (ps : Pairs F) (d l : ℕ) (ws : List (Work F))
      → size (push_pairs ps d l ws) ≡ size_pairs ps + size ws
  unfolding size push_pairs size_pairs
  size-push_pairs no_pairs d l ws = omega arith
  size-push_pairs (with_pair k v ps) d l ws = omega (arith, size-push_pairs ps d l ws)

  size-push_parts :
      (ps : FStrExprParts F) (d l : ℕ) (ws : List (Work F))
      → size (push_parts ps d l ws) ≡ size_parts ps + size ws
  unfolding size push_parts size_parts
  size-push_parts no_parts d l ws = omega arith
  size-push_parts (with_part (literal s) ps) d l ws = omega (arith, size-push_parts ps d l ws)
  size-push_parts (with_part (expr e) ps) d l ws = omega (arith, size-push_parts ps d l ws)

  pub reach-push_stmt_children :
      (s : Stmt F) (d l : ℕ) (ws : List (Work F))
      → max d (reach (push_stmt_children s d l ws)) + 1 ≡ max (d + height_stmt s) (reach ws + 1)
  unfolding reach push_stmt_children height_stmt
  reach-push_stmt_children (let_stmt n v k) d l ws = omega arith
  reach-push_stmt_children (assign n v k) d l ws = omega arith
  reach-push_stmt_children (return_stmt v k) d l ws = omega arith
  reach-push_stmt_children (index_assign n i v k) d l ws = omega arith
  reach-push_stmt_children (if_stmt c t e k) d l ws =
      omega (arith, reach-push_block t d (push_block e d ws), reach-push_block e d ws)
  reach-push_stmt_children (while_stmt c b k) d l ws = omega (arith, reach-push_block b d ws)
  reach-push_stmt_children (for_stmt x i b k) d l ws = omega (arith, reach-push_block b d ws)
  reach-push_stmt_children (fn_def n p b k) d l ws = omega (arith, reach-push_block b d ws)
  reach-push_stmt_children (try_catch t x c k) d l ws =
      omega (arith, reach-push_block t d (push_block c d ws), reach-push_block c d ws)
  reach-push_stmt_children (expr_stmt e k) d l ws = omega arith
  reach-push_stmt_children (break_stmt k) d l ws = omega arith
  reach-push_stmt_children (continue_stmt k) d l ws = omega arith
  reach-push_stmt_children (import_stmt p k) d l ws = omega arith

  pub reach-push_expr_children :
      (e : Expr F) (d l : ℕ) (ws : List (Work F))
      → max d (reach (push_expr_children e d l ws)) + 1 ≡ max (d + height_expr e) (reach ws + 1)
  unfolding reach push_expr_children height_stmt
  reach-push_expr_children (list es) d l ws = omega (arith, reach-push_exprs es d l ws)
  reach-push_expr_children (dict ps) d l ws = omega (arith, reach-push_pairs ps d l ws)
  reach-push_expr_children (bin_op a o b) d l ws = omega arith
  reach-push_expr_children (unary_op o e) d l ws = omega arith
  reach-push_expr_children (call c es) d l ws = omega (arith, reach-push_exprs es d l ws)
  reach-push_expr_children (lambda xs b) d l ws = omega (arith, reach-push_block b d ws)
  reach-push_expr_children (index o i) d l ws = omega arith
  reach-push_expr_children (fstr ps) d l ws = omega (arith, reach-push_parts ps d l ws)
  reach-push_expr_children _ d l ws = omega arith

  pub size-push_stmt_children :
      (s : Stmt F) (d l : ℕ) (ws : List (Work F))
      → size (push_stmt_children s d l ws) + 1 ≡ size_stmt s + size ws
  unfolding size push_stmt_children size_stmt
  size-push_stmt_children (let_stmt n v k) d l ws = omega arith
  size-push_stmt_children (assign n v k) d l ws = omega arith
  size-push_stmt_children (return_stmt v k) d l ws = omega arith
  size-push_stmt_children (index_assign n i v k) d l ws = omega arith
  size-push_stmt_children (if_stmt c t e k) d l ws =
      omega (arith, size-push_block t d (push_block e d ws), size-push_block e d ws)
  size-push_stmt_children (while_stmt c b k) d l ws = omega (arith, size-push_block b d ws)
  size-push_stmt_children (for_stmt x i b k) d l ws = omega (arith, size-push_block b d ws)
  size-push_stmt_children (fn_def n p b k) d l ws = omega (arith, size-push_block b d ws)
  size-push_stmt_children (try_catch t x c k) d l ws =
      omega (arith, size-push_block t d (push_block c d ws), size-push_block c d ws)
  size-push_stmt_children (expr_stmt e k) d l ws = omega arith
  size-push_stmt_children (break_stmt k) d l ws = omega arith
  size-push_stmt_children (continue_stmt k) d l ws = omega arith
  size-push_stmt_children (import_stmt p k) d l ws = omega arith

  pub size-push_expr_children :
      (e : Expr F) (d l : ℕ) (ws : List (Work F))
      → size (push_expr_children e d l ws) + 1 ≡ size_expr e + size ws
  unfolding size push_expr_children size_stmt
  size-push_expr_children (list es) d l ws = omega (arith, size-push_exprs es d l ws)
  size-push_expr_children (dict ps) d l ws = omega (arith, size-push_pairs ps d l ws)
  size-push_expr_children (bin_op a o b) d l ws = omega arith
  size-push_expr_children (unary_op o e) d l ws = omega arith
  size-push_expr_children (call c es) d l ws = omega (arith, size-push_exprs es d l ws)
  size-push_expr_children (lambda xs b) d l ws = omega (arith, size-push_block b d ws)
  size-push_expr_children (index o i) d l ws = omega arith
  size-push_expr_children (fstr ps) d l ws = omega (arith, size-push_parts ps d l ws)
  size-push_expr_children _ d l ws = omega arith
