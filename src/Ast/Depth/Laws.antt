-- ===== src/Ast/Depth/Laws.antt =====
-- src/ast.rs: the worklist finds a node that is too deep exactly if the tree is too high.
use tsumugi.Base.{
  ℕ, zero, suc, ◌+◌, ◌≤◌, ◌<◌, ◌≡◌, refl, max, Bool, true, false, none, some, List, [], ◌∷◌, ok,
  err, ltb, arith, Bool-cases, ltb→lt, inl, inr, ◌⊎◌,
}
use tsumugi.Ast.{Block, Expr, Stmt, cons, nil}
use tsumugi.Ast.Depth.{
  AstNode, Work, stmt_node, expr_node, push_block, push_expr, push_children, excessive_depth_line,
  validate_program_depth, expr_depth_exceeds_limit, stmt_depth_exceeds_limit,
}
use tsumugi.Ast.Depth.Height.{
  height_block, height_node, size_block, size_node, height_expr, height_stmt, size_expr, size_stmt,
}
use tsumugi.Ast.Depth.Reach.{
  reach, size, reach-push_block, size-push_block, reach-push_stmt_children,
  reach-push_expr_children, size-push_stmt_children, size-push_expr_children,
}

module _ {F : Type 0} where
  reach-push_children :
      (n : AstNode F) (d l : ℕ) (ws : List (Work F))
      → max d (reach (push_children n d l ws)) + 1 ≡ max (d + height_node n) (reach ws + 1)
  unfolding push_children
  reach-push_children (stmt_node s) = reach-push_stmt_children s
  reach-push_children (expr_node e) = reach-push_expr_children e

  size-push_children :
      (n : AstNode F) (d l : ℕ) (ws : List (Work F))
      → size (push_children n d l ws) + 1 ≡ size_node n + size ws
  unfolding push_children
  size-push_children (stmt_node s) = size-push_stmt_children s
  size-push_children (expr_node e) = size-push_expr_children e

  excessive-cases :
      (n : ℕ) (ws : List (Work F))
      → size ws < n
      → ((reach ws ≤ 257) × (excessive_depth_line n ws ≡ some none))
        ⊎ ((257 < reach ws) × ((line : ℕ) × (excessive_depth_line n ws ≡ some (some line))))
  unfolding excessive_depth_line reach size
  excessive-cases zero ws h = absurd (omega (arith, h))
  excessive-cases (suc n) [] h = inl (omega arith, refl)
  excessive-cases (suc n) (w ∷ ws) h = elim (Bool-cases (ltb 256 w.depth)) [
    | inl deep ↦
        let low : 256 < w.depth = ltb→lt 256 w.depth deep in
        inr (
          omega (arith, low, reach-push_children w.node 1 w.line []),
          (w.line, rw (deep, excessive_depth_line) refl),
        )
    | inr fits ↦
        let high : w.depth ≤ 256 = ground (arith, fits) in
        let ws' = push_children w.node (w.depth + 1) w.line ws in
        let r = reach-push_children w.node (w.depth + 1) w.line ws in
        let less = size-push_children w.node (w.depth + 1) w.line ws in
        elim (excessive-cases n ws' (omega (arith, h, less))) [
          | inl (a, q) ↦ inl (omega (arith, a, r, high), rw (fits, excessive_depth_line) q)
          | inr (a, (line, q)) ↦
              inr (omega (arith, a, r, high), (line, rw (fits, excessive_depth_line) q))
        ]
  ]

-- With as much fuel as nodes and one, the two tests answer, and rightly.
pub expr_depth_exceeds_limit-cases :
    {F : Type 0} (e : Expr F)
    → (b : Bool) × (expr_depth_exceeds_limit (suc (size_expr e)) e ≡ some b)
      × (b ≡ false → height_expr e ≤ 256)
unfolding expr_depth_exceeds_limit reach size
expr_depth_exceeds_limit-cases e =
    elim (excessive-cases (suc (size_expr e)) (push_expr e 1 0 []) (omega arith)) [
      | inl (a, q) ↦ (false, rw (q, expr_depth_exceeds_limit) refl, λ h. omega (arith, a))
      | inr (a, (line, q)) ↦ (true, rw (q, expr_depth_exceeds_limit) refl, λ h. cc)
    ]

pub stmt_depth_exceeds_limit-cases :
    {F : Type 0} (s : Stmt F)
    → (b : Bool) × (stmt_depth_exceeds_limit (suc (size_stmt s)) s ≡ some b)
      × (b ≡ false → height_stmt s ≤ 256)
unfolding stmt_depth_exceeds_limit push_block reach size
stmt_depth_exceeds_limit-cases s =
    elim (excessive-cases (suc (size_stmt s)) (push_block (cons s nil) 1 []) (omega arith)) [
      | inl (a, q) ↦ (false, rw (q, stmt_depth_exceeds_limit) refl, λ h. omega (arith, a))
      | inr (a, (line, q)) ↦ (true, rw (q, stmt_depth_exceeds_limit) refl, λ h. cc)
    ]

pub expr_depth_exceeds_limit-low :
    {F : Type 0} (e : Expr F)
    → height_expr e ≤ 256
    → expr_depth_exceeds_limit (suc (size_expr e)) e ≡ some false
unfolding expr_depth_exceeds_limit reach size
expr_depth_exceeds_limit-low e h =
    elim (excessive-cases (suc (size_expr e)) (push_expr e 1 0 []) (omega arith)) [
      | inl (a, q) ↦ rw (q, expr_depth_exceeds_limit) refl
      | inr (a, (line, q)) ↦ absurd (omega (arith, a, h))
    ]

pub stmt_depth_exceeds_limit-low :
    {F : Type 0} (s : Stmt F)
    → height_stmt s ≤ 256
    → stmt_depth_exceeds_limit (suc (size_stmt s)) s ≡ some false
unfolding stmt_depth_exceeds_limit push_block reach size
stmt_depth_exceeds_limit-low s h =
    elim (excessive-cases (suc (size_stmt s)) (push_block (cons s nil) 1 []) (omega arith)) [
      | inl (a, q) ↦ rw (q, stmt_depth_exceeds_limit) refl
      | inr (a, (line, q)) ↦ absurd (omega (arith, a, h))
    ]

-- With more turns than the program has nodes, the worklist ends: it accepts the program, and no
-- way down through the program is longer than 256 nodes; or it reports a line, and some way is
-- longer.
pub validate_program_depth-cases :
    {F : Type 0} (n : ℕ) (program : Block F)
    → size_block program < n
    → ((height_block program ≤ 256) × (validate_program_depth n program ≡ some (ok tt)))
      ⊎ ((256 < height_block program)
          × ((line : ℕ) × (validate_program_depth n program ≡ some (err line))))
unfolding validate_program_depth reach size
validate_program_depth-cases n program h =
    let r = reach-push_block program 1 [] in
    let s = size-push_block program 1 [] in
    elim (excessive-cases n (push_block program 1 []) (omega (arith, h, s))) [
      | inl (a, q) ↦ inl (omega (arith, a, r), rw (q, validate_program_depth) refl)
      | inr (a, (line, q)) ↦ inr (omega (arith, a, r), (line, rw (q, validate_program_depth) refl))
    ]
