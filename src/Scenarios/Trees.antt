-- ===== src/Scenarios/Trees.antt =====
-- A small tree of src/ast.rs.
use tsumugi.Base.{ℕ, ◌≤◌, ◌<◌, ◌≡◌, some, ◌⊎◌, arith, pos, ok, err, codes}
use tsumugi.Ast.{Block, UnaryOpKind, let_stmt, cons, nil, list, with_expr, no_exprs, unary_op, int}
use tsumugi.Ast.Depth.{validate_program_depth}
use tsumugi.Ast.Depth.Height.{height_block, size_block}
use tsumugi.Ast.Depth.Laws.{validate_program_depth-cases}

-- `let x = [-1]`
abbrev program : Block ℕ
program =
    cons
      (let_stmt (codes "x") (list (with_expr (unary_op UnaryOpKind.neg (int (pos 1))) no_exprs)) 1)
      nil

size-program : size_block program < 5
unfolding size_block
size-program = omega arith

validate_program_depth-cases_example :
    ((height_block program ≤ 256) × (validate_program_depth 5 program ≡ some (ok tt)))
    ⊎ ((256 < height_block program)
        × ((line : ℕ) × (validate_program_depth 5 program ≡ some (err line))))
validate_program_depth-cases_example = validate_program_depth-cases 5 program size-program
