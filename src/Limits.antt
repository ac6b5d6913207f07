-- ===== src/Limits.antt =====
-- src/limits.rs: how deep a syntax tree, and an f-string, may be.
use tsumugi.Base.{ℕ}

abbrev pub max_ast_depth : ℕ
max_ast_depth = 256
