-- ===== src/Parser/Placed/Expressions.antt =====
-- src/parser.rs: each form of expression takes tokens, ends, and places its statements.
pub mod Operators
pub mod Sequences
pub mod Primary
