-- ===== src/Parser/Placed/Statements.antt =====
-- src/parser.rs: each form of statement takes tokens, ends, and places its statements.
pub mod Blocks
pub mod Forms
pub mod Levels
