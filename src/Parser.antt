-- ===== src/Parser.antt =====
-- src/parser.rs: from tokens to the syntax tree.
pub mod Outcome
pub mod Reader
pub mod Operators
pub mod Exprs
pub mod Blocks
pub mod Stmts
pub mod Grammar
pub mod Ensures
pub mod Within
pub mod Printer
pub mod RoundTrip
pub mod Placed
