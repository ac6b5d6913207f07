-- ===== src/Parser/RoundTrip.antt =====
-- src/parser.rs: the tokens of an expression are read back as that expression.
pub mod Steps
pub mod Levels
pub mod Sequences
pub mod Lengths
pub mod Expressions
pub mod Programs
