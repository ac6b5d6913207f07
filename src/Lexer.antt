-- ===== src/Lexer.antt =====
-- src/lexer.rs and src/token.rs: from the characters of a source to its tokens.
pub mod Token
pub mod Scan
pub mod Words
pub mod Stream
