-- ===== src/Bytecode.antt =====
-- The bytecode of the stack machine: src/opcode.rs, src/chunk.rs and src/verifier.rs.
pub mod OpCode
pub mod Chunk
pub mod Verifier
