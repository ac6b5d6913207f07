-- ===== src/Audit.antt =====
-- src/audit.rs: the audit trail of an execution.
pub mod Payload
pub mod Event
pub mod Accumulator
pub mod Journal
pub mod Redaction
