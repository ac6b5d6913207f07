-- ===== src/Budget.antt =====
-- src/budget.rs: the execution budget.
pub mod Types
pub mod Resources
pub mod Counters
pub mod Heap
pub mod Ledger
pub mod Charges
pub mod Config
