-- ===== src/Scenarios.antt =====
-- Concrete runs of the modelled code: a small ledger, a small journal, and what the theorems say
-- of them.
mod Budgets
mod Audits
mod Schedulers
mod Configs
mod Redactions
mod Machines
mod Envs
mod Lexers
mod Tickets
mod Trees
mod Parsers
