-- ===== src/Lib.antt =====
-- Tsumugi, an embeddable scripting language: the execution budget, the audit trail, the
-- environment of a script, its lexer and parser, the depth check of its syntax tree, host-call
-- tickets, and the verifier of its bytecode.
--
-- An embedded script runs under a budget and may leave an audit trail. The ledger (src/budget.rs)
-- counts fuel, strings, sources, imports and host traffic against configured limits, and live heap
-- bytes in a ledger of their own; each commit is told to an accumulator of charges (src/audit.rs),
-- whose events are drained into the bounded journal of the execution (src/audit.rs). A scheduler
-- (src/scheduler.rs) admits a bounded number of executions, queues more, and promotes the first in
-- the queue when an active one ends. A script's variables live in an environment (src/env.rs)
-- whose undo journal lets a failed submission be taken back; its journal entries are charged to
-- the heap ledger. The lexer (src/lexer.rs) makes tokens (src/token.rs) of a source, the parser
-- (src/parser.rs) a syntax tree (src/ast.rs) of the tokens, or a list of errors; the tree is
-- checked for its depth, part by part and once more as a whole, before anything recurses over it.
-- The compiler builds a tree of chunks (src/chunk.rs) of instructions (src/opcode.rs), and the
-- machine runs only a tree that the verifier (src/verifier.rs) has accepted; calls of builtins go
-- by the ids of one table (src/builtin_registry.rs). A host call that is not ready leaves a ticket
-- (src/host_pending.rs), which another thread completes.
--
-- - Budget/Types: the data types of src/budget.rs. Budget/Counters: the three matches over the
--   resource (`committed_of` and `reserved_of`, `add_reserved`, `move_to_committed`) as functions of
--   one record of counters. Budget/Resources: equality of resources, by their priority.
-- - Budget/Config: `BudgetConfig::standard`, `for_legacy`, `validate`, `apply_legacy_overrides`. The
--   number parsers and the settings are parameters; a key is named by the resource it limits.
-- - Budget/Heap: `heap_size` and `AllocationLedger`.
-- - Budget/Ledger: `BudgetLedger` with `reserve_one`, `reserve_all`, `commit`, `refund`.
-- - Budget/Charges: the charging methods `charge_fuel`, `charge_string` and so on, the notes, the
--   heap methods, the resets of a session. Charges/Kinds gathers the charges in one data type.
-- - Audit/Payload, Audit/Event: the events and the size estimates. Audit/Accumulator:
--   `BudgetChargeAccumulator`. Audit/Journal: `AuditBudget` and `AuditJournal`.
-- - Audit/Redaction: `RedactionPolicy`, `fold_audit_field`, `fold_body_field`. The digest of a path is
--   a parameter. Audit/Redaction/Depth: chains of values that stand one in the other.
-- - Scheduler: `SchedulerShared`, with `AdmissionSlot` and its drop. Scheduler/Reach: the states that
--   admissions, drops and run-turn calls lead to.
-- - Registry: `PUBLIC_BUILTINS` and the lookups of src/builtin_registry.rs. Bytecode: src/opcode.rs,
--   the builder of src/chunk.rs, and `verify_chunk` of src/verifier.rs as checks of one instruction,
--   of the captures, and of the tree.
-- - Env: src/env.rs, with `rollback_submission`. Env/Operations: the operations of a script as data.
-- - Lexer: the tokens of src/token.rs (Lexer/Token) and src/lexer.rs: the readers that need no other
--   token (Lexer/Scan, Lexer/Words), and `next_token`, `read_fstring`, `tokenize` (Lexer/Stream).
-- - Ast: the tree of src/ast.rs. Ast/Depth: the check of its depth by a worklist. Limits: src/limits.rs.
-- - Parser: src/parser.rs. What a method returns, with what it leaves (Parser/Outcome), the steps over
--   tokens (Parser/Reader), the operators (Parser/Operators), the other expressions (Parser/Exprs), blocks
--   (Parser/Blocks) and statements (Parser/Stmts), whose recursive calls are arguments, and the methods
--   tied together (Parser/Grammar).
--   Parser/Ensures, Parser/Within and Parser/Placed follow a promise on the result and on the tokens
--   left through all of them; Parser/Printer writes expressions, for Parser/RoundTrip.
-- - HostPending: the ticket of src/host_pending.rs and its completer, their methods as steps that may
--   come in any order.
-- - Scenarios: concrete runs. Base: numbers, words, results and the names all modules share.
--
-- A method of `&mut self` is a function of the state that returns its result beside the state
-- after it, on errors too. An error is a value of the source's error type; the messages of the
-- lexer and the parser are named by what they say. Words are natural numbers with the source's
-- checked, saturating or plain operation written out; the plain additions of a counter wrap at its
-- width. The cancellation token and the clock belong to the environment: the ledger keeps what
-- they answer while one operation runs, and a session may change both between two operations. The
-- reference cells that share the heap ledger are one field, since one thread owns them. Strings
-- and hashes are lists of bytes, in the lexer lists of characters by their codes. Loops run over
-- the given lists and need no fuel, but for the lexer: an f-string starts a lexer for the
-- characters of each expression, so its readers take fuel for the depth of their calls, and three
-- times the length of the source and four is enough; and the check of a tree's depth, which takes
-- fuel for the turns of its loop: more than the tree has nodes is enough, since a turn takes one
-- node and each node is put on the list once; and the loops of the parser, which take one turn
-- more than there are tokens left, since each turn takes a token. The methods of the parser call
-- each other on what is left of the 256 levels of `MAX_AST_DEPTH`; the position is the list of the
-- tokens from there on. A reader of the lexer that calls another has taken a character every third
-- call at the latest. The count of braces in an expression is not bounded. A method of the
-- scheduler runs under its mutex and is one step; the drop of a slot looks at the shared state
-- before it takes the mutex, so what it saw is an argument of its own. `usize` is 64 bits wide.
-- The one debug assertion of the modelled code, that `commit` is given no more than is held, is
-- left out of the definition, which is that of a release build; every call here meets it, and
-- where `commit` is taken by itself it is a hypothesis.
--
-- A ticket is used by one thread, its completer by one other, as the engine does; the completer is
-- consumed by its one call. A cell of the environment is a number that is never used twice, since
-- an undo entry keeps its cell alive; a scope that was popped is not looked at again, since a push
-- empties its place.
--
-- Not modelled: the clocks, hashes, sinks and encodings; the compiler, the machine and the
-- evaluator, the builtins themselves, modules, capabilities, and the command line.
pub mod Base
pub mod Limits
pub mod Budget
pub mod Audit
pub mod Scheduler
pub mod Registry
pub mod Bytecode
pub mod Env
pub mod Lexer
pub mod Ast
pub mod Parser
pub mod HostPending
mod Scenarios
