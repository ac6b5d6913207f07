-- ===== src/Env/Operations.antt =====
-- src/env.rs: the operations of a running script as data, and runs of them.
use tsumugi.Base.{ℕ, ◌≤◌, List, [], ◌∷◌}
use tsumugi.Audit.Payload.{Text}
use tsumugi.Env.{
  Env, CallFrame, Grant, set, set_shared, update, mutate, push_scope, pop_scope, truncate_scopes,
  push_call_frame, pop_call_frame,
}

-- An operation of a running submission, with the answers of the heap ledger to its charges.
pub data Operation (V : Type 0) : Type 0 where
  sets : (cell entry : Grant) → Text → V → Operation V
  shares : (entry : Grant) → Text → (cell : ℕ) → Operation V
  updates : (entry : Grant) → Text → V → Operation V
  mutates : (entry : Grant) → (cell : ℕ) → V → Operation V
  pushes pops enters : Operation V
  truncates : ℕ → Operation V
  leaves : CallFrame → Operation V

-- The environment after it, whether it failed or not.
unfoldable pub perform : {V : Type 0} → Operation V → Env V → Env V
perform (sets cell entry n v) e = (set cell entry n v e).1
perform (shares entry n c) e = (set_shared entry n c e).1
perform (updates entry n v) e = (update entry n v e).1
perform (mutates entry c v) e = (mutate entry c v e).1
perform pushes e = push_scope e
perform pops e = pop_scope e
perform enters e = (push_call_frame e).1
perform (truncates len) e = truncate_scopes len e
perform (leaves frame) e = pop_call_frame frame e

unfoldable pub perform_all : {V : Type 0} → List (Operation V) → Env V → Env V
perform_all [] e = e
perform_all (o ∷ os) e = perform_all os (perform o e)

-- None of the operations leaves fewer than `d` scopes.
abbrev pub StaysAbove : {V : Type 0} → ℕ → List (Operation V) → Env V → Type 0
StaysAbove d [] e = Unit {0}
StaysAbove d (o ∷ os) e = (d ≤ (perform o e).depth) × StaysAbove d os (perform o e)
