-- ===== src/Budget/Heap.antt =====
-- src/budget.rs §5: the table of logical sizes and the ledger of live heap bytes.
pub mod Laws
use tsumugi.Base.{
  ℕ, ◌-◌, none, some, leb, ltb, if◌then◌else◌, checked_add, saturating_add, saturating_mul, u64_max,
  Result, ok, err,
}
use tsumugi.Budget.Types.{BudgetResource, BudgetUnit, ControlStop, ExecutionPhase, InternalFailure}

abbrev pub value_slot : ℕ
value_slot = 32

abbrev pub captured_cell : ℕ
captured_cell = 32

unfoldable pub string_body : ℕ → ℕ
string_body byte_len = saturating_add 24 byte_len

unfoldable pub list_body : ℕ → ℕ
list_body element_count = saturating_add 24 (saturating_mul element_count 32)

unfoldable pub dict_body : ℕ → ℕ → ℕ
dict_body entry_count key_bytes_total =
    saturating_add (saturating_add 24 (saturating_mul entry_count 64)) key_bytes_total

unfoldable pub tree_function : ℕ → ℕ
tree_function captured_count = saturating_add 64 (saturating_mul captured_count 16)

unfoldable pub vm_function : ℕ → ℕ
vm_function upvalue_count = saturating_add 48 (saturating_mul upvalue_count 16)

unfoldable pub bytecode_chunk : ℕ → ℕ → ℕ
bytecode_chunk opcode_count constant_count =
    saturating_add (saturating_add 64 (saturating_mul opcode_count 16))
      (saturating_mul constant_count 32)

unfoldable pub rollback_journal_entry : ℕ → ℕ
rollback_journal_entry retained_payload = saturating_add 48 retained_payload

pub record AllocationLedger : Type 0 where
  pub next_id : ℕ
  pub live_bytes : ℕ
  pub peak_bytes : ℕ
  pub limit : ℕ

unfoldable pub new : ℕ → AllocationLedger
new limit = record { next_id = 1; live_bytes = 0; peak_bytes = 0; limit = limit }

-- The error leaves `next_id` as it was.
unfoldable pub allocate_id : AllocationLedger → Result ℕ ControlStop × AllocationLedger
allocate_id h = elim (checked_add h.next_id 1) [
  | some next ↦ (ok h.next_id, record h { next_id = next })
  | none ↦ (err (ControlStop.internal_failure InternalFailure.allocation_id_exhausted), h)
]

pub heap_exceeded : AllocationLedger → ℕ → ExecutionPhase → ControlStop
heap_exceeded h requested phase = ControlStop.budget_exceeded (record {
  resource = BudgetResource.heap_bytes;
  limit = h.limit;
  used = h.live_bytes;
  reserved = 0;
  requested = requested;
  unit = BudgetUnit.bytes;
  phase = phase;
})

unfoldable pub charge :
    ℕ → ExecutionPhase → AllocationLedger → Result (Unit {0}) ControlStop × AllocationLedger
unfolding heap_exceeded
charge bytes phase h = elim (checked_add h.live_bytes bytes) [
  | some total ↦
      if leb total h.limit
      then (
        ok tt,
        record h {
          live_bytes = total;
          peak_bytes = if ltb h.peak_bytes total then total else h.peak_bytes;
        },
      )
      else (err (heap_exceeded h bytes phase), h)
  | none ↦ (err (heap_exceeded h u64_max phase), h)
]

unfoldable pub release : ℕ → AllocationLedger → AllocationLedger
release bytes h = record h { live_bytes = h.live_bytes - bytes }

unfoldable pub set_limit : ℕ → AllocationLedger → AllocationLedger
set_limit limit h = record h { limit = limit }

unfoldable pub restore_live_bytes : ℕ → AllocationLedger → AllocationLedger
restore_live_bytes live_bytes h = record h { live_bytes = live_bytes }
