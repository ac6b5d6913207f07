-- ===== src/Budget/Charges.antt =====
-- src/budget.rs: the charges that the engines make, each one atomic reservation that is committed
-- in full, and the per-item checks.
pub mod Exact
pub mod Kinds
pub mod Session
use tsumugi.Base.{ℕ, ◌-◌, Bool, ◌&&◌, List, [], ◌∷◌, some, leb, ltb, if◌then◌else◌, ok, err}
use tsumugi.Budget.Types.{
  BudgetConfig, BudgetCounters, BudgetPeaks, BudgetUsage, BudgetResource, BudgetUnit, ControlStop,
  CumulativeRequest, ExecutionPhase, MonotonicClock,
}
use tsumugi.Budget.Heap
use tsumugi.Budget.Ledger.{
  BudgetLedger, M, ◌>>◌, modify, check_cancel, check_deadline, reserve_all, commit,
  charge_reason_for,
}
use tsumugi.Audit.Event.{AuditEvent}
use tsumugi.Audit.Accumulator
use tsumugi.Audit.Accumulator.{note_release}

abbrev pub req : BudgetResource → ℕ → CumulativeRequest
req r amount = record { resource = r; amount = amount }

unfoldable pub charge_fuel : ℕ → ExecutionPhase → M (Unit {0})
charge_fuel amount phase = do
  reserve_all (req BudgetResource.fuel amount ∷ []) phase
  modify (commit BudgetResource.fuel amount amount)

-- The refusal of a per-item check: `used` and `reserved` are 0.
per_item_stop : BudgetResource → BudgetUnit → ℕ → ℕ → ExecutionPhase → ControlStop
per_item_stop r u limit requested phase = ControlStop.budget_exceeded (record {
  resource = r;
  limit = limit;
  used = 0;
  reserved = 0;
  requested = requested;
  unit = u;
  phase = phase;
})

stop : ControlStop → M (Unit {0})
stop e l = (err e, l)

-- `if candidate > peak { peak = candidate }`
raise : ℕ → ℕ → ℕ
raise peak candidate = if ltb peak candidate then candidate else peak

note_collection : ℕ → BudgetLedger → BudgetLedger
unfolding raise
note_collection n l = record l {
  peaks = record p { collection_elements = raise p.collection_elements n };
}
  where
    p : BudgetPeaks
    p = l.peaks

unfoldable pub check_collection_elements : ℕ → ExecutionPhase → M (Unit {0})
unfolding note_collection per_item_stop
check_collection_elements candidate phase l =
    let over : ControlStop =
      per_item_stop BudgetResource.collection_elements BudgetUnit.elements
        l.config.max_collection_elements candidate phase in
    (check_cancel >> λ l'.
    if ltb l'.config.max_collection_elements candidate
    then (err over, l')
    else (ok tt, note_collection candidate l'))
      l

note_string : ℕ → BudgetLedger → BudgetLedger
unfolding raise
note_string n l = record l {
  peaks = record p { single_string_bytes = raise p.single_string_bytes n };
}
  where
    p : BudgetPeaks
    p = l.peaks

admit_string : ℕ → ExecutionPhase → M (Unit {0})
unfolding note_string
admit_string byte_len phase = do
  reserve_all
      (req BudgetResource.string_allocations 1 ∷ req BudgetResource.string_bytes byte_len ∷ [])
      phase
  modify (commit BudgetResource.string_allocations 1 1)
  modify (commit BudgetResource.string_bytes byte_len byte_len)
  modify (note_string byte_len)

unfoldable pub charge_string : ℕ → ExecutionPhase → M (Unit {0})
unfolding admit_string per_item_stop stop
charge_string byte_len phase l =
    let single_limit = l.config.max_single_string_bytes in
    if ltb single_limit byte_len
    then (check_cancel
          >> stop (
              per_item_stop BudgetResource.single_string_bytes BudgetUnit.bytes single_limit
                byte_len phase))
        l
    else admit_string byte_len phase l

note_source : ℕ → BudgetLedger → BudgetLedger
unfolding raise
note_source n l = record l {
  peaks = record p { single_source_bytes = raise p.single_source_bytes n };
}
  where
    p : BudgetPeaks
    p = l.peaks

admit_source : ℕ → ExecutionPhase → M (Unit {0})
unfolding note_source
admit_source byte_len phase = do
  reserve_all (req BudgetResource.source_count 1 ∷ req BudgetResource.source_bytes byte_len ∷ [])
      phase
  modify (commit BudgetResource.source_count 1 1)
  modify (commit BudgetResource.source_bytes byte_len byte_len)
  modify (note_source byte_len)

unfoldable pub charge_source : ℕ → ExecutionPhase → M (Unit {0})
unfolding admit_source per_item_stop stop
charge_source byte_len phase l =
    let single_limit = l.config.max_single_source_bytes in
    if ltb single_limit byte_len
    then (check_cancel
          >> stop (
              per_item_stop BudgetResource.single_source_bytes BudgetUnit.bytes single_limit
                byte_len phase))
        l
    else admit_source byte_len phase l

unfoldable pub charge_import : ℕ → ExecutionPhase → M (Unit {0})
charge_import byte_len phase = do
  reserve_all (req BudgetResource.import_count 1 ∷ req BudgetResource.import_bytes byte_len ∷ [])
      phase
  modify (commit BudgetResource.import_count 1 1)
  modify (commit BudgetResource.import_bytes byte_len byte_len)

unfoldable pub charge_input : ℕ → ExecutionPhase → M (Unit {0})
charge_input payload_bytes phase = do
  reserve_all
      (req BudgetResource.input_calls 1
        ∷ req BudgetResource.input_bytes payload_bytes
        ∷ req BudgetResource.host_calls 1
        ∷ req BudgetResource.host_response_bytes payload_bytes
        ∷ req BudgetResource.host_call_bytes payload_bytes
        ∷ [])
      phase
  modify (commit BudgetResource.input_calls 1 1)
  modify (commit BudgetResource.input_bytes payload_bytes payload_bytes)
  modify (commit BudgetResource.host_calls 1 1)
  modify (commit BudgetResource.host_response_bytes payload_bytes payload_bytes)
  modify (commit BudgetResource.host_call_bytes payload_bytes payload_bytes)

unfoldable pub charge_output : ℕ → ExecutionPhase → M (Unit {0})
charge_output payload_bytes phase = do
  reserve_all
      (req BudgetResource.output_calls 1
        ∷ req BudgetResource.output_bytes payload_bytes
        ∷ req BudgetResource.host_calls 1
        ∷ req BudgetResource.host_request_bytes payload_bytes
        ∷ req BudgetResource.host_call_bytes payload_bytes
        ∷ [])
      phase
  modify (commit BudgetResource.output_calls 1 1)
  modify (commit BudgetResource.output_bytes payload_bytes payload_bytes)
  modify (commit BudgetResource.host_calls 1 1)
  modify (commit BudgetResource.host_request_bytes payload_bytes payload_bytes)
  modify (commit BudgetResource.host_call_bytes payload_bytes payload_bytes)

unfoldable pub charge_host_call_request : ℕ → ExecutionPhase → M (Unit {0})
charge_host_call_request request_bytes phase = do
  reserve_all
      (req BudgetResource.host_calls 1
        ∷ req BudgetResource.host_request_bytes request_bytes
        ∷ req BudgetResource.host_call_bytes request_bytes
        ∷ [])
      phase
  modify (commit BudgetResource.host_calls 1 1)
  modify (commit BudgetResource.host_request_bytes request_bytes request_bytes)
  modify (commit BudgetResource.host_call_bytes request_bytes request_bytes)

unfoldable pub charge_host_response_bytes : ℕ → ExecutionPhase → M (Unit {0})
charge_host_response_bytes response_bytes phase = do
  reserve_all
      (req BudgetResource.host_response_bytes response_bytes
        ∷ req BudgetResource.host_call_bytes response_bytes
        ∷ [])
      phase
  modify (commit BudgetResource.host_response_bytes response_bytes response_bytes)
  modify (commit BudgetResource.host_call_bytes response_bytes response_bytes)

-- `charge_heap` and `release_heap`: the live heap, with the stop checks and the audit note.
unfoldable pub charge_heap : ℕ → ExecutionPhase → M (Unit {0})
charge_heap bytes phase = do
  check_cancel
  check_deadline
  λ l. let (r, h) = Heap.charge bytes phase l.heap in (r, record l { heap = h })

unfoldable pub release_heap : ℕ → BudgetLedger → BudgetLedger
release_heap bytes l =
    let heap' = Heap.release bytes l.heap in
    if ltb 0 bytes
    then record l {
      heap = heap';
      accumulator =
          note_release BudgetResource.heap_bytes (charge_reason_for BudgetResource.heap_bytes) bytes
            heap'.live_bytes heap'.peak_bytes l.accumulator;
    }
    else record l { heap = heap' }

unfoldable pub drain_budget_charges : BudgetLedger → List AuditEvent × BudgetLedger
drain_budget_charges l =
    let (events, acc) = Accumulator.flush l.accumulator in (events, record l { accumulator = acc })

unfoldable pub note_collection_elements : ℕ → BudgetLedger → BudgetLedger
note_collection_elements candidate l =
    if leb candidate l.config.max_collection_elements && ltb l.peaks.collection_elements candidate
    then record l { peaks = record p { collection_elements = candidate } }
    else l
  where
    p : BudgetPeaks
    p = l.peaks

-- The accessors and the resets of a session.
unfoldable pub usage : BudgetLedger → BudgetUsage
usage l = record {
  committed = l.committed;
  reserved = l.reserved;
  live_heap_bytes = l.heap.live_bytes;
  reserved_heap_bytes = 0;
  peak_heap_bytes = l.heap.peak_bytes;
  peaks = l.peaks;
}

unfoldable pub remaining_request_bytes : BudgetLedger → ℕ
remaining_request_bytes l =
    l.config.max_host_request_bytes - l.committed.host_request_bytes - l.reserved.host_request_bytes

unfoldable pub remaining_response_bytes : BudgetLedger → ℕ
remaining_response_bytes l =
    l.config.max_host_response_bytes - l.committed.host_response_bytes
    - l.reserved.host_response_bytes

unfoldable pub remaining_fuel : BudgetLedger → ℕ
remaining_fuel l = l.config.total_fuel - l.committed.fuel - l.reserved.fuel

unfoldable pub restore_fuel : ℕ → BudgetLedger → BudgetLedger
restore_fuel fuel l = record l {
  committed = record c { fuel = fuel };
  reserved = record r { fuel = 0 };
}
  where
    c : BudgetCounters
    c = l.committed

    r : BudgetCounters
    r = l.reserved

unfoldable pub reset_fuel : BudgetLedger → BudgetLedger
unfolding restore_fuel
reset_fuel l = restore_fuel 0 l

unfoldable pub rearm_for_repl_submission :
    BudgetConfig → MonotonicClock → Bool → BudgetLedger → BudgetLedger
unfolding reset_fuel
rearm_for_repl_submission config clock cancelled l =
    reset_fuel (record l { config = config; clock = some clock; cancelled = cancelled })

unfoldable pub restore_live_heap_bytes : ℕ → BudgetLedger → BudgetLedger
restore_live_heap_bytes bytes l = record l { heap = Heap.restore_live_bytes bytes l.heap }

unfoldable pub set_total_fuel : ℕ → BudgetLedger → BudgetLedger
set_total_fuel fuel l = record l { config = record c { total_fuel = fuel } }
  where
    c : BudgetConfig
    c = l.config

unfoldable pub set_max_live_heap_bytes : ℕ → BudgetLedger → BudgetLedger
set_max_live_heap_bytes limit l = record l {
  config = record c { max_live_heap_bytes = limit };
  heap = Heap.set_limit limit l.heap;
}
  where
    c : BudgetConfig
    c = l.config

unfoldable pub set_clock : MonotonicClock → BudgetLedger → BudgetLedger
set_clock clock l = record l { clock = some clock }
