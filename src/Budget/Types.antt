-- ===== src/Budget/Types.antt =====
-- src/budget.rs: the vocabulary of the budget: clocks, limits, counters, resources and stop reasons.
use tsumugi.Base.{ℕ}

-- A tick of a monotonic clock, bound to the clock that produced it.
pub record MonotonicInstant : Type 0 where
  pub clock_id : ℕ
  pub ns : ℕ

-- What an injected `MonotonicClock` answers during one operation: its domain, and the time it reads.
pub record MonotonicClock : Type 0 where
  pub clock_id : ℕ
  pub now_ns : ℕ

pub data ConfigError : Type 0 where
  unsupported_accounting_revision : ℕ → ConfigError
  foreign_clock deadline_not_in_future overflow : ConfigError

pub record BudgetConfig : Type 0 where
  pub heap_accounting_revision : ℕ
  pub total_fuel : ℕ
  pub max_live_heap_bytes : ℕ
  pub max_string_allocations : ℕ
  pub max_string_bytes : ℕ
  pub max_single_string_bytes : ℕ
  pub max_source_count : ℕ  -- u32
  pub max_source_bytes : ℕ
  pub max_single_source_bytes : ℕ
  pub max_import_count : ℕ  -- u32
  pub max_import_bytes : ℕ
  pub max_collection_elements : ℕ
  pub max_input_calls : ℕ
  pub max_input_bytes : ℕ
  pub max_output_calls : ℕ
  pub max_output_bytes : ℕ
  pub max_host_calls : ℕ
  pub max_host_request_bytes : ℕ
  pub max_host_response_bytes : ℕ
  pub max_host_call_bytes : ℕ
  pub deadline : MonotonicInstant

pub record BudgetCounters : Type 0 where
  pub fuel : ℕ
  pub string_allocations : ℕ
  pub string_bytes : ℕ
  pub source_count : ℕ  -- u32
  pub source_bytes : ℕ
  pub import_count : ℕ  -- u32
  pub import_bytes : ℕ
  pub input_calls : ℕ
  pub input_bytes : ℕ
  pub output_calls : ℕ
  pub output_bytes : ℕ
  pub host_calls : ℕ
  pub host_request_bytes : ℕ
  pub host_response_bytes : ℕ
  pub host_call_bytes : ℕ

-- `BudgetCounters::default()`
abbrev pub default_counters : BudgetCounters
default_counters = record {
  fuel = 0;
  string_allocations = 0;
  string_bytes = 0;
  source_count = 0;
  source_bytes = 0;
  import_count = 0;
  import_bytes = 0;
  input_calls = 0;
  input_bytes = 0;
  output_calls = 0;
  output_bytes = 0;
  host_calls = 0;
  host_request_bytes = 0;
  host_response_bytes = 0;
  host_call_bytes = 0;
}

pub record BudgetPeaks : Type 0 where
  pub single_string_bytes : ℕ
  pub single_source_bytes : ℕ
  pub collection_elements : ℕ

abbrev pub default_peaks : BudgetPeaks
default_peaks = record { single_string_bytes = 0; single_source_bytes = 0; collection_elements = 0 }

pub record BudgetUsage : Type 0 where
  pub committed : BudgetCounters
  pub reserved : BudgetCounters
  pub live_heap_bytes : ℕ
  pub reserved_heap_bytes : ℕ
  pub peak_heap_bytes : ℕ
  pub peaks : BudgetPeaks

pub data BudgetUnit : Type 0 where
  fuel bytes count elements : BudgetUnit

pub data BudgetResource : Type 0 where
  fuel heap_bytes single_string_bytes string_allocations string_bytes single_source_bytes
        source_count source_bytes import_count import_bytes collection_elements input_calls
        input_bytes output_calls output_bytes host_calls host_request_bytes host_response_bytes
        host_call_bytes :
      BudgetResource

pub BudgetResource-discrete : Discrete BudgetResource
BudgetResource-discrete = hlevel

unfoldable pub priority : BudgetResource → ℕ
priority BudgetResource.fuel = 1
priority BudgetResource.heap_bytes = 2
priority BudgetResource.single_string_bytes = 3
priority BudgetResource.string_allocations = 4
priority BudgetResource.string_bytes = 5
priority BudgetResource.single_source_bytes = 6
priority BudgetResource.source_count = 7
priority BudgetResource.source_bytes = 8
priority BudgetResource.import_count = 9
priority BudgetResource.import_bytes = 10
priority BudgetResource.collection_elements = 11
priority BudgetResource.input_calls = 12
priority BudgetResource.input_bytes = 13
priority BudgetResource.output_calls = 14
priority BudgetResource.output_bytes = 15
priority BudgetResource.host_calls = 16
priority BudgetResource.host_request_bytes = 17
priority BudgetResource.host_response_bytes = 18
priority BudgetResource.host_call_bytes = 19

unfoldable pub unit : BudgetResource → BudgetUnit
unit BudgetResource.fuel = BudgetUnit.fuel
unit BudgetResource.heap_bytes = BudgetUnit.bytes
unit BudgetResource.single_string_bytes = BudgetUnit.bytes
unit BudgetResource.string_allocations = BudgetUnit.count
unit BudgetResource.string_bytes = BudgetUnit.bytes
unit BudgetResource.single_source_bytes = BudgetUnit.bytes
unit BudgetResource.source_count = BudgetUnit.count
unit BudgetResource.source_bytes = BudgetUnit.bytes
unit BudgetResource.import_count = BudgetUnit.count
unit BudgetResource.import_bytes = BudgetUnit.bytes
unit BudgetResource.collection_elements = BudgetUnit.elements
unit BudgetResource.input_calls = BudgetUnit.count
unit BudgetResource.input_bytes = BudgetUnit.bytes
unit BudgetResource.output_calls = BudgetUnit.count
unit BudgetResource.output_bytes = BudgetUnit.bytes
unit BudgetResource.host_calls = BudgetUnit.count
unit BudgetResource.host_request_bytes = BudgetUnit.bytes
unit BudgetResource.host_response_bytes = BudgetUnit.bytes
unit BudgetResource.host_call_bytes = BudgetUnit.bytes

pub data ExecutionPhase : Type 0 where
  compile link run host_call commit : ExecutionPhase

pub record BudgetExceeded : Type 0 where
  pub resource : BudgetResource
  pub limit : ℕ
  pub used : ℕ
  pub reserved : ℕ
  pub requested : ℕ
  pub unit : BudgetUnit
  pub phase : ExecutionPhase

pub data InternalFailure : Type 0 where
  allocation_id_exhausted cooperative_adapter_yield_in_sync_context : InternalFailure

pub data ControlStop : Type 0 where
  cancelled : ControlStop
  deadline_exceeded : (deadline observed : MonotonicInstant) → ControlStop
  budget_exceeded : BudgetExceeded → ControlStop
  internal_failure : InternalFailure → ControlStop

pub record CumulativeRequest : Type 0 where
  pub resource : BudgetResource
  pub amount : ℕ
