-- ===== src/Budget/Ledger.antt =====
-- src/budget.rs §7: `BudgetLedger`, and reserve, commit and refund of cumulative resources. A
-- method of `&mut self` is a function of the state that also returns the state, on errors too.
pub mod Reserve
pub mod Atomic
pub mod Commit
use tsumugi.Base.{
  ℕ, Bool, List, [], ◌∷◌, Option, none, some, leb, ltb, min, if◌then◌else◌, checked_add, u64_max,
  Result, ok, err,
}
use tsumugi.Budget.Types.{
  BudgetConfig, BudgetCounters, BudgetPeaks, BudgetExceeded, BudgetResource, ControlStop,
  CumulativeRequest, ExecutionPhase, MonotonicClock, default_counters, default_peaks, priority,
  unit,
}
use tsumugi.Budget.Counters.{counter, add_counter, sub_counter}
use tsumugi.Budget.Heap
use tsumugi.Audit.Event.{BudgetChargeReason}
use tsumugi.Audit.Accumulator.{BudgetChargeAccumulator, empty, note_charge}

-- `cancelled` is what the shared `CancellationToken` answers, and `clock` what the injected clock
-- answers, while an operation runs.
pub record BudgetLedger : Type 0 where
  pub config : BudgetConfig
  pub committed : BudgetCounters
  pub reserved : BudgetCounters
  pub peaks : BudgetPeaks
  pub cancelled : Bool
  pub clock : Option MonotonicClock
  pub heap : Heap.AllocationLedger
  pub accumulator : BudgetChargeAccumulator

unfoldable pub charge_reason_for : BudgetResource → BudgetChargeReason
charge_reason_for BudgetResource.fuel = BudgetChargeReason.operation
charge_reason_for BudgetResource.string_allocations = BudgetChargeReason.allocation
charge_reason_for BudgetResource.string_bytes = BudgetChargeReason.bulk_bytes
charge_reason_for BudgetResource.source_count = BudgetChargeReason.source
charge_reason_for BudgetResource.source_bytes = BudgetChargeReason.source
charge_reason_for BudgetResource.import_count = BudgetChargeReason.source
charge_reason_for BudgetResource.import_bytes = BudgetChargeReason.source
charge_reason_for BudgetResource.input_calls = BudgetChargeReason.input
charge_reason_for BudgetResource.input_bytes = BudgetChargeReason.input
charge_reason_for BudgetResource.output_calls = BudgetChargeReason.output
charge_reason_for BudgetResource.output_bytes = BudgetChargeReason.output
charge_reason_for BudgetResource.host_calls = BudgetChargeReason.host_call
charge_reason_for BudgetResource.host_request_bytes = BudgetChargeReason.host_call
charge_reason_for BudgetResource.host_response_bytes = BudgetChargeReason.host_call
charge_reason_for BudgetResource.host_call_bytes = BudgetChargeReason.host_call
charge_reason_for _ = BudgetChargeReason.allocation

-- `M A` is a method that may stop: the result, and the ledger after it.
abbrev pub M : Type 0 → Type 0
M A = BudgetLedger → Result A ControlStop × BudgetLedger

abbrev pub and_then :
    {A B : Type 0}
    → Result A ControlStop × BudgetLedger
    → (A → M B)
    → Result B ControlStop × BudgetLedger
and_then (ok a, l) f = f a l
and_then (err e, l) f = (err e, l)

infixl 5 ◌>>=◌ ◌>>◌
abbrev pub ◌>>=◌ : {A B : Type 0} → M A → (A → M B) → M B
◌>>=◌ m f l = and_then (m l) f

abbrev pub ◌>>◌ : {B : Type 0} → M (Unit {0}) → M B → M B
m >> k = m >>= λ _. k

-- An infallible method.
abbrev pub modify : (BudgetLedger → BudgetLedger) → M (Unit {0})
modify f l = (ok tt, f l)

unfoldable pub new : BudgetConfig → Bool → BudgetLedger
unfolding Heap.new
new config cancelled = record {
  config = config;
  committed = default_counters;
  reserved = default_counters;
  peaks = default_peaks;
  cancelled = cancelled;
  clock = none;
  heap = Heap.new config.max_live_heap_bytes;
  accumulator = empty;
}

-- `limit_of`
unfoldable pub limit_of : BudgetResource → BudgetConfig → ℕ
limit_of BudgetResource.fuel c = c.total_fuel
limit_of BudgetResource.heap_bytes c = c.max_live_heap_bytes
limit_of BudgetResource.single_string_bytes c = c.max_single_string_bytes
limit_of BudgetResource.string_allocations c = c.max_string_allocations
limit_of BudgetResource.string_bytes c = c.max_string_bytes
limit_of BudgetResource.single_source_bytes c = c.max_single_source_bytes
limit_of BudgetResource.source_count c = c.max_source_count
limit_of BudgetResource.source_bytes c = c.max_source_bytes
limit_of BudgetResource.import_count c = c.max_import_count
limit_of BudgetResource.import_bytes c = c.max_import_bytes
limit_of BudgetResource.collection_elements c = c.max_collection_elements
limit_of BudgetResource.input_calls c = c.max_input_calls
limit_of BudgetResource.input_bytes c = c.max_input_bytes
limit_of BudgetResource.output_calls c = c.max_output_calls
limit_of BudgetResource.output_bytes c = c.max_output_bytes
limit_of BudgetResource.host_calls c = c.max_host_calls
limit_of BudgetResource.host_request_bytes c = c.max_host_request_bytes
limit_of BudgetResource.host_response_bytes c = c.max_host_response_bytes
limit_of BudgetResource.host_call_bytes c = c.max_host_call_bytes

unfoldable pub add_reserved : BudgetResource → ℕ → BudgetLedger → BudgetLedger
add_reserved r amount l = record l { reserved = add_counter r amount l.reserved }

unfoldable pub move_to_committed : BudgetResource → ℕ → ℕ → BudgetLedger → BudgetLedger
move_to_committed r reserved_amount actual l = record l {
  reserved = sub_counter r reserved_amount l.reserved;
  committed = add_counter r actual l.committed;
}

unfoldable pub check_cancel : M (Unit {0})
check_cancel l = if l.cancelled then (err ControlStop.cancelled, l) else (ok tt, l)

unfoldable pub check_deadline : M (Unit {0})
check_deadline l = elim l.clock [
  | none ↦ (ok tt, l)
  | some c ↦
      if leb l.config.deadline.ns c.now_ns
      then (
        err (
            ControlStop.deadline_exceeded l.config.deadline
              (record { clock_id = c.clock_id; ns = c.now_ns })),
        l,
      )
      else (ok tt, l)
]

exceeded : BudgetLedger → CumulativeRequest → ExecutionPhase → ℕ → BudgetExceeded
exceeded l req phase requested = record {
  resource = req.resource;
  limit = limit_of req.resource l.config;
  used = counter req.resource l.committed;
  reserved = counter req.resource l.reserved;
  requested = requested;
  unit = unit req.resource;
  phase = phase;
}

-- `used.checked_add(reserved).and_then(|v| v.checked_add(amount))`
projected : ℕ → ℕ → ℕ → Option ℕ
projected used reserved amount = elim (checked_add used reserved) [
  | none ↦ none
  | some v ↦ checked_add v amount
]

unfoldable pub reserve_one :
    BudgetLedger → CumulativeRequest → ExecutionPhase → Result (Unit {0}) BudgetExceeded
unfolding exceeded projected
reserve_one l req phase =
    elim (projected (counter req.resource l.committed) (counter req.resource l.reserved)
      req.amount) [
        | some total ↦
            if leb total (limit_of req.resource l.config)
            then ok tt
            else err (exceeded l req phase req.amount)
        | none ↦ err (exceeded l req phase u64_max)
      ]

-- Of two excesses the one of higher priority, the earlier one among equals.
unfoldable pub replace_worst :
    Option BudgetExceeded → Result (Unit {0}) BudgetExceeded → Option BudgetExceeded
replace_worst worst (ok _) = worst
replace_worst none (err e) = some e
replace_worst (some cur) (err e) =
    if ltb (priority e.resource) (priority cur.resource) then some e else some cur

unfoldable pub worst_of :
    BudgetLedger
    → ExecutionPhase
    → Option BudgetExceeded
    → List CumulativeRequest
    → Option BudgetExceeded
worst_of l phase worst [] = worst
worst_of l phase worst (req ∷ reqs) =
    worst_of l phase (replace_worst worst (reserve_one l req phase)) reqs

unfoldable pub add_all : List CumulativeRequest → BudgetLedger → BudgetLedger
unfolding add_reserved
add_all [] l = l
add_all (req ∷ reqs) l = add_all reqs (add_reserved req.resource req.amount l)

unfoldable pub settle_requests : List CumulativeRequest → ExecutionPhase → M (Unit {0})
settle_requests requests phase l = elim (worst_of l phase none requests) [
  | some e ↦ (err (ControlStop.budget_exceeded e), l)
  | none ↦ (ok tt, add_all requests l)
]

unfoldable pub reserve_all : List CumulativeRequest → ExecutionPhase → M (Unit {0})
unfolding check_cancel check_deadline settle_requests
reserve_all requests phase = do check_cancel; check_deadline; settle_requests requests phase

-- With the debug assertion, `actual <= reserved_amount`, left out: that holds at every call here, and
-- what is proved of `commit` takes it as a hypothesis.
unfoldable pub commit : BudgetResource → ℕ → ℕ → BudgetLedger → BudgetLedger
unfolding move_to_committed
commit r reserved_amount actual l =
    let committed = min actual reserved_amount in
    let moved = move_to_committed r reserved_amount committed l in
    if ltb 0 committed
    then record moved {
      accumulator =
          note_charge r (charge_reason_for r) committed (counter r moved.committed)
            moved.accumulator;
    }
    else moved

unfoldable pub refund : BudgetResource → ℕ → BudgetLedger → BudgetLedger
unfolding move_to_committed
refund r reserved_amount l = move_to_committed r reserved_amount 0 l
