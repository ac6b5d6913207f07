-- ===== src/Scenarios/Budgets.antt =====
-- A small ledger of src/budget.rs under the theorems on reservations, charges and sessions.
use tsumugi.Base.{
  ◌+◌, ◌⊎◌, max, leb, if◌then◌else◌, ◌≤◌, ◌<◌, ◌≡◌, ◌↔◌, refl, List, [], ◌∷◌, arith, ok, err,
  u64_max, false, All,
}
use mathlib.Core.List.{Memᴰ}
use tsumugi.Budget.Types.{
  unit, default_counters, priority, BudgetConfig, BudgetResource, ExecutionPhase, CumulativeRequest,
  BudgetExceeded, BudgetUnit, ControlStop,
}
use tsumugi.Budget.Counters.{counter}
use tsumugi.Budget.Resources.{same_resource}
use tsumugi.Budget.Counters.Laws.{word_max, share}
use tsumugi.Budget.Heap
use tsumugi.Budget.Heap.Laws.{charge-exact}
use tsumugi.Budget.Ledger.{
  worst_of, replace_worst, reserve_one, BudgetLedger, new, limit_of, reserve_all, commit, refund,
}
use tsumugi.Budget.Ledger.Reserve.{Apart, IsConfig, IsWithin, Fits}
use tsumugi.Budget.Ledger.Atomic.{
  IsRunning, reserve_all_iff, reserve_all-atomic, reserve_all-primary, reserve_all-IsWithin,
  reserve_all-duplicate,
}
use tsumugi.Budget.Ledger.Commit.{IsAccounted, Moves, commit-Moves, refund-Moves}
use tsumugi.Budget.Charges.{req}
use tsumugi.Budget.Charges.Kinds.{Charge, Outcome, run_charge-exact}
use tsumugi.Budget.Charges.Session.{Operation, IsSound, run, run-IsSound}
use tsumugi.Audit.Event.{BudgetChargeReason}
use tsumugi.Audit.Accumulator.{settle, note, empty, note_charge, flush, BudgetChargeAccumulator}
use tsumugi.Audit.Accumulator.Conserve.{charged, events_charge, charged-note_charge, charged-flush}

abbrev pub config : BudgetConfig
config = record {
  heap_accounting_revision = 1;
  total_fuel = 100;
  max_live_heap_bytes = 1000;
  max_string_allocations = 5;
  max_string_bytes = 60;
  max_single_string_bytes = 40;
  max_source_count = 2;
  max_source_bytes = 90;
  max_single_source_bytes = 80;
  max_import_count = 1;
  max_import_bytes = 50;
  max_collection_elements = 10;
  max_input_calls = 2;
  max_input_bytes = 20;
  max_output_calls = 2;
  max_output_bytes = 20;
  max_host_calls = 3;
  max_host_request_bytes = 20;
  max_host_response_bytes = 20;
  max_host_call_bytes = 30;
  deadline = record { clock_id = 7; ns = 1000 };
}

abbrev ledger : BudgetLedger
ledger = new config false

pub config-IsConfig : IsConfig config
unfolding limit_of word_max
config-IsConfig r = ground arith

ledger-IsWithin : IsWithin ledger
unfolding counter new limit_of
ledger-IsWithin r = ground arith

ledger-IsAccounted : IsAccounted ledger
unfolding counter new
ledger-IsAccounted r = ground arith

ledger-IsRunning : IsRunning ledger
unfolding new
ledger-IsRunning = record { not_cancelled = refl; in_time = λ c e. cc }

-- Five bytes are held.
abbrev held : BudgetLedger
held = record ledger { reserved = record default_counters { string_bytes = 5 } }

session_example :
    IsSound config
      (run
        (Operation.charges (Charge.fuel 30) ExecutionPhase.run ∷ Operation.drains ∷ [])
        (new config false)).0
      (run
        (Operation.charges (Charge.fuel 30) ExecutionPhase.run ∷ Operation.drains ∷ [])
        (new config false)).1
session_example =
    run-IsSound config false
      (Operation.charges (Charge.fuel 30) ExecutionPhase.run ∷ Operation.drains ∷ [])
      config-IsConfig

run_charge-exact_example : Outcome (Charge.string_body 12) ExecutionPhase.run ledger
unfolding new
run_charge-exact_example =
    run_charge-exact (Charge.string_body 12) ExecutionPhase.run ledger config-IsConfig
      ledger-IsWithin ledger-IsAccounted

reserve_all_iff_example :
    ((reserve_all (req BudgetResource.fuel 101 ∷ []) ExecutionPhase.run ledger).0 ≡ ok tt)
    ↔ (IsRunning ledger × All (Fits ledger) (req BudgetResource.fuel 101 ∷ []))
unfolding new
reserve_all_iff_example =
    reserve_all_iff ledger ExecutionPhase.run (req BudgetResource.fuel 101 ∷ []) config-IsConfig

-- Too many string allocations and too many string bytes at once: the count has the priority.
abbrev greedy : List CumulativeRequest
greedy = req BudgetResource.string_bytes 61 ∷ req BudgetResource.string_allocations 6 ∷ []

abbrev greedy_excess : BudgetExceeded
greedy_excess = record {
  resource = BudgetResource.string_allocations;
  limit = 5;
  used = 0;
  reserved = 0;
  requested = 6;
  unit = BudgetUnit.count;
  phase = ExecutionPhase.run;
}

greedy-refused :
    (reserve_all greedy ExecutionPhase.run ledger).0
    ≡ err (ControlStop.budget_exceeded greedy_excess)
unfolding reserve_all new worst_of replace_worst reserve_one counter limit_of priority unit
greedy-refused = refl

reserve_all-atomic_example : (reserve_all greedy ExecutionPhase.run ledger).1 ≡ ledger
reserve_all-atomic_example =
    reserve_all-atomic ledger ExecutionPhase.run greedy (ControlStop.budget_exceeded greedy_excess)
      greedy-refused

reserve_all-primary_example :
    ((x : CumulativeRequest) × Memᴰ x greedy
      × (reserve_one ledger x ExecutionPhase.run ≡ err greedy_excess))
    × All
        (λ x.
          (o : BudgetExceeded)
          → reserve_one ledger x ExecutionPhase.run ≡ err o
          → priority greedy_excess.resource ≤ priority o.resource)
        greedy
reserve_all-primary_example =
    reserve_all-primary ledger ExecutionPhase.run greedy greedy_excess greedy-refused

greedy-Apart : Apart greedy
unfolding same_resource priority
greedy-Apart = ((refl, tt), (tt, tt))

reserve_all-IsWithin_example : IsWithin (reserve_all greedy ExecutionPhase.run ledger).1
unfolding new
reserve_all-IsWithin_example =
    reserve_all-IsWithin ledger ExecutionPhase.run greedy config-IsConfig (refl, (refl, tt))
      greedy-Apart ledger-IsWithin

fuel-Fits : Fits ledger (req BudgetResource.fuel 60)
unfolding counter new limit_of
fuel-Fits = omega arith

fuel_over :
    limit_of BudgetResource.fuel ledger.config
    < counter BudgetResource.fuel ledger.committed
      + counter BudgetResource.fuel ledger.reserved
      + 60
      + 60
unfolding counter new limit_of
fuel_over = omega arith

fuel_word : counter BudgetResource.fuel ledger.reserved + 60 + 60 ≤ word_max BudgetResource.fuel
unfolding counter new word_max
fuel_word = omega arith

-- Sixty twice, out of a hundred.
reserve_all-duplicate_example :
    ((reserve_all
        (req BudgetResource.fuel 60 ∷ req BudgetResource.fuel 60 ∷ [])
        ExecutionPhase.run
        ledger).0
      ≡ ok tt)
    × (¬ IsWithin
        (reserve_all
          (req BudgetResource.fuel 60 ∷ req BudgetResource.fuel 60 ∷ [])
          ExecutionPhase.run
          ledger).1)
unfolding new
reserve_all-duplicate_example =
    reserve_all-duplicate ledger ExecutionPhase.run (req BudgetResource.fuel 60) config-IsConfig
      ledger-IsRunning refl fuel-Fits fuel_over fuel_word

held-IsConfig : IsConfig held.config
unfolding new
held-IsConfig = config-IsConfig

held-IsWithin : IsWithin held
unfolding new counter limit_of
held-IsWithin r = ground arith

held-IsAccounted : IsAccounted held
unfolding new counter
held-IsAccounted r = ground arith

five_held : 5 ≤ counter BudgetResource.string_bytes held.reserved
unfolding new counter
five_held = omega arith

commit-Moves_example :
    Moves held
      (commit BudgetResource.string_bytes 5 3 held)
      (λ q. share q BudgetResource.string_bytes 3)
      (λ q. share q BudgetResource.string_bytes 5)
commit-Moves_example =
    commit-Moves held BudgetResource.string_bytes 5 3 held-IsConfig held-IsWithin refl five_held
      (omega arith) held-IsAccounted

refund-Moves_example :
    Moves held
      (refund BudgetResource.string_bytes 5 held)
      (λ q. 0)
      (λ q. share q BudgetResource.string_bytes 5)
refund-Moves_example =
    refund-Moves held BudgetResource.string_bytes 5 0 held-IsConfig held-IsWithin refl five_held
      held-IsAccounted

abbrev one_charge : BudgetChargeAccumulator
one_charge = note_charge BudgetResource.fuel BudgetChargeReason.operation 4 4 empty

charged-note_charge_example :
    charged BudgetResource.fuel
      (note_charge BudgetResource.fuel BudgetChargeReason.loop 6 10 one_charge)
    ≡ charged BudgetResource.fuel one_charge + share BudgetResource.fuel BudgetResource.fuel 6
unfolding note_charge settle note same_resource priority
charged-note_charge_example =
    charged-note_charge BudgetResource.fuel BudgetResource.fuel BudgetChargeReason.loop 6 10
      one_charge (omega arith)

charged-flush_example :
    (events_charge BudgetResource.fuel (flush one_charge).0
      ≡ charged BudgetResource.fuel one_charge)
    × (charged BudgetResource.fuel (flush one_charge).1 ≡ 0)
charged-flush_example = charged-flush BudgetResource.fuel one_charge

abbrev heap : Heap.AllocationLedger
heap = record { limit = 100; live_bytes = 70; peak_bytes = 90; next_id = 3 }

charge-exact_example :
    ((heap.live_bytes + 25 ≤ heap.limit)
      × (Heap.charge 25 ExecutionPhase.run heap ≡ (
        ok tt,
        record heap {
          live_bytes = heap.live_bytes + 25;
          peak_bytes = max heap.peak_bytes (heap.live_bytes + 25);
        },
      )))
    ⊎ ((heap.limit < heap.live_bytes + 25)
        × (Heap.charge 25 ExecutionPhase.run heap ≡ (
          err (
              Heap.heap_exceeded heap
                (if leb (heap.live_bytes + 25) u64_max then 25 else u64_max)
                ExecutionPhase.run),
          heap,
        )))
charge-exact_example = charge-exact 25 ExecutionPhase.run heap (omega arith)
