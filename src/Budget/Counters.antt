-- ===== src/Budget/Counters.antt =====
-- src/budget.rs: one counter of `BudgetCounters` for each cumulative resource. `committed_of` and
-- `reserved_of` are `counter` of the two records; the arithmetic wraps as in a release build.
pub mod Laws
use tsumugi.Base.{ℕ, u32, add_u64, add_u32, sub_u64, sub_u32}
use tsumugi.Budget.Types.{BudgetCounters, BudgetResource}

unfoldable pub counter : BudgetResource → BudgetCounters → ℕ
counter BudgetResource.fuel c = c.fuel
counter BudgetResource.heap_bytes c = 0
counter BudgetResource.single_string_bytes c = 0
counter BudgetResource.string_allocations c = c.string_allocations
counter BudgetResource.string_bytes c = c.string_bytes
counter BudgetResource.single_source_bytes c = 0
counter BudgetResource.source_count c = c.source_count
counter BudgetResource.source_bytes c = c.source_bytes
counter BudgetResource.import_count c = c.import_count
counter BudgetResource.import_bytes c = c.import_bytes
counter BudgetResource.collection_elements c = 0
counter BudgetResource.input_calls c = c.input_calls
counter BudgetResource.input_bytes c = c.input_bytes
counter BudgetResource.output_calls c = c.output_calls
counter BudgetResource.output_bytes c = c.output_bytes
counter BudgetResource.host_calls c = c.host_calls
counter BudgetResource.host_request_bytes c = c.host_request_bytes
counter BudgetResource.host_response_bytes c = c.host_response_bytes
counter BudgetResource.host_call_bytes c = c.host_call_bytes

unfoldable pub add_counter : BudgetResource → ℕ → BudgetCounters → BudgetCounters
add_counter BudgetResource.fuel a c = record c { fuel = add_u64 c.fuel a }
add_counter BudgetResource.heap_bytes a c = c
add_counter BudgetResource.single_string_bytes a c = c
add_counter BudgetResource.string_allocations a c = record c {
  string_allocations = add_u64 c.string_allocations a;
}
add_counter BudgetResource.string_bytes a c = record c { string_bytes = add_u64 c.string_bytes a }
add_counter BudgetResource.single_source_bytes a c = c
add_counter BudgetResource.source_count a c = record c {
  source_count = add_u32 c.source_count (u32 a);
}
add_counter BudgetResource.source_bytes a c = record c { source_bytes = add_u64 c.source_bytes a }
add_counter BudgetResource.import_count a c = record c {
  import_count = add_u32 c.import_count (u32 a);
}
add_counter BudgetResource.import_bytes a c = record c { import_bytes = add_u64 c.import_bytes a }
add_counter BudgetResource.collection_elements a c = c
add_counter BudgetResource.input_calls a c = record c { input_calls = add_u64 c.input_calls a }
add_counter BudgetResource.input_bytes a c = record c { input_bytes = add_u64 c.input_bytes a }
add_counter BudgetResource.output_calls a c = record c { output_calls = add_u64 c.output_calls a }
add_counter BudgetResource.output_bytes a c = record c { output_bytes = add_u64 c.output_bytes a }
add_counter BudgetResource.host_calls a c = record c { host_calls = add_u64 c.host_calls a }
add_counter BudgetResource.host_request_bytes a c = record c {
  host_request_bytes = add_u64 c.host_request_bytes a;
}
add_counter BudgetResource.host_response_bytes a c = record c {
  host_response_bytes = add_u64 c.host_response_bytes a;
}
add_counter BudgetResource.host_call_bytes a c = record c {
  host_call_bytes = add_u64 c.host_call_bytes a;
}

unfoldable pub sub_counter : BudgetResource → ℕ → BudgetCounters → BudgetCounters
sub_counter BudgetResource.fuel a c = record c { fuel = sub_u64 c.fuel a }
sub_counter BudgetResource.heap_bytes a c = c
sub_counter BudgetResource.single_string_bytes a c = c
sub_counter BudgetResource.string_allocations a c = record c {
  string_allocations = sub_u64 c.string_allocations a;
}
sub_counter BudgetResource.string_bytes a c = record c { string_bytes = sub_u64 c.string_bytes a }
sub_counter BudgetResource.single_source_bytes a c = c
sub_counter BudgetResource.source_count a c = record c {
  source_count = sub_u32 c.source_count (u32 a);
}
sub_counter BudgetResource.source_bytes a c = record c { source_bytes = sub_u64 c.source_bytes a }
sub_counter BudgetResource.import_count a c = record c {
  import_count = sub_u32 c.import_count (u32 a);
}
sub_counter BudgetResource.import_bytes a c = record c { import_bytes = sub_u64 c.import_bytes a }
sub_counter BudgetResource.collection_elements a c = c
sub_counter BudgetResource.input_calls a c = record c { input_calls = sub_u64 c.input_calls a }
sub_counter BudgetResource.input_bytes a c = record c { input_bytes = sub_u64 c.input_bytes a }
sub_counter BudgetResource.output_calls a c = record c { output_calls = sub_u64 c.output_calls a }
sub_counter BudgetResource.output_bytes a c = record c { output_bytes = sub_u64 c.output_bytes a }
sub_counter BudgetResource.host_calls a c = record c { host_calls = sub_u64 c.host_calls a }
sub_counter BudgetResource.host_request_bytes a c = record c {
  host_request_bytes = sub_u64 c.host_request_bytes a;
}
sub_counter BudgetResource.host_response_bytes a c = record c {
  host_response_bytes = sub_u64 c.host_response_bytes a;
}
sub_counter BudgetResource.host_call_bytes a c = record c {
  host_call_bytes = sub_u64 c.host_call_bytes a;
}
