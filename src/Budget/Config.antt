-- ===== src/Budget/Config.antt =====
-- src/budget.rs §3 and §13: the presets of `BudgetConfig`, its validation, and the legacy overrides.
-- A key of `LEGACY_OVERRIDE_KEYS` is named by the resource whose limit it sets.
pub mod Laws
use tsumugi.Base.{
  ℕ, ◌*◌, Bool, true, false, not, Option, none, some, List, [], ◌∷◌, ◌++◌, Result, ok, err, leb,
  ◌==◌, if◌then◌else◌, checked_add, u64_max,
}
use tsumugi.Audit.Payload.{Text}
use tsumugi.Budget.Types.{
  BudgetConfig, BudgetResource, ConfigError, MonotonicClock, MonotonicInstant, foreign_clock,
  deadline_not_in_future, overflow, unsupported_accounting_revision,
}

abbrev pub mib : ℕ
mib = 1048576

abbrev pub heap_accounting_revision : ℕ
heap_accounting_revision = 1

abbrev pub instant_at : MonotonicClock → ℕ → MonotonicInstant
instant_at clock ns = record { clock_id = clock.clock_id; ns = ns }

-- The fields that `standard` and `for_legacy` write alike.
unfoldable pub preset : ℕ → ℕ → MonotonicInstant → BudgetConfig
preset total_fuel max_collection_elements deadline = record {
  heap_accounting_revision = heap_accounting_revision;
  total_fuel = total_fuel;
  max_live_heap_bytes = 64 * mib;
  max_string_allocations = 1000000;
  max_string_bytes = 64 * mib;
  max_single_string_bytes = 8 * mib;
  max_source_count = 1025;
  max_source_bytes = 16 * mib;
  max_single_source_bytes = 2 * mib;
  max_import_count = 1024;
  max_import_bytes = 16 * mib;
  max_collection_elements = max_collection_elements;
  max_input_calls = 10000;
  max_input_bytes = 8 * mib;
  max_output_calls = 10000;
  max_output_bytes = 8 * mib;
  max_host_calls = 10000;
  max_host_request_bytes = 8 * mib;
  max_host_response_bytes = 16 * mib;
  max_host_call_bytes = 24 * mib;
  deadline = deadline;
}

unfoldable pub standard : MonotonicClock → Result BudgetConfig ConfigError
unfolding preset
standard clock = elim (checked_add clock.now_ns 30000000000) [
  | none ↦ err overflow
  | some ns ↦ ok (preset 1000000 1000000 (instant_at clock ns))
]

-- The first argument is the id that `next_clock_id` gives out.
unfoldable pub for_legacy : ℕ → ℕ → ℕ → BudgetConfig
unfolding preset
for_legacy clock_id total_fuel max_collection_elements =
    preset total_fuel max_collection_elements (record { clock_id = clock_id; ns = u64_max })

unfoldable pub validate_config : MonotonicClock → BudgetConfig → Result (Unit {0}) ConfigError
validate_config clock c =
    if not (c.heap_accounting_revision == heap_accounting_revision)
    then err (unsupported_accounting_revision c.heap_accounting_revision)
    else (if not (c.deadline.clock_id == clock.clock_id)
        then err foreign_clock
        else (if leb c.deadline.ns clock.now_ns then err deadline_not_in_future else ok tt))

abbrev pub legacy_override_keys : List BudgetResource
legacy_override_keys =
    BudgetResource.fuel ∷ BudgetResource.collection_elements ∷ BudgetResource.single_string_bytes
    ∷ BudgetResource.string_allocations ∷ BudgetResource.string_bytes
    ∷ BudgetResource.single_source_bytes ∷ BudgetResource.source_count ∷ BudgetResource.source_bytes
    ∷ BudgetResource.import_count ∷ BudgetResource.import_bytes ∷ BudgetResource.heap_bytes
    ∷ BudgetResource.input_calls ∷ BudgetResource.input_bytes ∷ BudgetResource.output_calls
    ∷ BudgetResource.output_bytes ∷ BudgetResource.host_calls ∷ BudgetResource.host_request_bytes
    ∷ BudgetResource.host_response_bytes ∷ BudgetResource.host_call_bytes ∷ []

-- The field of the key.
unfoldable pub put_limit : BudgetResource → ℕ → BudgetConfig → BudgetConfig
put_limit BudgetResource.fuel v c = record c { total_fuel = v }
put_limit BudgetResource.heap_bytes v c = record c { max_live_heap_bytes = v }
put_limit BudgetResource.single_string_bytes v c = record c { max_single_string_bytes = v }
put_limit BudgetResource.string_allocations v c = record c { max_string_allocations = v }
put_limit BudgetResource.string_bytes v c = record c { max_string_bytes = v }
put_limit BudgetResource.single_source_bytes v c = record c { max_single_source_bytes = v }
put_limit BudgetResource.source_count v c = record c { max_source_count = v }
put_limit BudgetResource.source_bytes v c = record c { max_source_bytes = v }
put_limit BudgetResource.import_count v c = record c { max_import_count = v }
put_limit BudgetResource.import_bytes v c = record c { max_import_bytes = v }
put_limit BudgetResource.collection_elements v c = record c { max_collection_elements = v }
put_limit BudgetResource.input_calls v c = record c { max_input_calls = v }
put_limit BudgetResource.input_bytes v c = record c { max_input_bytes = v }
put_limit BudgetResource.output_calls v c = record c { max_output_calls = v }
put_limit BudgetResource.output_bytes v c = record c { max_output_bytes = v }
put_limit BudgetResource.host_calls v c = record c { max_host_calls = v }
put_limit BudgetResource.host_request_bytes v c = record c { max_host_request_bytes = v }
put_limit BudgetResource.host_response_bytes v c = record c { max_host_response_bytes = v }
put_limit BudgetResource.host_call_bytes v c = record c { max_host_call_bytes = v }

-- `str::parse` at the two widths, and the settings that the caller looks up.
module _ (parse_u32 parse_u64 : Text → Option ℕ) (lookup : BudgetResource → Option Text) where
  unfoldable pub parse_for : BudgetResource → Text → Option ℕ
  parse_for BudgetResource.source_count raw = parse_u32 raw
  parse_for BudgetResource.import_count raw = parse_u32 raw
  parse_for _ raw = parse_u64 raw

  unfoldable pub apply_legacy_override : BudgetResource → Text → BudgetConfig → Bool × BudgetConfig
  apply_legacy_override key raw c = elim (parse_for key raw) [
    | none ↦ (false, c)
    | some v ↦ (true, put_limit key v c)
  ]

  -- One round of the loop: the keys that it applies, and the configuration after it.
  unfoldable pub override_key : BudgetResource → BudgetConfig → List BudgetResource × BudgetConfig
  override_key key c = elim (lookup key) [
    | none ↦ ([], c)
    | some raw ↦
        let (applied, c') = apply_legacy_override key raw c in
        (if applied then key ∷ [] else [], c')
  ]

  unfoldable pub override_keys :
      List BudgetResource → BudgetConfig → List BudgetResource × BudgetConfig
  override_keys [] c = ([], c)
  override_keys (key ∷ keys) c =
      let (here, c') = override_key key c in
      let (later, c'') = override_keys keys c' in (here ++ later, c'')

  unfoldable pub apply_legacy_overrides : BudgetConfig → List BudgetResource × BudgetConfig
  apply_legacy_overrides = override_keys legacy_override_keys
