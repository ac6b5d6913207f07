-- ===== src/Scenarios/Configs.antt =====
-- The presets and the overrides of src/budget.rs with a decimal parser and two settings.
use tsumugi.Base.{
  ℕ, ◌+◌, ◌-◌, ◌*◌, ◌<◌, ◌≡◌, ◌⊎◌, ◌&&◌, refl, Option, none, some, [], ◌∷◌, ok, err, leb,
  if◌then◌else◌, u32_max, u64_max,
}
use tsumugi.Audit.Payload.{Text}
use tsumugi.Budget.Types.{BudgetConfig, BudgetResource, MonotonicClock, overflow}
use tsumugi.Budget.Ledger.{limit_of}
use tsumugi.Budget.Ledger.Reserve.{IsConfig}
use tsumugi.Budget.Config.{
  standard, override_keys, override_key, apply_legacy_override, parse_for, put_limit,
  validate_config, apply_legacy_overrides, legacy_override_keys,
}
use tsumugi.Budget.Config.Laws.{
  standard_valid, apply_legacy_overrides_exact, setting, set_keys, value_or,
}
use tsumugi.Scenarios.Budgets.{config}

abbrev clock : MonotonicClock
clock = record { clock_id = 7; now_ns = 400 }

digits : ℕ → Text → Option ℕ
digits acc [] = some acc
digits acc (c ∷ cs) = if leb 48 c && leb c 57 then digits (acc * 10 + (c - 48)) cs else none

within : ℕ → Option ℕ → Option ℕ
within top none = none
within top (some v) = if leb v top then some v else none

parse : ℕ → Text → Option ℕ
parse top [] = none
parse top (c ∷ cs) = within top (digits 0 (c ∷ cs))

-- "250" steps, and a count of sources that is no number.
lookup : BudgetResource → Option Text
lookup BudgetResource.fuel = some (50 ∷ 53 ∷ 48 ∷ [])
lookup BudgetResource.source_count = some (120 ∷ [])
lookup _ = none

steps_set :
    limit_of BudgetResource.fuel
      (apply_legacy_overrides (parse u32_max) (parse u64_max) lookup config).1
    ≡ 250
unfolding apply_legacy_overrides override_keys override_key apply_legacy_override parse_for
    put_limit lookup parse within digits limit_of
steps_set = refl

standard_valid_example :
    ((c : BudgetConfig) × (standard clock ≡ ok c)
      × (validate_config clock c ≡ ok tt)
      × IsConfig c
      × (clock.now_ns + 30000000000 ≡ c.deadline.ns))
    ⊎ ((standard clock ≡ err overflow) × (u64_max < clock.now_ns + 30000000000))
standard_valid_example = standard_valid clock

config_valid : validate_config clock config ≡ ok tt
unfolding validate_config
config_valid = refl

apply_legacy_overrides_exact_example :
    ((r : BudgetResource)
      → limit_of r (apply_legacy_overrides (parse u32_max) (parse u64_max) lookup config).1
        ≡ value_or (setting (parse u32_max) (parse u64_max) lookup r) (limit_of r config))
    × ((apply_legacy_overrides (parse u32_max) (parse u64_max) lookup config).0
        ≡ set_keys (parse u32_max) (parse u64_max) lookup legacy_override_keys)
    × ((apply_legacy_overrides (parse u32_max) (parse u64_max) lookup config).1.deadline
        ≡ config.deadline)
    × ((apply_legacy_overrides
          (parse u32_max)
          (parse u64_max)
          lookup
          config).1.heap_accounting_revision
        ≡ config.heap_accounting_revision)
apply_legacy_overrides_exact_example =
    apply_legacy_overrides_exact (parse u32_max) (parse u64_max) lookup config
