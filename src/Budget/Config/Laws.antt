-- ===== src/Budget/Config/Laws.antt =====
-- src/budget.rs: the laws of the presets, of the validation and of the overrides.
use tsumugi.Base.{
  ℕ, ◌+◌, ◌<◌, ◌≡◌, ◌⊎◌, inl, inr, refl, sym, ap, ◌∙◌, Bool, true, false, Option, none, some, List,
  [], ◌∷◌, arith, ok, err, u64_max, dec_le, if◌then◌else◌, Option-cases, ◌||◌, Bool-cases,
}
use tsumugi.Audit.Payload.{Text}
use tsumugi.Budget.Types.{BudgetConfig, BudgetResource, MonotonicClock, overflow, priority}
use tsumugi.Budget.Resources.{same_resource, same_resource-eq}
use tsumugi.Budget.Counters.Laws.{word_max}
use tsumugi.Budget.Ledger.{limit_of, new}
use tsumugi.Budget.Ledger.Reserve.{IsConfig}
use tsumugi.Budget.Ledger.Atomic.{IsRunning}
use tsumugi.Budget.Charges.{set_clock}
use tsumugi.Budget.Config.{
  preset, standard, validate_config, put_limit, legacy_override_keys, parse_for,
  apply_legacy_override, override_key, override_keys, apply_legacy_overrides,
}

-- The standard configuration of a clock either is valid for that clock, with every limit a value
-- of its field's machine type and the deadline 30 seconds after the clock's time, or is refused
-- for overflow because that deadline does not fit in 64 bits.
pub standard_valid :
    (clock : MonotonicClock)
    → ((c : BudgetConfig) × (standard clock ≡ ok c)
        × (validate_config clock c ≡ ok tt)
        × IsConfig c
        × (clock.now_ns + 30000000000 ≡ c.deadline.ns))
      ⊎ ((standard clock ≡ err overflow) × (u64_max < clock.now_ns + 30000000000))
unfolding standard validate_config preset limit_of word_max
standard_valid clock = elim (dec_le (clock.now_ns + 30000000000) u64_max) [
  | yes h ↦ inl (
    preset 1000000 1000000 (record { clock_id = clock.clock_id; ns = clock.now_ns + 30000000000 }),
    ground arith,
    ground arith,
    λ r. ground arith,
    refl,
  )
  | no h ↦ inr (ground arith, omega arith)
]

-- A configuration that is valid for a clock gives a new ledger that is not yet past its deadline
-- on that clock, and not cancelled if the token is not.
pub validate_config-IsRunning :
    (clock : MonotonicClock) (c : BudgetConfig)
    → validate_config clock c ≡ ok tt
    → IsRunning (set_clock clock (new c false))
unfolding validate_config set_clock new
validate_config-IsRunning clock c h = record {
  not_cancelled = refl;
  in_time = λ k e. ground (arith, e);
}

limit_of-put_limit :
    (r k : BudgetResource) (v : ℕ) (c : BudgetConfig)
    → limit_of r (put_limit k v c) ≡ (if same_resource k r then v else limit_of r c)
unfolding limit_of put_limit same_resource priority
limit_of-put_limit r k v c = ground arith

abbrev pub value_or : Option ℕ → ℕ → ℕ
value_or none d = d
value_or (some v) d = v

abbrev pub is_set : Option ℕ → Bool
is_set none = false
is_set (some v) = true

abbrev pub named : BudgetResource → List BudgetResource → Bool
named r [] = false
named r (k ∷ ks) = same_resource k r || named r ks

module _ (parse_u32 parse_u64 : Text → Option ℕ) (lookup : BudgetResource → Option Text) where
  -- What the caller sets for a key, if it is a number of the key's width.
  unfoldable pub setting : BudgetResource → Option ℕ
  setting k = elim (lookup k) [
    | none ↦ none
    | some raw ↦ parse_for parse_u32 parse_u64 lookup k raw
  ]

  unfoldable pub set_keys : List BudgetResource → List BudgetResource
  set_keys [] = []
  set_keys (k ∷ ks) = let rest = set_keys ks in if is_set (setting k) then k ∷ rest else rest

  override_key-cases :
      (k : BudgetResource) (c : BudgetConfig)
      → ((setting k ≡ none) × (override_key parse_u32 parse_u64 lookup k c ≡ ([], c)))
        ⊎ ((v : ℕ) × (setting k ≡ some v)
            × (override_key parse_u32 parse_u64 lookup k c ≡ (k ∷ [], put_limit k v c)))
  unfolding setting override_key apply_legacy_override
  override_key-cases k c = elim (Option-cases (lookup k)) [
    | inl e ↦ inl (ground (arith, e), ground (arith, e))
    | inr (raw, e) ↦ elim (Option-cases (parse_for parse_u32 parse_u64 lookup k raw)) [
      | inl p ↦ inl (ground (arith, e, p), ground (arith, e, p))
      | inr (v, p) ↦ inr (v, ground (arith, e, p), ground (arith, e, p))
    ]
  ]

  override_key-limit :
      (r k : BudgetResource) (c : BudgetConfig)
      → limit_of r (override_key parse_u32 parse_u64 lookup k c).1
        ≡ (if same_resource k r then value_or (setting r) (limit_of r c) else limit_of r c)
  override_key-limit r k c = elim (Bool-cases (same_resource k r)) [
    | inl b ↦
        let same = same_resource-eq k r b in
        elim (override_key-cases k c) [
          | inl (e, o) ↦ rw (o, b, ap setting (sym same) ∙ e) refl
          | inr (v, e, o) ↦
              rw (o, b, ap setting (sym same) ∙ e) (ground (arith, limit_of-put_limit r k v c, b))
        ]
    | inr b ↦ elim (override_key-cases k c) [
      | inl (e, o) ↦ rw (o, b) refl
      | inr (v, e, o) ↦ rw (o, b) (ground (arith, limit_of-put_limit r k v c, b))
    ]
  ]

  override_keys-limit :
      (r : BudgetResource) (ks : List BudgetResource) (c : BudgetConfig)
      → limit_of r (override_keys parse_u32 parse_u64 lookup ks c).1
        ≡ (if named r ks then value_or (setting r) (limit_of r c) else limit_of r c)
  unfolding override_keys
  override_keys-limit r [] c = refl
  override_keys-limit r (k ∷ ks) c =
      let c' = (override_key parse_u32 parse_u64 lookup k c).1 in
      ground
        (arith, override_key-limit r k c, override_keys-limit r ks c', Option-cases (setting r))

  override_keys-applied :
      (ks : List BudgetResource) (c : BudgetConfig)
      → (override_keys parse_u32 parse_u64 lookup ks c).0 ≡ set_keys ks
  unfolding override_keys set_keys
  override_keys-applied [] c = refl
  override_keys-applied (k ∷ ks) c = elim (override_key-cases k c) [
    | inl (e, o) ↦ rw (o, e) (override_keys-applied ks c)
    | inr (v, e, o) ↦ rw (o, e) (ap (λ xs. k ∷ xs) (override_keys-applied ks (put_limit k v c)))
  ]

  put_limit-deadline :
      (k : BudgetResource) (v : ℕ) (c : BudgetConfig)
      → ((put_limit k v c).deadline ≡ c.deadline)
        × ((put_limit k v c).heap_accounting_revision ≡ c.heap_accounting_revision)
  unfolding put_limit
  put_limit-deadline k v c = ground arith

  override_keys-deadline :
      (ks : List BudgetResource) (c : BudgetConfig)
      → ((override_keys parse_u32 parse_u64 lookup ks c).1.deadline ≡ c.deadline)
        × ((override_keys parse_u32 parse_u64 lookup ks c).1.heap_accounting_revision
            ≡ c.heap_accounting_revision)
  unfolding override_keys
  override_keys-deadline [] c = (refl, refl)
  override_keys-deadline (k ∷ ks) c = elim (override_key-cases k c) [
    | inl (e, o) ↦ rw o (override_keys-deadline ks c)
    | inr (v, e, o) ↦
        let (a, b) = override_keys-deadline ks (put_limit k v c) in
        let (d, f) = put_limit-deadline k v c in rw o (a ∙ d, b ∙ f)
  ]

  every_key : (r : BudgetResource) → named r legacy_override_keys ≡ true
  unfolding same_resource priority
  every_key r = ground arith

  -- Whatever the number parsers and the settings are, the overrides leave each limit at the value
  -- that is set for its key, where that parses at the key's width, and else as it was; they report
  -- exactly the keys whose values parse, in the order of the key list, and keep the deadline and
  -- the accounting revision.
  pub apply_legacy_overrides_exact :
      (c : BudgetConfig)
      → ((r : BudgetResource)
          → limit_of r (apply_legacy_overrides parse_u32 parse_u64 lookup c).1
            ≡ value_or (setting r) (limit_of r c))
        × ((apply_legacy_overrides parse_u32 parse_u64 lookup c).0 ≡ set_keys legacy_override_keys)
        × ((apply_legacy_overrides parse_u32 parse_u64 lookup c).1.deadline ≡ c.deadline)
        × ((apply_legacy_overrides parse_u32 parse_u64 lookup c).1.heap_accounting_revision
            ≡ c.heap_accounting_revision)
  unfolding apply_legacy_overrides
  apply_legacy_overrides_exact c =
      let (d, v) = override_keys-deadline legacy_override_keys c in
      (
        λ r. override_keys-limit r legacy_override_keys c ∙ rw (every_key r) refl,
        override_keys-applied legacy_override_keys c,
        d,
        v,
      )
