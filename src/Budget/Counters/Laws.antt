-- ===== src/Budget/Counters/Laws.antt =====
-- src/budget.rs: what adding to one counter, and taking from it, does to every counter.
use tsumugi.Base.{
  ℕ, ◌+◌, ◌≤◌, ◌≡◌, refl, Bool, true, false, arith, if◌then◌else◌, u32_max, u64_max, Bool-cases,
  inl, inr,
}
use tsumugi.Budget.Types.{BudgetCounters, BudgetResource, priority}
use tsumugi.Budget.Resources.{same_resource, same_resource-eq, same_resource_refl}
use tsumugi.Budget.Counters.{counter, add_counter, sub_counter}

-- The resources with a counter of their own; the others are live or per-item.
abbrev pub is_cumulative : BudgetResource → Bool
is_cumulative BudgetResource.heap_bytes = false
is_cumulative BudgetResource.single_string_bytes = false
is_cumulative BudgetResource.single_source_bytes = false
is_cumulative BudgetResource.collection_elements = false
is_cumulative _ = true

-- The largest value of the counter's machine type.
unfoldable pub word_max : BudgetResource → ℕ
word_max BudgetResource.source_count = u32_max
word_max BudgetResource.import_count = u32_max
word_max _ = u64_max

pub word_max-le : (r : BudgetResource) → word_max r ≤ u64_max
unfolding word_max
word_max-le BudgetResource.source_count = omega arith
word_max-le _ = omega arith

-- The part of an amount for `r` that falls on `q`.
abbrev pub share : BudgetResource → BudgetResource → ℕ → ℕ
share q r amount = if same_resource q r then amount else 0

add-other :
    (q r : BudgetResource) (a : ℕ) (c : BudgetCounters)
    → same_resource q r ≡ false
    → counter q (add_counter r a c) ≡ counter q c
unfolding counter add_counter same_resource priority
add-other BudgetResource.fuel BudgetResource.fuel a c h = cc
add-other BudgetResource.fuel _ a c h = refl
add-other _ BudgetResource.fuel a c h = refl
add-other _ _ a c h = ground arith

sub-other :
    (q r : BudgetResource) (a : ℕ) (c : BudgetCounters)
    → same_resource q r ≡ false
    → counter q (sub_counter r a c) ≡ counter q c
unfolding counter sub_counter same_resource priority
sub-other BudgetResource.fuel BudgetResource.fuel a c h = cc
sub-other BudgetResource.fuel _ a c h = refl
sub-other _ BudgetResource.fuel a c h = refl
sub-other _ _ a c h = ground arith

add_self :
    (r : BudgetResource) (a : ℕ) (c : BudgetCounters)
    → is_cumulative r ≡ true
    → counter r c + a ≤ word_max r
    → counter r (add_counter r a c) ≡ counter r c + a
unfolding counter add_counter word_max
add_self BudgetResource.fuel a c h fits = omega arith
add_self _ a c h fits = ground arith

sub_self :
    (r : BudgetResource) (a : ℕ) (c : BudgetCounters)
    → counter r c ≤ word_max r
    → a ≤ counter r c
    → counter r (sub_counter r a c) + a ≡ counter r c
unfolding counter sub_counter word_max
sub_self BudgetResource.fuel a c h le = omega arith
sub_self _ a c h le = ground arith

module _ (q r : BudgetResource) (a : ℕ) (c : BudgetCounters) where
  -- Within the machine word, adding to the counter of `r` raises that counter alone.
  pub counter-add_counter :
      is_cumulative r ≡ true
      → counter r c + a ≤ word_max r
      → counter q (add_counter r a c) ≡ counter q c + share q r a
  counter-add_counter h fits = elim (Bool-cases (same_resource q r)) [
    | inl e ↦ rw (same_resource-eq q r e, same_resource_refl r) (add_self r a c h fits)
    | inr e ↦ rw e (omega (arith, add-other q r a c e))
  ]

  -- Taking what is there lowers that counter alone.
  pub counter-sub_counter :
      counter r c ≤ word_max r
      → a ≤ counter r c
      → counter q (sub_counter r a c) + share q r a ≡ counter q c
  counter-sub_counter h le = elim (Bool-cases (same_resource q r)) [
    | inl e ↦ rw (same_resource-eq q r e, same_resource_refl r) (sub_self r a c h le)
    | inr e ↦ rw e (omega (arith, sub-other q r a c e))
  ]
