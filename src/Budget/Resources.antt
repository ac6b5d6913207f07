-- ===== src/Budget/Resources.antt =====
-- src/budget.rs: the equality that `BudgetResource` derives, through its fixed priority.
use tsumugi.Base.{ℕ, zero, suc, ◌≡◌, refl, sym, ap, ◌∙◌, Bool, true, ◌==◌, ==_iff}
use tsumugi.Budget.Types.{BudgetResource, priority}

-- `PartialEq`
unfoldable pub same_resource : BudgetResource → BudgetResource → Bool
same_resource a b = priority a == priority b

of_priority : ℕ → BudgetResource
of_priority zero = BudgetResource.fuel
of_priority (suc zero) = BudgetResource.fuel
of_priority (suc (suc zero)) = BudgetResource.heap_bytes
of_priority (suc (suc (suc zero))) = BudgetResource.single_string_bytes
of_priority (suc (suc (suc (suc zero)))) = BudgetResource.string_allocations
of_priority (suc (suc (suc (suc (suc zero))))) = BudgetResource.string_bytes
of_priority (suc (suc (suc (suc (suc (suc zero)))))) = BudgetResource.single_source_bytes
of_priority (suc (suc (suc (suc (suc (suc (suc zero))))))) = BudgetResource.source_count
of_priority (suc (suc (suc (suc (suc (suc (suc (suc zero)))))))) = BudgetResource.source_bytes
of_priority (suc (suc (suc (suc (suc (suc (suc (suc (suc zero))))))))) = BudgetResource.import_count
of_priority (suc (suc (suc (suc (suc (suc (suc (suc (suc (suc zero)))))))))) =
    BudgetResource.import_bytes
of_priority (suc (suc (suc (suc (suc (suc (suc (suc (suc (suc (suc zero))))))))))) =
    BudgetResource.collection_elements
of_priority (suc (suc (suc (suc (suc (suc (suc (suc (suc (suc (suc (suc zero)))))))))))) =
    BudgetResource.input_calls
of_priority (suc (suc (suc (suc (suc (suc (suc (suc (suc (suc (suc (suc (suc zero))))))))))))) =
    BudgetResource.input_bytes
of_priority
      (suc (suc (suc (suc (suc (suc (suc (suc (suc (suc (suc (suc (suc (suc zero)))))))))))))) =
    BudgetResource.output_calls
of_priority
      (suc
        (suc (suc (suc (suc (suc (suc (suc (suc (suc (suc (suc (suc (suc (suc zero))))))))))))))) =
    BudgetResource.output_bytes
of_priority
      (suc (
        suc (
          suc
            (suc (suc (suc (suc (suc (suc (suc (suc (suc (suc (suc (suc (suc zero)))))))))))))))) =
    BudgetResource.host_calls
of_priority
      (suc (
        suc (
          suc (
            suc (
              suc
                (suc (suc (suc (suc (suc (suc (suc (suc (suc (suc (suc (suc zero))))))))))))))))) =
    BudgetResource.host_request_bytes
of_priority
      (suc (
        suc (
          suc (
            suc (
              suc (
                suc (
                  suc
                    (suc (suc (suc (suc (suc (suc (suc (suc (suc (suc (suc zero)))))))))))))))))) =
    BudgetResource.host_response_bytes
of_priority _ = BudgetResource.host_call_bytes

of_priority-priority : (r : BudgetResource) → of_priority (priority r) ≡ r
unfolding of_priority priority
of_priority-priority BudgetResource.fuel = refl
of_priority-priority BudgetResource.heap_bytes = refl
of_priority-priority BudgetResource.single_string_bytes = refl
of_priority-priority BudgetResource.string_allocations = refl
of_priority-priority BudgetResource.string_bytes = refl
of_priority-priority BudgetResource.single_source_bytes = refl
of_priority-priority BudgetResource.source_count = refl
of_priority-priority BudgetResource.source_bytes = refl
of_priority-priority BudgetResource.import_count = refl
of_priority-priority BudgetResource.import_bytes = refl
of_priority-priority BudgetResource.collection_elements = refl
of_priority-priority BudgetResource.input_calls = refl
of_priority-priority BudgetResource.input_bytes = refl
of_priority-priority BudgetResource.output_calls = refl
of_priority-priority BudgetResource.output_bytes = refl
of_priority-priority BudgetResource.host_calls = refl
of_priority-priority BudgetResource.host_request_bytes = refl
of_priority-priority BudgetResource.host_response_bytes = refl
of_priority-priority BudgetResource.host_call_bytes = refl

-- The priorities are distinct, so the test decides equality.
pub same_resource-eq : (a b : BudgetResource) → same_resource a b ≡ true → a ≡ b
unfolding same_resource
same_resource-eq a b h =
    sym (of_priority-priority a)
    ∙ ap of_priority ((==_iff (priority a) (priority b)).0 h)
    ∙ of_priority-priority b

pub same_resource_refl : (a : BudgetResource) → same_resource a a ≡ true
unfolding same_resource
same_resource_refl a = (==_iff (priority a) (priority a)).1 refl
