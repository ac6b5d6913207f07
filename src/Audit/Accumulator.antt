-- ===== src/Audit/Accumulator.antt =====
-- src/audit.rs §7.3: `BudgetChargeAccumulator` folds the charges and releases of one
-- (resource, reason) into one `BudgetCharged` event, and cuts a group off at 256 charges.
pub mod Conserve
use tsumugi.Base.{
  ℕ, Bool, ◌&&◌, ◌||◌, List, [], ◌∷◌, ◌++◌, map, Option, none, some, length, leb, ltb, ◌==◌,
  if◌then◌else◌, saturating_add, saturating_mul,
}
use tsumugi.Budget.Types.{BudgetResource}
use tsumugi.Budget.Resources.{same_resource}
use tsumugi.Audit.Event.{
  AuditEvent, budget_charged, BudgetChargeReason, statement, expression, operation, function, loop,
  host_call, bulk_elements, bulk_bytes, allocation, source, input, output, estimate_event_bytes,
}

pub record ChargeGroup : Type 0 where
  pub resource : BudgetResource
  pub reason : BudgetChargeReason
  pub committed_delta : ℕ
  pub released_delta : ℕ
  pub usage_after : ℕ
  pub peak_after : Option ℕ
  pub charge_count : ℕ

pub record BudgetChargeAccumulator : Type 0 where
  pub groups : List ChargeGroup
  pub finalized : List AuditEvent
  pub finalized_event_bytes : ℕ

abbrev pub charge_flush_threshold : ℕ
charge_flush_threshold = 256

-- `BudgetChargeAccumulator::new()`
abbrev pub empty : BudgetChargeAccumulator
empty = record { groups = []; finalized = []; finalized_event_bytes = 0 }

abbrev pub into_event : ChargeGroup → AuditEvent
into_event g =
    budget_charged g.resource g.committed_delta g.released_delta g.usage_after g.peak_after
      g.charge_count g.reason

unfoldable pub resource_sort_key : BudgetResource → ℕ
resource_sort_key BudgetResource.fuel = 0
resource_sort_key BudgetResource.heap_bytes = 1
resource_sort_key BudgetResource.single_string_bytes = 2
resource_sort_key BudgetResource.string_allocations = 3
resource_sort_key BudgetResource.string_bytes = 4
resource_sort_key BudgetResource.single_source_bytes = 5
resource_sort_key BudgetResource.source_count = 6
resource_sort_key BudgetResource.source_bytes = 7
resource_sort_key BudgetResource.import_count = 8
resource_sort_key BudgetResource.import_bytes = 9
resource_sort_key BudgetResource.collection_elements = 10
resource_sort_key BudgetResource.input_calls = 11
resource_sort_key BudgetResource.input_bytes = 12
resource_sort_key BudgetResource.output_calls = 13
resource_sort_key BudgetResource.output_bytes = 14
resource_sort_key BudgetResource.host_calls = 15
resource_sort_key BudgetResource.host_request_bytes = 16
resource_sort_key BudgetResource.host_response_bytes = 17
resource_sort_key BudgetResource.host_call_bytes = 18

unfoldable pub reason_sort_key : BudgetChargeReason → ℕ
reason_sort_key statement = 0
reason_sort_key expression = 1
reason_sort_key operation = 2
reason_sort_key function = 3
reason_sort_key loop = 4
reason_sort_key host_call = 5
reason_sort_key bulk_elements = 6
reason_sort_key bulk_bytes = 7
reason_sort_key allocation = 8
reason_sort_key source = 9
reason_sort_key input = 10
reason_sort_key output = 11

-- The `PartialEq` of the reason compares its declaration order.
unfoldable pub same_key : BudgetResource → BudgetChargeReason → ChargeGroup → Bool
same_key resource reason g =
    same_resource g.resource resource && reason_sort_key g.reason == reason_sort_key reason

-- The first group of the key is changed in place, or taken out once it has reached the threshold;
-- without one the fresh group goes to the end. The group taken out is returned.
unfoldable pub note :
    (ChargeGroup → Bool)
    → (ChargeGroup → ChargeGroup)
    → ChargeGroup
    → List ChargeGroup
    → List ChargeGroup × Option ChargeGroup
note is_key change fresh [] = (fresh ∷ [], none)
note is_key change fresh (g ∷ gs) =
    let later = note is_key change fresh gs in
    if is_key g
    then (if leb charge_flush_threshold (change g).charge_count
        then (gs, some (change g))
        else (change g ∷ gs, none))
    else (g ∷ later.0, later.1)

unfoldable pub push_finalized : AuditEvent → BudgetChargeAccumulator → BudgetChargeAccumulator
push_finalized event acc = record acc {
  finalized = acc.finalized ++ event ∷ [];
  finalized_event_bytes = saturating_add acc.finalized_event_bytes (estimate_event_bytes event);
}

unfoldable pub settle :
    BudgetChargeAccumulator → List ChargeGroup × Option ChargeGroup → BudgetChargeAccumulator
unfolding push_finalized
settle acc (groups, none) = record acc { groups = groups }
settle acc (groups, some g) = push_finalized (into_event g) (record acc { groups = groups })

-- What a charge does to its group, and the group that it opens.
abbrev pub add_charge : ℕ → ℕ → ChargeGroup → ChargeGroup
add_charge committed_delta usage_after g = record g {
  committed_delta = saturating_add g.committed_delta committed_delta;
  usage_after = usage_after;
  charge_count = saturating_add g.charge_count 1;
}

abbrev pub open_charge : BudgetResource → BudgetChargeReason → ℕ → ℕ → ChargeGroup
open_charge resource reason committed_delta usage_after = record {
  resource = resource;
  reason = reason;
  committed_delta = committed_delta;
  released_delta = 0;
  usage_after = usage_after;
  peak_after = none;
  charge_count = 1;
}

unfoldable pub note_charge :
    BudgetResource → BudgetChargeReason → ℕ → ℕ → BudgetChargeAccumulator → BudgetChargeAccumulator
note_charge resource reason committed_delta usage_after acc = settle acc (
    note (same_key resource reason) (add_charge committed_delta usage_after)
      (open_charge resource reason committed_delta usage_after) acc.groups)

-- The same for a release of live bytes.
abbrev pub add_release : ℕ → ℕ → ℕ → ChargeGroup → ChargeGroup
add_release released_delta usage_after peak_after g = record g {
  released_delta = saturating_add g.released_delta released_delta;
  usage_after = usage_after;
  peak_after = some peak_after;
  charge_count = saturating_add g.charge_count 1;
}

abbrev pub open_release : BudgetResource → BudgetChargeReason → ℕ → ℕ → ℕ → ChargeGroup
open_release resource reason released_delta usage_after peak_after = record {
  resource = resource;
  reason = reason;
  committed_delta = 0;
  released_delta = released_delta;
  usage_after = usage_after;
  peak_after = some peak_after;
  charge_count = 1;
}

unfoldable pub note_release :
    BudgetResource
    → BudgetChargeReason
    → ℕ
    → ℕ
    → ℕ
    → BudgetChargeAccumulator
    → BudgetChargeAccumulator
note_release resource reason released_delta usage_after peak_after acc = settle acc (
    note (same_key resource reason) (add_release released_delta usage_after peak_after)
      (open_release resource reason released_delta usage_after peak_after) acc.groups)

pub finalized_queue_bytes : ℕ → BudgetChargeAccumulator → ℕ
finalized_queue_bytes envelope_overhead acc =
    saturating_add acc.finalized_event_bytes
      (saturating_mul (length acc.finalized) envelope_overhead)

-- The order of the keys `(resource_sort_key, reason_sort_key)`: is `g` at most `h`?
unfoldable pub key_le : ChargeGroup → ChargeGroup → Bool
key_le g h =
    ltb (resource_sort_key g.resource) (resource_sort_key h.resource)
    || (resource_sort_key g.resource == resource_sort_key h.resource
        && leb (reason_sort_key g.reason) (reason_sort_key h.reason))

-- `sort_by_key` is a stable sort: an insertion sort that puts an element before its equals, from
-- the right.
unfoldable pub insert_group : ChargeGroup → List ChargeGroup → List ChargeGroup
insert_group g [] = g ∷ []
insert_group g (h ∷ hs) =
    let later = insert_group g hs in if key_le g h then g ∷ h ∷ hs else h ∷ later

unfoldable pub sort_groups : List ChargeGroup → List ChargeGroup
sort_groups [] = []
sort_groups (g ∷ gs) = insert_group g (sort_groups gs)

unfoldable pub flush : BudgetChargeAccumulator → List AuditEvent × BudgetChargeAccumulator
flush acc = (acc.finalized ++ map into_event (sort_groups acc.groups), empty)
