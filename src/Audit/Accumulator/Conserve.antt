-- ===== src/Audit/Accumulator/Conserve.antt =====
-- src/audit.rs: the amounts that `BudgetChargeAccumulator` holds of one resource.
use tsumugi.Base.{
  ℕ, ◌+◌, ◌≤◌, ◌≡◌, refl, Bool, true, List, [], ◌∷◌, ◌++◌, map, Option, none, some, arith, u64_max,
  Bool-cases, inl, inr,
}
use tsumugi.Budget.Types.{BudgetResource}
use tsumugi.Budget.Resources.{same_resource-eq, same_resource_refl}
use tsumugi.Budget.Counters.Laws.{share}
use tsumugi.Audit.Event.{AuditEvent, BudgetChargeReason, budget_charged}
use tsumugi.Audit.Accumulator.{
  ChargeGroup, BudgetChargeAccumulator, into_event, same_key, note, settle, note_charge,
  note_release, add_charge, add_release, open_charge, open_release, sort_groups, insert_group,
  flush,
}

-- The committed amount of `q` in one event, in a list of events, in the open groups, in all.
abbrev pub event_charge : BudgetResource → AuditEvent → ℕ
event_charge q (budget_charged r committed _ _ _ _ _) = share q r committed
event_charge q _ = 0

abbrev pub events_charge : BudgetResource → List AuditEvent → ℕ
events_charge q [] = 0
events_charge q (e ∷ es) = event_charge q e + events_charge q es

abbrev pub groups_charge : BudgetResource → List ChargeGroup → ℕ
groups_charge q [] = 0
groups_charge q (g ∷ gs) = share q g.resource g.committed_delta + groups_charge q gs

abbrev pub taken_charge : BudgetResource → Option ChargeGroup → ℕ
taken_charge q none = 0
taken_charge q (some g) = share q g.resource g.committed_delta

abbrev pub charged : BudgetResource → BudgetChargeAccumulator → ℕ
charged q acc = events_charge q acc.finalized + groups_charge q acc.groups

pub events_charge-append :
    (q : BudgetResource) (xs ys : List AuditEvent)
    → events_charge q (xs ++ ys) ≡ events_charge q xs + events_charge q ys
events_charge-append q [] ys = omega arith
events_charge-append q (x ∷ xs) ys = omega (arith, events_charge-append q xs ys)

settle-charged :
    (q : BudgetResource) (acc : BudgetChargeAccumulator) (gs : List ChargeGroup)
    (o : Option ChargeGroup)
    → charged q (settle acc (gs, o))
      ≡ events_charge q acc.finalized + (groups_charge q gs + taken_charge q o)
unfolding settle
settle-charged q acc gs none = omega arith
settle-charged q acc gs (some g) =
    omega (arith, events_charge-append q acc.finalized (into_event g ∷ []))

-- A change of the groups with one key that adds `delta` of `r`.
module _ (is_key : ChargeGroup → Bool) (change : ChargeGroup → ChargeGroup) (fresh : ChargeGroup)
    (q r : BudgetResource) (delta : ℕ) (key : (g : ChargeGroup) → is_key g ≡ true → g.resource ≡ r)
    (kept : (g : ChargeGroup) → (change g).resource ≡ g.resource)
    (added : (g : ChargeGroup)
      → g.committed_delta + delta ≤ u64_max
      → (change g).committed_delta ≡ g.committed_delta + delta)
    (fresh_resource : fresh.resource ≡ r) (fresh_delta : fresh.committed_delta ≡ delta) where
  note-charge :
      (gs : List ChargeGroup)
      → groups_charge r gs + delta ≤ u64_max
      → groups_charge q (note is_key change fresh gs).0
          + taken_charge q (note is_key change fresh gs).1
        ≡ groups_charge q gs + share q r delta
  unfolding note
  note-charge [] h = rw (fresh_resource, fresh_delta) (omega arith)
  note-charge (g ∷ gs) h = elim (Bool-cases (is_key g)) [
    | inl e ↦
        let is_r = key g e in
        let le : g.committed_delta + delta ≤ u64_max = ground (arith, is_r, same_resource_refl r) in
        ground (arith, is_r, e, kept g, added g le)
    | inr e ↦ rw e (ground (arith, note-charge gs))
  ]

same_key-resource :
    (r : BudgetResource) (reason : BudgetChargeReason) (g : ChargeGroup)
    → same_key r reason g ≡ true
    → g.resource ≡ r
unfolding same_key
same_key-resource r reason g h = same_resource-eq g.resource r (ground arith)

-- A charge of one resource is added to what the accumulator holds of that resource, open groups
-- and finished events together, and to no other, where the sum is within 64 bits.
pub charged-note_charge :
    (q r : BudgetResource) (reason : BudgetChargeReason) (delta usage : ℕ)
    (acc : BudgetChargeAccumulator)
    → charged r acc + delta ≤ u64_max
    → charged q (note_charge r reason delta usage acc) ≡ charged q acc + share q r delta
unfolding note_charge
charged-note_charge q r reason delta usage acc h =
    let (gs, o) =
      note (same_key r reason) (add_charge delta usage) (open_charge r reason delta usage)
        acc.groups in
    let e =
      note-charge (same_key r reason) (add_charge delta usage) (open_charge r reason delta usage) q
        r delta (same_key-resource r reason) (λ g. refl) (λ g le. ground arith) refl refl acc.groups
        (omega arith) in
    omega (arith, e, settle-charged q acc gs o)

-- A release leaves what is held of the charges as it was.
pub charged-note_release :
    (q r : BudgetResource) (reason : BudgetChargeReason) (delta usage peak : ℕ)
    (acc : BudgetChargeAccumulator)
    → charged r acc ≤ u64_max
    → charged q (note_release r reason delta usage peak acc) ≡ charged q acc
unfolding note_release
charged-note_release q r reason delta usage peak acc h =
    let (gs, o) =
      note (same_key r reason) (add_release delta usage peak)
        (open_release r reason delta usage peak) acc.groups in
    let e =
      note-charge (same_key r reason) (add_release delta usage peak)
        (open_release r reason delta usage peak) q r 0 (same_key-resource r reason) (λ g. refl)
        (λ g le. omega arith) refl refl acc.groups (omega arith) in
    ground (arith, e, settle-charged q acc gs o)

groups-events :
    (q : BudgetResource) (gs : List ChargeGroup)
    → events_charge q (map into_event gs) ≡ groups_charge q gs
groups-events q [] = refl
groups-events q (g ∷ gs) = omega (arith, groups-events q gs)

insert_group-charge :
    (q : BudgetResource) (g : ChargeGroup) (gs : List ChargeGroup)
    → groups_charge q (insert_group g gs)
      ≡ share q g.resource g.committed_delta + groups_charge q gs
unfolding insert_group
insert_group-charge q g [] = omega arith
insert_group-charge q g (h ∷ hs) = ground (arith, insert_group-charge q g hs)

sort_groups-charge :
    (q : BudgetResource) (gs : List ChargeGroup)
    → groups_charge q (sort_groups gs) ≡ groups_charge q gs
unfolding sort_groups
sort_groups-charge q [] = refl
sort_groups-charge q (g ∷ gs) =
    omega (arith, insert_group-charge q g (sort_groups gs), sort_groups-charge q gs)

-- The events of a flush carry exactly the committed amounts that the accumulator held of each
-- resource, and nothing stays behind.
pub charged-flush :
    (q : BudgetResource) (acc : BudgetChargeAccumulator)
    → (events_charge q (flush acc).0 ≡ charged q acc) × (charged q (flush acc).1 ≡ 0)
unfolding flush
charged-flush q acc = (
  omega (
    arith,
    events_charge-append q acc.finalized (map into_event (sort_groups acc.groups)),
    groups-events q (sort_groups acc.groups),
    sort_groups-charge q acc.groups,
  ),
  omega arith,
)
