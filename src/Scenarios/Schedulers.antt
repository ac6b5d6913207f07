-- ===== src/Scenarios/Schedulers.antt =====
-- A scheduler of src/scheduler.rs with one active slot and a queue of one.
use mathlib.Core.List.{Memᴰ}
use tsumugi.Base.{ℕ, suc, ◌<◌, ◌≡◌, ◌≢◌, refl, List, [], false, arith}
use tsumugi.Audit.Event.{AdmissionPhase}
use tsumugi.Scheduler.{
  EngineLimits, SchedulerInner, SlotKind, AdmissionSlot, AdmissionSlotKind, with_limits, admit,
  admit_active, admit_queued, take_id, store, drop, drop_seen, release_active, promote, give_back,
  run_turn_remove,
}
use tsumugi.Scheduler.Cells.{count_active}
use tsumugi.Scheduler.Reach.{Reachable, IsSettled, issue, start, admits, drops, Reachable-IsSettled}
use tsumugi.Scheduler.Drops.{drop_twice, drop_late, drop_promotes}

abbrev one : EngineLimits
one = record { max_active_executions = 1; max_queued_executions = 1; default_slice_fuel = 10000 }

abbrev first : SchedulerInner
first = (admit AdmissionPhase.created (with_limits one)).1

abbrev first_slots : List AdmissionSlot
first_slots = issue (admit AdmissionPhase.created (with_limits one)).0 []

-- The second execution waits.
abbrev second : SchedulerInner
second = (admit AdmissionPhase.created first).1

abbrev second_slots : List AdmissionSlot
second_slots = issue (admit AdmissionPhase.created first).0 first_slots

abbrev runner : AdmissionSlot
runner = record { kind = AdmissionSlotKind.active; slot_id = 0 }

abbrev waiter : AdmissionSlot
waiter = record { kind = AdmissionSlotKind.queued; slot_id = 1 }

second-Reachable : Reachable one 2 second second_slots
second-Reachable = admits AdmissionPhase.created (admits AdmissionPhase.created start)

runner_known : Memᴰ runner second_slots
unfolding admit take_id with_limits admit_active admit_queued
runner_known = Memᴰ.tail (Memᴰ.head refl)

waiter_known : Memᴰ waiter second_slots
unfolding admit take_id with_limits admit_active admit_queued
waiter_known = Memᴰ.head refl

-- The first execution ends, and the second takes its place.
abbrev third : SchedulerInner
third = drop runner second

third-Reachable : Reachable one 2 third second_slots
third-Reachable = drops runner runner_known second-Reachable

runner_active : second.states runner.slot_id ≡ SlotKind.active
unfolding admit take_id with_limits admit_active admit_queued store
runner_active = refl

waiter_waits : second.states 1 ≡ SlotKind.queued
unfolding admit take_id with_limits admit_active admit_queued store
waiter_waits = refl

nobody_before : (i : ℕ) → i < 1 → second.states i ≢ SlotKind.queued
unfolding admit take_id with_limits admit_active admit_queued store
nobody_before i h = ground (arith, h)

waiter_promoted : third.states waiter.slot_id ≡ SlotKind.active
unfolding admit take_id with_limits admit_active admit_queued store drop drop_seen release_active
    promote give_back run_turn_remove
waiter_promoted = refl

Reachable-IsSettled_example : IsSettled one 2 second second_slots
Reachable-IsSettled_example =
    Reachable-IsSettled one 2 second second_slots (omega arith) (omega arith) second-Reachable

drop_twice_example :
    ((drop runner second).states runner.slot_id ≡ SlotKind.released)
    × (drop runner (drop runner second) ≡ drop runner second)
drop_twice_example =
    drop_twice one 2 second second_slots runner (omega arith) (omega arith) second-Reachable
      runner_known

drop_promotes_example :
    ((drop runner second).states 1 ≡ SlotKind.active)
    × ((i : ℕ) → i ≢ 1 → i ≢ runner.slot_id → (drop runner second).states i ≡ second.states i)
drop_promotes_example =
    drop_promotes one 2 second second_slots runner 1 (omega arith) (omega arith) second-Reachable
      runner_active (omega arith) waiter_waits nobody_before

-- The waiter saw itself in the queue just before the first execution ended.
drop_late_example :
    (drop_seen false waiter third).active
    ≡ suc (
        count_active
          (drop_seen false waiter third).next_slot_id
          (drop_seen false waiter third).states)
drop_late_example =
    drop_late one 2 third second_slots waiter (omega arith) (omega arith) third-Reachable
      waiter_known refl waiter_promoted
