-- ===== src/Scheduler.antt =====
-- src/scheduler.rs: the admission of executions and their run turns. Each method runs under the
-- mutex of `SchedulerShared`, so it is one function of the state. The `SlotState` cell that an
-- admission creates is shared by the slot and the queue entry: `states` holds all cells, by slot id.
pub mod Cells
pub mod Waiting
pub mod Turns
pub mod Invariant
pub mod Release
pub mod Reach
pub mod Drops
use tsumugi.Base.{
  ℕ, Bool, true, false, not, Option, none, some, List, [], ◌∷◌, ◌++◌, Result, ok, err, length, ltb,
  ◌==◌, if◌then◌else◌, add_u64, sub_u64, min,
}
use tsumugi.Budget.Types.{ConfigError}
use tsumugi.Audit.Event.{AdmissionPhase}

-- `SLOT_QUEUED`, `SLOT_ACTIVE`, `SLOT_RELEASED`
pub data SlotKind : Type 0 where
  queued active released : SlotKind

abbrev pub is_active : SlotKind → Bool
is_active SlotKind.active = true
is_active _ = false

abbrev pub is_released : SlotKind → Bool
is_released SlotKind.released = true
is_released _ = false

pub record EngineLimits : Type 0 where
  pub max_active_executions : ℕ
  pub max_queued_executions : ℕ
  pub default_slice_fuel : ℕ

-- `EngineLimits::default()`; the argument is what `available_parallelism` answers.
unfoldable pub default_limits : Option ℕ → EngineLimits
default_limits parallelism = record {
  max_active_executions = elim parallelism [ none ↦ 1 | some n ↦ min n 64 ];
  max_queued_executions = 256;
  default_slice_fuel = 10000;
}

-- The waker is a placeholder of the source.
pub record QueuedEntry : Type 0 where
  pub slot_id : ℕ
  pub resume_to : AdmissionPhase
  pub waker : Option (Unit {0})

pub record SchedulerInner : Type 0 where
  pub limits : EngineLimits
  pub active : ℕ
  pub admission_queue : List QueuedEntry
  pub run_turn : List ℕ
  pub next_slot_id : ℕ
  pub states : ℕ → SlotKind

pub data AdmissionSlotKind : Type 0 where
  active queued : AdmissionSlotKind

pub record AdmissionSlot : Type 0 where
  pub kind : AdmissionSlotKind
  pub slot_id : ℕ

pub data StartError : Type 0 where
  backpressure : (active queued limit : ℕ) → StartError
  config : ConfigError → StartError
  concurrent_run_requires_polling : StartError

-- A store to one cell.
unfoldable pub store : ℕ → SlotKind → (ℕ → SlotKind) → ℕ → SlotKind
store i k f j = if j == i then k else f j

unfoldable pub with_limits : EngineLimits → SchedulerInner
with_limits limits = record {
  limits = limits;
  active = 0;
  admission_queue = [];
  run_turn = [];
  next_slot_id = 0;
  states = λ i. SlotKind.released;
}

-- The three outcomes of `admit`, after the id was taken.
unfoldable pub admit_active : ℕ → SchedulerInner → SchedulerInner
admit_active id s = record s {
  active = add_u64 s.active 1;
  states = store id SlotKind.active s.states;
}

unfoldable pub admit_queued : AdmissionPhase → ℕ → SchedulerInner → SchedulerInner
admit_queued resume_to id s = record s {
  admission_queue =
      s.admission_queue ++ record { slot_id = id; resume_to = resume_to; waker = none } ∷ [];
  states = store id SlotKind.queued s.states;
}

unfoldable pub take_id : SchedulerInner → SchedulerInner
take_id s = record s { next_slot_id = add_u64 s.next_slot_id 1 }

unfoldable pub admit :
    AdmissionPhase → SchedulerInner → Result AdmissionSlot StartError × SchedulerInner
admit resume_to s =
    let id = s.next_slot_id in
    let s' = take_id s in
    if ltb s'.active s'.limits.max_active_executions
    then (ok (record { kind = AdmissionSlotKind.active; slot_id = id }), admit_active id s')
    else (if ltb (length s'.admission_queue) s'.limits.max_queued_executions
        then (
          ok (record { kind = AdmissionSlotKind.queued; slot_id = id }),
          admit_queued resume_to id s',
        )
        else (
          err (backpressure s'.active (length s'.admission_queue) s'.limits.max_active_executions),
          s',
        ))

-- `position` and `remove`: without the first occurrence.
unfoldable pub remove_id : ℕ → List ℕ → List ℕ
remove_id i [] = []
remove_id i (x ∷ xs) = let rest = remove_id i xs in if x == i then xs else x ∷ rest

unfoldable pub remove_entry : ℕ → List QueuedEntry → List QueuedEntry
remove_entry i [] = []
remove_entry i (e ∷ es) = let rest = remove_entry i es in if e.slot_id == i then es else e ∷ rest

unfoldable pub run_turn_remove : ℕ → SchedulerInner → SchedulerInner
run_turn_remove i s = record s { run_turn = remove_id i s.run_turn }

-- The promotion of the first entry of the queue.
unfoldable pub promote : List QueuedEntry → SchedulerInner → SchedulerInner
promote [] s = s
promote (e ∷ es) s = record s {
  active = add_u64 s.active 1;
  admission_queue = es;
  states = store e.slot_id SlotKind.active s.states;
}

unfoldable pub give_back : ℕ → SchedulerInner → SchedulerInner
give_back i s =
    run_turn_remove i
      (record s { active = sub_u64 s.active 1; states = store i SlotKind.released s.states })

unfoldable pub release_active : ℕ → SchedulerInner → SchedulerInner
release_active i s =
    if is_released (s.states i) then s else promote s.admission_queue (give_back i s)

unfoldable pub release_queued : ℕ → SchedulerInner → SchedulerInner
release_queued i s = if is_released (s.states i) then s else record s {
  admission_queue = remove_entry i s.admission_queue;
  states = store i SlotKind.released s.states;
}

-- `AdmissionSlot::drop` looks at the cell before either release takes the mutex; `seen` is what it
-- saw.
unfoldable pub drop_seen : Bool → AdmissionSlot → SchedulerInner → SchedulerInner
drop_seen seen slot s = elim slot.kind [
  | AdmissionSlotKind.active ↦ release_active slot.slot_id s
  | AdmissionSlotKind.queued ↦
      if seen then release_active slot.slot_id s else release_queued slot.slot_id s
]

-- The drop without another thread in between.
unfoldable pub drop : AdmissionSlot → SchedulerInner → SchedulerInner
drop slot s = drop_seen (is_active (s.states slot.slot_id)) slot s

unfoldable pub contains : ℕ → List ℕ → Bool
contains i [] = false
contains i (x ∷ xs) = let rest = contains i xs in if x == i then true else rest

unfoldable pub run_turn_push_back : ℕ → SchedulerInner → SchedulerInner
run_turn_push_back i s =
    if not (contains i s.run_turn) then record s { run_turn = s.run_turn ++ i ∷ [] } else s

unfoldable pub first_is : ℕ → List ℕ → Bool
first_is i [] = false
first_is i (x ∷ xs) = x == i

-- `is_head`
unfoldable pub is_head : ℕ → SchedulerInner → Bool
is_head i s = first_is i s.run_turn

unfoldable pub rotate : ℕ → List ℕ → List ℕ
rotate i [] = []
rotate i (x ∷ xs) = if x == i then xs ++ x ∷ [] else x ∷ xs

unfoldable pub run_turn_rotate : ℕ → SchedulerInner → SchedulerInner
run_turn_rotate i s = record s { run_turn = rotate i s.run_turn }
