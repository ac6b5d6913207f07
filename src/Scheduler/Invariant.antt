-- ===== src/Scheduler/Invariant.antt =====
-- src/scheduler.rs: what holds of the scheduler between two calls, and that each call keeps it.
use tsumugi.Base.{
  none, ℕ, suc, ◌≤◌, ◌<◌, ◌≡◌, ◌⊎◌, inl, inr, refl, true, [], ◌∷◌, arith, length, length-append,
  ltb, Bool-cases, u64_max, add_u64,
}
use tsumugi.Audit.Event.{AdmissionPhase}
use tsumugi.Scheduler.{
  EngineLimits, SchedulerInner, SlotKind, store, admit, admit_active, admit_queued, take_id,
  with_limits,
}
use tsumugi.Scheduler.Cells.{count_active, count_active-fresh}
use tsumugi.Scheduler.Waiting.{
  IsWaiting, in_queue, IsWaiting-append, IsWaiting-active, in_queue-append, in_queue-length,
  IsWaiting-raise,
}
use tsumugi.Scheduler.Turns.{IsDistinct}

pub record IsSound (limits : EngineLimits) (s : SchedulerInner) : Type 0 where
  pub same_limits : s.limits ≡ limits
  -- `active` is the number of active slots, within its bound, as the queue is.
  pub counted : s.active ≡ count_active s.next_slot_id s.states
  pub active_le : s.active ≤ limits.max_active_executions
  pub queue_le : length s.admission_queue ≤ limits.max_queued_executions
  -- Nobody waits while a slot is free.
  pub full : (length s.admission_queue ≡ 0) ⊎ (s.active ≡ limits.max_active_executions)
  -- The queue holds the waiting slots, in the order of admission.
  pub waiting : IsWaiting 0 s.next_slot_id s.states s.admission_queue
  pub found :
      (i : ℕ)
      → i < s.next_slot_id
      → s.states i ≡ SlotKind.queued
      → in_queue i s.admission_queue ≡ true
  -- Nobody is active who came after one who waits.
  pub fifo :
      (i j : ℕ)
      → i < j
      → j < s.next_slot_id
      → s.states i ≡ SlotKind.queued
      → ¬ (s.states j ≡ SlotKind.active)
  pub fresh : (i : ℕ) → s.next_slot_id ≤ i → s.states i ≡ SlotKind.released
  pub turns : IsDistinct s.run_turn

pub with_limits-IsSound : (l : EngineLimits) → IsSound l (with_limits l)
unfolding with_limits count_active
with_limits-IsSound l = record {
  same_limits = refl;
  counted = refl;
  active_le = omega arith;
  queue_le = omega arith;
  full = inl refl;
  waiting = tt;
  found = λ i h e. absurd (omega (arith, h));
  fifo = λ i j h k e. absurd (omega (arith, k));
  fresh = λ i h. refl;
  turns = tt;
}

module _ (l : EngineLimits) (s : SchedulerInner) (v : IsSound l s)
    (word : l.max_active_executions ≤ u64_max) (room : s.next_slot_id < u64_max) where
  next_id : add_u64 s.next_slot_id 1 ≡ suc s.next_slot_id
  next_id = omega arith

  none_waits :
      s.active < l.max_active_executions
      → (i : ℕ) → i < s.next_slot_id
      → ¬ (s.states i ≡ SlotKind.queued)
  none_waits h i k e =
      let some_waits = in_queue-length i s.admission_queue (v.found i k e) in
      elim v.full [ inl z ↦ omega arith | inr z ↦ omega arith ]

  admit_active-IsSound :
      s.active < l.max_active_executions → IsSound l (admit_active s.next_slot_id (take_id s))
  unfolding admit_active take_id store count_active
  admit_active-IsSound h = rw next_id (record {
    same_limits = v.same_limits;
    counted = ground (
      arith,
      v.counted,
      count_active-fresh s.next_slot_id s.next_slot_id SlotKind.active s.states,
    );
    active_le = omega arith;
    queue_le = v.queue_le;
    full = ground (arith, v.full);
    waiting =
        IsWaiting-active 0 s.next_slot_id SlotKind.active s.states s.admission_queue v.waiting;
    found = λ i k e. ground (arith, none_waits h i, e);
    fifo = λ i j k m e f. ground (arith, none_waits h i, e);
    fresh = λ i k. ground (arith, v.fresh i);
    turns = v.turns;
  })

  admit_queued-IsSound :
      (p : AdmissionPhase)
      → ¬ (s.active < l.max_active_executions)
      → length s.admission_queue < l.max_queued_executions
      → IsSound l (admit_queued p s.next_slot_id (take_id s))
  unfolding admit_queued take_id store count_active
  admit_queued-IsSound p h q = rw next_id (record {
    same_limits = v.same_limits;
    counted = ground (
      arith,
      v.counted,
      count_active-fresh s.next_slot_id s.next_slot_id SlotKind.queued s.states,
    );
    active_le = v.active_le;
    queue_le = omega (
      arith,
      length-append s.admission_queue
          (record { slot_id = s.next_slot_id; resume_to = p; waker = none } ∷ []),
    );
    full = inr (omega (arith, v.active_le));
    waiting =
        IsWaiting-append 0 s.next_slot_id s.states _ s.admission_queue (omega arith) refl v.waiting;
    found = λ i k e. ground (
      arith,
      in_queue-append i (record { slot_id = s.next_slot_id; resume_to = p; waker = none })
          s.admission_queue,
      v.found i,
      e,
    );
    fifo = λ i j k m e f. ground (arith, v.fifo i j k, e, f);
    fresh = λ i k. ground (arith, v.fresh i);
    turns = v.turns;
  })

  admit_refused-IsSound : IsSound l (take_id s)
  unfolding take_id count_active
  admit_refused-IsSound = rw next_id (record {
    same_limits = v.same_limits;
    counted = ground (arith, v.counted, v.fresh s.next_slot_id);
    active_le = v.active_le;
    queue_le = v.queue_le;
    full = v.full;
    waiting = IsWaiting-raise 0 s.next_slot_id s.states s.admission_queue v.waiting;
    found = λ i k e. ground (arith, v.found i, v.fresh i, e);
    fifo = λ i j k m e f. ground (arith, v.fifo i j k, v.fresh j, e, f);
    fresh = λ i k. v.fresh i (omega arith);
    turns = v.turns;
  })

  -- An admission, whatever its outcome, keeps the invariant and hands out the next id.
  pub admit-IsSound : (p : AdmissionPhase) → IsSound l (admit p s).1
  unfolding admit take_id
  admit-IsSound p = elim (Bool-cases (ltb s.active s.limits.max_active_executions)) [
    | inl h ↦ rw h (admit_active-IsSound (ground (arith, v.same_limits, h)))
    | inr h ↦ elim (Bool-cases (ltb (length s.admission_queue) s.limits.max_queued_executions)) [
      | inl q ↦
          rw (h, q)
            (admit_queued-IsSound p (ground (arith, v.same_limits, h))
              (ground (arith, v.same_limits, q)))
      | inr q ↦ rw (h, q) admit_refused-IsSound
    ]
  ]

pub admit-next_slot_id :
    (s : SchedulerInner) (p : AdmissionPhase)
    → s.next_slot_id < u64_max
    → (admit p s).1.next_slot_id ≡ suc s.next_slot_id
unfolding admit admit_active admit_queued take_id
admit-next_slot_id s p h = ground arith
