-- ===== src/Scheduler/Release.antt =====
-- src/scheduler.rs: the releases of a slot, and the run-turn calls, keep the invariant.
use tsumugi.Base.{
  ℕ, suc, ◌+◌, ◌≤◌, ◌<◌, ◌≡◌, ◌≢◌, ◌⊎◌, inl, inr, refl, sym, subst, true, List, [], ◌∷◌, arith,
  Bool-cases, u64_max,
}
use tsumugi.Scheduler.{
  EngineLimits, SchedulerInner, SlotKind, QueuedEntry, is_released, store, promote, give_back,
  release_active, release_queued, run_turn_remove, run_turn_push_back, run_turn_rotate, contains,
}
use tsumugi.Scheduler.Cells.{count_active, count_active-store}
use tsumugi.Scheduler.Waiting.{
  IsWaiting, in_queue, IsWaiting-store, IsWaiting-lower, IsWaiting-elsewhere, IsWaiting-remove,
  in_queue-remove, in_queue-le, length-remove_entry,
}
use tsumugi.Scheduler.Turns.{IsDistinct-append, IsDistinct-remove_id, IsDistinct-rotate}
use tsumugi.Scheduler.Invariant.{IsSound}

module _ (l : EngineLimits) (s : SchedulerInner) (v : IsSound l s)
    (word : l.max_active_executions ≤ u64_max) (i : ℕ) (known : i < s.next_slot_id) where
  -- The last active slots go when nobody waits.
  give_back-IsSound :
      s.states i ≡ SlotKind.active → s.admission_queue ≡ [] → IsSound l (give_back i s)
  unfolding give_back run_turn_remove store
  give_back-IsSound a q =
      let one = count_active-store s.next_slot_id i SlotKind.released s.states known in
      let one' : count_active s.next_slot_id (store i SlotKind.released s.states) + 1 ≡ s.active =
        ground (arith, one, a, v.counted) in
      record {
        same_limits = v.same_limits;
        counted = omega (arith, one', v.active_le);
        active_le = omega (arith, one', v.active_le);
        queue_le = v.queue_le;
        full = inl (ground (arith, q));
        waiting =
            subst (IsWaiting 0 s.next_slot_id (store i SlotKind.released s.states)) (sym q) tt;
        found = λ j k e. ground (arith, v.found j, e);
        fifo = λ j k m n e f. ground (arith, v.fifo j k m, e, f);
        fresh = λ j k. ground (arith, v.fresh j);
        turns = IsDistinct-remove_id i s.run_turn v.turns;
      }

  -- The first in the queue takes over.
  module _ (e : QueuedEntry) (es : List QueuedEntry) (a : s.states i ≡ SlotKind.active)
      (q : s.admission_queue ≡ e ∷ es) where
    head_waits : IsWaiting 0 s.next_slot_id s.states (e ∷ es)
    head_waits = subst (IsWaiting 0 s.next_slot_id s.states) q v.waiting

    head_other : e.slot_id ≢ i
    head_other = ground (arith, head_waits.2, a)

    after : ℕ → SlotKind
    after = store e.slot_id SlotKind.active (store i SlotKind.released s.states)

    found_es :
        (j : ℕ)
        → j < s.next_slot_id
        → j ≢ e.slot_id
        → s.states j ≡ SlotKind.queued
        → in_queue j es ≡ true
    unfolding in_queue
    found_es j k n w =
        let h = v.found j k w in let h' : in_queue j (e ∷ es) ≡ true = rw q at h in ground arith

    after_queued :
        (j : ℕ) → after j ≡ SlotKind.queued → (s.states j ≡ SlotKind.queued) × (j ≢ e.slot_id)
    unfolding after store
    after_queued j w = ground arith

    after_active :
        (j : ℕ) → after j ≡ SlotKind.active → (s.states j ≡ SlotKind.active) ⊎ (j ≡ e.slot_id)
    unfolding after store
    after_active j w = ground arith

    no_overtaking :
        (j k : ℕ)
        → j < k
        → k < s.next_slot_id
        → after j ≡ SlotKind.queued
        → ¬ (after k ≡ SlotKind.active)
    no_overtaking j k m n w f =
        let (wj, other) = after_queued j w in
        elim (after_active k f) [
          | inl b ↦ v.fifo j k m n wj b
          | inr b ↦
              let le =
                in_queue-le (suc e.slot_id) s.next_slot_id j s.states es head_waits.3
                  (found_es j (omega arith) other wj) in
              absurd (omega arith)
        ]

    count_after : count_active s.next_slot_id after ≡ s.active
    unfolding after store
    count_after =
        let one = count_active-store s.next_slot_id i SlotKind.released s.states known in
        let two =
          count_active-store s.next_slot_id e.slot_id SlotKind.active
            (store i SlotKind.released s.states) head_waits.1 in
        ground (arith, one, two, a, v.counted, head_waits.2, head_other)

    IsWaiting-after : IsWaiting 0 s.next_slot_id after es
    unfolding after
    IsWaiting-after = IsWaiting-lower (suc e.slot_id) 0 s.next_slot_id after es (omega arith) (
        IsWaiting-store (suc e.slot_id) s.next_slot_id e.slot_id SlotKind.active _ es (omega arith)
          (IsWaiting-elsewhere (suc e.slot_id) s.next_slot_id i SlotKind.released s.states es
            (λ b. cc (a, b)) head_waits.3))

    active_positive : 0 < s.active
    active_positive =
        let one = count_active-store s.next_slot_id i SlotKind.released s.states known in
        ground (arith, one, a, v.counted)

    was_full : s.active ≡ l.max_active_executions
    was_full = ground (arith, v.full, q)

    promote-IsSound : IsSound l (promote (e ∷ es) (give_back i s))
    unfolding promote give_back run_turn_remove after store
    promote-IsSound = record {
      same_limits = v.same_limits;
      counted = omega (arith, count_after, active_positive, v.active_le);
      active_le = omega (arith, active_positive, v.active_le);
      queue_le = ground (arith, v.queue_le, q);
      full = inr (omega (arith, was_full, active_positive));
      waiting = IsWaiting-after;
      found = λ j k w. let (wj, other) = after_queued j w in found_es j k other wj;
      fifo = no_overtaking;
      fresh = λ j k. ground (arith, v.fresh j, head_waits.1);
      turns = IsDistinct-remove_id i s.run_turn v.turns;
    }

  promoted-IsSound :
      (q : List QueuedEntry)
      → s.states i ≡ SlotKind.active
      → s.admission_queue ≡ q
      → IsSound l (promote q (give_back i s))
  unfolding promote
  promoted-IsSound [] a h = give_back-IsSound a h
  promoted-IsSound (e ∷ es) a h = promote-IsSound e es a h

  pub release_active-IsSound : s.states i ≢ SlotKind.queued → IsSound l (release_active i s)
  unfolding release_active
  release_active-IsSound w = elim (Bool-cases (is_released (s.states i))) [
    | inl h ↦ rw h v
    | inr h ↦ rw h (promoted-IsSound s.admission_queue (ground (arith, h, w)) refl)
  ]

  pub release_queued-IsSound : s.states i ≢ SlotKind.active → IsSound l (release_queued i s)
  unfolding release_queued store
  release_queued-IsSound w = elim (Bool-cases (is_released (s.states i))) [
    | inl h ↦ rw h v
    | inr h ↦
        let one = count_active-store s.next_slot_id i SlotKind.released s.states known in
        let le = length-remove_entry i s.admission_queue in
        rw h (record {
          same_limits = v.same_limits;
          counted = ground (arith, v.counted, one, h, w);
          active_le = v.active_le;
          queue_le = omega (arith, le, v.queue_le);
          full = ground (arith, v.full, le);
          waiting =
              IsWaiting-remove 0 s.next_slot_id i SlotKind.released s.states s.admission_queue
                v.waiting;
          found = λ j k e. ground (arith, v.found j k, e, in_queue-remove i j s.admission_queue);
          fifo = λ j k m n e f. ground (arith, v.fifo j k m n, e, f);
          fresh = λ j k. ground (arith, v.fresh j k);
          turns = v.turns;
        })
  ]

-- The run turns do not touch the rest.
module _ (l : EngineLimits) (s : SchedulerInner) (v : IsSound l s) (i : ℕ) where
  pub run_turn_push_back-IsSound : IsSound l (run_turn_push_back i s)
  unfolding run_turn_push_back
  run_turn_push_back-IsSound = elim (Bool-cases (contains i s.run_turn)) [
    | inl h ↦ rw h v
    | inr h ↦ rw h (record {
      same_limits = v.same_limits;
      counted = v.counted;
      active_le = v.active_le;
      queue_le = v.queue_le;
      full = v.full;
      waiting = v.waiting;
      found = v.found;
      fifo = v.fifo;
      fresh = v.fresh;
      turns = IsDistinct-append i s.run_turn h v.turns;
    })
  ]

  pub run_turn_rotate-IsSound : IsSound l (run_turn_rotate i s)
  unfolding run_turn_rotate
  run_turn_rotate-IsSound = record {
    same_limits = v.same_limits;
    counted = v.counted;
    active_le = v.active_le;
    queue_le = v.queue_le;
    full = v.full;
    waiting = v.waiting;
    found = v.found;
    fifo = v.fifo;
    fresh = v.fresh;
    turns = IsDistinct-rotate i s.run_turn v.turns;
  }

  pub run_turn_remove-IsSound : IsSound l (run_turn_remove i s)
  unfolding run_turn_remove
  run_turn_remove-IsSound = record {
    same_limits = v.same_limits;
    counted = v.counted;
    active_le = v.active_le;
    queue_le = v.queue_le;
    full = v.full;
    waiting = v.waiting;
    found = v.found;
    fifo = v.fifo;
    fresh = v.fresh;
    turns = IsDistinct-remove_id i s.run_turn v.turns;
  }
