-- ===== src/Scheduler/Drops.antt =====
-- src/scheduler.rs: the drop of a slot, alone, repeated, and raced by a promotion.
use mathlib.Core.List.{Memᴰ}
use tsumugi.Base.{
  ℕ, suc, ◌≤◌, ◌<◌, ◌≡◌, ◌≢◌, inl, inr, refl, subst, true, false, List, [], ◌∷◌, arith, Bool-cases,
  u64_max, ◌==◌,
}
use tsumugi.Scheduler.{
  EngineLimits, SchedulerInner, SlotKind, AdmissionSlot, AdmissionSlotKind, QueuedEntry, is_active,
  is_released, store, promote, give_back, drop, drop_seen, release_active, release_queued,
  run_turn_remove,
}
use tsumugi.Scheduler.Cells.{count_active, count_active-store}
use tsumugi.Scheduler.Waiting.{IsWaiting, in_queue, in_queue-le}
use tsumugi.Scheduler.Invariant.{IsSound}
use tsumugi.Scheduler.Reach.{IsIssued, IsIssued-member, Reachable, Reachable-IsSettled, kind-cases}

module _ (l : EngineLimits) (s : SchedulerInner) (v : IsSound l s) (i : ℕ) where
  promoted_other :
      (q : List QueuedEntry)
      → s.admission_queue ≡ q
      → s.states i ≢ SlotKind.queued
      → (promote q (give_back i s)).states i ≡ SlotKind.released
  unfolding promote give_back run_turn_remove store
  promoted_other [] h w = ground arith
  promoted_other (e ∷ es) h w =
      let waits : IsWaiting 0 s.next_slot_id s.states (e ∷ es) =
        subst (IsWaiting 0 s.next_slot_id s.states) h v.waiting in
      ground (arith, waits.2, w)

  release_active-released :
      s.states i ≢ SlotKind.queued → (release_active i s).states i ≡ SlotKind.released
  unfolding release_active
  release_active-released w = elim (Bool-cases (is_released (s.states i))) [
    | inl h ↦ rw h (ground (arith, h))
    | inr h ↦ rw h (promoted_other s.admission_queue refl w)
  ]

  release_queued-released : (release_queued i s).states i ≡ SlotKind.released
  unfolding release_queued store
  release_queued-released = ground arith

drop-released :
    (l : EngineLimits) (s : SchedulerInner) (slot : AdmissionSlot)
    → IsSound l s
    → IsIssued s slot
    → (drop slot s).states slot.slot_id ≡ SlotKind.released
unfolding drop drop_seen
drop-released l s slot v g =
    let i = slot.slot_id in
    elim (kind-cases slot.kind) [
      | inl k ↦ rw k (release_active-released l s v i (g.never_waits k))
      | inr k ↦ elim (Bool-cases (is_active (s.states i))) [
        | inl h ↦ rw (k, h) (release_active-released l s v i (ground (arith, h)))
        | inr h ↦ rw (k, h) (release_queued-released l s v i)
      ]
    ]

released_stays :
    (s : SchedulerInner) (slot : AdmissionSlot)
    → s.states slot.slot_id ≡ SlotKind.released
    → drop slot s ≡ s
unfolding drop drop_seen release_active release_queued
released_stays s slot h = elim (kind-cases slot.kind) [
  | inl k ↦ rw (k, h) refl
  | inr k ↦ rw (k, h) refl
]

-- In a reachable scheduler (at most 2^64 - 1 admissions, a 64-bit active limit), the drop of a
-- slot that was handed out leaves its state released, and a second drop changes nothing.
pub drop_twice :
    (l : EngineLimits) (n : ℕ) (s : SchedulerInner) (slots : List AdmissionSlot)
    (slot : AdmissionSlot)
    → l.max_active_executions ≤ u64_max
    → n ≤ u64_max
    → Reachable l n s slots
    → Memᴰ slot slots
    → ((drop slot s).states slot.slot_id ≡ SlotKind.released)
      × (drop slot (drop slot s) ≡ drop slot s)
drop_twice l n s slots slot w h r m =
    let t = Reachable-IsSettled l n s slots w h r in
    let e = drop-released l s slot t.sound (IsIssued-member s slot slots m t.issued) in
    (e, released_stays (drop slot s) slot e)

-- In a reachable scheduler (at most 2^64 - 1 admissions, a 64-bit active limit), if a queued slot
-- was promoted after its drop looked at the state and before the drop took the mutex, the drop
-- leaves the count of active slots one higher than the number of active slots.
pub drop_late :
    (l : EngineLimits) (n : ℕ) (s : SchedulerInner) (slots : List AdmissionSlot)
    (slot : AdmissionSlot)
    → l.max_active_executions ≤ u64_max
    → n ≤ u64_max
    → Reachable l n s slots
    → Memᴰ slot slots
    → slot.kind ≡ AdmissionSlotKind.queued
    → s.states slot.slot_id ≡ SlotKind.active
    → (drop_seen false slot s).active
      ≡ suc (count_active (drop_seen false slot s).next_slot_id (drop_seen false slot s).states)
unfolding drop_seen release_queued
drop_late l n s slots slot w h r m k a =
    let t = Reachable-IsSettled l n s slots w h r in
    let g = IsIssued-member s slot slots m t.issued in
    let one = count_active-store s.next_slot_id slot.slot_id SlotKind.released s.states g.known in
    rw (k, a) (ground (arith, one, a, t.sound.counted))

-- The first in the queue is the waiting slot with the smallest id.
head_first :
    (l : EngineLimits) (s : SchedulerInner) (j : ℕ) (q : List QueuedEntry)
    → IsSound l s
    → s.admission_queue ≡ q
    → j < s.next_slot_id
    → s.states j ≡ SlotKind.queued
    → ((i : ℕ) → i < j → s.states i ≢ SlotKind.queued)
    → (e : QueuedEntry) × (es : List QueuedEntry) × (q ≡ e ∷ es) × (e.slot_id ≡ j)
unfolding in_queue
head_first l s j [] v h k w m = let here : in_queue j [] ≡ true = rw h at (v.found j k w) in cc here
head_first l s j (e ∷ es) v h k w m =
    let waits : IsWaiting 0 s.next_slot_id s.states (e ∷ es) =
      subst (IsWaiting 0 s.next_slot_id s.states) h v.waiting in
    let here : in_queue j (e ∷ es) ≡ true = rw h at (v.found j k w) in
    elim (Bool-cases (e.slot_id == j)) [
      | inl b ↦ (e, es, refl, ground (arith, b))
      | inr b ↦
          let le =
            in_queue-le (suc e.slot_id) s.next_slot_id j s.states es waits.3 (ground arith) in
          absurd (m e.slot_id (omega arith) waits.2)
    ]

drop-active :
    (s : SchedulerInner) (slot : AdmissionSlot)
    → s.states slot.slot_id ≡ SlotKind.active
    → drop slot s ≡ promote s.admission_queue (give_back slot.slot_id s)
unfolding drop drop_seen release_active
drop-active s slot a = elim (kind-cases slot.kind) [
  | inl k ↦ rw (k, a) refl
  | inr k ↦ rw (k, a) refl
]

-- In a reachable scheduler (at most 2^64 - 1 admissions, a 64-bit active limit), when the drop of
-- an active slot finds somebody waiting, the waiting slot with the smallest id becomes active, and
-- no other slot but the dropped one changes its state.
pub drop_promotes :
    (l : EngineLimits) (n : ℕ) (s : SchedulerInner) (slots : List AdmissionSlot)
    (slot : AdmissionSlot) (j : ℕ)
    → l.max_active_executions ≤ u64_max
    → n ≤ u64_max
    → Reachable l n s slots
    → s.states slot.slot_id ≡ SlotKind.active
    → j < n
    → s.states j ≡ SlotKind.queued
    → ((i : ℕ) → i < j → s.states i ≢ SlotKind.queued)
    → ((drop slot s).states j ≡ SlotKind.active)
      × ((i : ℕ) → i ≢ j → i ≢ slot.slot_id → (drop slot s).states i ≡ s.states i)
unfolding promote give_back run_turn_remove store
drop_promotes l n s slots slot j w h r a k q m =
    let t = Reachable-IsSettled l n s slots w h r in
    let (e, es, eq, first) =
      head_first l s j s.admission_queue t.sound refl (omega (arith, t.ids)) q m in
    rw (drop-active s slot a, eq) (ground (arith, first), λ i x y. ground (arith, first, x, y))
