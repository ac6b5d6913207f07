-- ===== src/Scheduler/Reach.antt =====
-- src/scheduler.rs: the states that a scheduler can be in, with the slots that it has handed out.
use mathlib.Core.List.{Memᴰ}
use tsumugi.Base.{
  All, ◌∙◌, Result-cases, ℕ, suc, ◌≤◌, ◌<◌, ◌≡◌, ◌≢◌, ◌⊎◌, inl, inr, refl, sym, subst, List, [],
  ◌∷◌, arith, Result, ok, err, Bool-cases, u64_max,
}
use tsumugi.Audit.Event.{AdmissionPhase}
use tsumugi.Scheduler.{
  contains, EngineLimits, SchedulerInner, SlotKind, AdmissionSlot, AdmissionSlotKind, QueuedEntry,
  StartError, is_active, is_released, store, with_limits, admit, admit_active, admit_queued,
  take_id, promote, give_back, drop, drop_seen, release_active, release_queued, run_turn_remove,
  run_turn_push_back, run_turn_rotate,
}
use tsumugi.Scheduler.Invariant.{IsSound, with_limits-IsSound, admit-IsSound, admit-next_slot_id}
use tsumugi.Scheduler.Release.{
  release_active-IsSound, release_queued-IsSound, run_turn_push_back-IsSound,
  run_turn_rotate-IsSound, run_turn_remove-IsSound,
}

-- The slot of a granted admission joins those that were handed out.
abbrev pub issue : Result AdmissionSlot StartError → List AdmissionSlot → List AdmissionSlot
issue (ok slot) slots = slot ∷ slots
issue (err e) slots = slots

-- After `n` admissions, granted or not, and any drops and run-turn calls in between; a slot may be
-- dropped again.
pub data Reachable (l : EngineLimits) : ℕ → SchedulerInner → List AdmissionSlot → Type 0 where
  start : Reachable l 0 (with_limits l) []
  admits :
      {n : ℕ} {s : SchedulerInner} {slots : List AdmissionSlot} (p : AdmissionPhase)
      → Reachable l n s slots
      → Reachable l (suc n) (admit p s).1 (issue (admit p s).0 slots)
  drops :
      {n : ℕ} {s : SchedulerInner} {slots : List AdmissionSlot} (slot : AdmissionSlot)
      → Memᴰ slot slots
      → Reachable l n s slots
      → Reachable l n (drop slot s) slots
  pushes :
      {n : ℕ} {s : SchedulerInner} {slots : List AdmissionSlot} (i : ℕ)
      → Reachable l n s slots
      → Reachable l n (run_turn_push_back i s) slots
  rotates :
      {n : ℕ} {s : SchedulerInner} {slots : List AdmissionSlot} (i : ℕ)
      → Reachable l n s slots
      → Reachable l n (run_turn_rotate i s) slots
  removes :
      {n : ℕ} {s : SchedulerInner} {slots : List AdmissionSlot} (i : ℕ)
      → Reachable l n s slots
      → Reachable l n (run_turn_remove i s) slots

-- A slot of this scheduler: its id was given out, and one that was active from the start never waits.
pub record IsIssued (s : SchedulerInner) (slot : AdmissionSlot) : Type 0 where
  pub known : slot.slot_id < s.next_slot_id
  pub never_waits : slot.kind ≡ AdmissionSlotKind.active → s.states slot.slot_id ≢ SlotKind.queued

pub kind-cases :
    (k : AdmissionSlotKind) → (k ≡ AdmissionSlotKind.active) ⊎ (k ≡ AdmissionSlotKind.queued)
kind-cases AdmissionSlotKind.active = inl refl
kind-cases AdmissionSlotKind.queued = inr refl

pub drop-IsSound :
    (l : EngineLimits) (s : SchedulerInner) (slot : AdmissionSlot)
    → l.max_active_executions ≤ u64_max
    → IsSound l s
    → IsIssued s slot
    → IsSound l (drop slot s)
unfolding drop drop_seen
drop-IsSound l s slot word v g =
    let i = slot.slot_id in
    elim (kind-cases slot.kind) [
      | inl k ↦ rw k (release_active-IsSound l s v word i g.known (g.never_waits k))
      | inr k ↦ elim (Bool-cases (is_active (s.states i))) [
        | inl h ↦ rw (k, h) (release_active-IsSound l s v word i g.known (ground (arith, h)))
        | inr h ↦ rw (k, h) (release_queued-IsSound l s v word i g.known (ground (arith, h)))
      ]
    ]

-- No call makes a known slot wait again, or takes ids back.
pub record IsLater (s s' : SchedulerInner) : Type 0 where
  pub grows : s.next_slot_id ≤ s'.next_slot_id
  pub waited :
      (i : ℕ) → i < s.next_slot_id → s'.states i ≡ SlotKind.queued → s.states i ≡ SlotKind.queued

IsIssued-later :
    (s s' : SchedulerInner) (slot : AdmissionSlot)
    → IsLater s s'
    → IsIssued s slot
    → IsIssued s' slot
IsIssued-later s s' slot t g = record {
  known = omega (arith, t.grows, g.known);
  never_waits = λ k w. g.never_waits k (t.waited slot.slot_id g.known w);
}

promote-IsLater :
    (s s' : SchedulerInner) (q : List QueuedEntry) → IsLater s s' → IsLater s (promote q s')
unfolding promote store
promote-IsLater s s' [] t = t
promote-IsLater s s' (e ∷ es) t = record {
  grows = t.grows;
  waited = λ i k w. ground (arith, t.waited i k, w);
}

give_back-IsLater : (s : SchedulerInner) (i : ℕ) → IsLater s (give_back i s)
unfolding give_back run_turn_remove store
give_back-IsLater s i = record { grows = omega arith; waited = λ j k w. ground (arith, w) }

release_active-IsLater : (s : SchedulerInner) (i : ℕ) → IsLater s (release_active i s)
unfolding release_active
release_active-IsLater s i = elim (Bool-cases (is_released (s.states i))) [
  | inl h ↦ rw h (record { grows = omega arith; waited = λ j k w. w })
  | inr h ↦ rw h (promote-IsLater s (give_back i s) s.admission_queue (give_back-IsLater s i))
]

release_queued-IsLater : (s : SchedulerInner) (i : ℕ) → IsLater s (release_queued i s)
unfolding release_queued store
release_queued-IsLater s i = elim (Bool-cases (is_released (s.states i))) [
  | inl h ↦ rw h (record { grows = omega arith; waited = λ j k w. w })
  | inr h ↦ rw h (record { grows = omega arith; waited = λ j k w. ground (arith, w) })
]

drop-IsLater : (s : SchedulerInner) (slot : AdmissionSlot) → IsLater s (drop slot s)
unfolding drop drop_seen
drop-IsLater s slot =
    let i = slot.slot_id in
    elim (kind-cases slot.kind) [
      | inl k ↦ rw k (release_active-IsLater s i)
      | inr k ↦ elim (Bool-cases (is_active (s.states i))) [
        | inl h ↦ rw (k, h) (release_active-IsLater s i)
        | inr h ↦ rw (k, h) (release_queued-IsLater s i)
      ]
    ]

admit-IsLater :
    (s : SchedulerInner) (p : AdmissionPhase) → s.next_slot_id < u64_max → IsLater s (admit p s).1
unfolding admit admit_active admit_queued take_id store
admit-IsLater s p h = record {
  grows = omega (arith, admit-next_slot_id s p h);
  waited = λ i k w. ground (arith, w);
}

All-IsIssued-later :
    (s s' : SchedulerInner) (slots : List AdmissionSlot)
    → IsLater s s'
    → All (IsIssued s) slots
    → All (IsIssued s') slots
All-IsIssued-later s s' [] t a = tt
All-IsIssued-later s s' (x ∷ xs) t a =
    (IsIssued-later s s' x t a.0, All-IsIssued-later s s' xs t a.1)

pub IsIssued-member :
    (s : SchedulerInner) (x : AdmissionSlot) (slots : List AdmissionSlot)
    → Memᴰ x slots
    → All (IsIssued s) slots
    → IsIssued s x
IsIssued-member s x [] m a = elim m [ ]
IsIssued-member s x (y ∷ ys) (Memᴰ.head e) a = subst (IsIssued s) (sym e) a.0
IsIssued-member s x (y ∷ ys) (Memᴰ.tail m) a = IsIssued-member s x ys m a.1

-- The slot of an admission is one of the scheduler after it.
admit-IsIssued :
    (s : SchedulerInner) (p : AdmissionPhase) (slot : AdmissionSlot)
    → s.next_slot_id < u64_max
    → (admit p s).0 ≡ ok slot
    → IsIssued (admit p s).1 slot
unfolding admit admit_active admit_queued take_id store
admit-IsIssued s p slot h e = record { known = ground arith; never_waits = λ k. ground (arith, k) }

issue-IsIssued :
    (s : SchedulerInner) (p : AdmissionPhase) (slots : List AdmissionSlot)
    → s.next_slot_id < u64_max
    → All (IsIssued s) slots
    → All (IsIssued (admit p s).1) (issue (admit p s).0 slots)
issue-IsIssued s p slots h a =
    let old = All-IsIssued-later s (admit p s).1 slots (admit-IsLater s p h) a in
    elim (Result-cases (admit p s).0) [
      | inl (slot, e) ↦
          subst (λ r. All (IsIssued (admit p s).1) (issue r slots)) (sym e)
            (admit-IsIssued s p slot h e, old)
      | inr (f, e) ↦ subst (λ r. All (IsIssued (admit p s).1) (issue r slots)) (sym e) old
    ]

-- The state and the slots of a reachable scheduler.
pub record IsSettled (l : EngineLimits) (n : ℕ) (s : SchedulerInner) (slots : List AdmissionSlot)
    : Type 0 where
  pub sound : IsSound l s
  pub ids : s.next_slot_id ≡ n
  pub issued : All (IsIssued s) slots

drop-next_slot_id :
    (s : SchedulerInner) (slot : AdmissionSlot) → (drop slot s).next_slot_id ≡ s.next_slot_id
unfolding drop drop_seen release_active release_queued promote give_back run_turn_remove
drop-next_slot_id s slot = ground arith

-- A run-turn call leaves the cells and the ids alone.
abbrev SameCells : SchedulerInner → SchedulerInner → Type 0
SameCells s s' = (s'.next_slot_id ≡ s.next_slot_id) × (s'.states ≡ s.states)

push_frame : (i : ℕ) (s : SchedulerInner) → SameCells s (run_turn_push_back i s)
unfolding run_turn_push_back
push_frame i s = elim (Bool-cases (contains i s.run_turn)) [
  | inl h ↦ rw h (refl, refl)
  | inr h ↦ rw h (refl, refl)
]

rotate_frame : (i : ℕ) (s : SchedulerInner) → SameCells s (run_turn_rotate i s)
unfolding run_turn_rotate
rotate_frame i s = (refl, refl)

remove_frame : (i : ℕ) (s : SchedulerInner) → SameCells s (run_turn_remove i s)
unfolding run_turn_remove
remove_frame i s = (refl, refl)

turned :
    (l : EngineLimits) (n : ℕ) (s s' : SchedulerInner) (slots : List AdmissionSlot)
    → IsSettled l n s slots
    → IsSound l s'
    → SameCells s s'
    → IsSettled l n s' slots
turned l n s s' slots t v (a, b) = record {
  sound = v;
  ids = a ∙ t.ids;
  issued =
      All-IsIssued-later s s' slots
        (record {
          grows = omega (arith, a);
          waited = λ i k w. subst (λ f. f i ≡ SlotKind.queued) b w;
        })
        t.issued;
}

-- A scheduler is reached by admissions, granted or not, drops of slots that were handed out, also
-- repeated, and run-turn calls, each running alone. If there were at most 2^64 - 1 admissions, and
-- the active limit is a 64-bit number, then its count of active slots is the number of slots whose
-- state is active and within the limit, the queue is within its limit and holds the waiting slots
-- in the order of admission, nobody waits while an active place is free, no slot is active that
-- was admitted after one that waits, no id is twice among the run turns, and every slot handed out
-- has an id of its own scheduler.
pub Reachable-IsSettled :
    (l : EngineLimits) (n : ℕ) (s : SchedulerInner) (slots : List AdmissionSlot)
    → l.max_active_executions ≤ u64_max
    → n ≤ u64_max
    → Reachable l n s slots
    → IsSettled l n s slots
unfolding with_limits
Reachable-IsSettled l _ _ _ w h start = record {
  sound = with_limits-IsSound l;
  ids = refl;
  issued = tt;
}
Reachable-IsSettled l _ _ _ w h (admits {n} {s} {slots} p r) =
    let t = Reachable-IsSettled l n s slots w (omega (arith, h)) r in
    let room : s.next_slot_id < u64_max = omega (arith, t.ids, h) in
    record {
      sound = admit-IsSound l s t.sound w room p;
      ids = omega (arith, admit-next_slot_id s p room, t.ids);
      issued = issue-IsIssued s p slots room t.issued;
    }
Reachable-IsSettled l n _ slots w h (drops {s = s} slot m r) =
    let t = Reachable-IsSettled l n s slots w h r in
    record {
      sound = drop-IsSound l s slot w t.sound (IsIssued-member s slot slots m t.issued);
      ids = omega (arith, drop-next_slot_id s slot, t.ids);
      issued = All-IsIssued-later s (drop slot s) slots (drop-IsLater s slot) t.issued;
    }
Reachable-IsSettled l n _ slots w h (pushes {s = s} i r) =
    let t = Reachable-IsSettled l n s slots w h r in
    turned l n s _ slots t (run_turn_push_back-IsSound l s t.sound i) (push_frame i s)
Reachable-IsSettled l n _ slots w h (rotates {s = s} i r) =
    let t = Reachable-IsSettled l n s slots w h r in
    turned l n s _ slots t (run_turn_rotate-IsSound l s t.sound i) (rotate_frame i s)
Reachable-IsSettled l n _ slots w h (removes {s = s} i r) =
    let t = Reachable-IsSettled l n s slots w h r in
    turned l n s _ slots t (run_turn_remove-IsSound l s t.sound i) (remove_frame i s)
