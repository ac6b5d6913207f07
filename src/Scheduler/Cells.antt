-- ===== src/Scheduler/Cells.antt =====
-- src/scheduler.rs: the cells of the slots, and how many of them are in one state.
use tsumugi.Base.{ℕ, zero, suc, ◌+◌, ◌≤◌, ◌<◌, ◌≡◌, refl, arith, if◌then◌else◌}
use tsumugi.Scheduler.{SlotKind, is_active, store}

abbrev pub one_if_active : SlotKind → ℕ
one_if_active k = if is_active k then 1 else 0

-- The active slots among the first `n` ids.
unfoldable pub count_active : ℕ → (ℕ → SlotKind) → ℕ
count_active zero f = 0
count_active (suc n) f = one_if_active (f n) + count_active n f

pub store_other : (i j : ℕ) (k : SlotKind) (f : ℕ → SlotKind) → ¬ (j ≡ i) → store i k f j ≡ f j
unfolding store
store_other i j k f h = ground arith

pub store_self : (i : ℕ) (k : SlotKind) (f : ℕ → SlotKind) → store i k f i ≡ k
unfolding store
store_self i k f = ground arith

pub count_active-fresh :
    (n i : ℕ) (k : SlotKind) (f : ℕ → SlotKind)
    → n ≤ i
    → count_active n (store i k f) ≡ count_active n f
unfolding count_active store
count_active-fresh zero i k f h = refl
count_active-fresh (suc n) i k f h = ground (arith, count_active-fresh n i k f)

pub count_active-store :
    (n i : ℕ) (k : SlotKind) (f : ℕ → SlotKind)
    → i < n
    → count_active n (store i k f) + one_if_active (f i) ≡ count_active n f + one_if_active k
unfolding count_active store
count_active-store zero i k f h = omega arith
count_active-store (suc n) i k f h =
    ground (arith, count_active-store n i k f, count_active-fresh n i k f)
