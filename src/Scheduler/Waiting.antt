-- ===== src/Scheduler/Waiting.antt =====
-- src/scheduler.rs: the admission queue, in the order of the slot ids.
use tsumugi.Base.{
  ℕ, suc, ◌≤◌, ◌<◌, ◌≡◌, refl, Bool, true, false, List, [], ◌∷◌, ◌++◌, arith, ◌==◌, length,
  if◌then◌else◌, Bool-cases, inl, inr,
}
use tsumugi.Scheduler.{SlotKind, QueuedEntry, store, remove_entry}

-- The ids of the queue rise from `lo` on, are below `n`, and their cells say that they wait.
abbrev pub IsWaiting : ℕ → ℕ → (ℕ → SlotKind) → List QueuedEntry → Type 0
IsWaiting lo n f [] = Unit {0}
IsWaiting lo n f (e ∷ es) =
    (lo ≤ e.slot_id)
    × (e.slot_id < n)
    × (f e.slot_id ≡ SlotKind.queued)
    × IsWaiting (suc e.slot_id) n f es

unfoldable pub in_queue : ℕ → List QueuedEntry → Bool
in_queue i [] = false
in_queue i (e ∷ es) = let rest = in_queue i es in if e.slot_id == i then true else rest

pub IsWaiting-store :
    (lo n i : ℕ) (k : SlotKind) (f : ℕ → SlotKind) (q : List QueuedEntry)
    → i < lo
    → IsWaiting lo n f q
    → IsWaiting lo n (store i k f) q
unfolding store
IsWaiting-store lo n i k f [] h w = tt
IsWaiting-store lo n i k f (e ∷ es) h w = (
  w.0,
  w.1,
  ground (arith, w.0, w.2),
  IsWaiting-store (suc e.slot_id) n i k f es (omega (arith, w.0)) w.3,
)

pub IsWaiting-lower :
    (lo lo' n : ℕ) (f : ℕ → SlotKind) (q : List QueuedEntry)
    → lo' ≤ lo
    → IsWaiting lo n f q
    → IsWaiting lo' n f q
IsWaiting-lower lo lo' n f [] h w = tt
IsWaiting-lower lo lo' n f (e ∷ es) h w = (omega (arith, w.0), w.1, w.2, w.3)

-- A slot that is admitted to the queue comes last.
pub IsWaiting-append :
    (lo n : ℕ) (f : ℕ → SlotKind) (e : QueuedEntry) (q : List QueuedEntry)
    → lo ≤ n
    → e.slot_id ≡ n
    → IsWaiting lo n f q
    → IsWaiting lo (suc n) (store n SlotKind.queued f) (q ++ e ∷ [])
unfolding store
IsWaiting-append lo n f e [] h eq w = (omega arith, omega arith, ground (arith, eq), tt)
IsWaiting-append lo n f e (x ∷ xs) h eq w = (
  w.0,
  omega (arith, w.1),
  ground (arith, w.1, w.2),
  IsWaiting-append (suc x.slot_id) n f e xs (omega (arith, w.1)) eq w.3,
)

pub IsWaiting-active :
    (lo n : ℕ) (k : SlotKind) (f : ℕ → SlotKind) (q : List QueuedEntry)
    → IsWaiting lo n f q
    → IsWaiting lo (suc n) (store n k f) q
unfolding store
IsWaiting-active lo n k f [] w = tt
IsWaiting-active lo n k f (x ∷ xs) w = (
  w.0,
  omega (arith, w.1),
  ground (arith, w.1, w.2),
  IsWaiting-active (suc x.slot_id) n k f xs w.3,
)

-- A cell that no entry of the queue stands for.
pub IsWaiting-elsewhere :
    (lo n i : ℕ) (k : SlotKind) (f : ℕ → SlotKind) (q : List QueuedEntry)
    → ¬ (f i ≡ SlotKind.queued)
    → IsWaiting lo n f q
    → IsWaiting lo n (store i k f) q
unfolding store
IsWaiting-elsewhere lo n i k f [] h w = tt
IsWaiting-elsewhere lo n i k f (e ∷ es) h w =
    (w.0, w.1, ground (arith, h, w.2), IsWaiting-elsewhere (suc e.slot_id) n i k f es h w.3)

pub IsWaiting-remove :
    (lo n i : ℕ) (k : SlotKind) (f : ℕ → SlotKind) (q : List QueuedEntry)
    → IsWaiting lo n f q
    → IsWaiting lo n (store i k f) (remove_entry i q)
unfolding store remove_entry
IsWaiting-remove lo n i k f [] w = tt
IsWaiting-remove lo n i k f (e ∷ es) w = elim (Bool-cases (e.slot_id == i)) [
  | inl h ↦ rw h (
      IsWaiting-lower (suc e.slot_id) lo n (store i k f) es (omega (arith, w.0))
        (IsWaiting-store (suc e.slot_id) n i k f es (ground (arith, h)) w.3))
  | inr h ↦ rw h (w.0, w.1, ground (arith, h, w.2), IsWaiting-remove (suc e.slot_id) n i k f es w.3)
]

pub in_queue-append :
    (i : ℕ) (e : QueuedEntry) (q : List QueuedEntry)
    → in_queue i (q ++ e ∷ []) ≡ (if e.slot_id == i then true else in_queue i q)
unfolding in_queue
in_queue-append i e [] = refl
in_queue-append i e (x ∷ xs) = ground (arith, in_queue-append i e xs)

pub in_queue-remove :
    (i j : ℕ) (q : List QueuedEntry) → ¬ (j ≡ i) → in_queue j (remove_entry i q) ≡ in_queue j q
unfolding in_queue remove_entry
in_queue-remove i j [] h = refl
in_queue-remove i j (e ∷ es) h = ground (arith, in_queue-remove i j es)

pub in_queue-le :
    (lo n i : ℕ) (f : ℕ → SlotKind) (q : List QueuedEntry)
    → IsWaiting lo n f q
    → in_queue i q ≡ true
    → lo ≤ i
unfolding in_queue
in_queue-le lo n i f [] w h = cc
in_queue-le lo n i f (e ∷ es) w h = elim (Bool-cases (e.slot_id == i)) [
  | inl b ↦ ground (arith, w.0)
  | inr b ↦
      let le = in_queue-le (suc e.slot_id) n i f es w.3 (ground arith) in omega (arith, w.0, le)
]

pub length-remove_entry : (i : ℕ) (q : List QueuedEntry) → length (remove_entry i q) ≤ length q
unfolding remove_entry
length-remove_entry i [] = omega arith
length-remove_entry i (e ∷ es) = ground (arith, length-remove_entry i es)

pub in_queue-length : (i : ℕ) (q : List QueuedEntry) → in_queue i q ≡ true → 0 < length q
unfolding in_queue
in_queue-length i [] h = cc
in_queue-length i (e ∷ es) h = omega arith

pub IsWaiting-raise :
    (lo n : ℕ) (f : ℕ → SlotKind) (q : List QueuedEntry)
    → IsWaiting lo n f q
    → IsWaiting lo (suc n) f q
IsWaiting-raise lo n f [] w = tt
IsWaiting-raise lo n f (x ∷ xs) w =
    (w.0, omega (arith, w.1), w.2, IsWaiting-raise (suc x.slot_id) n f xs w.3)
