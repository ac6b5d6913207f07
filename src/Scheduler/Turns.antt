-- ===== src/Scheduler/Turns.antt =====
-- src/scheduler.rs: the run-turn queue, a list of slot ids.
use tsumugi.Base.{
  ℕ, ◌≡◌, refl, true, false, List, [], ◌∷◌, ◌++◌, arith, ◌==◌, if◌then◌else◌, Bool-cases, inl, inr,
}
use tsumugi.Scheduler.{remove_id, contains, rotate}

-- No id twice.
abbrev pub IsDistinct : List ℕ → Type 0
IsDistinct [] = Unit {0}
IsDistinct (x ∷ xs) = (contains x xs ≡ false) × IsDistinct xs

pub contains-append :
    (i j : ℕ) (xs : List ℕ) → contains i (xs ++ j ∷ []) ≡ (if j == i then true else contains i xs)
unfolding contains
contains-append i j [] = refl
contains-append i j (x ∷ xs) = ground (arith, contains-append i j xs)

pub IsDistinct-append :
    (i : ℕ) (xs : List ℕ) → contains i xs ≡ false → IsDistinct xs → IsDistinct (xs ++ i ∷ [])
unfolding contains
IsDistinct-append i [] h d = (refl, tt)
IsDistinct-append i (x ∷ xs) h d =
    (ground (arith, contains-append x i xs, d.0), IsDistinct-append i xs (ground arith) d.1)

contains-remove_id :
    (i j : ℕ) (xs : List ℕ) → contains j xs ≡ false → contains j (remove_id i xs) ≡ false
unfolding contains remove_id
contains-remove_id i j [] h = refl
contains-remove_id i j (x ∷ xs) h = ground (arith, contains-remove_id i j xs)

pub IsDistinct-remove_id : (i : ℕ) (xs : List ℕ) → IsDistinct xs → IsDistinct (remove_id i xs)
unfolding remove_id
IsDistinct-remove_id i [] d = tt
IsDistinct-remove_id i (x ∷ xs) d = elim (Bool-cases (x == i)) [
  | inl h ↦ rw h d.1
  | inr h ↦ rw h (contains-remove_id i x xs d.0, IsDistinct-remove_id i xs d.1)
]

-- After a removal the id has no turn any more.
pub remove_id-contains : (i : ℕ) (xs : List ℕ) → IsDistinct xs → contains i (remove_id i xs) ≡ false
unfolding contains remove_id
remove_id-contains i [] d = refl
remove_id-contains i (x ∷ xs) d = ground (arith, remove_id-contains i xs d.1, d.0)

pub IsDistinct-rotate : (i : ℕ) (xs : List ℕ) → IsDistinct xs → IsDistinct (rotate i xs)
unfolding rotate
IsDistinct-rotate i [] d = tt
IsDistinct-rotate i (x ∷ xs) d = elim (Bool-cases (x == i)) [
  | inl h ↦ rw h (IsDistinct-append x xs d.0 d.1)
  | inr h ↦ rw h d
]
