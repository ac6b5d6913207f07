-- ===== src/Scenarios/Tickets.antt =====
-- Orders of the steps of src/host_pending.rs, with the result 5 and the waker 3.
use tsumugi.Base.{ℕ, ◌≡◌, refl, true, some, List, [], ◌∷◌, ◌⊎◌, if◌then◌else◌}
use tsumugi.HostPending.{
  Move, completes, announces, reads, wakes, registers, rechecks, looks, takes, finished, idle, move,
  run, start, holds_waker,
}
use tsumugi.HostPending.Laws.{run-wakes, run-delivers}

-- The waker is read before it is saved, and `ready` is stored before it is checked again.
abbrev late : List (Move ℕ)
late = completes 5 ∷ announces ∷ reads ∷ registers 3 ∷ wakes ∷ rechecks ∷ []

late-finished : (run late (start 1)).completer ≡ finished
unfolding run move
late-finished = refl

late-idle : (run late (start 1)).owner ≡ idle
unfolding run move
late-idle = refl

late-waker : (run late (start 1)).shared.state.waker ≡ some 3
unfolding run move
late-waker = refl

run-wakes_example : holds_waker 3 (run late (start 1)).woken ≡ true
run-wakes_example = run-wakes 1 3 late late-finished late-idle late-waker

run-delivers_example :
    (r : ℕ) × ((run late (start 1)).completed ≡ some r)
    × (((run late (start 1)).taken ≡ []) ⊎ ((run late (start 1)).taken ≡ r ∷ []))
    × ((run (looks ∷ takes ∷ []) (run late (start 1))).taken ≡ (
        if (run late (start 1)).shared.state.cancelled then (run late (start 1)).taken else r ∷ []))
run-delivers_example = run-delivers 1 late late-finished late-idle
