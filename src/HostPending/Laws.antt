-- ===== src/HostPending/Laws.antt =====
-- src/host_pending.rs: no wake is lost, and a result is given once.
use tsumugi.Base.{
  if◌then◌else◌, ℕ, ◌≡◌, refl, true, some, List, [], ◌∷◌, arith, ◌⊎◌, inl, inr, Bool-cases,
  Option-cases,
}
use tsumugi.HostPending.{
  World, Move, completes, announces, reads, wakes, registers, rechecks, looks, takes, cancels,
  finished, idle, move, run, start, holds_waker, take_locked,
}
use tsumugi.HostPending.Invariant.{IsSound}
use tsumugi.HostPending.Invariant.Completer.{
  completes-IsSound, announces-IsSound, reads-IsSound, wakes-IsSound,
}
use tsumugi.HostPending.Invariant.Owner.{
  registers-IsSound, rechecks-IsSound, looks-IsSound, takes-IsSound, cancels-IsSound,
}

module _ {R : Type 0} where
  start-IsSound : (id : ℕ) → IsSound {R = R} (start id)
  start-IsSound id = record {
    fresh = λ h. (refl, refl);
    ready = refl;
    covered = λ k h p. ground arith;
    called = refl;
    held = λ h. refl;
    given = inl refl;
    seen = λ h. ground arith;
  }

  move-IsSound : (m : Move R) (w : World R) → IsSound w → IsSound (move m w)
  move-IsSound (completes r) = completes-IsSound r
  move-IsSound announces = announces-IsSound
  move-IsSound reads = reads-IsSound
  move-IsSound wakes = wakes-IsSound
  move-IsSound (registers k) = registers-IsSound k
  move-IsSound rechecks = rechecks-IsSound
  move-IsSound looks = looks-IsSound
  move-IsSound takes = takes-IsSound
  move-IsSound cancels = cancels-IsSound

  run-IsSound : (ms : List (Move R)) (w : World R) → IsSound w → IsSound (run ms w)
  unfolding run
  run-IsSound [] w s = s
  run-IsSound (m ∷ ms) w s = run-IsSound ms (move m w) (move-IsSound m w s)

  delivers :
      (w : World R)
      → IsSound w
      → w.completer ≡ finished
      → w.owner ≡ idle
      → (r : R) × (w.completed ≡ some r)
        × ((w.taken ≡ []) ⊎ (w.taken ≡ r ∷ []))
        × ((run (looks ∷ takes ∷ []) w).taken
            ≡ (if w.shared.state.cancelled then w.taken else r ∷ []))
  unfolding run move take_locked
  delivers w s f o = elim (Option-cases w.completed) [
    | inl n ↦ absurd (ground (arith, s.called, f, n))
    | inr (r, n) ↦ (
      r,
      n,
      ground (arith, n, s.given),
      ground (arith, n, f, o, s.ready, s.held, Bool-cases w.shared.state.cancelled),
    )
  ]

  -- Whatever order the steps of a ticket's thread and of its completer take from a new ticket on
  -- (waker registrations, looks, takes, cancellations, and one completion), once the completion is
  -- finished and the thread is between two of its calls, the waker that is registered has been
  -- woken.
  pub run-wakes :
      (id k : ℕ) (ms : List (Move R))
      → (run ms (start id)).completer ≡ finished
      → (run ms (start id)).owner ≡ idle
      → (run ms (start id)).shared.state.waker ≡ some k
      → holds_waker k (run ms (start id)).woken ≡ true
  run-wakes id k ms f o h =
      let s = run-IsSound ms (start id) (start-IsSound id) in ground (arith, f, o, s.covered k h)

  -- In every such order, once the completion is finished and the thread is between two of its
  -- calls, at most one result has been given, and it is the one that the completer was called
  -- with; a look and a take then leave just that result given, if the ticket was not cancelled,
  -- and give nothing more if it was.
  pub run-delivers :
      (id : ℕ) (ms : List (Move R))
      → (run ms (start id)).completer ≡ finished
      → (run ms (start id)).owner ≡ idle
      → (r : R) × ((run ms (start id)).completed ≡ some r)
        × (((run ms (start id)).taken ≡ []) ⊎ ((run ms (start id)).taken ≡ r ∷ []))
        × ((run (looks ∷ takes ∷ []) (run ms (start id))).taken ≡ (
            if (run ms (start id)).shared.state.cancelled
            then (run ms (start id)).taken
            else r ∷ []))
  run-delivers id ms f o =
      delivers (run ms (start id)) (run-IsSound ms (start id) (start-IsSound id)) f o
