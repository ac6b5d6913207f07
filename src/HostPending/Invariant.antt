-- ===== src/HostPending/Invariant.antt =====
-- src/host_pending.rs: what every order of the steps keeps.
pub mod Completer
pub mod Owner
use tsumugi.Base.{
  ℕ, ◌≡◌, refl, Bool, true, false, ◌||◌, Option, none, some, List, [], ◌∷◌, ◌++◌, ◌==◌, arith, ◌⊎◌,
  inl, inr, Bool-cases, Option-cases,
}
use tsumugi.HostPending.{
  World, Move, Completing, Owning, completes, announces, reads, wakes, registers, rechecks, looks,
  takes, cancels, not_called, stored, announced, finished, read, idle, saw_ready, saved, move, run,
  start, as_list, holds_waker, store_result, announce, save_waker, take_locked, cancel,
}

-- `ready` has been stored.
abbrev pub is_announced : Completing → Bool
is_announced not_called = false
is_announced stored = false
is_announced _ = true

-- The saved waker has been read.
abbrev pub is_past : Completing → Bool
is_past (read k) = true
is_past finished = true
is_past _ = false

abbrev pub is_called : Completing → Bool
is_called not_called = false
is_called _ = true

abbrev pub is_reading : Completing → ℕ → Bool
is_reading (read (some j)) k = j == k
is_reading _ k = false

abbrev pub is_saved : Owning → ℕ → Bool
is_saved (saved j) k = j == k
is_saved _ k = false

abbrev pub has_seen : Owning → Bool
has_seen saw_ready = true
has_seen _ = false

abbrev pub is_given : {R : Type 0} → Option R → Bool
is_given none = false
is_given (some r) = true

-- Somebody has woken the waker, or is yet to.
abbrev pub is_covered : {R : Type 0} → ℕ → World R → Bool
is_covered k w = is_reading w.completer k || (is_saved w.owner k || holds_waker k w.woken)

pub record IsSound {R : Type 0} (w : World R) : Type 0 where
  pub fresh : is_called w.completer ≡ false → (w.shared.state.result ≡ none) × (w.completed ≡ none)
  pub ready : w.shared.ready ≡ is_announced w.completer
  pub covered :
      (k : ℕ) → w.shared.state.waker ≡ some k → is_past w.completer ≡ true → is_covered k w ≡ true
  pub called : is_given w.completed ≡ is_called w.completer
  pub held :
      w.shared.state.cancelled ≡ false
      → as_list w.shared.state.result ++ w.taken ≡ as_list w.completed
  pub given : (w.taken ≡ []) ⊎ (w.taken ≡ as_list w.completed)
  pub seen : has_seen w.owner ≡ true → w.shared.ready ≡ true

pub Completing-cases :
    (c : Completing)
    → (c ≡ not_called)
      ⊎ ((c ≡ stored)
          ⊎ ((c ≡ announced)
              ⊎ ((c ≡ finished) ⊎ ((c ≡ read none) ⊎ ((k : ℕ) × (c ≡ read (some k)))))))
Completing-cases not_called = inl refl
Completing-cases stored = inr (inl refl)
Completing-cases announced = inr (inr (inl refl))
Completing-cases finished = inr (inr (inr (inl refl)))
Completing-cases (read none) = inr (inr (inr (inr (inl refl))))
Completing-cases (read (some k)) = inr (inr (inr (inr (inr (k, refl)))))

pub Owning-cases : (o : Owning) → (o ≡ idle) ⊎ ((o ≡ saw_ready) ⊎ ((k : ℕ) × (o ≡ saved k)))
Owning-cases idle = inl refl
Owning-cases saw_ready = inr (inl refl)
Owning-cases (saved k) = inr (inr (k, refl))
