-- ===== src/HostPending.antt =====
-- src/host_pending.rs: the ticket of a host call, its completer, and how their steps interleave.
--
-- A waker is a number. What a method does under the mutex, and each access of the `ready` flag, is one
-- function; the mutex and the acquire/release pair put these in one order.
pub mod Invariant
pub mod Laws
use tsumugi.Base.{
  ℕ, Bool, true, false, ◌||◌, Option, none, some, List, [], ◌∷◌, ◌++◌, ◌==◌, if◌then◌else◌,
}

pub record TicketState (R : Type 0) : Type 0 where
  pub result : Option R
  pub waker : Option ℕ
  pub cancelled : Bool

pub record TicketShared (R : Type 0) : Type 0 where
  pub id : ℕ
  pub state : TicketState R
  pub ready : Bool

abbrev pub some_waker : Option ℕ → List ℕ
some_waker none = []
some_waker (some k) = k ∷ []

module _ {R : Type 0} where
  abbrev pub new_ticket : ℕ → TicketShared R
  new_ticket id = record {
    id = id;
    state = record { result = none; waker = none; cancelled = false };
    ready = false;
  }

  abbrev pub with_state : TicketState R → TicketShared R → TicketShared R
  with_state st s = record s { state = st }

  -- `st.waker = Some(waker.clone())`
  unfoldable pub save_waker : ℕ → TicketShared R → TicketShared R
  save_waker k s = with_state (record s.state { waker = some k }) s

  -- Under the mutex of `complete`: the result, if there was none, and whether it was stored.
  unfoldable pub store_result : R → TicketShared R → Bool × TicketShared R
  store_result r s = elim s.state.result [
    | some old ↦ (false, s)
    | none ↦ (true, with_state (record s.state { result = some r }) s)
  ]

  -- `ready.store(true, Release)`
  unfoldable pub announce : TicketShared R → TicketShared R
  announce s = record s { ready = true }

  -- Under the mutex of `try_take`.
  unfoldable pub take_locked : TicketShared R → Option R × TicketShared R
  take_locked s =
      if s.state.cancelled
      then (none, with_state (record s.state { result = none }) s)
      else (s.state.result, with_state (record s.state { result = none }) s)

  unfoldable pub cancel : TicketShared R → TicketShared R
  cancel s = with_state (record s.state { cancelled = true; result = none }) s

  unfoldable pub is_cancelled : TicketShared R → Bool
  is_cancelled s = s.state.cancelled

  -- The whole methods, with the wakers that they wake, where nothing comes between their steps.
  unfoldable pub register_waker : ℕ → TicketShared R → List ℕ × TicketShared R
  unfolding save_waker
  register_waker k s = let s' = save_waker k s in ((if s'.ready then k ∷ [] else []), s')

  unfoldable pub try_take : TicketShared R → Option R × TicketShared R
  unfolding take_locked
  try_take s = if s.ready then take_locked s else (none, s)

  unfoldable pub complete : R → TicketShared R → List ℕ × TicketShared R
  unfolding store_result announce
  complete r s =
      let (stored, s') = store_result r s in
      if stored then (some_waker (announce s').state.waker, announce s') else ([], s')

-- How far the completer is with `complete`, which it can call once.
pub data Completing : Type 0 where
  not_called stored announced finished : Completing
  read : Option ℕ → Completing

-- What the thread of the ticket is in the middle of.
pub data Owning : Type 0 where
  idle saw_ready : Owning
  saved : ℕ → Owning

-- The ticket, both threads, the wakers woken so far, the results that `try_take` has given, and the
-- one that the completer was called with.
pub record World (R : Type 0) : Type 0 where
  pub shared : TicketShared R
  pub completer : Completing
  pub owner : Owning
  pub woken : List ℕ
  pub taken : List R
  pub completed : Option R

abbrev pub start : {R : Type 0} → ℕ → World R
start id = record {
  shared = new_ticket id;
  completer = not_called;
  owner = idle;
  woken = [];
  taken = [];
  completed = none;
}

pub data Move (R : Type 0) : Type 0 where
  completes : R → Move R
  announces reads wakes : Move R
  registers : ℕ → Move R
  rechecks looks takes cancels : Move R

abbrev pub as_list : {R : Type 0} → Option R → List R
as_list none = []
as_list (some r) = r ∷ []

-- One step of one of the threads; where that thread is elsewhere, nothing happens.
unfoldable pub move : {R : Type 0} → Move R → World R → World R
unfolding store_result announce save_waker take_locked cancel
move (completes r) w = elim w.completer [
  | not_called ↦
      let (fresh, s) = store_result r w.shared in
      record w { shared = s; completed = some r; completer = if fresh then stored else finished }
  | _ ↦ w
]
move announces w = elim w.completer [
  | stored ↦ record w { shared = announce w.shared; completer = announced }
  | _ ↦ w
]
move reads w = elim w.completer [
  | announced ↦ record w { completer = read w.shared.state.waker }
  | _ ↦ w
]
move wakes w = elim w.completer [
  | read none ↦ record w { completer = finished }
  | read (some k) ↦ record w { completer = finished; woken = k ∷ w.woken }
  | _ ↦ w
]
move (registers k) w = elim w.owner [
  | idle ↦ record w { shared = save_waker k w.shared; owner = saved k }
  | _ ↦ w
]
move rechecks w = elim w.owner [
  | saved k ↦ record w { owner = idle; woken = if w.shared.ready then k ∷ w.woken else w.woken }
  | _ ↦ w
]
move looks w = elim w.owner [
  | idle ↦ if w.shared.ready then record w { owner = saw_ready } else w
  | _ ↦ w
]
move takes w = elim w.owner [
  | saw_ready ↦
      let (r, s) = take_locked w.shared in
      record w { shared = s; owner = idle; taken = as_list r ++ w.taken }
  | _ ↦ w
]
move cancels w = elim w.owner [ idle ↦ record w { shared = cancel w.shared } | _ ↦ w ]

unfoldable pub run : {R : Type 0} → List (Move R) → World R → World R
run [] w = w
run (m ∷ ms) w = run ms (move m w)

unfoldable pub holds_waker : ℕ → List ℕ → Bool
holds_waker k [] = false
holds_waker k (x ∷ xs) = let rest = holds_waker k xs in k == x || rest
