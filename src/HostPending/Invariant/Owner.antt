-- ===== src/HostPending/Invariant/Owner.antt =====
-- src/host_pending.rs: the steps of the ticket keep the invariant.
use tsumugi.Base.{ℕ, arith, Bool-cases, Option-cases}
use tsumugi.HostPending.{
  World, registers, rechecks, looks, takes, cancels, move, holds_waker, save_waker, take_locked,
  cancel,
}
use tsumugi.HostPending.Invariant.{IsSound, Completing-cases, Owning-cases}

module _ {R : Type 0} where
  pub registers-IsSound : (j : ℕ) (w : World R) → IsSound w → IsSound (move (registers j) w)
  unfolding move save_waker
  registers-IsSound j w s =
      let o = Owning-cases w.owner in
      record {
        fresh = ground (arith, s.fresh);
        ready = ground (arith, s.ready, s.fresh);
        covered = λ k h p. ground (arith, s.covered k, s.ready, s.fresh);
        called = ground (arith, s.called);
        held = ground (arith, s.held, s.fresh, s.given);
        given = ground (arith, s.given, s.held, s.fresh);
        seen = ground (arith, s.seen, s.ready);
      }

  pub rechecks-IsSound : (w : World R) → IsSound w → IsSound (move rechecks w)
  unfolding move holds_waker
  rechecks-IsSound w s =
      let o = Owning-cases w.owner in
      let y = Bool-cases w.shared.ready in
      let c = Completing-cases w.completer in
      record {
        fresh = ground (arith, s.fresh);
        ready = ground (arith, s.ready, s.fresh);
        covered = λ k h p. ground (arith, s.covered k, s.ready, s.fresh);
        called = ground (arith, s.called);
        held = ground (arith, s.held, s.fresh, s.given);
        given = ground (arith, s.given, s.held, s.fresh);
        seen = ground (arith, s.seen, s.ready);
      }

  pub looks-IsSound : (w : World R) → IsSound w → IsSound (move looks w)
  unfolding move
  looks-IsSound w s =
      let o = Owning-cases w.owner in
      let y = Bool-cases w.shared.ready in
      record {
        fresh = ground (arith, s.fresh);
        ready = ground (arith, s.ready, s.fresh);
        covered = λ k h p. ground (arith, s.covered k, s.ready, s.fresh);
        called = ground (arith, s.called);
        held = ground (arith, s.held, s.fresh, s.given);
        given = ground (arith, s.given, s.held, s.fresh);
        seen = ground (arith, s.seen, s.ready);
      }

  pub takes-IsSound : (w : World R) → IsSound w → IsSound (move takes w)
  unfolding move take_locked
  takes-IsSound w s =
      let o = Owning-cases w.owner in
      let b = Bool-cases w.shared.state.cancelled in
      let r = Option-cases w.shared.state.result in
      let d = Option-cases w.completed in
      let c = Completing-cases w.completer in
      record {
        fresh = ground (arith, s.fresh);
        ready = ground (arith, s.ready, s.fresh);
        covered = λ k h p. ground (arith, s.covered k, s.ready, s.fresh);
        called = ground (arith, s.called);
        held = ground (arith, s.held, s.fresh, s.given);
        given = ground (arith, s.given, s.held, s.fresh);
        seen = ground (arith, s.seen, s.ready);
      }

  pub cancels-IsSound : (w : World R) → IsSound w → IsSound (move cancels w)
  unfolding move cancel
  cancels-IsSound w s =
      let o = Owning-cases w.owner in
      let b = Bool-cases w.shared.state.cancelled in
      let r = Option-cases w.shared.state.result in
      let d = Option-cases w.completed in
      let c = Completing-cases w.completer in
      record {
        fresh = ground (arith, s.fresh);
        ready = ground (arith, s.ready, s.fresh);
        covered = λ k h p. ground (arith, s.covered k, s.ready, s.fresh);
        called = ground (arith, s.called);
        held = ground (arith, s.held, s.fresh, s.given);
        given = ground (arith, s.given, s.held, s.fresh);
        seen = ground (arith, s.seen, s.ready);
      }
