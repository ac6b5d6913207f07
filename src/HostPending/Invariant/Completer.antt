-- ===== src/HostPending/Invariant/Completer.antt =====
-- src/host_pending.rs: the steps of `complete` keep the invariant.
use tsumugi.Base.{arith, Bool-cases, Option-cases}
use tsumugi.HostPending.{
  World, completes, announces, reads, wakes, move, holds_waker, store_result, announce,
}
use tsumugi.HostPending.Invariant.{IsSound, Completing-cases}

module _ {R : Type 0} where
  pub completes-IsSound : (a : R) (w : World R) → IsSound w → IsSound (move (completes a) w)
  unfolding move store_result
  completes-IsSound a w s =
      let c = Completing-cases w.completer in
      let r = Option-cases w.shared.state.result in
      let b = Bool-cases w.shared.state.cancelled in
      record {
        fresh = ground (arith, s.fresh);
        ready = ground (arith, s.ready, s.fresh);
        covered = λ k h p. ground (arith, s.covered k, s.ready, s.fresh);
        called = ground (arith, s.called);
        held = ground (arith, s.held, s.fresh, s.given);
        given = ground (arith, s.given, s.held, s.fresh);
        seen = ground (arith, s.seen, s.ready);
      }

  pub announces-IsSound : (w : World R) → IsSound w → IsSound (move announces w)
  unfolding move announce
  announces-IsSound w s =
      let c = Completing-cases w.completer in
      record {
        fresh = ground (arith, s.fresh);
        ready = ground (arith, s.ready, s.fresh);
        covered = λ k h p. ground (arith, s.covered k, s.ready, s.fresh);
        called = ground (arith, s.called);
        held = ground (arith, s.held, s.fresh, s.given);
        given = ground (arith, s.given, s.held, s.fresh);
        seen = ground (arith, s.seen, s.ready);
      }

  pub reads-IsSound : (w : World R) → IsSound w → IsSound (move reads w)
  unfolding move
  reads-IsSound w s =
      let c = Completing-cases w.completer in
      let x = Option-cases w.shared.state.waker in
      record {
        fresh = ground (arith, s.fresh);
        ready = ground (arith, s.ready, s.fresh);
        covered = λ k h p. ground (arith, s.covered k, s.ready, s.fresh);
        called = ground (arith, s.called);
        held = ground (arith, s.held, s.fresh, s.given);
        given = ground (arith, s.given, s.held, s.fresh);
        seen = ground (arith, s.seen, s.ready);
      }

  pub wakes-IsSound : (w : World R) → IsSound w → IsSound (move wakes w)
  unfolding move holds_waker
  wakes-IsSound w s =
      let c = Completing-cases w.completer in
      record {
        fresh = ground (arith, s.fresh);
        ready = ground (arith, s.ready, s.fresh);
        covered = λ k h p. ground (arith, s.covered k, s.ready, s.fresh);
        called = ground (arith, s.called);
        held = ground (arith, s.held, s.fresh, s.given);
        given = ground (arith, s.given, s.held, s.fresh);
        seen = ground (arith, s.seen, s.ready);
      }
