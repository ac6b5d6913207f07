-- ===== src/Budget/Charges/Exact.antt =====
-- src/budget.rs: the shape that the charges share, a reservation that is committed in full.
use tsumugi.Base.{ℕ, ◌+◌, ◌≡◌, ◌∙◌, refl, sym, ap, subst, List, arith, All, inl, inr, ◌⊎◌, ok, err}
use tsumugi.Budget.Types.{BudgetResource, ControlStop, CumulativeRequest, ExecutionPhase}
use tsumugi.Budget.Counters.{counter}
use tsumugi.Audit.Accumulator.Conserve.{charged}
use tsumugi.Budget.Ledger.{BudgetLedger, M, ◌>>◌, modify, add_all, reserve_all}
use tsumugi.Budget.Ledger.Reserve.{IsConfig, IsWithin, Fits, demand, Apart, Cumulative}
use tsumugi.Budget.Ledger.Atomic.{
  IsRunning, reserve_all_iff, reserve_all-cases, add_all-frame, add_all-reserved,
  reserve_all-IsWithin,
}
use tsumugi.Budget.Ledger.Commit.{IsAccounted, Moves, Moves-IsWithin, commit_all, commit_all-Moves}

-- `amount` of each resource was used, within the limits; the reservations are as they were.
pub record Spends (l l' : BudgetLedger) (amount : BudgetResource → ℕ) : Type 0 where
  pub committed : (q : BudgetResource) → counter q l'.committed ≡ counter q l.committed + amount q
  pub reserved : (q : BudgetResource) → counter q l'.reserved ≡ counter q l.reserved
  pub charged : (q : BudgetResource) → charged q l'.accumulator ≡ charged q l.accumulator + amount q
  pub within : IsWithin l'
  pub config : l'.config ≡ l.config
  pub heap : l'.heap ≡ l.heap
  pub cancelled : l'.cancelled ≡ l.cancelled
  pub clock : l'.clock ≡ l.clock

-- The common shape of a charge.
unfoldable pub charge_all : List CumulativeRequest → ExecutionPhase → M (Unit {0})
charge_all xs p = do reserve_all xs p; modify (commit_all xs)

module _ (l : BudgetLedger) (p : ExecutionPhase) (xs : List CumulativeRequest)
    (c : IsConfig l.config) (w : IsWithin l) (a : IsAccounted l) (k : Cumulative xs)
    (d : Apart xs) where
  granted-Moves :
      reserve_all xs p l ≡ (ok tt, add_all xs l)
      → All (Fits l) xs
      → Moves (add_all xs l) (commit_all xs (add_all xs l)) (λ q. demand q xs) (λ q. demand q xs)
  granted-Moves e f =
      let l1 = add_all xs l in
      let frame = add_all-frame xs l in
      let w1 : IsWithin l1 = rw e at (reserve_all-IsWithin l p xs c k d w) in
      let c1 : IsConfig l1.config = subst (λ x. IsConfig x) (sym (ap (λ x. x.config) frame)) c in
      let a1 : IsAccounted l1 = λ q. omega (
        arith,
        a q,
        ap (λ x. charged q x.accumulator) frame,
        ap (λ x. counter q x.committed) frame,
      ) in
      commit_all-Moves xs l1 c1 w1 a1 k (λ q. omega (arith, add_all-reserved q xs l c k d f))

  granted-Spends :
      reserve_all xs p l ≡ (ok tt, add_all xs l)
      → All (Fits l) xs
      → Spends l (commit_all xs (add_all xs l)) (λ q. demand q xs)
  granted-Spends e f =
      let frame = add_all-frame xs l in
      let m = granted-Moves e f in
      record {
        committed = λ q. omega (arith, m.committed q, ap (λ x. counter q x.committed) frame);
        reserved = λ q. omega (arith, m.reserved q, add_all-reserved q xs l c k d f);
        charged = λ q. omega (arith, m.charged q, ap (λ x. charged q x.accumulator) frame);
        within =
            Moves-IsWithin m (λ q. omega arith) (rw e at (reserve_all-IsWithin l p xs c k d w));
        config = m.config ∙ ap (λ x. x.config) frame;
        heap = m.heap ∙ ap (λ x. x.heap) frame;
        cancelled = m.cancelled ∙ ap (λ x. x.cancelled) frame;
        clock = m.clock ∙ ap (λ x. x.clock) frame;
      }

  granted_peaks :
      reserve_all xs p l ≡ (ok tt, add_all xs l)
      → All (Fits l) xs
      → (commit_all xs (add_all xs l)).peaks ≡ l.peaks
  granted_peaks e f = (granted-Moves e f).peaks ∙ ap (λ x. x.peaks) (add_all-frame xs l)

  -- Granted exactly if it may be, and then exact; refused without a trace.
  pub charge_all-exact :
      ((charge_all xs p l).0 ≡ ok tt)
        × IsRunning l
        × All (Fits l) xs
        × Spends l (charge_all xs p l).1 (λ q. demand q xs)
        × ((charge_all xs p l).1.peaks ≡ l.peaks)
      ⊎ ((e : ControlStop) × (charge_all xs p l ≡ (err e, l)) × (¬ (IsRunning l × All (Fits l) xs)))
  unfolding charge_all
  charge_all-exact = elim (reserve_all-cases l p xs) [
    | inl e ↦
        let (r, f) = (reserve_all_iff l p xs c).0 (ap (λ x. x.0) e) in
        rw e (inl (refl, r, f, granted-Spends e f, granted_peaks e f))
    | inr (s, e) ↦ rw e (inr (s, refl, λ g. cc ((reserve_all_iff l p xs c).1 g, ap (λ x. x.0) e)))
  ]
