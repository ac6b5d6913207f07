-- ===== src/Budget/Ledger/Commit.antt =====
-- src/budget.rs, `commit` and `refund`: what leaves the reservation, what is used, and what the audit trail is told.
use tsumugi.Base.{ℕ, ◌+◌, ◌≤◌, ◌≡◌, ◌∙◌, refl, true, List, [], ◌∷◌, arith, min}
use tsumugi.Budget.Types.{BudgetResource, CumulativeRequest}
use tsumugi.Budget.Resources.{same_resource_refl}
use tsumugi.Budget.Counters.{counter, add_counter}
use tsumugi.Budget.Counters.Laws.{
  is_cumulative, word_max, word_max-le, share, counter-add_counter, counter-sub_counter,
}
use tsumugi.Audit.Accumulator.Conserve.{charged, charged-note_charge}
use tsumugi.Budget.Ledger.{BudgetLedger, commit, refund, charge_reason_for}
use tsumugi.Budget.Ledger.Reserve.{IsConfig, IsWithin, demand, Cumulative}

-- The open groups and finished events carry no more than what was committed.
abbrev pub IsAccounted : BudgetLedger → Type 0
IsAccounted l = (q : BudgetResource) → charged q l.accumulator ≤ counter q l.committed

-- `spent` of each resource is committed and told to the audit trail, `freed` leaves the reservation.
pub record Moves (l l' : BudgetLedger) (spent freed : BudgetResource → ℕ) : Type 0 where
  pub committed : (q : BudgetResource) → counter q l'.committed ≡ counter q l.committed + spent q
  pub reserved : (q : BudgetResource) → counter q l'.reserved + freed q ≡ counter q l.reserved
  pub charged : (q : BudgetResource) → charged q l'.accumulator ≡ charged q l.accumulator + spent q
  pub config : l'.config ≡ l.config
  pub peaks : l'.peaks ≡ l.peaks
  pub heap : l'.heap ≡ l.heap
  pub cancelled : l'.cancelled ≡ l.cancelled
  pub clock : l'.clock ≡ l.clock

module _ (l : BudgetLedger) (r : BudgetResource) (held actual : ℕ) (c : IsConfig l.config)
    (w : IsWithin l) (k : is_cumulative r ≡ true) (le : held ≤ counter r l.reserved) where
  -- A commit of a cumulative resource takes the held amount out of the reservation, adds the
  -- actual amount to what is committed and to what the audit accumulator holds, and changes no
  -- other resource, configuration, peak or heap. The actual amount is at most the held one, as the
  -- debug assertion of the method demands, the held amount is part of the reservation, the limits
  -- hold before, and the accumulator holds no more than was committed.
  pub commit-Moves :
      actual ≤ held
      → IsAccounted l
      → Moves l (commit r held actual l) (λ q. share q r actual) (λ q. share q r held)
  unfolding commit
  commit-Moves le' a =
      let fits : counter r l.committed + actual ≤ word_max r = omega (arith, w r, c r, le, le') in
      let all : min actual held ≡ actual = omega (arith, le') in
      record {
        committed = λ q. rw all (ground (arith, counter-add_counter q r actual l.committed k fits));
        reserved = λ q.
            rw all (
              ground (arith, counter-sub_counter q r held l.reserved (omega (arith, w r, c r)) le));
        charged = λ q. rw all (
            ground (
              arith,
              charged-note_charge q r (charge_reason_for r) actual
                  (counter r (add_counter r actual l.committed)) l.accumulator
                  (omega (arith, a r, fits, word_max-le r)),
            ));
        config = ground arith;
        peaks = ground arith;
        heap = ground arith;
        cancelled = ground arith;
        clock = ground arith;
      }

  -- A refund of a cumulative resource takes the held amount out of the reservation, commits
  -- nothing, tells the audit accumulator nothing, and changes no other resource, configuration,
  -- peak or heap. The held amount is part of the reservation, the limits hold before, and the
  -- accumulator holds no more than was committed.
  pub refund-Moves : IsAccounted l → Moves l (refund r held l) (λ q. 0) (λ q. share q r held)
  unfolding refund
  refund-Moves a = record {
    committed =
        λ q. ground (arith, counter-add_counter q r 0 l.committed k (omega (arith, w r, c r)));
    reserved =
        λ q. ground (arith, counter-sub_counter q r held l.reserved (omega (arith, w r, c r)) le);
    charged = λ q. omega arith;
    config = refl;
    peaks = refl;
    heap = refl;
    cancelled = refl;
    clock = refl;
  }

-- Whatever moves no more into use than it frees stays within the limits, and stays accounted.
module _ {l l' : BudgetLedger} {spent freed : BudgetResource → ℕ} (m : Moves l l' spent freed) where
  pub Moves-IsWithin : ((q : BudgetResource) → spent q ≤ freed q) → IsWithin l → IsWithin l'
  Moves-IsWithin s w q = rw m.config (omega (arith, s q, w q, m.committed q, m.reserved q))

  pub Moves-IsAccounted : IsAccounted l → IsAccounted l'
  Moves-IsAccounted a q = omega (arith, a q, m.committed q, m.charged q)

pub share_mono : (q r : BudgetResource) (a b : ℕ) → a ≤ b → share q r a ≤ share q r b
share_mono q r a b h = ground arith

-- Committing each request of a list in full, as every charge does.
unfoldable pub commit_all : List CumulativeRequest → BudgetLedger → BudgetLedger
commit_all [] l = l
commit_all (x ∷ xs) l = commit_all xs (commit x.resource x.amount x.amount l)

Moves-refl : (l : BudgetLedger) → Moves l l (λ q. 0) (λ q. 0)
Moves-refl l = record {
  committed = λ q. omega arith;
  reserved = λ q. omega arith;
  charged = λ q. omega arith;
  config = refl;
  peaks = refl;
  heap = refl;
  cancelled = refl;
  clock = refl;
}

Moves-trans :
    {l l1 l2 : BudgetLedger} {s f s1 f1 s2 f2 : BudgetResource → ℕ}
    → Moves l l1 s1 f1
    → Moves l1 l2 s2 f2
    → ((q : BudgetResource) → s q ≡ s1 q + s2 q)
    → ((q : BudgetResource) → f q ≡ f1 q + f2 q)
    → Moves l l2 s f
Moves-trans a b s f = record {
  committed = λ q. omega (arith, a.committed q, b.committed q, s q);
  reserved = λ q. omega (arith, a.reserved q, b.reserved q, f q);
  charged = λ q. omega (arith, a.charged q, b.charged q, s q);
  config = b.config ∙ a.config;
  peaks = b.peaks ∙ a.peaks;
  heap = b.heap ∙ a.heap;
  cancelled = b.cancelled ∙ a.cancelled;
  clock = b.clock ∙ a.clock;
}

pub commit_all-Moves :
    (xs : List CumulativeRequest) (l : BudgetLedger)
    → IsConfig l.config
    → IsWithin l
    → IsAccounted l
    → Cumulative xs
    → ((q : BudgetResource) → demand q xs ≤ counter q l.reserved)
    → Moves l (commit_all xs l) (λ q. demand q xs) (λ q. demand q xs)
unfolding commit_all
commit_all-Moves [] l c w a k d = Moves-refl l
commit_all-Moves (x ∷ xs) l c w a k d =
    let r = x.resource in
    let n = x.amount in
    let le : n ≤ counter r l.reserved = ground (arith, d r, same_resource_refl r) in
    let one = commit-Moves l r n n c w k.0 le (omega arith) a in
    let rest =
      commit_all-Moves xs (commit r n n l) (rw one.config c)
        (Moves-IsWithin one (λ q. share_mono q r _ _ (omega arith)) w) (Moves-IsAccounted one a) k.1
        (λ q. omega (arith, d q, one.reserved q)) in
    Moves-trans one rest (λ q. refl) (λ q. refl)
