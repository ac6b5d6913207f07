-- ===== src/Budget/Charges/Session.antt =====
-- src/budget.rs, a whole execution: any sequence of charges, heap charges and releases, and drains of the audit
-- trail, while the environment cancels and lets time pass.
use tsumugi.Base.{
  ℕ, ◌+◌, ◌≤◌, ◌≡◌, ◌∙◌, refl, sym, ap, Bool, List, [], ◌∷◌, ◌++◌, Option, arith, inl, inr, u64_max,
  ltb, Bool-cases, subst, ◌-◌, ◌⊎◌,
}
use tsumugi.Budget.Types.{BudgetConfig, BudgetResource, ExecutionPhase, MonotonicClock}
use tsumugi.Budget.Counters.{counter}
use tsumugi.Budget.Counters.Laws.{word_max-le}
use tsumugi.Budget.Heap
use tsumugi.Budget.Heap.Laws.{IsBounded, charge-IsBounded, charge-limit}
use mathlib.Core.List.{append-nil, append_assoc}
use tsumugi.Audit.Event.{AuditEvent}
use tsumugi.Audit.Accumulator.{flush}
use tsumugi.Audit.Accumulator.Conserve.{
  charged, events_charge, events_charge-append, charged-note_release, charged-flush,
}
use tsumugi.Budget.Ledger.{BudgetLedger, new, check_cancel, check_deadline, charge_reason_for}
use tsumugi.Budget.Ledger.Reserve.{IsConfig, IsWithin, demand}
use tsumugi.Budget.Ledger.Commit.{IsAccounted}
use tsumugi.Budget.Charges.{
  check_collection_elements, note_collection_elements, charge_heap, release_heap,
  drain_budget_charges,
}
use tsumugi.Budget.Charges.Exact.{Spends}
use tsumugi.Budget.Charges.Kinds.{Charge, run_charge, run_charge-exact, requests}

pub data Operation : Type 0 where
  charges : Charge → ExecutionPhase → Operation
  checks_elements : ℕ → ExecutionPhase → Operation
  notes_elements : ℕ → Operation
  charges_heap : ℕ → ExecutionPhase → Operation
  releases_heap : ℕ → Operation
  drains : Operation
  -- The token and the clock as the environment leaves them.
  environment : Bool → Option MonotonicClock → Operation

-- The audit events that leave the ledger, and the ledger after the operation.
pub step : Operation → BudgetLedger → List AuditEvent × BudgetLedger
step (charges k p) l = ([], (run_charge k p l).1)
step (checks_elements n p) l = ([], (check_collection_elements n p l).1)
step (notes_elements n) l = ([], note_collection_elements n l)
step (charges_heap n p) l = ([], (charge_heap n p l).1)
step (releases_heap n) l = ([], release_heap n l)
step drains l = drain_budget_charges l
step (environment cancelled clock) l = ([], record l { cancelled = cancelled; clock = clock })

pub run : List Operation → BudgetLedger → List AuditEvent × BudgetLedger
run [] l = ([], l)
run (o ∷ os) l = let (es, l') = step o l in let (fs, l'') = run os l' in (es ++ fs, l'')

-- `sent` are the events that have left so far.
pub record IsSound (config : BudgetConfig) (sent : List AuditEvent) (l : BudgetLedger)
    : Type 0 where
  pub same_config : l.config ≡ config
  pub within : IsWithin l
  pub nothing_held : (q : BudgetResource) → counter q l.reserved ≡ 0
  pub audited :
      (q : BudgetResource) → events_charge q sent + charged q l.accumulator ≡ counter q l.committed
  pub heap_limit : l.heap.limit ≡ config.max_live_heap_bytes
  pub heap_live : l.heap.live_bytes ≤ l.heap.limit
  pub heap_peak : l.heap.live_bytes ≤ l.heap.peak_bytes

pub new-IsSound : (c : BudgetConfig) (b : Bool) → IsSound c [] (new c b)
unfolding new counter
new-IsSound c b = record {
  same_config = refl;
  within = zeros;
  nothing_held = zero_counter;
  audited = zero_charged;
  heap_limit = refl;
  heap_live = omega arith;
  heap_peak = omega arith;
}
  where
    zero_counter : (q : BudgetResource) → counter q (new c b).reserved ≡ 0
    zero_counter q = ground arith

    zeros : IsWithin (new c b)
    zeros q = ground arith

    zero_charged :
        (q : BudgetResource)
        → events_charge q [] + charged q (new c b).accumulator ≡ counter q (new c b).committed
    zero_charged q = ground arith

module _ (c : BudgetConfig) (words : IsConfig c) (sent : List AuditEvent) (l : BudgetLedger)
    (s : IsSound c sent l) where
  words' : IsConfig l.config
  words' = rw s.same_config words

  accounted : IsAccounted l
  accounted q = omega (arith, s.audited q)

  spent-IsSound :
      (k : Charge) (p : ExecutionPhase)
      → Spends l (run_charge k p l).1 (λ q. demand q (requests k))
      → IsSound c sent (run_charge k p l).1
  spent-IsSound k p m = record {
    same_config = m.config ∙ s.same_config;
    within = m.within;
    nothing_held = λ q. m.reserved q ∙ s.nothing_held q;
    audited = λ q. omega (arith, s.audited q, m.committed q, m.charged q);
    heap_limit = ap (λ x. x.limit) m.heap ∙ s.heap_limit;
    heap_live = rw m.heap s.heap_live;
    heap_peak = rw m.heap s.heap_peak;
  }

  charges-IsSound : (k : Charge) (p : ExecutionPhase) → IsSound c sent (run_charge k p l).1
  charges-IsSound k p = elim (run_charge-exact k p l words' s.within accounted) [
    | inl (e, r, i, f, m, pk) ↦ spent-IsSound k p m
    | inr (e, h, no_) ↦ rw h s
  ]

  -- A change of the peaks alone.
  peaks-IsSound : (l' : BudgetLedger) → l' ≡ record l { peaks = l'.peaks } → IsSound c sent l'
  peaks-IsSound l' e = subst (IsSound c sent) (sym e) (record {
    same_config = s.same_config;
    within = s.within;
    nothing_held = s.nothing_held;
    audited = s.audited;
    heap_limit = s.heap_limit;
    heap_live = s.heap_live;
    heap_peak = s.heap_peak;
  })

  elements-IsSound :
      (n : ℕ) (p : ExecutionPhase) → IsSound c sent (check_collection_elements n p l).1
  unfolding check_collection_elements check_cancel
  elements-IsSound n p = peaks-IsSound _ (ground arith)

  notes-IsSound : (n : ℕ) → IsSound c sent (note_collection_elements n l)
  unfolding note_collection_elements
  notes-IsSound n = peaks-IsSound _ (ground arith)

  -- A change of the heap alone.
  heap_only-IsSound :
      (l' : BudgetLedger)
      → l' ≡ record l { heap = l'.heap }
      → l'.heap.limit ≡ l.heap.limit
      → IsBounded l'.heap
      → IsSound c sent l'
  heap_only-IsSound l' e lim b = record {
    same_config = ap (λ x. x.config) e ∙ s.same_config;
    within = subst IsWithin (sym e) s.within;
    nothing_held = λ q. ap (λ x. counter q x.reserved) e ∙ s.nothing_held q;
    audited = λ q. omega (
      arith,
      s.audited q,
      ap (λ x. counter q x.committed) e,
      ap (λ x. charged q x.accumulator) e,
    );
    heap_limit = lim ∙ s.heap_limit;
    heap_live = b.live;
    heap_peak = b.peak;
  }

  heap_step :
      (n : ℕ) (p : ExecutionPhase)
      → ((charge_heap n p l).1 ≡ l)
        ⊎ ((charge_heap n p l).1 ≡ record l { heap = (Heap.charge n p l.heap).1 })
  unfolding charge_heap check_cancel check_deadline
  heap_step n p = ground arith

  heap-IsSound : (n : ℕ) (p : ExecutionPhase) → IsSound c sent (charge_heap n p l).1
  heap-IsSound n p = elim (heap_step n p) [
    | inl e ↦ rw e s
    | inr e ↦ rw e (
        heap_only-IsSound _ refl (charge-limit n p l.heap)
          (charge-IsBounded n p l.heap (record { live = s.heap_live; peak = s.heap_peak })))
  ]

  release-IsSound : (n : ℕ) → IsSound c sent (release_heap n l)
  unfolding release_heap Heap.release
  release-IsSound n = elim (Bool-cases (ltb 0 n)) [
    | inl e ↦ rw e (record {
      same_config = s.same_config;
      within = s.within;
      nothing_held = s.nothing_held;
      audited = λ q. omega (
        arith,
        s.audited q,
        charged-note_release q BudgetResource.heap_bytes
            (charge_reason_for BudgetResource.heap_bytes) n (l.heap.live_bytes - n)
            l.heap.peak_bytes l.accumulator heap_small,
      );
      heap_limit = s.heap_limit;
      heap_live = omega (arith, s.heap_live);
      heap_peak = omega (arith, s.heap_peak);
    })
    | inr e ↦ rw e (
        heap_only-IsSound _ refl refl
          (record { live = omega (arith, s.heap_live); peak = omega (arith, s.heap_peak) }))
  ]
    where
      heap_small : charged BudgetResource.heap_bytes l.accumulator ≤ u64_max
      heap_small = omega (
        arith,
        accounted BudgetResource.heap_bytes,
        s.within BudgetResource.heap_bytes,
        words' BudgetResource.heap_bytes,
        word_max-le BudgetResource.heap_bytes,
      )

  drain-IsSound : IsSound c (sent ++ (drain_budget_charges l).0) (drain_budget_charges l).1
  unfolding drain_budget_charges
  drain-IsSound = record {
    same_config = s.same_config;
    within = s.within;
    nothing_held = s.nothing_held;
    audited = λ q. omega (
      arith,
      s.audited q,
      charged-flush q l.accumulator,
      events_charge-append q sent (flush l.accumulator).0,
    );
    heap_limit = s.heap_limit;
    heap_live = s.heap_live;
    heap_peak = s.heap_peak;
  }

step-IsSound :
    (c : BudgetConfig) (words : IsConfig c) (sent : List AuditEvent) (o : Operation)
    (l : BudgetLedger)
    → IsSound c sent l
    → IsSound c (sent ++ (step o l).0) (step o l).1
unfolding step
step-IsSound c words sent (charges k p) l s =
    rw (append-nil sent) (charges-IsSound c words sent l s k p)
step-IsSound c words sent (checks_elements n p) l s =
    rw (append-nil sent) (elements-IsSound c words sent l s n p)
step-IsSound c words sent (notes_elements n) l s =
    rw (append-nil sent) (notes-IsSound c words sent l s n)
step-IsSound c words sent (charges_heap n p) l s =
    rw (append-nil sent) (heap-IsSound c words sent l s n p)
step-IsSound c words sent (releases_heap n) l s =
    rw (append-nil sent) (release-IsSound c words sent l s n)
step-IsSound c words sent drains l s = drain-IsSound c words sent l s
step-IsSound c words sent (environment b clock) l s = rw (append-nil sent) (record {
  same_config = s.same_config;
  within = s.within;
  nothing_held = s.nothing_held;
  audited = s.audited;
  heap_limit = s.heap_limit;
  heap_live = s.heap_live;
  heap_peak = s.heap_peak;
})

run-IsSound_from :
    (c : BudgetConfig) (words : IsConfig c) (sent : List AuditEvent) (os : List Operation)
    (l : BudgetLedger)
    → IsSound c sent l
    → IsSound c (sent ++ (run os l).0) (run os l).1
unfolding run
run-IsSound_from c words sent [] l s = rw (append-nil sent) s
run-IsSound_from c words sent (o ∷ os) l s =
    rw (← append_assoc sent (step o l).0 (run os (step o l).1).0) (
      run-IsSound_from c words (sent ++ (step o l).0) os (step o l).1
        (step-IsSound c words sent o l s))

-- A new ledger runs any sequence of operations: charges of every kind, checks and notes of
-- collection sizes, heap charges and releases, drains of the audit events, and changes of the
-- cancellation token and the clock. If every limit of the configuration is a value of its field's
-- machine type, then afterwards no cumulative limit is passed, no reservation is left behind, the
-- live heap is within its limit, and for every resource the events that have left together with
-- those still held add up to the committed amount.
pub run-IsSound :
    (c : BudgetConfig) (b : Bool) (os : List Operation)
    → IsConfig c
    → IsSound c (run os (new c b)).0 (run os (new c b)).1
run-IsSound c b os words = run-IsSound_from c words [] os (new c b) (new-IsSound c b)
