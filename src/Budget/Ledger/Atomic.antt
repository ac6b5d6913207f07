-- ===== src/Budget/Ledger/Atomic.antt =====
-- src/budget.rs: the composite reservation `reserve_all`.
use mathlib.Core.List.{Memᴰ}
use tsumugi.Base.{
  ◌+◌, ◌≤◌, ◌<◌, ◌≡◌, ◌↔◌, ◌⊎◌, inl, inr, refl, true, false, List, [], ◌∷◌, none, some, arith, All,
  u64_max, ok, err, Bool-cases, Option-cases, Result-cases,
}
use tsumugi.Budget.Types.{
  BudgetExceeded, BudgetResource, ControlStop, CumulativeRequest, ExecutionPhase, MonotonicClock,
  budget_exceeded, priority,
}
use tsumugi.Budget.Resources.{same_resource, same_resource-eq, same_resource_refl}
use tsumugi.Budget.Counters.{counter, add_counter}
use tsumugi.Budget.Counters.Laws.{is_cumulative, word_max, word_max-le, counter-add_counter}
use tsumugi.Budget.Ledger.{
  BudgetLedger, limit_of, add_all, reserve_one, worst_of, settle_requests, reserve_all,
  check_cancel, check_deadline,
}
use tsumugi.Budget.Ledger.Reserve.{
  IsConfig, IsWithin, Fits, demand, Apart, Cumulative, reserve_one_iff, worst_of-none,
  worst_of-source, worst_of-first,
}

-- Neither cancelled nor at or past the deadline of the injected clock.
pub record IsRunning (l : BudgetLedger) : Type 0 where
  pub not_cancelled : l.cancelled ≡ false
  pub in_time : (c : MonotonicClock) → l.clock ≡ some c → c.now_ns < l.config.deadline.ns

All-map {ℓ κ ι} :
    {A : Type ℓ} {P : A → Type κ} {Q : A → Type ι} (f : (a : A) → P a → Q a) (xs : List A)
    → All P xs
    → All Q xs
All-map f [] h = tt
All-map f (x ∷ xs) h = (f x h.0, All-map f xs h.1)

module _ (l : BudgetLedger) (p : ExecutionPhase) (xs : List CumulativeRequest) where
  -- The checks before the requests are looked at.
  reserve_all-running : IsRunning l → reserve_all xs p l ≡ settle_requests xs p l
  unfolding reserve_all check_cancel check_deadline
  reserve_all-running r = elim (Option-cases l.clock) [
    | inl e ↦ ground arith
    | inr (c, e) ↦ ground (arith, r.in_time c e)
  ]

  settle_requests-worst : ((settle_requests xs p l).0 ≡ ok tt) ↔ (worst_of l p none xs ≡ none)
  unfolding settle_requests
  settle_requests-worst = (λ h. ground arith, λ h. ground arith)

  Fits-granted : IsConfig l.config → All (λ x. reserve_one l x p ≡ ok tt) xs ↔ All (Fits l) xs
  Fits-granted h = (
    All-map (λ x. (reserve_one_iff l x p (limit-le x)).0) xs,
    All-map (λ x. (reserve_one_iff l x p (limit-le x)).1) xs,
  )
    where
      limit-le : (x : CumulativeRequest) → limit_of x.resource l.config ≤ u64_max
      limit-le x = omega (arith, h x.resource, word_max-le x.resource)

  reserve_all-IsRunning : (reserve_all xs p l).0 ≡ ok tt → IsRunning l
  unfolding reserve_all check_cancel check_deadline
  reserve_all-IsRunning h = record { not_cancelled = ground arith; in_time = λ c e. ground arith }

  -- Where the limits are values of their machine types, a composite reservation is granted exactly
  -- if the execution is neither cancelled nor past its deadline and every request fits beside what
  -- is committed and reserved.
  pub reserve_all_iff :
      IsConfig l.config → ((reserve_all xs p l).0 ≡ ok tt) ↔ (IsRunning l × All (Fits l) xs)
  reserve_all_iff h = (
    λ e.
        let r = reserve_all-IsRunning e in
        (
          r,
          (Fits-granted h).0 (
              (worst_of-none l p xs).0 (settle_requests-worst.0 (rw (reserve_all-running r) at e))),
        ),
    λ f.
        rw (reserve_all-running f.0)
          (settle_requests-worst.1 ((worst_of-none l p xs).1 ((Fits-granted h).1 f.1))),
  )

  -- A refused reservation leaves the ledger as it was.
  pub reserve_all-atomic :
      (e : ControlStop) → (reserve_all xs p l).0 ≡ err e → (reserve_all xs p l).1 ≡ l
  unfolding reserve_all check_cancel check_deadline settle_requests
  reserve_all-atomic e h = ground arith

  worst-exceeded :
      (e : BudgetExceeded)
      → (reserve_all xs p l).0 ≡ err (budget_exceeded e)
      → worst_of l p none xs ≡ some e
  unfolding reserve_all check_cancel check_deadline settle_requests
  worst-exceeded e h = ground arith

  -- An excess that a composite reservation reports is the excess of one of its requests, and no
  -- request that would be refused has a resource of higher priority.
  pub reserve_all-primary :
      (e : BudgetExceeded)
      → (reserve_all xs p l).0 ≡ err (budget_exceeded e)
      → ((x : CumulativeRequest) × Memᴰ x xs × (reserve_one l x p ≡ err e))
        × All
            (λ x.
              (o : BudgetExceeded)
              → reserve_one l x p ≡ err o
              → priority e.resource ≤ priority o.resource)
            xs
  reserve_all-primary e h =
      let w = worst-exceeded e h in
      (
        elim (worst_of-source l p none xs e w) [ inl a ↦ cc | inr m ↦ m ],
        worst_of-first l p none xs e w,
      )

  -- A granted reservation is exactly the addition of its requests.
  pub reserve_all-add : (reserve_all xs p l).0 ≡ ok tt → (reserve_all xs p l).1 ≡ add_all xs l
  unfolding reserve_all check_cancel check_deadline settle_requests
  reserve_all-add h = ground arith

  -- The two outcomes in full.
  pub reserve_all-cases :
      (reserve_all xs p l ≡ (ok tt, add_all xs l))
      ⊎ ((e : ControlStop) × (reserve_all xs p l ≡ (err e, l)))
  unfolding reserve_all check_cancel check_deadline settle_requests
  reserve_all-cases = elim (Result-cases (reserve_all xs p l).0) [
    | inl (t, h) ↦ inl (ground arith)
    | inr (e, h) ↦ inr (e, ground arith)
  ]

-- A ledger that differs in the reservations only.
abbrev pub hold : BudgetLedger → CumulativeRequest → BudgetLedger
hold l x = record l { reserved = add_counter x.resource x.amount l.reserved }

hold-Fits :
    (l : BudgetLedger) (x : CumulativeRequest) (ys : List CumulativeRequest)
    → is_cumulative x.resource ≡ true
    → counter x.resource l.reserved + x.amount ≤ word_max x.resource
    → All (λ y. same_resource y.resource x.resource ≡ false) ys
    → All (Fits l) ys
    → All (Fits (hold l x)) ys
hold-Fits l x [] h le apart f = tt
hold-Fits l x (y ∷ ys) h le apart f =
    let e = counter-add_counter y.resource x.resource x.amount l.reserved h le in
    (ground (arith, e, apart.0, f.0), hold-Fits l x ys h le apart.1 f.1)

-- Adding requests changes the reservations only.
pub add_all-frame :
    (xs : List CumulativeRequest) (l : BudgetLedger)
    → add_all xs l ≡ record l { reserved = (add_all xs l).reserved }
unfolding add_all
add_all-frame [] l = refl
add_all-frame (x ∷ xs) l = add_all-frame xs (hold l x)

hold-le :
    (l : BudgetLedger) (x : CumulativeRequest)
    → IsConfig l.config
    → Fits l x
    → counter x.resource l.reserved + x.amount ≤ word_max x.resource
hold-le l x c f = omega (arith, c x.resource)

-- Each resource's reservation grows by what the requests ask of it.
pub add_all-reserved :
    (q : BudgetResource) (xs : List CumulativeRequest) (l : BudgetLedger)
    → IsConfig l.config
    → Cumulative xs
    → Apart xs
    → All (Fits l) xs
    → counter q (add_all xs l).reserved ≡ counter q l.reserved + demand q xs
unfolding add_all
add_all-reserved q [] l c k a f = omega arith
add_all-reserved q (x ∷ xs) l c k a f =
    let le = hold-le l x c f.0 in
    omega (
      arith,
      add_all-reserved q xs (hold l x) c k.1 a.1 (hold-Fits l x xs k.0 le a.0 f.1),
      counter-add_counter q x.resource x.amount l.reserved k.0 le,
    )

hold-IsWithin :
    (l : BudgetLedger) (x : CumulativeRequest)
    → IsConfig l.config
    → IsWithin l
    → is_cumulative x.resource ≡ true
    → Fits l x
    → IsWithin (hold l x)
hold-IsWithin l x c w k f q =
    let e = counter-add_counter q x.resource x.amount l.reserved k (hold-le l x c f) in
    elim (Bool-cases (same_resource q x.resource)) [
      | inl s ↦ ground (arith, e, same_resource-eq q x.resource s, f)
      | inr s ↦ ground (arith, e, w q)
    ]

add_all-IsWithin :
    (xs : List CumulativeRequest) (l : BudgetLedger)
    → IsConfig l.config
    → IsWithin l
    → Cumulative xs
    → Apart xs
    → All (Fits l) xs
    → IsWithin (add_all xs l)
unfolding add_all
add_all-IsWithin [] l c w k a f = w
add_all-IsWithin (x ∷ xs) l c w k a f =
    add_all-IsWithin xs (hold l x) c (hold-IsWithin l x c w k.0 f.0) k.1 a.1
      (hold-Fits l x xs k.0 (hold-le l x c f.0) a.0 f.1)

-- A reservation of cumulative resources, none named twice, keeps committed plus reserved within
-- the limit for every resource, where it was so before and the limits are values of their machine
-- types.
pub reserve_all-IsWithin :
    (l : BudgetLedger) (p : ExecutionPhase) (xs : List CumulativeRequest)
    → IsConfig l.config
    → Cumulative xs
    → Apart xs
    → IsWithin l
    → IsWithin (reserve_all xs p l).1
reserve_all-IsWithin l p xs c k a w = elim (Result-cases (reserve_all xs p l).0) [
  | inl (t, e) ↦
      rw (reserve_all-add l p xs e)
        (add_all-IsWithin xs l c w k a ((reserve_all_iff l p xs c).0 e).1)
  | inr (e, h) ↦ rw (reserve_all-atomic l p xs e h) w
]

-- A running ledger grants a reservation that names one cumulative resource twice with the same
-- amount whenever the amount fits once, and if it does not fit twice the reservation passes the
-- limit. The limits are values of their machine types, and the counter does not overflow.
pub reserve_all-duplicate :
    (l : BudgetLedger) (p : ExecutionPhase) (x : CumulativeRequest)
    → IsConfig l.config
    → IsRunning l
    → is_cumulative x.resource ≡ true
    → Fits l x
    → limit_of x.resource l.config
      < counter x.resource l.committed + counter x.resource l.reserved + x.amount + x.amount
    → counter x.resource l.reserved + x.amount + x.amount ≤ word_max x.resource
    → ((reserve_all (x ∷ x ∷ []) p l).0 ≡ ok tt) × (¬ IsWithin (reserve_all (x ∷ x ∷ []) p l).1)
unfolding add_all
reserve_all-duplicate l p x c r k f over le =
    let granted = (reserve_all_iff l p (x ∷ x ∷ []) c).1 (r, (f, (f, tt))) in
    let once = counter-add_counter x.resource x.resource x.amount l.reserved k (omega arith) in
    let same = same_resource_refl x.resource in
    let le' : counter x.resource (hold l x).reserved + x.amount ≤ word_max x.resource =
      ground (arith, once, same) in
    let twice = counter-add_counter x.resource x.resource x.amount (hold l x).reserved k le' in
    (
      granted,
      rw (reserve_all-add l p (x ∷ x ∷ []) granted)
          λ w. ground (arith, w x.resource, once, twice, same),
    )
