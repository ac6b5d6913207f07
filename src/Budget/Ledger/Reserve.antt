-- ===== src/Budget/Ledger/Reserve.antt =====
-- src/budget.rs, `reserve_one` and the search of `reserve_all`: which requests fit, which excess is reported, and what a reservation changes.
use tsumugi.Base.{
  ℕ, ◌+◌, ◌≤◌, ◌≡◌, ◌↔◌, ◌⊎◌, inl, inr, refl, true, false, List, [], ◌∷◌, Option, none, some, arith,
  All, u64_max, Result, ok, err, Bool-cases, Result-cases, ltb, ltb→lt,
}
use mathlib.Core.List.{Memᴰ}
use tsumugi.Budget.Types.{
  BudgetConfig, BudgetExceeded, BudgetResource, CumulativeRequest, ExecutionPhase, priority,
}
use tsumugi.Budget.Resources.{same_resource}
use tsumugi.Budget.Counters.{counter}
use tsumugi.Budget.Counters.Laws.{is_cumulative, word_max, share}
use tsumugi.Budget.Ledger.{BudgetLedger, limit_of, reserve_one, replace_worst, worst_of}

-- Every limit is a value of its field's machine type.
abbrev pub IsConfig : BudgetConfig → Type 0
IsConfig c = (r : BudgetResource) → limit_of r c ≤ word_max r

-- What is used and held stays within the limit, for every resource.
abbrev pub IsWithin : BudgetLedger → Type 0
IsWithin l =
    (r : BudgetResource) → counter r l.committed + counter r l.reserved ≤ limit_of r l.config

-- The request fits beside what is used and held.
abbrev pub Fits : BudgetLedger → CumulativeRequest → Type 0
Fits l x =
    counter x.resource l.committed + counter x.resource l.reserved + x.amount
    ≤ limit_of x.resource l.config

-- The amount that a list of requests asks of one resource.
abbrev pub demand : BudgetResource → List CumulativeRequest → ℕ
demand q [] = 0
demand q (x ∷ xs) = share q x.resource x.amount + demand q xs

-- No resource is named twice.
abbrev pub Apart : List CumulativeRequest → Type 0
Apart [] = Unit {0}
Apart (x ∷ xs) = All (λ y. same_resource y.resource x.resource ≡ false) xs × Apart xs

abbrev pub Cumulative : List CumulativeRequest → Type 0
Cumulative = All λ x. is_cumulative x.resource ≡ true

-- A single reservation is granted exactly if it fits; the checked sums do not get in the way.
pub reserve_one_iff :
    (l : BudgetLedger) (x : CumulativeRequest) (p : ExecutionPhase)
    → limit_of x.resource l.config ≤ u64_max
    → (reserve_one l x p ≡ ok tt) ↔ Fits l x
unfolding reserve_one
reserve_one_iff l x p h = (λ e. ground arith, λ f. ground arith)

-- The excess that a refused request reports.
pub reserve_one-resource :
    (l : BudgetLedger) (x : CumulativeRequest) (p : ExecutionPhase) (e : BudgetExceeded)
    → reserve_one l x p ≡ err e
    → e.resource ≡ x.resource
unfolding reserve_one
reserve_one-resource l x p e h = ground arith

-- One step of the search: the candidate after it is no worse than the one before and than `e`.
replace_worst-some :
    (w : BudgetExceeded) (r : Result (Unit {0}) BudgetExceeded)
    → (v : BudgetExceeded) × (replace_worst (some w) r ≡ some v)
      × (priority v.resource ≤ priority w.resource)
unfolding replace_worst
replace_worst-some w (ok t) = (w, refl, omega arith)
replace_worst-some w (err e) = elim (Bool-cases (ltb (priority e.resource) (priority w.resource))) [
  | inl h ↦ (e, rw h refl, omega (arith, ltb→lt _ _ h))
  | inr h ↦ (w, rw h refl, omega arith)
]

replace_worst-err :
    (w : Option BudgetExceeded) (e : BudgetExceeded)
    → (v : BudgetExceeded) × (replace_worst w (err e) ≡ some v)
      × (priority v.resource ≤ priority e.resource)
      × ((v ≡ e) ⊎ (w ≡ some v))
unfolding replace_worst
replace_worst-err none e = (e, refl, omega arith, inl refl)
replace_worst-err (some w) e = elim (Bool-cases (ltb (priority e.resource) (priority w.resource))) [
  | inl h ↦ (e, rw h refl, omega arith, inl refl)
  | inr h ↦ (w, rw h refl, ground arith, inr refl)
]

module _ (l : BudgetLedger) (p : ExecutionPhase) where
  worst_of-some :
      (w : BudgetExceeded) (xs : List CumulativeRequest)
      → (v : BudgetExceeded) × (worst_of l p (some w) xs ≡ some v)
        × (priority v.resource ≤ priority w.resource)
  unfolding worst_of
  worst_of-some w [] = (w, refl, omega arith)
  worst_of-some w (x ∷ xs) =
      let (u, e, le) = replace_worst-some w (reserve_one l x p) in
      let (v, e', le') = worst_of-some u xs in (v, rw e e', omega arith)

  -- No excess is found exactly if every request is granted.
  pub worst_of-none :
      (xs : List CumulativeRequest)
      → (worst_of l p none xs ≡ none) ↔ All (λ x. reserve_one l x p ≡ ok tt) xs
  unfolding worst_of replace_worst
  worst_of-none [] = (λ h. tt, λ h. refl)
  worst_of-none (x ∷ xs) = elim (Result-cases (reserve_one l x p)) [
    | inl (t, e) ↦
        rw (e, replace_worst) (λ h. (refl, (worst_of-none xs).0 h), λ h. (worst_of-none xs).1 h.1)
    | inr (b, e) ↦ let (v, f, le) = worst_of-some b xs in rw (e, replace_worst) (λ h. cc, λ h. cc)
  ]

  -- A candidate after one request is the one before it, or the excess of that request.
  source_step :
      (w : Option BudgetExceeded) (x : CumulativeRequest) (e : BudgetExceeded)
      → replace_worst w (reserve_one l x p) ≡ some e
      → (w ≡ some e) ⊎ (reserve_one l x p ≡ err e)
  unfolding replace_worst
  source_step w x e h = elim (Result-cases (reserve_one l x p)) [
    | inl (t, r) ↦ inl (rw (r, replace_worst) at h)
    | inr (o, r) ↦
        let (v, eq, le, from) = replace_worst-err w o in
        elim from [ inl a ↦ inr (ground arith) | inr b ↦ inl (ground arith) ]
  ]

  -- The excess found is that of a request of the list, or the one that the search began with.
  pub worst_of-source :
      (w : Option BudgetExceeded) (xs : List CumulativeRequest) (e : BudgetExceeded)
      → worst_of l p w xs ≡ some e
      → (w ≡ some e) ⊎ ((x : CumulativeRequest) × Memᴰ x xs × (reserve_one l x p ≡ err e))
  unfolding worst_of
  worst_of-source w [] e h = inl h
  worst_of-source w (x ∷ xs) e h =
      elim (worst_of-source (replace_worst w (reserve_one l x p)) xs e h) [
        | inl a ↦ elim (source_step w x e a) [ inl b ↦ inl b | inr r ↦ inr (x, Memᴰ.head refl, r) ]
        | inr (y, m, r) ↦ inr (y, Memᴰ.tail m, r)
      ]

  first_step :
      (w : Option BudgetExceeded) (x : CumulativeRequest) (xs : List CumulativeRequest)
      (e o : BudgetExceeded)
      → worst_of l p (replace_worst w (reserve_one l x p)) xs ≡ some e
      → reserve_one l x p ≡ err o
      → priority e.resource ≤ priority o.resource
  first_step w x xs e o h r =
      let (v, eq, le, from) = replace_worst-err w o in
      let (u, e', le') = worst_of-some v xs in
      let h' : worst_of l p (some v) xs ≡ some e = rw (r, eq) at h in ground arith

  -- It is of no lower priority than any other excess of the list.
  pub worst_of-first :
      (w : Option BudgetExceeded) (xs : List CumulativeRequest) (e : BudgetExceeded)
      → worst_of l p w xs ≡ some e
      → All
          (λ x.
            (o : BudgetExceeded)
            → reserve_one l x p ≡ err o
            → priority e.resource ≤ priority o.resource)
          xs
  unfolding worst_of
  worst_of-first w [] e h = tt
  worst_of-first w (x ∷ xs) e h = (
    λ o r. first_step w x xs e o h r,
    worst_of-first (replace_worst w (reserve_one l x p)) xs e h,
  )
