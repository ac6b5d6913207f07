-- ===== src/Budget/Charges/Kinds.antt =====
-- src/budget.rs: the kinds of charge, and what each asks of the ledger.
use tsumugi.Base.{
  ℕ, ◌≤◌, ◌<◌, ◌≡◌, ◌∙◌, refl, sym, ap, subst, false, List, [], ◌∷◌, arith, All, ltb, Bool-cases,
  inl, inr, ◌⊎◌, ok, err, Result, max, dec_le,
}
use tsumugi.Budget.Types.{
  BudgetPeaks, BudgetResource, BudgetUnit, ControlStop, CumulativeRequest, ExecutionPhase, priority,
}
use tsumugi.Budget.Resources.{same_resource}
use tsumugi.Budget.Ledger.{BudgetLedger, M, and_then, modify, reserve_all, check_cancel}
use tsumugi.Budget.Ledger.Reserve.{IsConfig, IsWithin, Fits, demand, Apart, Cumulative}
use tsumugi.Budget.Ledger.Atomic.{IsRunning}
use tsumugi.Budget.Ledger.Commit.{IsAccounted, commit_all}
use tsumugi.Budget.Charges.{
  req, charge_fuel, charge_string, charge_source, charge_import, charge_input, charge_output,
  charge_host_call_request, charge_host_response_bytes, note_string, note_source, per_item_stop,
  raise,
}
use tsumugi.Budget.Charges.Exact.{Spends, charge_all, charge_all-exact}

pub data Charge : Type 0 where
  fuel string_body source import input output host_request host_response : ℕ → Charge

-- The method that makes the charge.
pub run_charge : Charge → ExecutionPhase → M (Unit {0})
run_charge (fuel n) = charge_fuel n
run_charge (string_body n) = charge_string n
run_charge (source n) = charge_source n
run_charge (import n) = charge_import n
run_charge (input n) = charge_input n
run_charge (output n) = charge_output n
run_charge (host_request n) = charge_host_call_request n
run_charge (host_response n) = charge_host_response_bytes n

-- The amounts that a charge spends: an input is a host call whose response is its payload, an
-- output one whose request is.
abbrev pub requests : Charge → List CumulativeRequest
requests (fuel n) = req BudgetResource.fuel n ∷ []
requests (string_body n) =
    req BudgetResource.string_allocations 1 ∷ req BudgetResource.string_bytes n ∷ []
requests (source n) = req BudgetResource.source_count 1 ∷ req BudgetResource.source_bytes n ∷ []
requests (import n) = req BudgetResource.import_count 1 ∷ req BudgetResource.import_bytes n ∷ []
requests (input n) =
    req BudgetResource.input_calls 1
    ∷ req BudgetResource.input_bytes n
    ∷ req BudgetResource.host_calls 1
    ∷ req BudgetResource.host_response_bytes n
    ∷ req BudgetResource.host_call_bytes n
    ∷ []
requests (output n) =
    req BudgetResource.output_calls 1
    ∷ req BudgetResource.output_bytes n
    ∷ req BudgetResource.host_calls 1
    ∷ req BudgetResource.host_request_bytes n
    ∷ req BudgetResource.host_call_bytes n
    ∷ []
requests (host_request n) =
    req BudgetResource.host_calls 1
    ∷ req BudgetResource.host_request_bytes n
    ∷ req BudgetResource.host_call_bytes n
    ∷ []
requests (host_response n) =
    req BudgetResource.host_response_bytes n ∷ req BudgetResource.host_call_bytes n ∷ []

-- The size of one item, where it is limited by itself.
abbrev pub IsAllowed : Charge → BudgetLedger → Type 0
IsAllowed (string_body n) l = n ≤ l.config.max_single_string_bytes
IsAllowed (source n) l = n ≤ l.config.max_single_source_bytes
IsAllowed _ l = Unit {0}

-- The largest item so far.
abbrev pub peaks_after : Charge → BudgetPeaks → BudgetPeaks
peaks_after (string_body n) p = record p { single_string_bytes = max p.single_string_bytes n }
peaks_after (source n) p = record p { single_source_bytes = max p.single_source_bytes n }
peaks_after _ p = p

requests-Cumulative : (k : Charge) → Cumulative (requests k)
requests-Cumulative (fuel n) = (refl, tt)
requests-Cumulative (string_body n) = (refl, (refl, tt))
requests-Cumulative (source n) = (refl, (refl, tt))
requests-Cumulative (import n) = (refl, (refl, tt))
requests-Cumulative (input n) = (refl, (refl, (refl, (refl, (refl, tt)))))
requests-Cumulative (output n) = (refl, (refl, (refl, (refl, (refl, tt)))))
requests-Cumulative (host_request n) = (refl, (refl, (refl, tt)))
requests-Cumulative (host_response n) = (refl, (refl, tt))

requests-Apart : (k : Charge) → Apart (requests k)
unfolding same_resource priority
requests-Apart (fuel n) = ground arith
requests-Apart _ = ground arith

abbrev pub Outcome : (k : Charge) (p : ExecutionPhase) (l : BudgetLedger) → Type 0
Outcome k p l =
    ((run_charge k p l).0 ≡ ok tt)
      × IsRunning l
      × IsAllowed k l
      × All (Fits l) (requests k)
      × Spends l (run_charge k p l).1 (λ q. demand q (requests k))
      × ((run_charge k p l).1.peaks ≡ peaks_after k l.peaks)
    ⊎ ((e : ControlStop) × (run_charge k p l ≡ (err e, l))
        × (¬ (IsRunning l × IsAllowed k l × All (Fits l) (requests k))))

plain :
    (k : Charge) (p : ExecutionPhase) (l : BudgetLedger)
    → run_charge k p l ≡ charge_all (requests k) p l
    → IsAllowed k l
    → peaks_after k l.peaks ≡ l.peaks
    → IsConfig l.config
    → IsWithin l
    → IsAccounted l
    → Outcome k p l
plain k p l same ok_item same_peaks c w a =
    elim (charge_all-exact l p (requests k) c w a (requests-Cumulative k) (requests-Apart k)) [
      | inl (e, r, f, s, pk) ↦ rw same (inl (e, r, ok_item, f, s, pk ∙ sym same_peaks))
      | inr (x, e, no_) ↦ rw same (inr (x, e, λ g. no_ (g.0, g.2)))
    ]

-- A common charge that is followed by a note of the item's size.
module _ (k : Charge) (p : ExecutionPhase) (l : BudgetLedger) (note : BudgetLedger → BudgetLedger)
    (note_frame : (x : BudgetLedger) → note x ≡ record x { peaks = peaks_after k x.peaks })
    (c : IsConfig l.config) (w : IsWithin l) (a : IsAccounted l) where
  note-Spends :
      (x : BudgetLedger) (amount : BudgetResource → ℕ)
      → Spends l x amount
      → Spends l (note x) amount
  note-Spends x amount s =
      subst (λ y. Spends l y amount) (sym (note_frame x))
        (record {
          committed = s.committed;
          reserved = s.reserved;
          charged = s.charged;
          within = s.within;
          config = s.config;
          heap = s.heap;
          cancelled = s.cancelled;
          clock = s.clock;
        })

  noted :
      (x : Result (Unit {0}) ControlStop × BudgetLedger)
      → run_charge k p l ≡ and_then (charge_all (requests k) p l) (λ _. modify note)
      → charge_all (requests k) p l ≡ x
      → IsAllowed k l
      → Outcome k p l
  noted (ok t, l') same e item =
      elim (charge_all-exact l p (requests k) c w a (requests-Cumulative k) (requests-Apart k)) [
        | inl (g, r, f, s, pk) ↦
            rw (same, e)
              (inl (
                refl,
                r,
                item,
                f,
                note-Spends l' _ (rw e at s),
                ap (λ y. y.peaks) (note_frame l') ∙ ap (peaks_after k) (rw e at pk),
              ))
        | inr (x, g, no_) ↦ cc (e, g)
      ]
  noted (err b, l') same e item =
      elim (charge_all-exact l p (requests k) c w a (requests-Cumulative k) (requests-Apart k)) [
        | inl (g, r, f, s, pk) ↦ cc (e, g)
        | inr (x, g, no_) ↦ rw (same, g) (inr (x, refl, λ h. no_ (h.0, h.2)))
      ]

not_over : (limit n : ℕ) → n ≤ limit → ltb limit n ≡ false
not_over limit n h = ground arith

raise-max : (a b : ℕ) → raise a b ≡ max a b
unfolding raise
raise-max a b = ground arith

and_then_assoc :
    {A B C : Type 0} (r : Result A ControlStop × BudgetLedger) (f : A → M B) (g : B → M C)
    → and_then (and_then r f) g ≡ and_then r (λ a l. and_then (f a l) g)
and_then_assoc (ok a, l) f g = refl
and_then_assoc (err e, l) f g = refl

string_allowed :
    (n : ℕ) (p : ExecutionPhase) (l : BudgetLedger)
    → n ≤ l.config.max_single_string_bytes
    → charge_string n p l
      ≡ and_then (charge_all (requests (string_body n)) p l) (λ _. modify (note_string n))
unfolding charge_string charge_all commit_all
string_allowed n p l h = rw (not_over l.config.max_single_string_bytes n h) (
    sym (
      and_then_assoc (reserve_all (requests (string_body n)) p l)
        (λ _. modify (commit_all (requests (string_body n)))) (λ _. modify (note_string n))))

string_refused :
    (n : ℕ) (p : ExecutionPhase) (l : BudgetLedger)
    → l.config.max_single_string_bytes < n
    → (e : ControlStop) × (charge_string n p l ≡ (err e, l))
unfolding charge_string check_cancel
string_refused n p l h = elim (Bool-cases l.cancelled) [
  | inl e ↦ (ControlStop.cancelled, ground arith)
  | inr e ↦ (
    per_item_stop BudgetResource.single_string_bytes BudgetUnit.bytes
        l.config.max_single_string_bytes n p,
    ground arith,
  )
]

note_string-frame :
    (n : ℕ) (x : BudgetLedger)
    → note_string n x ≡ record x { peaks = peaks_after (string_body n) x.peaks }
unfolding note_string
note_string-frame n x = rw (raise-max x.peaks.single_string_bytes n) refl

source_allowed :
    (n : ℕ) (p : ExecutionPhase) (l : BudgetLedger)
    → n ≤ l.config.max_single_source_bytes
    → charge_source n p l
      ≡ and_then (charge_all (requests (source n)) p l) (λ _. modify (note_source n))
unfolding charge_source charge_all commit_all
source_allowed n p l h = rw (not_over l.config.max_single_source_bytes n h) (
    sym (
      and_then_assoc (reserve_all (requests (source n)) p l)
        (λ _. modify (commit_all (requests (source n)))) (λ _. modify (note_source n))))

source_refused :
    (n : ℕ) (p : ExecutionPhase) (l : BudgetLedger)
    → l.config.max_single_source_bytes < n
    → (e : ControlStop) × (charge_source n p l ≡ (err e, l))
unfolding charge_source check_cancel
source_refused n p l h = elim (Bool-cases l.cancelled) [
  | inl e ↦ (ControlStop.cancelled, ground arith)
  | inr e ↦ (
    per_item_stop BudgetResource.single_source_bytes BudgetUnit.bytes
        l.config.max_single_source_bytes n p,
    ground arith,
  )
]

note_source-frame :
    (n : ℕ) (x : BudgetLedger)
    → note_source n x ≡ record x { peaks = peaks_after (source n) x.peaks }
unfolding note_source
note_source-frame n x = rw (raise-max x.peaks.single_source_bytes n) refl

-- A charge of any kind has one of two outcomes, where the configuration's limits are values of
-- their machine types, the limits hold before, and the audit accumulator holds no more than was
-- committed. Either it is granted, the execution being neither cancelled nor past its deadline,
-- the single item being allowed and every request fitting; then exactly its requests are committed
-- and told to the audit accumulator, nothing stays reserved by it, and the peaks record the
-- largest item. Or it is refused with a stop reason, the ledger is the same as before, and one of
-- those conditions fails.
pub run_charge-exact :
    (k : Charge) (p : ExecutionPhase) (l : BudgetLedger)
    → IsConfig l.config
    → IsWithin l
    → IsAccounted l
    → Outcome k p l
unfolding run_charge charge_fuel charge_import charge_input charge_output charge_host_call_request
    charge_host_response_bytes charge_all commit_all
run_charge-exact (fuel n) p l c w a = plain (fuel n) p l refl tt refl c w a
run_charge-exact (import n) p l c w a = plain (import n) p l refl tt refl c w a
run_charge-exact (input n) p l c w a = plain (input n) p l refl tt refl c w a
run_charge-exact (output n) p l c w a = plain (output n) p l refl tt refl c w a
run_charge-exact (host_request n) p l c w a = plain (host_request n) p l refl tt refl c w a
run_charge-exact (host_response n) p l c w a = plain (host_response n) p l refl tt refl c w a
run_charge-exact (string_body n) p l c w a = elim (dec_le n l.config.max_single_string_bytes) [
  | yes h ↦
      noted (string_body n) p l (note_string n) (note_string-frame n) c w a _
        (string_allowed n p l h) refl h
  | no h ↦ let (e, eq) = string_refused n p l (omega arith) in inr (e, eq, λ g. h g.1)
]
run_charge-exact (source n) p l c w a = elim (dec_le n l.config.max_single_source_bytes) [
  | yes h ↦
      noted (source n) p l (note_source n) (note_source-frame n) c w a _ (source_allowed n p l h)
        refl h
  | no h ↦ let (e, eq) = source_refused n p l (omega arith) in inr (e, eq, λ g. h g.1)
]
