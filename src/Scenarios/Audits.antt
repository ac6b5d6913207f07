-- ===== src/Scenarios/Audits.antt =====
-- A small journal of src/audit.rs under the theorems on appends and trails.
use tsumugi.Base.{
  ℕ, ◌+◌, ◌≤◌, ◌≡◌, ◌⊎◌, refl, [], ◌∷◌, none, arith, ok, err, true, false, length, pos,
}
use tsumugi.Scenarios.Budgets.{config}
use tsumugi.Budget.Types.{BudgetUsage, default_counters, default_peaks}
use tsumugi.Audit.Event.{
  AuditEnvelope, AuditEvent, AuditYieldReason, TerminalOutcome, execution_started, Backend,
  ExecutionMode, yielded, terminal, estimate_encoded_bytes, estimate_envelope_overhead_bytes,
  estimate_event_bytes,
}
use tsumugi.Audit.Journal.{
  AuditJournal, AuditFailure, default_budget, validate, open_journal, append_normal,
  append_terminal, can_reserve_host_call, host_call_started_max_bytes,
}
use tsumugi.Audit.Journal.Laws.{
  IsClosing, IsSound, IsAdmitted, with_normal, with_terminal, append_normal-exact,
}
use tsumugi.Audit.Journal.Trail.{
  append, append_terminal_always, normally, finally, run, IsTrail, run-IsTrail, run-max_events,
  can_reserve_host_call_lem,
}

abbrev no_usage : BudgetUsage
no_usage = record {
  committed = default_counters;
  reserved = default_counters;
  live_heap_bytes = 0;
  reserved_heap_bytes = 0;
  peak_heap_bytes = 0;
  peaks = default_peaks;
}

abbrev envelope : ℕ → AuditEvent → AuditEnvelope
envelope n e = record {
  schema_version = 1;
  execution_id = 0;
  source_hash = [];
  language_revision = [];
  sequence = n;
  timestamp = record { unix_nanoseconds = pos 0 };
  event = e;
}

abbrev plain : ℕ → AuditEnvelope
plain n = envelope n (yielded AuditYieldReason.explicit_yield 0 no_usage)

abbrev ending : ℕ → AuditEnvelope
ending n = envelope n (terminal TerminalOutcome.completed none no_usage none true false)

-- Started, with one event in it.
abbrev begun_journal : AuditJournal
begun_journal = record (open_journal default_budget) {
  next_sequence = 1;
  committed_events = 1;
  committed_bytes = 500;
  started = true;
}

default-valid : validate default_budget ≡ ok tt
unfolding validate
default-valid = refl

begun-IsSound : IsSound begun_journal
unfolding open_journal
begun-IsSound = record {
  valid = default-valid;
  word = omega arith;
  counted = refl;
  events = omega arith;
  bytes = omega arith;
  begun = λ e. omega arith;
  not_begun = λ e. cc;
}

append_normal-exact_example :
    (IsAdmitted (plain 1) begun_journal
      × (append_normal (plain 1) begun_journal
          ≡ (ok begun_journal.next_sequence, with_normal (plain 1) begun_journal)))
    ⊎ ((f : AuditFailure) × (append_normal (plain 1) begun_journal ≡ (err f, begun_journal))
        × (¬ IsAdmitted (plain 1) begun_journal))
unfolding open_journal
append_normal-exact_example =
    append_normal-exact (plain 1) begun_journal (omega arith) (omega arith) (omega arith)

-- A start event, and a journal that has taken it.
abbrev starting : AuditEnvelope
starting = envelope 0 (execution_started [] Backend.tree_walk 1 1 config [] [] ExecutionMode.live)

starting-IsClosing :
    IsClosing (ending 1) (run (normally starting ∷ []) (open_journal default_budget)).1
unfolding run append append_normal open_journal estimate_encoded_bytes
    estimate_envelope_overhead_bytes estimate_event_bytes
starting-IsClosing = record { last = refl; begun = refl; still_open = refl; in_turn = refl }

append_terminal_always_example :
    append_terminal (ending 1) (run (normally starting ∷ []) (open_journal default_budget)).1 ≡ (
      ok (run (normally starting ∷ []) (open_journal default_budget)).1.next_sequence,
      with_terminal (run (normally starting ∷ []) (open_journal default_budget)).1,
    )
append_terminal_always_example =
    append_terminal_always default_budget (normally starting ∷ []) (ending 1) default-valid
      (omega arith) starting-IsClosing

run-IsTrail_example :
    IsTrail 0 (run (normally starting ∷ finally (ending 1) ∷ []) (open_journal default_budget)).0
run-IsTrail_example =
    run-IsTrail default_budget (normally starting ∷ finally (ending 1) ∷ []) default-valid
      (omega arith)

run-max_events_example :
    length (run (normally starting ∷ finally (ending 1) ∷ []) (open_journal default_budget)).0
    ≤ default_budget.max_events
run-max_events_example =
    run-max_events default_budget (normally starting ∷ finally (ending 1) ∷ []) default-valid
      (omega arith)

room_left : can_reserve_host_call begun_journal ≡ true
unfolding can_reserve_host_call open_journal
room_left = refl

plain_sizes :
    estimate_encoded_bytes (plain 1)
      + estimate_encoded_bytes (plain 2)
      + estimate_encoded_bytes (plain 3)
    ≤ begun_journal.budget.host_call_close_reserve_bytes + host_call_started_max_bytes
unfolding open_journal estimate_encoded_bytes estimate_envelope_overhead_bytes estimate_event_bytes
plain_sizes = omega arith

can_reserve_host_call_example :
    (run (normally (plain 1) ∷ normally (plain 2) ∷ normally (plain 3) ∷ []) begun_journal).0
    ≡ plain 1 ∷ plain 2 ∷ plain 3 ∷ []
unfolding open_journal
can_reserve_host_call_example =
    can_reserve_host_call_lem begun_journal (plain 1) (plain 2) (plain 3) begun-IsSound
      (omega arith) refl room_left (refl, refl, refl) (refl, refl, refl) (refl, refl, refl)
      plain_sizes
