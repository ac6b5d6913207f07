-- ===== src/Audit/Journal.antt =====
-- src/audit.rs §10.1 and §11: the audit budget and the bounded journal of one execution.
pub mod Laws
pub mod Trail
use tsumugi.Base.{
  ℕ, ◌+◌, ◌-◌, ◌*◌, Bool, true, false, not, ◌&&◌, ◌||◌, Option, none, some, leb, ltb, ◌==◌,
  if◌then◌else◌, checked_add, saturating_add, Result, ok, err,
}
use tsumugi.Audit.Event.{
  AuditEnvelope, AuditEvent, execution_started, terminal, estimate_encoded_bytes,
}

abbrev pub kib : ℕ
kib = 1024

abbrev pub mib : ℕ
mib = 1048576

pub record AuditBudget : Type 0 where
  pub max_events : ℕ
  pub max_encoded_bytes : ℕ
  pub max_pending_bytes : ℕ
  pub terminal_reserve_events : ℕ
  pub terminal_reserve_bytes : ℕ
  pub host_call_close_reserve_events : ℕ
  pub host_call_close_reserve_bytes : ℕ

-- `AuditBudget::default()`
abbrev pub default_budget : AuditBudget
default_budget = record {
  max_events = 100000;
  max_encoded_bytes = 16 * mib;
  max_pending_bytes = mib;
  terminal_reserve_events = 1;
  terminal_reserve_bytes = 64 * kib;
  host_call_close_reserve_events = 2;
  host_call_close_reserve_bytes = 128 * kib;
}

pub data AuditConfigError : Type 0 where
  max_events_too_small terminal_reserve_events_not_one : ℕ → AuditConfigError
  terminal_reserve_bytes_too_small host_call_close_reserve_events_not_two : ℕ → AuditConfigError
  host_call_close_reserve_bytes_too_small : ℕ → AuditConfigError

unfoldable pub validate : AuditBudget → Result (Unit {0}) AuditConfigError
validate b =
    if ltb b.max_events 2
    then err (max_events_too_small b.max_events)
    else (if not (b.terminal_reserve_events == 1)
        then err (terminal_reserve_events_not_one b.terminal_reserve_events)
        else (if ltb b.terminal_reserve_bytes (64 * kib)
            then err (terminal_reserve_bytes_too_small b.terminal_reserve_bytes)
            else (if not (b.host_call_close_reserve_events == 2)
                then err (host_call_close_reserve_events_not_two b.host_call_close_reserve_events)
                else (if ltb b.host_call_close_reserve_bytes (128 * kib)
                    then err
                        (host_call_close_reserve_bytes_too_small b.host_call_close_reserve_bytes)
                    else ok tt))))

pub data AuditFailure : Type 0 where
  sequence_exhausted budget_exceeded event_too_large sink invariant_violation : AuditFailure
  backpressure_deadline : AuditFailure

pub record AuditJournal : Type 0 where
  pub budget : AuditBudget
  pub next_sequence : ℕ
  pub committed_events : ℕ
  pub committed_bytes : ℕ
  pub started : Bool
  pub terminated : Bool

-- `open`
unfoldable pub open_journal : AuditBudget → AuditJournal
open_journal budget = record {
  budget = budget;
  next_sequence = 0;
  committed_events = 0;
  committed_bytes = 0;
  started = false;
  terminated = false;
}

-- The error leaves `next_sequence` as it was.
unfoldable pub take_sequence : AuditJournal → Result ℕ AuditFailure × AuditJournal
take_sequence j = elim (checked_add j.next_sequence 1) [
  | none ↦ (err sequence_exhausted, j)
  | some next ↦ (ok j.next_sequence, record j { next_sequence = next })
]

abbrev pub is_terminal : AuditEvent → Bool
is_terminal (terminal _ _ _ _ _ _) = true
is_terminal _ = false

abbrev pub is_started_event : AuditEvent → Bool
is_started_event (execution_started _ _ _ _ _ _ _ _) = true
is_started_event _ = false

-- What the normal events may use: the terminal's share is kept back.
abbrev pub normal_event_limit : AuditJournal → ℕ
normal_event_limit j = j.budget.max_events - j.budget.terminal_reserve_events

abbrev pub normal_byte_limit : AuditJournal → ℕ
normal_byte_limit j = j.budget.max_encoded_bytes - j.budget.terminal_reserve_bytes

-- The commit of a normal event that passed the checks.
commit_normal : Bool → ℕ → ℕ → AuditJournal → Result ℕ AuditFailure × AuditJournal
unfolding take_sequence
commit_normal is_started events bytes j =
    let (taken, j') = take_sequence j in
    elim taken [
      | err e ↦ (err e, j')
      | ok seq ↦ (
        ok seq,
        record j' {
          committed_events = events;
          committed_bytes = bytes;
          started = is_started || j'.started;
        },
      )
    ]

-- The checks of the event's size and of the two sums.
reserve_normal : Bool → ℕ → AuditJournal → Result ℕ AuditFailure × AuditJournal
unfolding commit_normal
reserve_normal is_started event_bytes j =
    if ltb (normal_byte_limit j) event_bytes
    then (err event_too_large, j)
    else elim (checked_add j.committed_events 1) [
      | none ↦ (err budget_exceeded, j)
      | some events ↦
          if ltb (normal_event_limit j) events
          then (err budget_exceeded, j)
          else elim (checked_add j.committed_bytes event_bytes) [
            | none ↦ (err budget_exceeded, j)
            | some bytes ↦
                if ltb (normal_byte_limit j) bytes
                then (err budget_exceeded, j)
                else commit_normal is_started events bytes j
          ]
    ]

-- Started comes first and once; every other event comes after it.
in_order : Bool → AuditJournal → Bool
in_order true j = not (j.started || not (j.next_sequence == 0))
in_order false j = j.started

unfoldable pub append_normal : AuditEnvelope → AuditJournal → Result ℕ AuditFailure × AuditJournal
unfolding in_order reserve_normal
append_normal envelope j =
    if j.terminated
    then (err budget_exceeded, j)
    else (if is_terminal envelope.event
        then (err invariant_violation, j)
        else (if not (envelope.sequence == j.next_sequence)
            then (err invariant_violation, j)
            else (if not (in_order (is_started_event envelope.event) j)
                then (err budget_exceeded, j)
                else reserve_normal (is_started_event envelope.event)
                    (estimate_encoded_bytes envelope) j)))

abbrev pub host_call_started_max_bytes : ℕ
host_call_started_max_bytes = 60 * kib

unfoldable pub can_reserve_host_call : AuditJournal → Bool
can_reserve_host_call j =
    let needed_events = saturating_add j.budget.host_call_close_reserve_events 1 in
    let needed_bytes =
      saturating_add j.budget.host_call_close_reserve_bytes host_call_started_max_bytes in
    if j.terminated
    then false
    else (if ltb (normal_event_limit j) (saturating_add j.committed_events needed_events)
        then false
        else (if ltb (normal_byte_limit j) (saturating_add j.committed_bytes needed_bytes)
            then false
            else true))

-- Nothing follows the terminal event.
close_journal : Result ℕ AuditFailure × AuditJournal → Result ℕ AuditFailure × AuditJournal
close_journal (ok seq, j) = (ok seq, record j { terminated = true })
close_journal (err e, j) = (err e, j)

unfoldable pub append_terminal : AuditEnvelope → AuditJournal → Result ℕ AuditFailure × AuditJournal
unfolding take_sequence close_journal
append_terminal envelope j =
    if not (is_terminal envelope.event)
    then (err invariant_violation, j)
    else (if not j.started
        then (err budget_exceeded, j)
        else (if j.terminated
            then (err budget_exceeded, j)
            else (if not (envelope.sequence == j.next_sequence)
                then (err invariant_violation, j)
                else close_journal (take_sequence j))))
