-- ===== src/Audit/Journal/Laws.antt =====
-- src/audit.rs: the laws of one append to `AuditJournal`.
use tsumugi.Base.{
  ℕ, ◌+◌, ◌≤◌, ◌<◌, ◌≡◌, ◌⊎◌, inl, inr, refl, true, false, not, arith, u64_max, ok, err,
  Result-cases, if◌then◌else◌,
}
use tsumugi.Audit.Event.{AuditEnvelope, estimate_encoded_bytes}
use tsumugi.Audit.Journal.{
  AuditBudget, AuditFailure, AuditJournal, validate, open_journal, append_normal, append_terminal,
  is_terminal, is_started_event, normal_event_limit, normal_byte_limit,
}

abbrev pub closed : AuditJournal → ℕ
closed j = if j.terminated then 1 else 0

-- A normal event that the journal takes: it comes in turn, Started first and only once, before the
-- terminal event, and it fits beside what is there without the terminal's share.
pub record IsAdmitted (e : AuditEnvelope) (j : AuditJournal) : Type 0 where
  pub still_open : j.terminated ≡ false
  pub normal : is_terminal e.event ≡ false
  pub in_turn : e.sequence ≡ j.next_sequence
  pub ordered : is_started_event e.event ≡ not j.started
  pub first : j.started ≡ false → j.next_sequence ≡ 0
  pub events_fit : j.committed_events + 1 ≤ normal_event_limit j
  pub bytes_fit : j.committed_bytes + estimate_encoded_bytes e ≤ normal_byte_limit j

-- The journal after it.
abbrev pub with_normal : AuditEnvelope → AuditJournal → AuditJournal
with_normal e j = record j {
  next_sequence = j.next_sequence + 1;
  committed_events = j.committed_events + 1;
  committed_bytes = j.committed_bytes + estimate_encoded_bytes e;
  started = true;
}

pub append_normal-admitted :
    (e : AuditEnvelope) (j : AuditJournal)
    → IsAdmitted e j
    → j.next_sequence < u64_max
    → j.budget.max_events ≤ u64_max
    → j.budget.max_encoded_bytes ≤ u64_max
    → append_normal e j ≡ (ok j.next_sequence, with_normal e j)
unfolding append_normal
append_normal-admitted e j a h w v = ground arith

pub append_normal-ok :
    (e : AuditEnvelope) (j : AuditJournal) (n : ℕ)
    → (append_normal e j).0 ≡ ok n
    → IsAdmitted e j × (append_normal e j ≡ (ok j.next_sequence, with_normal e j))
unfolding append_normal
append_normal-ok e j n h = ground arith

pub append_normal-err :
    (e : AuditEnvelope) (j : AuditJournal) (f : AuditFailure)
    → (append_normal e j).0 ≡ err f
    → (append_normal e j).1 ≡ j
unfolding append_normal
append_normal-err e j f h = ground arith

-- A normal event is taken exactly if it is admitted: it comes in turn, the start event first and
-- only once, before the terminal event, and it fits beside what is there without the terminal's
-- share. It is then counted with its bytes, and its number is the one whose turn it was. A refused
-- event leaves the journal as it was. The number of the journal is below the largest 64-bit
-- number, and its two limits are 64-bit numbers.
pub append_normal-exact :
    (e : AuditEnvelope) (j : AuditJournal)
    → j.next_sequence < u64_max
    → j.budget.max_events ≤ u64_max
    → j.budget.max_encoded_bytes ≤ u64_max
    → (IsAdmitted e j × (append_normal e j ≡ (ok j.next_sequence, with_normal e j)))
      ⊎ ((f : AuditFailure) × (append_normal e j ≡ (err f, j)) × (¬ IsAdmitted e j))
append_normal-exact e j h w v = elim (Result-cases (append_normal e j).0) [
  | inl (n, o) ↦ inl (append_normal-ok e j n o)
  | inr (f, o) ↦ inr (
    f,
    let k = append_normal-err e j f o in ground (arith, k),
    λ a. cc (append_normal-admitted e j a h w v, o),
  )
]

-- What holds of a journal between two calls.
pub record IsSound (j : AuditJournal) : Type 0 where
  pub valid : validate j.budget ≡ ok tt
  pub word : j.budget.max_events ≤ u64_max
  pub counted : j.next_sequence ≡ j.committed_events + closed j
  pub events : j.committed_events < j.budget.max_events
  pub bytes : j.committed_bytes ≤ normal_byte_limit j
  pub begun : j.started ≡ true → 0 < j.committed_events
  pub not_begun : j.started ≡ false → (j.committed_events ≡ 0) × (j.terminated ≡ false)

pub reserves :
    (b : AuditBudget) → validate b ≡ ok tt → (1 < b.max_events) × (b.terminal_reserve_events ≡ 1)
unfolding validate
reserves b v = ground arith

pub open_journal-IsSound :
    (b : AuditBudget) → validate b ≡ ok tt → b.max_events ≤ u64_max → IsSound (open_journal b)
unfolding open_journal
open_journal-IsSound b v w = record {
  valid = v;
  word = w;
  counted = refl;
  events = omega (arith, reserves b v);
  bytes = omega arith;
  begun = λ e. cc;
  not_begun = λ e. (refl, refl);
}

with_normal-IsSound :
    (e : AuditEnvelope) (j : AuditJournal) → IsSound j → IsAdmitted e j → IsSound (with_normal e j)
with_normal-IsSound e j s a = record {
  valid = s.valid;
  word = s.word;
  counted = ground (arith, s.counted, a.still_open);
  events = omega (arith, a.events_fit, reserves j.budget s.valid);
  bytes = a.bytes_fit;
  begun = λ _. omega arith;
  not_begun = λ e'. cc;
}

pub append_normal-IsSound :
    (e : AuditEnvelope) (j : AuditJournal) → IsSound j → IsSound (append_normal e j).1
append_normal-IsSound e j s = elim (Result-cases (append_normal e j).0) [
  | inl (n, h) ↦ let (a, eq) = append_normal-ok e j n h in rw eq (with_normal-IsSound e j s a)
  | inr (f, h) ↦ rw (append_normal-err e j f h) s
]

-- The journal after the terminal event.
abbrev pub with_terminal : AuditJournal → AuditJournal
with_terminal j = record j { next_sequence = j.next_sequence + 1; terminated = true }

-- The turn of the terminal event has come.
pub record IsClosing (e : AuditEnvelope) (j : AuditJournal) : Type 0 where
  pub last : is_terminal e.event ≡ true
  pub begun : j.started ≡ true
  pub still_open : j.terminated ≡ false
  pub in_turn : e.sequence ≡ j.next_sequence

pub append_terminal-granted :
    (e : AuditEnvelope) (j : AuditJournal)
    → IsClosing e j
    → j.next_sequence < u64_max
    → append_terminal e j ≡ (ok j.next_sequence, with_terminal j)
unfolding append_terminal
append_terminal-granted e j c h = ground arith

pub append_terminal-ok :
    (e : AuditEnvelope) (j : AuditJournal) (n : ℕ)
    → (append_terminal e j).0 ≡ ok n
    → IsClosing e j × (append_terminal e j ≡ (ok j.next_sequence, with_terminal j))
unfolding append_terminal
append_terminal-ok e j n h = ground arith

pub append_terminal-err :
    (e : AuditEnvelope) (j : AuditJournal) (f : AuditFailure)
    → (append_terminal e j).0 ≡ err f
    → (append_terminal e j).1 ≡ j
unfolding append_terminal
append_terminal-err e j f h = ground arith

pub next_sequence-lt :
    (j : AuditJournal) → IsSound j → j.terminated ≡ false → j.next_sequence < u64_max
next_sequence-lt j s o = ground (arith, s.counted, s.events, s.word)

-- A sound journal that has begun and is still open takes its terminal event.
pub append_terminal_open :
    (e : AuditEnvelope) (j : AuditJournal)
    → IsSound j
    → IsClosing e j
    → append_terminal e j ≡ (ok j.next_sequence, with_terminal j)
append_terminal_open e j s c = append_terminal-granted e j c (next_sequence-lt j s c.still_open)

pub append_terminal-IsSound :
    (e : AuditEnvelope) (j : AuditJournal) → IsSound j → IsSound (append_terminal e j).1
append_terminal-IsSound e j s = elim (Result-cases (append_terminal e j).0) [
  | inl (n, h) ↦
      let (c, eq) = append_terminal-ok e j n h in
      rw eq (record {
        valid = s.valid;
        word = s.word;
        counted = ground (arith, s.counted, c.still_open);
        events = s.events;
        bytes = s.bytes;
        begun = s.begun;
        not_begun = λ b. ground (arith, b, c.begun);
      })
  | inr (f, h) ↦ rw (append_terminal-err e j f h) s
]
