-- ===== src/Audit/Journal/Trail.antt =====
-- src/audit.rs, the trail of an execution: what the journal accepts out of any calls, in order.
use tsumugi.Base.{
  ℕ, suc, ◌+◌, ◌≤◌, ◌≡◌, inl, inr, refl, ◌∙◌, true, false, List, [], ◌∷◌, arith, ok, err, Result,
  Result-cases, length, ◌==◌, u64_max, Bool-cases, subst,
}
use tsumugi.Audit.Event.{AuditEnvelope, estimate_encoded_bytes}
use tsumugi.Audit.Journal.{
  AuditBudget, AuditFailure, AuditJournal, validate, open_journal, append_normal, append_terminal,
  budget_exceeded, can_reserve_host_call, host_call_started_max_bytes, normal_event_limit,
  is_terminal, is_started_event, normal_byte_limit,
}
use tsumugi.Audit.Journal.Laws.{
  IsSound, IsAdmitted, open_journal-IsSound, append_normal-admitted, next_sequence-lt,
  append_normal-ok, append_normal-err, append_normal-IsSound, append_terminal-ok,
  append_terminal-err, append_terminal_open, IsClosing, append_terminal-IsSound, with_normal,
  with_terminal,
}

pub data Append : Type 0 where
  normally finally : AuditEnvelope → Append

abbrev pub envelope : Append → AuditEnvelope
envelope (normally e) = e
envelope (finally e) = e

unfoldable pub append : Append → AuditJournal → Result ℕ AuditFailure × AuditJournal
append (normally e) = append_normal e
append (finally e) = append_terminal e

-- Keep the envelope if it was accepted.
abbrev pub keep : Result ℕ AuditFailure → AuditEnvelope → List AuditEnvelope → List AuditEnvelope
keep (ok n) e es = e ∷ es
keep (err f) e es = es

unfoldable pub run : List Append → AuditJournal → List AuditEnvelope × AuditJournal
run [] j = ([], j)
run (a ∷ as_) j =
    let (taken, j') = append a j in let (es, j'') = run as_ j' in (keep taken (envelope a) es, j'')

-- A trail from sequence number `n` on: no gap and no repetition, the start event at 0 and nowhere
-- else, and nothing after the terminal event.
abbrev pub IsTrail : ℕ → List AuditEnvelope → Type 0
IsTrail n [] = Unit {0}
IsTrail n (e ∷ es) =
    (e.sequence ≡ n)
    × (is_started_event e.event ≡ n == 0)
    × (is_terminal e.event ≡ true → es ≡ [])
    × IsTrail (suc n) es

-- After the terminal event every call is refused.
refused_normal :
    (e : AuditEnvelope) (j : AuditJournal)
    → j.terminated ≡ true
    → append_normal e j ≡ (err budget_exceeded, j)
unfolding append_normal
refused_normal e j t = ground arith

refused_terminal :
    (e : AuditEnvelope) (j : AuditJournal)
    → j.terminated ≡ true
    → (f : AuditFailure) × (append_terminal e j ≡ (err f, j))
refused_terminal e j t = elim (Result-cases (append_terminal e j).0) [
  | inl (n, h) ↦ let (a, eq) = append_terminal-ok e j n h in cc (a.still_open)
  | inr (f, h) ↦ (f, ground (arith, append_terminal-err e j f h))
]

run_terminated : (as_ : List Append) (j : AuditJournal) → j.terminated ≡ true → run as_ j ≡ ([], j)
unfolding run append
run_terminated [] j t = refl
run_terminated (normally e ∷ as_) j t = rw (refused_normal e j t) (run_terminated as_ j t)
run_terminated (finally e ∷ as_) j t =
    let (f, h) = refused_terminal e j t in rw h (run_terminated as_ j t)

started_in_turn :
    (e : AuditEnvelope) (j : AuditJournal)
    → IsSound j
    → IsAdmitted e j
    → is_started_event e.event ≡ j.next_sequence == 0
started_in_turn e j s a = elim (Bool-cases j.started) [
  | inl b ↦ ground (arith, a.ordered, s.begun b, s.counted)
  | inr b ↦ ground (arith, a.ordered, a.first b)
]

not_started : (e : AuditEnvelope) → is_terminal e.event ≡ true → is_started_event e.event ≡ false
not_started e h = ground arith

next-IsTrail : (n : ℕ) (es : List AuditEnvelope) → IsTrail (n + 1) es → IsTrail (suc n) es
next-IsTrail n es t = subst (λ k. IsTrail k es) (omega arith) t

run-IsTrail_from :
    (as_ : List Append) (j : AuditJournal) → IsSound j → IsTrail j.next_sequence (run as_ j).0
unfolding run append
run-IsTrail_from [] j s = tt
run-IsTrail_from (normally e ∷ as_) j s = elim (Result-cases (append_normal e j).0) [
  | inl (n, h) ↦
      let (a, eq) = append_normal-ok e j n h in
      let s' : IsSound (with_normal e j) = rw eq at (append_normal-IsSound e j s) in
      let later = run-IsTrail_from as_ (with_normal e j) s' in
      rw eq (
        a.in_turn,
        started_in_turn e j s a,
        λ t. cc (t, a.normal),
        next-IsTrail j.next_sequence (run as_ (with_normal e j)).0 later,
      )
  | inr (f, h) ↦ rw (h, append_normal-err e j f h) (run-IsTrail_from as_ j s)
]
run-IsTrail_from (finally e ∷ as_) j s = elim (Result-cases (append_terminal e j).0) [
  | inl (n, h) ↦
      let (a, eq) = append_terminal-ok e j n h in
      let none_after = run_terminated as_ (with_terminal j) refl in
      rw (eq, none_after)
        (a.in_turn, ground (arith, not_started e a.last, s.begun a.begun, s.counted), λ t. refl, tt)
  | inr (f, h) ↦ rw (h, append_terminal-err e j f h) (run-IsTrail_from as_ j s)
]

-- Whatever sequence of normal and terminal appends is made on a journal that was opened with a
-- valid budget (of a machine-sized event limit), the accepted envelopes are numbered from 0
-- without a gap or a repetition, the start event is at number 0 and nowhere else, and nothing
-- follows a terminal event.
pub run-IsTrail :
    (b : AuditBudget) (as_ : List Append)
    → validate b ≡ ok tt
    → b.max_events ≤ u64_max
    → IsTrail 0 (run as_ (open_journal b)).0
unfolding open_journal
run-IsTrail b as_ v w = run-IsTrail_from as_ (open_journal b) (open_journal-IsSound b v w)

accepted_count :
    (as_ : List Append) (j : AuditJournal)
    → (run as_ j).1.next_sequence ≡ j.next_sequence + length (run as_ j).0
unfolding run append
accepted_count [] j = omega arith
accepted_count (normally e ∷ as_) j = elim (Result-cases (append_normal e j).0) [
  | inl (n, h) ↦
      let (a, eq) = append_normal-ok e j n h in
      rw eq (omega (arith, accepted_count as_ (with_normal e j)))
  | inr (f, h) ↦ rw (h, append_normal-err e j f h) (accepted_count as_ j)
]
accepted_count (finally e ∷ as_) j = elim (Result-cases (append_terminal e j).0) [
  | inl (n, h) ↦
      let (a, eq) = append_terminal-ok e j n h in
      rw eq (omega (arith, accepted_count as_ (with_terminal j)))
  | inr (f, h) ↦ rw (h, append_terminal-err e j f h) (accepted_count as_ j)
]

appends-IsSound : (as_ : List Append) (j : AuditJournal) → IsSound j → IsSound (run as_ j).1
unfolding run append
appends-IsSound [] j s = s
appends-IsSound (normally e ∷ as_) j s =
    appends-IsSound as_ (append_normal e j).1 (append_normal-IsSound e j s)
appends-IsSound (finally e ∷ as_) j s =
    appends-IsSound as_ (append_terminal e j).1 (append_terminal-IsSound e j s)

run-budget : (as_ : List Append) (j : AuditJournal) → (run as_ j).1.budget ≡ j.budget
unfolding run append
run-budget [] j = refl
run-budget (normally e ∷ as_) j = run-budget as_ (append_normal e j).1 ∙ normal_budget
  where
    normal_budget : (append_normal e j).1.budget ≡ j.budget
    normal_budget = elim (Result-cases (append_normal e j).0) [
      | inl (n, h) ↦ let (a, eq) = append_normal-ok e j n h in rw eq refl
      | inr (f, h) ↦ rw (append_normal-err e j f h) refl
    ]
run-budget (finally e ∷ as_) j = run-budget as_ (append_terminal e j).1 ∙ terminal_budget
  where
    terminal_budget : (append_terminal e j).1.budget ≡ j.budget
    terminal_budget = elim (Result-cases (append_terminal e j).0) [
      | inl (n, h) ↦ let (a, eq) = append_terminal-ok e j n h in rw eq refl
      | inr (f, h) ↦ rw (append_terminal-err e j f h) refl
    ]

-- Whatever appends were made on a journal that was opened with a valid budget (of a machine-sized
-- event limit), it takes a terminal event that comes in turn, after the start event and before any
-- other terminal event: neither the event count nor the bytes nor the sequence numbers can have
-- run out. The journal is closed by it.
pub append_terminal_always :
    (b : AuditBudget) (as_ : List Append) (e : AuditEnvelope)
    → validate b ≡ ok tt
    → b.max_events ≤ u64_max
    → IsClosing e (run as_ (open_journal b)).1
    → append_terminal e (run as_ (open_journal b)).1
      ≡ (ok (run as_ (open_journal b)).1.next_sequence, with_terminal (run as_ (open_journal b)).1)
append_terminal_always b as_ e v w c =
    let j = open_journal b in
    append_terminal_open e (run as_ j).1 (appends-IsSound as_ j (open_journal-IsSound b v w)) c

-- Whatever appends are made on a journal that was opened with a valid budget (of a machine-sized
-- event limit), no more than `max_events` envelopes are accepted, the terminal one included.
pub run-max_events :
    (b : AuditBudget) (as_ : List Append)
    → validate b ≡ ok tt
    → b.max_events ≤ u64_max
    → length (run as_ (open_journal b)).0 ≤ b.max_events
unfolding open_journal
run-max_events b as_ v w =
    let j = open_journal b in
    let s = appends-IsSound as_ j (open_journal-IsSound b v w) in
    ground (arith, s.counted, s.events, accepted_count as_ j, run-budget as_ j)

-- A plain event of the trail: neither its start nor its end.
abbrev pub IsPlain : AuditEnvelope → ℕ → Type 0
IsPlain e n = (e.sequence ≡ n) × (is_started_event e.event ≡ false) × (is_terminal e.event ≡ false)

plain-admitted :
    (e : AuditEnvelope) (j : AuditJournal)
    → IsSound j
    → j.terminated ≡ false
    → j.started ≡ true
    → IsPlain e j.next_sequence
    → j.committed_events + 1 ≤ normal_event_limit j
    → j.committed_bytes + estimate_encoded_bytes e ≤ normal_byte_limit j
    → j.budget.max_encoded_bytes ≤ u64_max
    → append_normal e j ≡ (ok j.next_sequence, with_normal e j)
plain-admitted e j s o b q ev by w =
    append_normal-admitted e j
      (record {
        still_open = o;
        normal = q.2;
        in_turn = q.0;
        ordered = ground (arith, q.1, b);
        first = λ f. cc;
        events_fit = ev;
        bytes_fit = by;
      })
      (next_sequence-lt j s o) s.word w

room :
    (j : AuditJournal)
    → can_reserve_host_call j ≡ true
    → validate j.budget ≡ ok tt
    → j.budget.max_events ≤ u64_max
    → j.budget.max_encoded_bytes ≤ u64_max
    → (j.terminated ≡ false)
      × (j.committed_events + 3 ≤ normal_event_limit j)
      × (j.committed_bytes + (j.budget.host_call_close_reserve_bytes + host_call_started_max_bytes)
          ≤ normal_byte_limit j)
unfolding can_reserve_host_call validate
room j h v w1 w2 = ground arith

-- When the journal, sound and begun, answers that a host call can be reserved, the next three
-- events are all accepted, if they come in turn, are neither start nor terminal events, and
-- together are no larger than the reservation assumes.
pub can_reserve_host_call_lem :
    (j : AuditJournal) (a b c : AuditEnvelope)
    → IsSound j
    → j.budget.max_encoded_bytes ≤ u64_max
    → j.started ≡ true
    → can_reserve_host_call j ≡ true
    → IsPlain a j.next_sequence
    → IsPlain b (j.next_sequence + 1)
    → IsPlain c (j.next_sequence + 1 + 1)
    → estimate_encoded_bytes a + estimate_encoded_bytes b + estimate_encoded_bytes c
      ≤ j.budget.host_call_close_reserve_bytes + host_call_started_max_bytes
    → (run (normally a ∷ normally b ∷ normally c ∷ []) j).0 ≡ a ∷ b ∷ c ∷ []
unfolding run append
can_reserve_host_call_lem j a b c s w st h pa pb pc size =
    let (o, ev, by) = room j h s.valid s.word w in
    let e1 = plain-admitted a j s o st pa (omega arith) (omega arith) w in
    let s1 : IsSound (with_normal a j) = rw e1 at (append_normal-IsSound a j s) in
    let e2 = plain-admitted b (with_normal a j) s1 o refl pb (omega arith) (omega arith) w in
    let s2 : IsSound (with_normal b (with_normal a j)) =
      rw e2 at (append_normal-IsSound b (with_normal a j) s1) in
    let e3 =
      plain-admitted c (with_normal b (with_normal a j)) s2 o refl pc (omega arith) (omega arith)
        w in
    rw (e1, e2, e3) refl
