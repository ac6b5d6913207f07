-- ===== src/Env/Undo/Submission.antt =====
-- src/env.rs: what every operation leaves of a submission's start, and the rollback.
use tsumugi.Base.{
  ℕ, ◌-◌, ◌≤◌, ◌<◌, ◌≡◌, refl, ap, sym, subst, ◌∙◌, false, none, some, List, [], ◌∷◌, arith, ◌==◌,
  Bool-cases, Option-cases, Result-cases, ok, err, inl, inr,
}
use tsumugi.Audit.Payload.{Text}
use tsumugi.Budget.Types.{ControlStop}
use tsumugi.Env.{
  Env, SubmissionJournal, Grant, empty_journal, put_binding, holds_entry, holds_cell, write_cell,
  new_cell, journal_scope_entry, journal_cell, begin_submission, rollback_submission, set,
  set_shared, update, mutate, push_scope, pop_scope, truncate_scopes, push_call_frame,
  pop_call_frame, get_cell,
}
use tsumugi.Env.Operations.{
  Operation, sets, shares, updates, mutates, pushes, pops, enters, truncates, leaves, perform,
  perform_all, StaysAbove,
}
use tsumugi.Env.Undo.{logged_scope, logged_cell, apply_rev-depth, apply_rev-scopes, apply_rev-cells}
use tsumugi.Env.Undo.Rollback.{
  Tracks, put_binding-Tracks, write_cell-Tracks, new_cell-Tracks, scope_entry-cases, cell-cases,
}

-- Some journal knows how it was.
abbrev Known : {V : Type 0} → ℕ → ℕ → Env V → Env V → Type 0
Known {V} d m e0 e = (j : SubmissionJournal V) × Tracks d m e0 e j

module _ {V : Type 0} (d m : ℕ) (e0 : Env V) where
  set_shared-refused :
      (entry : Grant) (n : Text) (c : ℕ) (e : Env V) (stop : ControlStop)
      → (e.depth == 0) ≡ false
      → journal_scope_entry entry (e.depth - 1) n e ≡ (err stop, e)
      → (set_shared entry n c e).1 ≡ e
  unfolding set_shared
  set_shared-refused entry n c e stop z q = ground (arith, z, ap (λ p. p.0) q, ap (λ p. p.1) q)

  set_shared-granted :
      (entry : Grant) (n : Text) (c : ℕ) (e e' : Env V)
      → (e.depth == 0) ≡ false
      → journal_scope_entry entry (e.depth - 1) n e ≡ (ok tt, e')
      → (set_shared entry n c e).1
        ≡ (record e' { scopes = put_binding (e'.depth - 1) n (some c) e'.scopes })
  unfolding set_shared
  set_shared-granted entry n c e e' z q = ground (arith, z, ap (λ p. p.0) q, ap (λ p. p.1) q)

  mutate-refused :
      (entry : Grant) (c : ℕ) (v : V) (e : Env V) (stop : ControlStop)
      → journal_cell entry c e ≡ (err stop, e)
      → (mutate entry c v e).1 ≡ e
  unfolding mutate
  mutate-refused entry c v e stop q = ground (arith, ap (λ p. p.0) q, ap (λ p. p.1) q)

  mutate-granted :
      (entry : Grant) (c : ℕ) (v : V) (e e' : Env V)
      → journal_cell entry c e ≡ (ok tt, e')
      → (mutate entry c v e).1 ≡ write_cell c v e'
  unfolding mutate
  mutate-granted entry c v e e' q = ground (arith, ap (λ p. p.0) q, ap (λ p. p.1) q)

  set_shared-Known :
      (entry : Grant) (n : Text) (c : ℕ) (e : Env V)
      → Known d m e0 e
      → Known d m e0 (set_shared entry n c e).1
  unfolding set_shared
  set_shared-Known entry n c e (j, t) = elim (Bool-cases (e.depth == 0)) [
    | inl z ↦ rw z (j, t)
    | inr z ↦ elim (scope_entry-cases d m e0 e j t entry (e.depth - 1) n (ground (arith, z))) [
      | inl (stop, q) ↦ subst (Known d m e0) (sym (set_shared-refused entry n c e stop z q)) (j, t)
      | inr (j', q, t', known) ↦
          subst (Known d m e0)
            (sym (set_shared-granted entry n c e (record e { journal = some j' }) z q))
            (
              j',
              put_binding-Tracks d m e0 (record e { journal = some j' }) j' t' (e.depth - 1) n
                  (some c) known,
            )
    ]
  ]

  set-Known :
      (cell entry : Grant) (n : Text) (v : V) (e : Env V)
      → Known d m e0 e
      → Known d m e0 (set cell entry n v e).1
  unfolding set
  set-Known cell entry n v e (j, t) = elim (Bool-cases (e.depth == 0)) [
    | inl z ↦ rw z (j, t)
    | inr z ↦ elim (Result-cases cell) [
      | inl (u, q) ↦
          rw (z, q)
            (set_shared-Known entry n e.next_cell (new_cell v e)
              (j, new_cell-Tracks d m e0 e j t v))
      | inr (stop, q) ↦ rw (z, q) (j, t)
    ]
  ]

  mutate-Known :
      (entry : Grant) (c : ℕ) (v : V) (e : Env V)
      → Known d m e0 e
      → Known d m e0 (mutate entry c v e).1
  mutate-Known entry c v e (j, t) = elim (cell-cases d m e0 e j t entry c) [
    | inl (stop, q) ↦ subst (Known d m e0) (sym (mutate-refused entry c v e stop q)) (j, t)
    | inr (j', q, t', known) ↦
        subst (Known d m e0) (sym (mutate-granted entry c v e (record e { journal = some j' }) q))
          (j', write_cell-Tracks d m e0 (record e { journal = some j' }) j' t' c v known)
  ]

  update-mutate :
      (entry : Grant) (n : Text) (v : V) (e : Env V) (c : ℕ)
      → get_cell n e ≡ some c
      → (update entry n v e).1 ≡ (mutate entry c v e).1
  unfolding update
  update-mutate entry n v e c h = ground (arith, h, Result-cases (mutate entry c v e).0)

  update-unbound :
      (entry : Grant) (n : Text) (v : V) (e : Env V)
      → get_cell n e ≡ none
      → (update entry n v e).1 ≡ e
  unfolding update
  update-unbound entry n v e h = ground (arith, h)

  update-Known :
      (entry : Grant) (n : Text) (v : V) (e : Env V)
      → Known d m e0 e
      → Known d m e0 (update entry n v e).1
  update-Known entry n v e k = elim (Option-cases (get_cell n e)) [
    | inl q ↦ subst (Known d m e0) (sym (update-unbound entry n v e q)) k
    | inr (c, q) ↦
        subst (Known d m e0) (sym (update-mutate entry n v e c q)) (mutate-Known entry c v e k)
  ]

  -- Scopes are pushed above those that count, and taken from above.
  scopes_above :
      (e e' : Env V) (j : SubmissionJournal V)
      → Tracks d m e0 e j
      → d ≤ e'.depth
      → e'.journal ≡ e.journal
      → e'.cells ≡ e.cells
      → e'.next_cell ≡ e.next_cell
      → ((i : ℕ) (n : Text) → i < d → e'.scopes i n ≡ e.scopes i n)
      → Tracks d m e0 e' j
  scopes_above e e' j t deep a b c s = record {
    journal = a ∙ t.journal;
    deep = deep;
    grown = omega (arith, c, t.grown);
    entries = t.entries;
    cells_seen = t.cells_seen;
    scopes = λ i n h. rw (s i n h) (t.scopes i n h);
    cells = λ k h. rw b (t.cells k h);
  }

  push_scope-Known : (e : Env V) → Known d m e0 e → Known d m e0 (push_scope e)
  unfolding push_scope
  push_scope-Known e (j, t) = (
    j,
    scopes_above e (push_scope e) j t (omega (arith, t.deep)) refl refl refl
        (λ i n h. ground (arith, t.deep, h)),
  )

  perform-Known :
      (o : Operation V) (e : Env V)
      → d ≤ (perform o e).depth
      → Known d m e0 e
      → Known d m e0 (perform o e)
  unfolding perform pop_scope truncate_scopes push_call_frame push_scope pop_call_frame
  perform-Known (sets cell entry n v) e h k = set-Known cell entry n v e k
  perform-Known (shares entry n c) e h k = set_shared-Known entry n c e k
  perform-Known (updates entry n v) e h k = update-Known entry n v e k
  perform-Known (mutates entry c v) e h k = mutate-Known entry c v e k
  perform-Known pushes e h k = push_scope-Known e k
  perform-Known pops e h (j, t) =
      (j, scopes_above e (pop_scope e) j t h refl refl refl (λ i n b. refl))
  perform-Known enters e h (j, t) = (
    j,
    scopes_above e (push_call_frame e).1 j t h refl refl refl (λ i n b. ground (arith, t.deep, b)),
  )
  perform-Known (truncates len) e h (j, t) = (
    j,
    scopes_above e (truncate_scopes len e) j t h (ground arith) (ground arith) (ground arith)
        (λ i n b. ground arith),
  )
  perform-Known (leaves frame) e h (j, t) = (
    j,
    scopes_above e (pop_call_frame frame e) j t h (ground arith) (ground arith) (ground arith)
        (λ i n b. ground arith),
  )

  perform_all-Known :
      (os : List (Operation V)) (e : Env V)
      → StaysAbove d os e
      → Known d m e0 e
      → Known d m e0 (perform_all os e)
  unfolding perform_all
  perform_all-Known [] e s k = k
  perform_all-Known (o ∷ os) e s k =
      perform_all-Known os (perform o e) s.1 (perform-Known o e s.0 k)

begin-Known : {V : Type 0} (e : Env V) → Known e.depth e.next_cell e (begin_submission e)
unfolding begin_submission logged_scope logged_cell holds_entry holds_cell
begin-Known e = (
  empty_journal,
  record {
    journal = refl;
    deep = omega arith;
    grown = omega arith;
    entries = λ i n. refl;
    cells_seen = λ c. refl;
    scopes = λ i n h. refl;
    cells = λ c h. refl;
  },
)

rollback-Known :
    {V : Type 0} (d m : ℕ) (e0 e : Env V) (j : SubmissionJournal V)
    → Tracks d m e0 e j
    → ((i : ℕ) (n : Text) → i < d → (rollback_submission e).scopes i n ≡ e0.scopes i n)
      × ((c : ℕ) → c < m → (rollback_submission e).cells c ≡ e0.cells c)
      × (d ≤ (rollback_submission e).depth)
unfolding rollback_submission
rollback-Known d m e0 e j t =
    let log = j.undo_log in
    let e' = record e { journal = none } in
    rw t.journal (
      λ i n h. apply_rev-scopes log e' i n (omega (arith, t.deep)) ∙ t.scopes i n h,
      λ c h. apply_rev-cells log e' c ∙ t.cells c h,
      omega (arith, apply_rev-depth log e', t.deep),
    )

-- A submission that is begun, runs any sequence of bindings, updates, writes, scope changes and
-- calls, each charge of it granted or refused, and never leaves fewer scopes than it found, is
-- undone by its rollback: every binding of a scope that was there, and every cell that was there,
-- is as before, and the scopes that were there still are.
pub rollback_restores :
    {V : Type 0} (e : Env V) (os : List (Operation V))
    → StaysAbove e.depth os (begin_submission e)
    → ((i : ℕ) (n : Text)
        → i < e.depth
        → (rollback_submission (perform_all os (begin_submission e))).scopes i n ≡ e.scopes i n)
      × ((c : ℕ)
          → c < e.next_cell
          → (rollback_submission (perform_all os (begin_submission e))).cells c ≡ e.cells c)
      × (e.depth ≤ (rollback_submission (perform_all os (begin_submission e))).depth)
rollback_restores e os s =
    let (j, t) =
      perform_all-Known e.depth e.next_cell e os (begin_submission e) s (begin-Known e) in
    rollback-Known e.depth e.next_cell e (perform_all os (begin_submission e)) j t
