-- ===== src/Env/Undo/Rollback.antt =====
-- src/env.rs: a submission, from `begin_submission` over any operations to `rollback_submission`.
use tsumugi.Base.{
  ℕ, ◌≤◌, ◌<◌, ◌≡◌, refl, sym, subst, Bool, true, false, Option, none, some, arith, Bool-cases,
  Result-cases, ok, err, inl, inr, ◌⊎◌,
}
use tsumugi.Audit.Payload.{Text}
use tsumugi.Budget.Types.{ControlStop}
use tsumugi.Env.{
  Env, SubmissionJournal, Grant, same_key, put_binding, holds_entry, holds_cell, write_cell,
  new_cell, note_entry, note_cell, original_of, journal_scope_entry, journal_cell,
}
use tsumugi.Env.Undo.{
  logged_scope, logged_cell, or_else, logged_scope-append, logged_scope-append_cell,
  logged_cell-append, logged_cell-append_scope, same_key-eq, same_key_refl,
}

abbrev pub is_some : {A : Type 0} → Option A → Bool
is_some none = false
is_some (some a) = true

-- The journal `j` knows how the scopes below `d` and the cells below `m` were in `e0`.
pub record Tracks {V : Type 0} (d m : ℕ) (e0 e : Env V) (j : SubmissionJournal V) : Type 0 where
  pub journal : e.journal ≡ some j
  pub deep : d ≤ e.depth
  pub grown : m ≤ e.next_cell
  pub entries :
      (i : ℕ) (n : Text)
      → holds_entry i n j.seen_scope_entries ≡ is_some (logged_scope j.undo_log i n)
  pub cells_seen : (c : ℕ) → holds_cell c j.seen_cells ≡ is_some (logged_cell j.undo_log c)
  pub scopes :
      (i : ℕ) (n : Text)
      → i < d
      → or_else (logged_scope j.undo_log i n) (e.scopes i n) ≡ e0.scopes i n
  pub cells : (c : ℕ) → c < m → or_else (logged_cell j.undo_log c) (e.cells c) ≡ e0.cells c

module _ {V : Type 0} (d m : ℕ) (e0 e : Env V) (j : SubmissionJournal V)
    (t : Tracks d m e0 e j) where
  note_entry-Tracks :
      (i : ℕ) (n : Text)
      → i < e.depth
      → holds_entry i n j.seen_scope_entries ≡ false
      → Tracks d m e0
          (record e { journal = some (note_entry i n (original_of i n e) j) })
          (note_entry i n (original_of i n e) j)
  unfolding holds_entry original_of
  note_entry-Tracks i n h u = record {
    journal = refl;
    deep = t.deep;
    grown = t.grown;
    entries = λ k l.
        ground (arith, t.entries k l, logged_scope-append j.undo_log k i l n (original_of i n e));
    cells_seen = λ c.
        ground
          (arith, t.cells_seen c, logged_cell-append_scope j.undo_log c i n (original_of i n e));
    scopes = λ k l b. elim (Bool-cases (same_key k l i n)) [
      | inl same ↦
          let (x, y) = same_key-eq k i l n same in
          ground (
            arith,
            x,
            y,
            same,
            t.scopes k l b,
            t.entries k l,
            logged_scope-append j.undo_log k i l n (original_of i n e),
          )
      | inr other ↦
          ground (
            arith,
            other,
            t.scopes k l b,
            logged_scope-append j.undo_log k i l n (original_of i n e),
          )
    ];
    cells = λ c b.
        ground (arith, t.cells c b, logged_cell-append_scope j.undo_log c i n (original_of i n e));
  }

  note_cell-Tracks :
      (c : ℕ)
      → holds_cell c j.seen_cells ≡ false
      → Tracks d m e0
          (record e { journal = some (note_cell c (e.cells c) j) })
          (note_cell c (e.cells c) j)
  unfolding holds_cell
  note_cell-Tracks c u = record {
    journal = refl;
    deep = t.deep;
    grown = t.grown;
    entries =
        λ k l. ground (arith, t.entries k l, logged_scope-append_cell j.undo_log k c l (e.cells c));
    cells_seen = λ k. ground (arith, t.cells_seen k, logged_cell-append j.undo_log k c (e.cells c));
    scopes = λ k l b.
        ground (arith, t.scopes k l b, logged_scope-append_cell j.undo_log k c l (e.cells c));
    cells = λ k b.
        ground (arith, t.cells k b, t.cells_seen k, logged_cell-append j.undo_log k c (e.cells c));
  }

  -- A write where the journal knows the old binding, or where it need not.
  pub put_binding-Tracks :
      (i : ℕ) (n : Text) (o : Option ℕ)
      → is_some (logged_scope j.undo_log i n) ≡ true
      → Tracks d m e0 (record e { scopes = put_binding i n o e.scopes }) j
  unfolding put_binding
  put_binding-Tracks i n o known = record {
    journal = t.journal;
    deep = t.deep;
    grown = t.grown;
    entries = t.entries;
    cells_seen = t.cells_seen;
    scopes = λ k l b. elim (Bool-cases (same_key k l i n)) [
      | inl same ↦
          let (x, y) = same_key-eq k i l n same in ground (arith, x, y, known, t.scopes k l b)
      | inr other ↦ ground (arith, other, t.scopes k l b)
    ];
    cells = t.cells;
  }

  pub write_cell-Tracks :
      (c : ℕ) (v : V)
      → is_some (logged_cell j.undo_log c) ≡ true
      → Tracks d m e0 (write_cell c v e) j
  unfolding write_cell
  write_cell-Tracks c v known = record {
    journal = t.journal;
    deep = t.deep;
    grown = t.grown;
    entries = t.entries;
    cells_seen = t.cells_seen;
    scopes = t.scopes;
    cells = λ k b. ground (arith, known, t.cells k b);
  }

  pub new_cell-Tracks : (v : V) → Tracks d m e0 (new_cell v e) j
  unfolding new_cell
  new_cell-Tracks v = record {
    journal = t.journal;
    deep = t.deep;
    grown = omega (arith, t.grown);
    entries = t.entries;
    cells_seen = t.cells_seen;
    scopes = t.scopes;
    cells = λ k b. ground (arith, t.cells k b, t.grown);
  }

  -- The journaling of a binding: it is refused, or the old binding is known from then on.
  pub scope_entry-cases :
      (grant : Grant) (i : ℕ) (n : Text)
      → i < e.depth
      → ((stop : ControlStop) × (journal_scope_entry grant i n e ≡ (err stop, e)))
        ⊎ ((j' : SubmissionJournal V) × (journal_scope_entry grant i n e
              ≡ (ok tt, record e { journal = some j' }))
            × Tracks d m e0 (record e { journal = some j' }) j'
            × (is_some (logged_scope j'.undo_log i n) ≡ true))
  unfolding journal_scope_entry
  scope_entry-cases grant i n h = elim (Bool-cases (holds_entry i n j.seen_scope_entries)) [
    | inl seen ↦
        let same : record e { journal = some j } ≡ e = ground (arith, t.journal) in
        inr (
          j,
          ground (arith, t.journal, seen),
          subst (λ x. Tracks d m e0 x j) (sym same) t,
          ground (arith, t.entries i n, seen),
        )
    | inr unseen ↦ elim (Result-cases grant) [
      | inl (u, g) ↦ inr (
        note_entry i n (original_of i n e) j,
        ground (arith, t.journal, unseen, g),
        note_entry-Tracks i n h unseen,
        ground
            (arith, logged_scope-append j.undo_log i i n n (original_of i n e), same_key_refl i n),
      )
      | inr (stop, g) ↦ inl (stop, ground (arith, t.journal, unseen, g))
    ]
  ]

  pub cell-cases :
      (grant : Grant) (c : ℕ)
      → ((stop : ControlStop) × (journal_cell grant c e ≡ (err stop, e)))
        ⊎ ((j' : SubmissionJournal V) × (journal_cell grant c e
              ≡ (ok tt, record e { journal = some j' }))
            × Tracks d m e0 (record e { journal = some j' }) j'
            × (is_some (logged_cell j'.undo_log c) ≡ true))
  unfolding journal_cell
  cell-cases grant c = elim (Bool-cases (holds_cell c j.seen_cells)) [
    | inl seen ↦
        let same : record e { journal = some j } ≡ e = ground (arith, t.journal) in
        inr (
          j,
          ground (arith, t.journal, seen),
          subst (λ x. Tracks d m e0 x j) (sym same) t,
          ground (arith, t.cells_seen c, seen),
        )
    | inr unseen ↦ elim (Result-cases grant) [
      | inl (u, g) ↦ inr (
        note_cell c (e.cells c) j,
        ground (arith, t.journal, unseen, g),
        note_cell-Tracks c unseen,
        ground (arith, logged_cell-append j.undo_log c c (e.cells c)),
      )
      | inr (stop, g) ↦ inl (stop, ground (arith, t.journal, unseen, g))
    ]
  ]
