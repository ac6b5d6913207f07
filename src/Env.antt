-- ===== src/Env.antt =====
-- src/env.rs: the scopes of a script, its call frames, and the undo journal of a submission.
--
-- The vector of scopes is a depth and the maps below it. A cell is a number, `cells` what the cells
-- hold; an undo entry keeps its cell alive, so a number is never used again while it is journaled.
-- What the heap ledger answers to a charge is an argument of the operation that asks.
pub mod Operations
pub mod Undo
pub mod Frames
use tsumugi.Base.{
  ℕ, zero, suc, ◌+◌, ◌-◌, Bool, true, false, ◌&&◌, ◌||◌, Option, none, some, List, [], ◌∷◌, ◌++◌,
  Result, ok, err, ltb, ◌==◌, if◌then◌else◌, same_text,
}
use tsumugi.Audit.Payload.{Text}
use tsumugi.Budget.Types.{ControlStop}

pub data UpdateError : Type 0 where
  undefined : UpdateError
  budget : ControlStop → UpdateError

pub record CallFrame : Type 0 where
  pub previous_base : ℕ
  pub scope_len : ℕ

pub data UndoEntry (V : Type 0) : Type 0 where
  scope_entry : (scope : ℕ) (name : Text) (original : Option ℕ) → UndoEntry V
  cell_value : (cell : ℕ) (original : V) → UndoEntry V

-- A key of `seen_scope_entries`.
pub record ScopeKey : Type 0 where
  pub scope : ℕ
  pub name : Text

pub record SubmissionJournal (V : Type 0) : Type 0 where
  pub undo_log : List (UndoEntry V)
  pub seen_cells : List ℕ
  pub seen_scope_entries : List ScopeKey

abbrev pub Scopes : Type 0
Scopes = ℕ → Text → Option ℕ

pub record Env (V : Type 0) : Type 0 where
  pub scopes : Scopes
  pub depth : ℕ
  pub frame_base : ℕ
  pub journal : Option (SubmissionJournal V)
  pub cells : ℕ → V
  pub next_cell : ℕ

-- `Ok` if the ledger takes the charge, or there is no ledger.
abbrev pub Grant : Type 0
Grant = Result (Unit {0}) ControlStop

abbrev pub same_key : ℕ → Text → ℕ → Text → Bool
same_key i m j n = (i == j) && same_text m n

-- `HashMap::insert` and `remove`: the entry of a name in one scope.
unfoldable pub put_binding : ℕ → Text → Option ℕ → Scopes → Scopes
put_binding i name o s j n = if same_key j n i name then o else s j n

unfoldable pub holds_entry : ℕ → Text → List ScopeKey → Bool
holds_entry i name [] = false
holds_entry i name (k ∷ ks) = same_key i name k.scope k.name || holds_entry i name ks

unfoldable pub holds_cell : ℕ → List ℕ → Bool
holds_cell c [] = false
holds_cell c (k ∷ ks) = c == k || holds_cell c ks

-- The binding of a name in the scopes `base` to `base + k - 1`, from the inside.
unfoldable pub search : Scopes → ℕ → ℕ → Text → Option ℕ
search s base zero name = none
search s base (suc k) name = elim (s (base + k) name) [
  | some c ↦ some c
  | none ↦ search s base k name
]

abbrev pub empty_journal : {V : Type 0} → SubmissionJournal V
empty_journal = record { undo_log = []; seen_cells = []; seen_scope_entries = [] }

module _ {V : Type 0} where
  -- `Env::new()`; the argument is what the cells hold that are not made yet.
  unfoldable pub new_env : (ℕ → V) → Env V
  new_env cells = record {
    scopes = λ i n. none;
    depth = 1;
    frame_base = 0;
    journal = none;
    cells = cells;
    next_cell = 0;
  }

  unfoldable pub begin_submission : Env V → Env V
  begin_submission e = record e { journal = some empty_journal }

  unfoldable pub commit_submission : Env V → Env V
  commit_submission e = record e { journal = none }

  unfoldable pub write_cell : ℕ → V → Env V → Env V
  write_cell c v e = record e { cells = λ k. if k == c then v else e.cells k }

  unfoldable pub apply_entry : UndoEntry V → Env V → Env V
  unfolding put_binding write_cell
  apply_entry (scope_entry i name original) e =
      if ltb i e.depth then record e { scopes = put_binding i name original e.scopes } else e
  apply_entry (cell_value c original) e = write_cell c original e

  -- `for entry in undo_log.into_iter().rev()`
  unfoldable pub apply_rev : List (UndoEntry V) → Env V → Env V
  apply_rev [] e = e
  apply_rev (x ∷ xs) e = apply_entry x (apply_rev xs e)

  unfoldable pub rollback_submission : Env V → Env V
  rollback_submission e = elim e.journal [
    | none ↦ e
    | some j ↦ apply_rev j.undo_log (record e { journal = none })
  ]

  -- `scopes.get(scope).and_then(|map| map.get(name))`
  unfoldable pub original_of : ℕ → Text → Env V → Option ℕ
  original_of i name e = if ltb i e.depth then e.scopes i name else none

  abbrev pub note_entry : ℕ → Text → Option ℕ → SubmissionJournal V → SubmissionJournal V
  note_entry i name original j = record j {
    undo_log = j.undo_log ++ scope_entry i name original ∷ [];
    seen_scope_entries = record { scope = i; name = name } ∷ j.seen_scope_entries;
  }

  abbrev pub note_cell : ℕ → V → SubmissionJournal V → SubmissionJournal V
  note_cell c original j = record j {
    undo_log = j.undo_log ++ cell_value c original ∷ [];
    seen_cells = c ∷ j.seen_cells;
  }

  -- The charge comes before the entry, so a refused one leaves the journal as it was.
  unfoldable pub journal_scope_entry :
      Grant → ℕ → Text → Env V → Result (Unit {0}) ControlStop × Env V
  journal_scope_entry grant i name e = elim e.journal [
    | none ↦ (ok tt, e)
    | some j ↦ if holds_entry i name j.seen_scope_entries then (ok tt, e) else elim grant [
      | err stop ↦ (err stop, e)
      | ok t ↦ (ok tt, record e { journal = some (note_entry i name (original_of i name e) j) })
    ]
  ]

  unfoldable pub journal_cell : Grant → ℕ → Env V → Result (Unit {0}) ControlStop × Env V
  journal_cell grant c e = elim e.journal [
    | none ↦ (ok tt, e)
    | some j ↦ if holds_cell c j.seen_cells then (ok tt, e) else elim grant [
      | err stop ↦ (err stop, e)
      | ok t ↦ (ok tt, record e { journal = some (note_cell c (e.cells c) j) })
    ]
  ]

  unfoldable pub push_scope : Env V → Env V
  push_scope e = record e {
    scopes = λ j n. if j == e.depth then none else e.scopes j n;
    depth = e.depth + 1;
  }

  unfoldable pub pop_scope : Env V → Env V
  pop_scope e = record e { depth = e.depth - 1 }

  unfoldable pub truncate_scopes : ℕ → Env V → Env V
  truncate_scopes len e = if ltb len e.depth then record e { depth = len } else e

  -- `set_shared`, and the second half of `set`.
  unfoldable pub set_shared : Grant → Text → ℕ → Env V → Result (Unit {0}) ControlStop × Env V
  set_shared entry name cell e =
      let (r, e') = journal_scope_entry entry (e.depth - 1) name e in
      if e.depth == 0 then (ok tt, e) else elim r [
        | err stop ↦ (err stop, e')
        | ok t ↦
            (ok tt, record e' { scopes = put_binding (e'.depth - 1) name (some cell) e'.scopes })
      ]

  -- A new cell with its first value.
  unfoldable pub new_cell : V → Env V → Env V
  new_cell v e = record e {
    cells = λ k. if k == e.next_cell then v else e.cells k;
    next_cell = e.next_cell + 1;
  }

  unfoldable pub set : Grant → Grant → Text → V → Env V → Result (Unit {0}) ControlStop × Env V
  set cell entry name v e =
      let bound = set_shared entry name e.next_cell (new_cell v e) in
      if e.depth == 0 then (ok tt, e) else elim cell [ err stop ↦ (err stop, e) | ok t ↦ bound ]

  unfoldable pub get_cell : Text → Env V → Option ℕ
  get_cell name e = elim (search e.scopes e.frame_base (e.depth - e.frame_base) name) [
    | some c ↦ some c
    | none ↦ if ltb 0 e.frame_base then e.scopes 0 name else none
  ]

  unfoldable pub get : Text → Env V → Option V
  get name e = elim (get_cell name e) [ none ↦ none | some c ↦ some (e.cells c) ]

  -- The write of a cell from outside, after its `journal_cell`.
  unfoldable pub mutate : Grant → ℕ → V → Env V → Result (Unit {0}) ControlStop × Env V
  mutate grant c v e =
      let (r, e') = journal_cell grant c e in
      elim r [ err stop ↦ (err stop, e') | ok t ↦ (ok tt, write_cell c v e') ]

  unfoldable pub update : Grant → Text → V → Env V → Result (Unit {0}) UpdateError × Env V
  update grant name v e = elim (get_cell name e) [
    | none ↦ (err undefined, e)
    | some c ↦
        let (r, e') = mutate grant c v e in
        elim r [ err stop ↦ (err (budget stop), e') | ok t ↦ (ok tt, e') ]
  ]

  unfoldable pub push_call_frame : Env V → CallFrame × Env V
  push_call_frame e = (
    record { previous_base = e.frame_base; scope_len = e.depth },
    record (push_scope e) { frame_base = e.depth },
  )

  unfoldable pub pop_call_frame : CallFrame → Env V → Env V
  pop_call_frame frame e = record (truncate_scopes frame.scope_len e) {
    frame_base = frame.previous_base;
  }

  -- `capture_referenced`: the visible cells of the names, in the order of the names.
  unfoldable pub capture_referenced : List Text → Env V → List (Text × ℕ)
  capture_referenced [] e = []
  capture_referenced (name ∷ names) e =
      let rest = capture_referenced names e in
      elim (get_cell name e) [ none ↦ rest | some c ↦ (name, c) ∷ rest ]
