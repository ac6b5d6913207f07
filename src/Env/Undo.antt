-- ===== src/Env/Undo.antt =====
-- src/env.rs: what the undo journal remembers, and what a rollback makes of it.
pub mod Rollback
pub mod Submission
use tsumugi.Base.{
  ℕ, ◌≤◌, ◌<◌, ◌≡◌, refl, ap, ◌∙◌, Bool, true, false, Option, none, some, List, [], ◌∷◌, ◌++◌,
  arith, ◌==◌, ltb, if◌then◌else◌, same_text, same_text-eq, same_text_refl, Bool-cases, inl, inr,
  ◌&&◌, ◌||◌,
}
use tsumugi.Audit.Payload.{Text}
use tsumugi.Env.{
  Env, UndoEntry, Scopes, ScopeKey, scope_entry, cell_value, same_key, put_binding, write_cell,
  apply_entry, apply_rev,
}

-- The first entry of the log for a binding, and for a cell.
unfoldable pub logged_scope : {V : Type 0} → List (UndoEntry V) → ℕ → Text → Option (Option ℕ)
logged_scope [] i n = none
logged_scope (scope_entry j m o ∷ xs) i n =
    let rest = logged_scope xs i n in if same_key i n j m then some o else rest
logged_scope (cell_value c v ∷ xs) i n = logged_scope xs i n

unfoldable pub logged_cell : {V : Type 0} → List (UndoEntry V) → ℕ → Option V
logged_cell [] c = none
logged_cell (scope_entry j m o ∷ xs) c = logged_cell xs c
logged_cell (cell_value k v ∷ xs) c = let rest = logged_cell xs c in if c == k then some v else rest

abbrev pub or_else : {A : Type 0} → Option A → A → A
or_else none d = d
or_else (some a) d = a

module _ {V : Type 0} where
  pub apply_rev-depth : (xs : List (UndoEntry V)) (e : Env V) → (apply_rev xs e).depth ≡ e.depth
  unfolding apply_rev apply_entry
  apply_rev-depth [] e = refl
  apply_rev-depth (scope_entry i n o ∷ xs) e = ground (arith, apply_rev-depth xs e)
  apply_rev-depth (cell_value c v ∷ xs) e = ground (arith, apply_rev-depth xs e)

  -- Applied backwards, the first entry for a place has the last word.
  pub apply_rev-scopes :
      (xs : List (UndoEntry V)) (e : Env V) (i : ℕ) (n : Text)
      → i < e.depth
      → (apply_rev xs e).scopes i n ≡ or_else (logged_scope xs i n) (e.scopes i n)
  unfolding apply_rev apply_entry logged_scope put_binding
  apply_rev-scopes [] e i n h = refl
  apply_rev-scopes (scope_entry j m o ∷ xs) e i n h =
      ground (arith, apply_rev-scopes xs e i n h, apply_rev-depth xs e)
  apply_rev-scopes (cell_value c v ∷ xs) e i n h = apply_rev-scopes xs e i n h

  pub apply_rev-cells :
      (xs : List (UndoEntry V)) (e : Env V) (c : ℕ)
      → (apply_rev xs e).cells c ≡ or_else (logged_cell xs c) (e.cells c)
  unfolding apply_rev apply_entry logged_cell write_cell
  apply_rev-cells [] e c = refl
  apply_rev-cells (scope_entry j m o ∷ xs) e c = ground (arith, apply_rev-cells xs e c)
  apply_rev-cells (cell_value k v ∷ xs) e c = ground (arith, apply_rev-cells xs e c)

  -- A new entry speaks only where no earlier one does.
  pub logged_scope-append :
      (xs : List (UndoEntry V)) (i j : ℕ) (n m : Text) (o : Option ℕ)
      → logged_scope (xs ++ scope_entry j m o ∷ []) i n ≡ (elim (logged_scope xs i n) [
        | some p ↦ some p
        | none ↦ if same_key i n j m then some o else none
      ])
  unfolding logged_scope
  logged_scope-append [] i j n m o = refl
  logged_scope-append (scope_entry k l p ∷ xs) i j n m o =
      ground (arith, logged_scope-append xs i j n m o)
  logged_scope-append (cell_value c v ∷ xs) i j n m o = logged_scope-append xs i j n m o

  pub logged_scope-append_cell :
      (xs : List (UndoEntry V)) (i c : ℕ) (n : Text) (v : V)
      → logged_scope (xs ++ cell_value c v ∷ []) i n ≡ logged_scope xs i n
  unfolding logged_scope
  logged_scope-append_cell [] i c n v = refl
  logged_scope-append_cell (scope_entry k l p ∷ xs) i c n v =
      ground (arith, logged_scope-append_cell xs i c n v)
  logged_scope-append_cell (cell_value d w ∷ xs) i c n v = logged_scope-append_cell xs i c n v

  pub logged_cell-append :
      (xs : List (UndoEntry V)) (c k : ℕ) (v : V)
      → logged_cell (xs ++ cell_value k v ∷ []) c
        ≡ (elim (logged_cell xs c) [ some w ↦ some w | none ↦ if c == k then some v else none ])
  unfolding logged_cell
  logged_cell-append [] c k v = refl
  logged_cell-append (scope_entry j m o ∷ xs) c k v = logged_cell-append xs c k v
  logged_cell-append (cell_value d w ∷ xs) c k v = ground (arith, logged_cell-append xs c k v)

  pub logged_cell-append_scope :
      (xs : List (UndoEntry V)) (c j : ℕ) (m : Text) (o : Option ℕ)
      → logged_cell (xs ++ scope_entry j m o ∷ []) c ≡ logged_cell xs c
  unfolding logged_cell
  logged_cell-append_scope [] c j m o = refl
  logged_cell-append_scope (scope_entry k l p ∷ xs) c j m o = logged_cell-append_scope xs c j m o
  logged_cell-append_scope (cell_value d w ∷ xs) c j m o =
      ground (arith, logged_cell-append_scope xs c j m o)

pub same_key-eq : (i j : ℕ) (n m : Text) → same_key i n j m ≡ true → (i ≡ j) × (n ≡ m)
same_key-eq i j n m h = ground (arith, same_text-eq n m)

pub same_key_refl : (i : ℕ) (n : Text) → same_key i n i n ≡ true
same_key_refl i n = ground (arith, same_text_refl n)
