-- ===== src/Env/Frames.antt =====
-- src/env.rs: what a call leaves of its caller's scopes.
use tsumugi.Base.{
  ℕ, zero, suc, ap, ◌+◌, ◌-◌, ◌≤◌, ◌<◌, ◌≡◌, refl, ◌∙◌, List, [], ◌∷◌, arith, Option-cases,
  Result-cases, inl, inr,
}
use tsumugi.Audit.Payload.{Text}
use tsumugi.Env.{
  Env, Grant, Scopes, search, put_binding, write_cell, new_cell, journal_scope_entry, journal_cell,
  set, set_shared, update, mutate, push_scope, pop_scope, truncate_scopes, push_call_frame,
  pop_call_frame, get_cell,
}
use tsumugi.Env.Operations.{
  Operation, sets, shares, updates, mutates, pushes, pops, enters, truncates, leaves, perform,
  perform_all, StaysAbove,
}

search_cong :
    (s t : Scopes) (base k : ℕ) (n : Text)
    → ((i : ℕ) → i < base + k → s i n ≡ t i n)
    → search s base k n ≡ search t base k n
unfolding search
search_cong s t base zero n h = refl
search_cong s t base (suc k) n h =
    let rest = search_cong s t base k n (λ i b. h i (omega arith)) in
    ground (arith, h (base + k) (omega arith), rest)

module _ {V : Type 0} where
  set_shared-scopes :
      (entry : Grant) (n : Text) (c : ℕ) (e : Env V) (i : ℕ) (m : Text)
      → i + 1 < e.depth
      → (set_shared entry n c e).1.scopes i m ≡ e.scopes i m
  unfolding set_shared journal_scope_entry put_binding
  set_shared-scopes entry n c e i m h = ground arith

  set-scopes :
      (cell entry : Grant) (n : Text) (v : V) (e : Env V) (i : ℕ) (m : Text)
      → i + 1 < e.depth
      → (set cell entry n v e).1.scopes i m ≡ e.scopes i m
  unfolding set new_cell
  set-scopes cell entry n v e i m h =
      ground (arith, set_shared-scopes entry n e.next_cell (new_cell v e) i m h)

  mutate-scopes :
      (entry : Grant) (c : ℕ) (v : V) (e : Env V) → (mutate entry c v e).1.scopes ≡ e.scopes
  unfolding mutate journal_cell write_cell
  mutate-scopes entry c v e = ground arith

  update-scopes :
      (entry : Grant) (n : Text) (v : V) (e : Env V) → (update entry n v e).1.scopes ≡ e.scopes
  unfolding update
  update-scopes entry n v e = elim (Option-cases (get_cell n e)) [
    | inl q ↦ ground (arith, q)
    | inr (c, q) ↦ ground (arith, q, mutate-scopes entry c v e, Result-cases (mutate entry c v e).0)
  ]

  perform-scopes :
      (o : Operation V) (e : Env V) (i : ℕ) (m : Text)
      → i + 1 < e.depth
      → (perform o e).scopes i m ≡ e.scopes i m
  unfolding perform pop_scope truncate_scopes push_call_frame push_scope pop_call_frame
  perform-scopes (sets cell entry n v) e i m h = set-scopes cell entry n v e i m h
  perform-scopes (shares entry n c) e i m h = set_shared-scopes entry n c e i m h
  perform-scopes (updates entry n v) e i m h = ap (λ s. s i m) (update-scopes entry n v e)
  perform-scopes (mutates entry c v) e i m h = ap (λ s. s i m) (mutate-scopes entry c v e)
  perform-scopes pushes e i m h = ground arith
  perform-scopes pops e i m h = refl
  perform-scopes enters e i m h = ground arith
  perform-scopes (truncates len) e i m h = ground arith
  perform-scopes (leaves frame) e i m h = ground arith

  -- While the scopes of a call stay, those below them stay as they are.
  perform_all-scopes :
      (d : ℕ) (os : List (Operation V)) (e : Env V) (i : ℕ) (m : Text)
      → StaysAbove (d + 1) os e
      → d < e.depth
      → i < d
      → (perform_all os e).scopes i m ≡ e.scopes i m
  unfolding perform_all
  perform_all-scopes d [] e i m s h b = refl
  perform_all-scopes d (o ∷ os) e i m s h b =
      perform_all-scopes d os (perform o e) i m s.1 (omega (arith, s.0)) b
      ∙ perform-scopes o e i m (omega arith)

  perform_all-depth :
      (d : ℕ) (os : List (Operation V)) (e : Env V)
      → StaysAbove d os e
      → d ≤ e.depth
      → d ≤ (perform_all os e).depth
  unfolding perform_all
  perform_all-depth d [] e s h = h
  perform_all-depth d (o ∷ os) e s h = perform_all-depth d os (perform o e) s.1 s.0

  get_cell_cong :
      (e f : Env V) (n : Text)
      → e.depth ≡ f.depth
      → e.frame_base ≡ f.frame_base
      → e.frame_base < e.depth
      → ((i : ℕ) → i < e.depth → e.scopes i n ≡ f.scopes i n)
      → get_cell n e ≡ get_cell n f
  unfolding get_cell
  get_cell_cong e f n a b below s =
      let found =
        search_cong e.scopes f.scopes e.frame_base (e.depth - e.frame_base) n
          (λ i h. s i (omega arith)) in
      ground (arith, a, b, s 0 (omega arith), found)

  -- A call from a frame with at least one scope runs any operations that keep the scope of the
  -- call, and returns: then every name means the cell that it meant before the call, and the
  -- scopes' number and the base of the frame are as before.
  pub call_isolates :
      (e : Env V) (os : List (Operation V)) (n : Text)
      → e.frame_base < e.depth
      → StaysAbove (e.depth + 1) os (push_call_frame e).1
      → (get_cell n (pop_call_frame (push_call_frame e).0 (perform_all os (push_call_frame e).1))
          ≡ get_cell n e)
        × ((pop_call_frame (push_call_frame e).0 (perform_all os (push_call_frame e).1)).depth
            ≡ e.depth)
        × ((pop_call_frame (push_call_frame e).0 (perform_all os (push_call_frame e).1)).frame_base
            ≡ e.frame_base)
  unfolding push_call_frame push_scope pop_call_frame truncate_scopes
  call_isolates e os n h s =
      let e1 = (push_call_frame e).1 in
      let e2 = perform_all os e1 in
      let f = pop_call_frame (push_call_frame e).0 e2 in
      let deep : e.depth + 1 ≤ e2.depth = perform_all-depth (e.depth + 1) os e1 s (omega arith) in
      let depth : f.depth ≡ e.depth = ground (arith, deep) in
      let same : (i : ℕ) → i < f.depth → f.scopes i n ≡ e.scopes i n = λ i b.
        ground (arith, deep)
        ∙ perform_all-scopes e.depth os e1 i n s (omega arith) (omega (arith, b, depth))
        ∙ ground (arith, b, depth) in
      (get_cell_cong f e n depth refl (omega (arith, depth, h)) same, depth, refl)
