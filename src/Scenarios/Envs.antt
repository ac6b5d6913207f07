-- ===== src/Scenarios/Envs.antt =====
-- An environment of src/env.rs with one variable, a submission that changes it, and a call.
use tsumugi.Base.{ℕ, ◌+◌, ◌≤◌, ◌<◌, ◌≡◌, refl, some, List, [], ◌∷◌, ok, arith, codes, same_text}
use tsumugi.Audit.Payload.{Text}
use tsumugi.Env.{
  set_shared, journal_scope_entry, put_binding, new_cell, update, mutate, journal_cell, holds_entry,
  holds_cell, original_of, search, write_cell, push_scope, pop_scope, apply_rev, apply_entry, Env,
  Grant, new_env, set, begin_submission, rollback_submission, push_call_frame, pop_call_frame,
  get_cell, get,
}
use tsumugi.Env.Operations.{
  Operation, sets, updates, pushes, pops, perform, perform_all, StaysAbove,
}
use tsumugi.Env.Undo.Submission.{rollback_restores}
use tsumugi.Env.Frames.{call_isolates}

abbrev granted : Grant
granted = ok tt

abbrev start : Env ℕ
start = (set granted granted (codes "x") 5 (new_env (λ c. 0))).1

abbrev script : List (Operation ℕ)
script =
    updates granted (codes "x") 6
    ∷ pushes
    ∷ sets granted granted (codes "y") 7
    ∷ updates granted (codes "x") 8
    ∷ pops
    ∷ sets granted granted (codes "x") 9
    ∷ []

script-StaysAbove : StaysAbove start.depth script (begin_submission start)
unfolding same_text perform perform_all set set_shared journal_scope_entry new_env begin_submission
    put_binding new_cell update mutate journal_cell holds_entry holds_cell original_of get_cell
    search write_cell push_scope pop_scope push_call_frame
script-StaysAbove =
    (omega arith, (omega arith, (omega arith, (omega arith, (omega arith, (omega arith, tt))))))

rollback_restores_example :
    ((i : ℕ) (n : Text)
      → i < start.depth
      → (rollback_submission (perform_all script (begin_submission start))).scopes i n
        ≡ start.scopes i n)
    × ((c : ℕ)
        → c < start.next_cell
        → (rollback_submission (perform_all script (begin_submission start))).cells c
          ≡ start.cells c)
    × (start.depth ≤ (rollback_submission (perform_all script (begin_submission start))).depth)
rollback_restores_example = rollback_restores start script script-StaysAbove

script-get : get (codes "x") (perform_all script (begin_submission start)) ≡ some 9
unfolding same_text perform perform_all set set_shared journal_scope_entry new_env begin_submission
    put_binding new_cell update mutate journal_cell holds_entry holds_cell original_of get get_cell
    search write_cell push_scope pop_scope push_call_frame
script-get = refl

rollback-get :
    get (codes "x") (rollback_submission (perform_all script (begin_submission start))) ≡ some 5
unfolding same_text perform perform_all set set_shared journal_scope_entry new_env begin_submission
    put_binding new_cell update mutate journal_cell holds_entry holds_cell original_of get get_cell
    rollback_submission apply_rev apply_entry search write_cell push_scope pop_scope push_call_frame
rollback-get = refl

abbrev body : List (Operation ℕ)
body = sets granted granted (codes "x") 1 ∷ updates granted (codes "x") 2 ∷ []

body-StaysAbove : StaysAbove (start.depth + 1) body (push_call_frame start).1
unfolding same_text perform perform_all set set_shared journal_scope_entry new_env begin_submission
    put_binding new_cell update mutate journal_cell holds_entry holds_cell original_of get_cell
    search write_cell push_scope pop_scope push_call_frame
body-StaysAbove = (omega arith, (omega arith, tt))

start-frame_base : start.frame_base < start.depth
unfolding same_text perform perform_all set set_shared journal_scope_entry new_env begin_submission
    put_binding new_cell update mutate journal_cell holds_entry holds_cell original_of get_cell
    search write_cell push_scope pop_scope push_call_frame
start-frame_base = omega arith

call_isolates_example :
    (get_cell
        (codes "x")
        (pop_call_frame (push_call_frame start).0 (perform_all body (push_call_frame start).1))
      ≡ get_cell (codes "x") start)
    × ((pop_call_frame (push_call_frame start).0 (perform_all body (push_call_frame start).1)).depth
        ≡ start.depth)
    × ((pop_call_frame
          (push_call_frame start).0
          (perform_all body (push_call_frame start).1)).frame_base
        ≡ start.frame_base)
call_isolates_example = call_isolates start body (codes "x") start-frame_base body-StaysAbove
